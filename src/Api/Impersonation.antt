-- ===== src/Api/Impersonation.antt =====
-- What a series of requests does to the users that the file plugin hands out.
use tsdb_gw.Api.{
  AuthPlugin, impersonate, impersonate_as, Request, auth_handler, finish_auth, get_auth_creds, pass,
  dd_auth_handler, dd_creds,
}
use tsdb_gw.Auth.{User, Users, user_at, user_at-set_id, AuthResult, err, ok, set_id}
use tsdb_gw.Auth.File.{FileAuth, file_auth, check_key}
use tsdb_gw.Base.{
  ℕ, false, ◌≡◌, arith, Option, none, some, if◌then◌else◌, not, nat_eqb_iff, Bool-cases, List, [],
  inl, inr, refl, true, ◌∷◌, ◌≢◌, ap, ◌∙◌, ◌⊎◌,
}
use tsdb_gw.Base.Eq.{bytes_eq, int_eq, ◌==◌, nat_eq}
use tsdb_gw.Base.Int.{ℤ, int_eqb_iff, pos}
use tsdb_gw.Base.Map.{get}
use tsdb_gw.Base.Number.{parse_int}
use tsdb_gw.Base.Text.{Bytes, is_empty, split_two}

abbrev pub file_plugin : FileAuth → Bytes → AuthPlugin
file_plugin a admin_key h username key = (file_auth a admin_key h username key, h)

-- Same rights, and the same organisation unless the user is an administrator.
pub record Keeps (u v : User) : Type 0 where
  pub rights : u.is_admin ≡ v.is_admin
  pub role : u.role ≡ v.role
  pub tenant : (u.is_admin ≡ true) ⊎ (u.id ≡ v.id)

impersonate-Keeps :
    (h : Users) (p q : ℕ) (header : Bytes)
    → Keeps (user_at h q) (user_at (impersonate h p header) q)
unfolding impersonate
impersonate-Keeps h p q header = go (parse_int header 63)
  where
    go :
        (o : Option ℤ)
        → Keeps (user_at h q) (
            user_at
              (if (user_at h p).is_admin
                then (if not (is_empty header) then impersonate_as h p o else h)
                else h)
              q)
    go none = ground arith
    go (some id) = ground (arith, user_at-set_id h p q id, nat_eqb_iff p q)

Keeps-trans : (u v w : User) → Keeps u v → Keeps v w → Keeps u w
Keeps-trans u v w h k = ground (arith, h, k)

module _ (a : FileAuth) (admin_key : Bytes) where
  finish-Keeps :
      (header : Bytes) (r : AuthResult ℕ) (h : Users) (q : ℕ)
      → Keeps (user_at h q) (user_at (finish_auth header (r, h)).1 q)
  finish-Keeps header (ok p) h q = impersonate-Keeps h p q header
  finish-Keeps header (err e) h q = record { rights = refl; role = refl; tenant = inr refl }

  auth_handler-Keeps :
      (h : Users) (req : Request) (q : ℕ)
      → Keeps (user_at h q) (user_at (auth_handler (file_plugin a admin_key) h req).1 q)
  unfolding auth_handler
  auth_handler-Keeps h req q = elim (Bool-cases (is_empty (get_auth_creds req).1)) [
    | inl no_key ↦ rw no_key (record { rights = refl; role = refl; tenant = inr refl })
    | inr key ↦ rw key (finish-Keeps req.tsdb_org _ h q)
  ]

  dd_auth_handler-Keeps :
      (h : Users) (req : Request) (q : ℕ)
      → Keeps (user_at h q) (user_at (dd_auth_handler (file_plugin a admin_key) h req).1 q)
  unfolding dd_auth_handler
  dd_auth_handler-Keeps h req q =
      elim (Bool-cases (is_empty (dd_creds (split_two req.dd_api_key b':')).1)) [
        | inl no_key ↦ rw no_key (record { rights = refl; role = refl; tenant = inr refl })
        | inr key ↦ rw key (finish-Keeps req.tsdb_org _ h q)
      ]

  -- A request that Auth meets, or DDAuth.
  pub data Login : Type 0 where
    auth_login datadog_login : Request → Login

  abbrev pub after_login : Users → Login → Users
  after_login h (auth_login req) = (auth_handler (file_plugin a admin_key) h req).1
  after_login h (datadog_login req) = (dd_auth_handler (file_plugin a admin_key) h req).1

  after_login-Keeps :
      (h : Users) (l : Login) (q : ℕ) → Keeps (user_at h q) (user_at (after_login h l) q)
  after_login-Keeps h (auth_login req) q = auth_handler-Keeps h req q
  after_login-Keeps h (datadog_login req) q = dd_auth_handler-Keeps h req q

  -- The store after a series of requests.
  pub serve : Users → List Login → Users
  serve h [] = h
  serve h (l ∷ ls) = serve (after_login h l) ls

  -- Whatever requests Auth and DDAuth meet, in whatever order and with whatever headers, no user
  -- of the file plugin gains or loses rights or a role, and a user who is no administrator stays
  -- with the organisation of the auth file.
  pub serve-Keeps :
      (h : Users) (ls : List Login) (q : ℕ) → Keeps (user_at h q) (user_at (serve h ls) q)
  unfolding serve
  serve-Keeps h [] q = record { rights = refl; role = refl; tenant = inr refl }
  serve-Keeps h (l ∷ ls) q =
      Keeps-trans (user_at h q) (user_at (after_login h l) q)
        (user_at (serve (after_login h l) ls) q) (after_login-Keeps h l q)
        (serve-Keeps (after_login h l) ls q)

  -- Administrators.
  impersonated :
      (h : Users) (p : ℕ) (header : Bytes) (id : ℤ)
      → (user_at h p).is_admin ≡ true
      → is_empty header ≡ false
      → parse_int header 63 ≡ some id
      → id ≢ pos 0
      → impersonate h p header ≡ set_id h p id
  unfolding impersonate
  impersonated h p header id admin written parsed nonzero =
      rw (admin, written, parsed) (ground (arith, int_eqb_iff id (pos 0), nonzero))

  same_answer :
      (h : Users) (p : ℕ) (id : ℤ) (username key : Bytes)
      → (user_at h p).is_admin ≡ true
      → file_auth a admin_key h username key ≡ ok p
      → file_auth a admin_key (set_id h p id) username key ≡ ok p
  unfolding file_auth
  same_answer h p id username key admin e = elim (Bool-cases (key == admin_key)) [
    | inl master ↦ rw master (rw master at e)
    | inr listed ↦ rw listed (go (get a.keys key) (rw listed at e))
  ]
    where
      go :
          (o : Option ℕ)
          → check_key a h username o ≡ ok p
          → check_key a (set_id h p id) username o ≡ ok p
      go none e = cc
      go (some q) e = ground (arith, user_at-set_id h p q id, nat_eqb_iff p q, nat_eqb_iff p p)

  pub passes :
      (h : Users) (req : Request) (p : ℕ)
      → (auth_handler (file_plugin a admin_key) h req).0 ≡ pass p
      → (is_empty (get_auth_creds req).1 ≡ false)
        × (file_auth a admin_key h (get_auth_creds req).0 (get_auth_creds req).1 ≡ ok p)
  unfolding auth_handler
  passes h req p e = ground arith

  handled :
      (h : Users) (req : Request) (p : ℕ)
      → is_empty (get_auth_creds req).1 ≡ false
      → file_auth a admin_key h (get_auth_creds req).0 (get_auth_creds req).1 ≡ ok p
      → auth_handler (file_plugin a admin_key) h req ≡ (pass p, impersonate h p req.tsdb_org)
  unfolding auth_handler
  handled h req p key found = rw (key, found)

  no_header : (h : Users) (p : ℕ) → impersonate h p [] ≡ h
  unfolding impersonate
  no_header h p = ground arith

  -- Once an administrator of the file plugin has acted for another organisation, the next request
  -- with the same credentials and no "X-Tsdb-Org" header still acts for that organisation.
  pub impersonation_persists :
      (h : Users) (req : Request) (p : ℕ) (id : ℤ)
      → (auth_handler (file_plugin a admin_key) h req).0 ≡ pass p
      → (user_at h p).is_admin ≡ true
      → is_empty req.tsdb_org ≡ false
      → parse_int req.tsdb_org 63 ≡ some id
      → id ≢ pos 0
      → let h' = (auth_handler (file_plugin a admin_key) h req).1 in
        let again = auth_handler (file_plugin a admin_key) h' (record req { tsdb_org = [] }) in
        (again.0 ≡ pass p) × ((user_at again.1 p).id ≡ id)
  unfolding get_auth_creds
  impersonation_persists h req p id e admin written parsed nonzero =
      let (key, found) = passes h req p e in
      let quiet : Request = record req { tsdb_org = [] } in
      let moved : (auth_handler (file_plugin a admin_key) h req).1 ≡ set_id h p id =
        ap (λ r. r.1) (handled h req p key found)
        ∙ impersonated h p req.tsdb_org id admin written parsed nonzero in
      let next : auth_handler (file_plugin a admin_key) (set_id h p id) quiet
          ≡ (pass p, set_id h p id) =
        handled (set_id h p id) quiet p key
          (same_answer h p id (get_auth_creds req).0 (get_auth_creds req).1 admin found)
        ∙ ap (λ u. (pass p, u)) (no_header (set_id h p id) p) in
      rw moved (
        ap (λ r. r.0) next,
        ap (λ r. (user_at r.1 p).id) next
            ∙ ground (arith, user_at-set_id h p p id, nat_eqb_iff p p),
      )
