-- ===== src/Gcom/Plugins.antt =====
-- The auth plugins over grafana.com (auth/grafana-com.go and auth/grafana_com_instance.go). Each
-- builds a new user, so the caches of package gcom share nothing with the middleware.
use tsdb_gw.Auth.{
  invalid_credentials as bad_credentials, invalid_org_id as bad_org_id, other as other_error,
  AuthError, AuthResult, ok, err, User,
}
use tsdb_gw.Base.{
  Option, if◌then◌else◌, none, not, some, ℕ, ◌≡◌, ◌≢◌, Bool-cases, arith, inl, inr, refl, subst,
}
use tsdb_gw.Base.Eq.{bytes_eq, int_eq, nat_eq, ◌==◌, bytes_eqb_iff}
use tsdb_gw.Base.Int.{ℤ}
use tsdb_gw.Base.Number.{parse_int}
use tsdb_gw.Base.Text.{Bytes, codes}
use tsdb_gw.Gcom.{GcomError, Verdict, invalid, invalid_api_key, invalid_org_id, valid}
use tsdb_gw.Gcom.Instance.{InstanceCache, check_instance}
use tsdb_gw.Gcom.Token.{auth, SignedInUser, TokenCache}

-- The errors of package gcom that the plugins tell apart.
abbrev pub plugin_error : GcomError → AuthError
plugin_error invalid_api_key = bad_credentials
plugin_error invalid_org_id = bad_org_id
plugin_error e = other_error

abbrev pub user_of : ℤ → SignedInUser → User
user_of id u = record { id = id; is_admin = u.is_admin; role = u.role }

abbrev pub plugin_result : Verdict SignedInUser × TokenCache → AuthResult User × TokenCache
plugin_result (valid u, c) = (ok (user_of u.org_id u), c)
plugin_result (invalid e, c) = (err (plugin_error e), c)

-- Auth of GrafanaComAuth; `verdict` is what ValidateToken returns.
unfoldable pub grafana_com_auth :
    TokenCache
    → (admin_key username password : Bytes) → ℕ
    → Verdict SignedInUser
    → AuthResult User × TokenCache
grafana_com_auth c admin_key username password now verdict =
    if not (username == codes "api_key")
    then (err bad_credentials, c)
    else plugin_result (auth c admin_key password now verdict)

-- The two caches.
pub record Caches : Type 0 where
  pub tokens : TokenCache
  pub instances : InstanceCache

-- The user of an instance, if its check passes; `none` is a panic.
abbrev pub instance_user :
    ℤ
    → SignedInUser
    → TokenCache
    → Option (Verdict (Unit {0})) × InstanceCache
    → Option (AuthResult User × Caches)
instance_user id u tokens (none, instances) = none
instance_user id u tokens (some (valid _), instances) =
    some (ok (user_of id u), record { tokens = tokens; instances = instances })
instance_user id u tokens (some (invalid e), instances) =
    some (err bad_credentials, record { tokens = tokens; instances = instances })

abbrev pub instance_result :
    (instances : InstanceCache) (admin_key username password : Bytes)
    → ℤ
    → ℕ
    → (Bytes → Bytes → Verdict (Unit {0}))
    → Verdict SignedInUser × TokenCache
    → Option (AuthResult User × Caches)
instance_result instances admin_key username password id now validate (invalid e, tokens) =
    some (err (plugin_error e), record { tokens = tokens; instances = instances })
instance_result instances admin_key username password id now validate (valid u, tokens) =
    if not (password == admin_key)
    then instance_user id u tokens (check_instance instances u.key username now validate)
    else some (ok (user_of id u), record { tokens = tokens; instances = instances })

abbrev pub numbered_result :
    Caches
    → (admin_key username password : Bytes) → ℕ
    → Verdict SignedInUser
    → (Bytes → Bytes → Verdict (Unit {0}))
    → Option ℤ
    → Option (AuthResult User × Caches)
numbered_result cs admin_key username password now verdict validate none =
    some (err bad_credentials, cs)
numbered_result cs admin_key username password now verdict validate (some id) =
    instance_result cs.instances admin_key username password id now validate
      (auth cs.tokens admin_key password now verdict)

-- Auth of GrafanaComInstanceAuth.
unfoldable pub grafana_com_instance_auth :
    Caches
    → (admin_key username password : Bytes) → ℕ
    → Verdict SignedInUser
    → (Bytes → Bytes → Verdict (Unit {0}))
    → Option (AuthResult User × Caches)
grafana_com_instance_auth cs admin_key username password now verdict validate =
    numbered_result cs admin_key username password now verdict validate (parse_int username 63)

-- What a request has passed that got in as a user of an instance.
pub record IsChecked (cs : Caches) (admin_key username password : Bytes) (now : ℕ)
    (verdict : Verdict SignedInUser) (validate : Bytes → Bytes → Verdict (Unit {0})) (user : User)
    : Type 0 where
  pub numbered : parse_int username 63 ≡ some user.id
  pub signed_in : SignedInUser
  pub token : (auth cs.tokens admin_key password now verdict).0 ≡ valid signed_in
  pub instance_check :
      (check_instance cs.instances signed_in.key username now validate).0 ≡ some (valid tt)
  pub rights : user.is_admin ≡ signed_in.is_admin

abbrev pub let_in : User → Caches → Option (AuthResult User × Caches)
let_in user cs = some (ok user, cs)

module _ (cs cs' : Caches) (admin_key username password : Bytes) (now : ℕ)
    (verdict : Verdict SignedInUser) (validate : Bytes → Bytes → Verdict (Unit {0}))
    (user : User) where
  abbrev Checked : User → Type 0
  Checked = IsChecked cs admin_key username password now verdict validate

  same_user : (u : User) (d : Caches) → let_in u d ≡ let_in user cs' → u ≡ user
  same_user u d e = ground arith

  passed_check :
      (id : ℤ) (u : SignedInUser) (tokens : TokenCache)
      (q : Option (Verdict (Unit {0})) × InstanceCache)
      → parse_int username 63 ≡ some id
      → (auth cs.tokens admin_key password now verdict).0 ≡ valid u
      → (check_instance cs.instances u.key username now validate).0 ≡ q.0
      → instance_user id u tokens q ≡ let_in user cs'
      → Checked user
  passed_check id u tokens (none, i) p a c e = cc e
  passed_check id u tokens (some (invalid x), i) p a c e = cc e
  passed_check id u tokens (some (valid x), i) p a c e =
      subst Checked (same_user (user_of id u) _ e)
        (record { numbered = p; signed_in = u; token = a; instance_check = c; rights = refl })

  passed_token :
      (id : ℤ) (r : Verdict SignedInUser × TokenCache)
      → password ≢ admin_key
      → parse_int username 63 ≡ some id
      → (auth cs.tokens admin_key password now verdict).0 ≡ r.0
      → instance_result cs.instances admin_key username password id now validate r ≡ let_in user cs'
      → Checked user
  passed_token id (invalid x, tokens) differs p a e = cc e
  passed_token id (valid u, tokens) differs p a e = elim (Bool-cases (password == admin_key)) [
    | inl master ↦ absurd (differs ((bytes_eqb_iff password admin_key).0 master))
    | inr other ↦
        passed_check id u tokens (check_instance cs.instances u.key username now validate) p a refl
          (rw other at e)
  ]

  passed_number :
      (o : Option ℤ)
      → password ≢ admin_key
      → parse_int username 63 ≡ o
      → numbered_result cs admin_key username password now verdict validate o ≡ let_in user cs'
      → Checked user
  passed_number none differs p e = cc e
  passed_number (some id) differs p e =
      passed_token id (auth cs.tokens admin_key password now verdict) differs p refl e

  -- With a key other than the administrator's, a request to the instance plugin gets in only as
  -- the instance that its user name numbers, with a key that package gcom accepts, and only if the
  -- check of exactly that instance with the key of the user passes.
  pub grafana_com_instance_auth-IsChecked :
      password ≢ admin_key
      → grafana_com_instance_auth cs admin_key username password now verdict validate
        ≡ let_in user cs'
      → IsChecked cs admin_key username password now verdict validate user
  unfolding grafana_com_instance_auth
  grafana_com_instance_auth-IsChecked differs e =
      passed_number (parse_int username 63) differs refl e
