-- ===== src/Api/Chain/Laws.antt =====
-- What a request has passed when a handler of a route answers it.
use tsdb_gw.Api.{
  reply, pass, Outcome, AuthPlugin, Handler, Request, auth_handler, authenticate_datadog,
  authenticate_request, check_rate, check_role, dd_auth_handler, dd_creds, finish_auth,
  get_auth_creds, given_handler, require_publisher,
}
use tsdb_gw.Api.Chain.{
  Handled, Session, after_given, after_guard, answered, ingest_rate_limiter, run_handlers,
  session_user, after_auth, get_context,
}
use tsdb_gw.Auth.{AuthResult, User, Users, err, is_publisher, ok}
use tsdb_gw.Base.{
  All, Bool, Bool-cases, List, Option, [], arith, false, inl, inr, none, refl, some, true, ℕ, ◌∷◌,
  ◌≡◌, ◌⊎◌, ap, ◌∙◌,
}
use tsdb_gw.Base.Eq.{bytes_eq, int_eq, nat_eq}
use tsdb_gw.Base.Int.{ℤ}
use tsdb_gw.Base.Text.{Bytes, is_empty, split_two}

abbrev pub is_auth : {E : Type 0} → Handler E → Bool
is_auth authenticate_request = true
is_auth authenticate_datadog = true
is_auth _ = false

abbrev pub has_role_check : {E : Type 0} → List (Handler E) → Bool
has_role_check [] = false
has_role_check (check_role ∷ hs) = true
has_role_check (authenticate_request ∷ hs) = has_role_check hs
has_role_check (authenticate_datadog ∷ hs) = has_role_check hs
has_role_check (check_rate ∷ hs) = has_role_check hs
has_role_check (given_handler e ∷ hs) = false

-- Handlers that do not authenticate.
abbrev pub AreLater : {E : Type 0} → List (Handler E) → Type 0
AreLater hs = All (λ h. is_auth h ≡ false) hs

-- One of the two ways to read credentials gave the plugin a key that it accepts as the user `p`.
pub record IsAccepted (plugin : AuthPlugin) (h : Users) (req : Request) (p : ℕ) : Type 0 where
  pub username : Bytes
  pub password : Bytes
  pub source :
      ((username, password) ≡ get_auth_creds req)
      ⊎ ((username, password) ≡ dd_creds (split_two req.dd_api_key b':'))
  pub given_key : is_empty password ≡ false
  pub accepted : (plugin h username password).0 ≡ ok p

finish_passes :
    (header : Bytes) (r : AuthResult ℕ × Users) (p : ℕ) (h : Users)
    → finish_auth header r ≡ (pass p, h)
    → r.0 ≡ ok p
finish_passes header (ok q, h') p h e = ground arith
finish_passes header (err x, h') p h e = ground arith

module _ (plugin : AuthPlugin) (h : Users) (req : Request) where
  auth_handler-IsAccepted :
      (p : ℕ) (h' : Users) → auth_handler plugin h req ≡ (pass p, h') → IsAccepted plugin h req p
  unfolding auth_handler
  auth_handler-IsAccepted p h' e = elim (Bool-cases (is_empty (get_auth_creds req).1)) [
    | inl none_given ↦ ground (arith, rw none_given at e)
    | inr key_given ↦ record {
      username = (get_auth_creds req).0;
      password = (get_auth_creds req).1;
      source = inl refl;
      given_key = key_given;
      accepted = finish_passes req.tsdb_org _ p h' (rw key_given at e);
    }
  ]

  dd_auth_handler-IsAccepted :
      (p : ℕ) (h' : Users) → dd_auth_handler plugin h req ≡ (pass p, h') → IsAccepted plugin h req p
  unfolding dd_auth_handler
  dd_auth_handler-IsAccepted p h' e =
      let creds = dd_creds (split_two req.dd_api_key b':') in
      elim (Bool-cases (is_empty creds.1)) [
        | inl none_given ↦ ground (arith, rw none_given at e)
        | inr key_given ↦ record {
          username = creds.0;
          password = creds.1;
          source = inr refl;
          given_key = key_given;
          accepted = finish_passes req.tsdb_org _ p h' (rw key_given at e);
        }
      ]

module _ {E A : Type 0} (plugin : AuthPlugin) (available : ℤ → Bool)
    (serve_given : User → E → Option A) (req : Request) where
  abbrev pub run : Session → List (Handler E) → Handled A × Session
  run = run_handlers plugin available serve_given req

  -- The handlers behind the authentication leave the session as it is.
  pub record IsServed (hs : List (Handler E)) (s s' : Session) (a : A) : Type 0 where
    pub same : s' ≡ s
    pub role : (has_role_check hs ≡ false) ⊎ (is_publisher (session_user s).role ≡ true)
    pub endpoint : E
    pub answer : serve_given (session_user s) endpoint ≡ some a

  require_publisher-none : (u : User) → require_publisher u ≡ none → is_publisher u.role ≡ true
  unfolding require_publisher
  require_publisher-none u e = ground arith

  guard_passes :
      (s s' : Session) (o : Option ℕ) (go : Session → Handled A × Session) (a : A)
      → after_guard s o go ≡ (answered a, s')
      → (o ≡ none) × (go s ≡ (answered a, s'))
  guard_passes s s' none go a e = (refl, e)
  guard_passes s s' (some status) go a e = ground arith

  given_answers :
      (s s' : Session) (o : Option A) (go : Session → Handled A × Session) (a : A)
      → after_given s o go ≡ (answered a, s')
      → (s' ≡ s) × (o ≡ some a) ⊎ (go s ≡ (answered a, s'))
  given_answers s s' none go a e = inr e
  given_answers s s' (some b) go a e = ground arith

  later-IsServed :
      (hs : List (Handler E)) (s s' : Session) (a : A)
      → AreLater hs
      → run s hs ≡ (answered a, s')
      → IsServed hs s s' a
  unfolding run_handlers
  later-IsServed [] s s' a q e = ground arith
  later-IsServed (authenticate_request ∷ hs) s s' a q e = cc q.0
  later-IsServed (authenticate_datadog ∷ hs) s s' a q e = cc q.0
  later-IsServed (check_role ∷ hs) s s' a q e =
      let (g, f) = guard_passes s s' (require_publisher (session_user s)) _ a e in
      let i = later-IsServed hs s s' a q.1 f in
      record {
        same = i.same;
        role = inr (require_publisher-none (session_user s) g);
        endpoint = i.endpoint;
        answer = i.answer;
      }
  later-IsServed (check_rate ∷ hs) s s' a q e =
      let (_, f) = guard_passes s s' (ingest_rate_limiter available (session_user s)) _ a e in
      let i = later-IsServed hs s s' a q.1 f in
      record { same = i.same; role = i.role; endpoint = i.endpoint; answer = i.answer }
  later-IsServed (given_handler x ∷ hs) s s' a q e =
      elim (given_answers s s' (serve_given (session_user s) x) _ a e) [
        | inl (k, f) ↦ record { same = k; role = inl refl; endpoint = x; answer = f }
        | inr f ↦
            let i = later-IsServed hs s s' a q.1 f in
            record { same = i.same; role = inl refl; endpoint = i.endpoint; answer = i.answer }
      ]

  -- A handler of the route gave the answer, to a user whom the plugin accepted, who has the role of
  -- a publisher if roles are enforced.
  pub record IsAuthorized (enforce_roles : Bool) (h : Users) (s' : Session) (a : A) : Type 0 where
    pub user : ℕ
    pub context : s'.user ≡ some user
    pub login : IsAccepted plugin h req user
    pub role : (enforce_roles ≡ false) ⊎ (is_publisher (session_user s').role ≡ true)
    pub endpoint : E
    pub answer : serve_given (session_user s') endpoint ≡ some a

  auth_passes :
      (s s' : Session) (r : Outcome × Users) (go : Session → Handled A × Session) (a : A)
      → after_auth s r go ≡ (answered a, s')
      → (p : ℕ) × (h : Users) × (r ≡ (pass p, h))
        × (go (record { users = h; user = some p }) ≡ (answered a, s'))
  auth_passes s s' (reply status, h) go a e = ground arith
  auth_passes s s' (pass p, h) go a e = (p, h, refl, e)

  authorized :
      (enforce_roles : Bool) (h h' : Users) (p : ℕ) (hs : List (Handler E)) (s' : Session) (a : A)
      → has_role_check hs ≡ enforce_roles
      → IsAccepted plugin h req p
      → IsServed hs (record { users = h'; user = some p }) s' a
      → IsAuthorized enforce_roles h s' a
  authorized enforce_roles h h' p hs s' a roles l i = record {
    user = p;
    context = ap (λ (x : Session). x.user) i.same;
    login = l;
    role = ground (arith, i.role, i.same, roles);
    endpoint = i.endpoint;
    answer = ap (λ x. serve_given (session_user x) i.endpoint) i.same ∙ i.answer;
  }

  pub first_request :
      (enforce_roles : Bool) (h : Users) (hs : List (Handler E)) (s' : Session) (a : A)
      → AreLater hs
      → has_role_check hs ≡ enforce_roles
      → run (get_context h) (authenticate_request ∷ hs) ≡ (answered a, s')
      → IsAuthorized enforce_roles h s' a
  unfolding run_handlers
  first_request enforce_roles h hs s' a q roles e =
      let (p, h', f, g) = auth_passes (get_context h) s' (auth_handler plugin h req) _ a e in
      authorized enforce_roles h h' p hs s' a roles (auth_handler-IsAccepted plugin h req p h' f)
        (later-IsServed hs _ s' a q g)

  pub first_datadog :
      (enforce_roles : Bool) (h : Users) (hs : List (Handler E)) (s' : Session) (a : A)
      → AreLater hs
      → has_role_check hs ≡ enforce_roles
      → run (get_context h) (authenticate_datadog ∷ hs) ≡ (answered a, s')
      → IsAuthorized enforce_roles h s' a
  unfolding run_handlers
  first_datadog enforce_roles h hs s' a q roles e =
      let (p, h', f, g) = auth_passes (get_context h) s' (dd_auth_handler plugin h req) _ a e in
      authorized enforce_roles h h' p hs s' a roles (dd_auth_handler-IsAccepted plugin h req p h' f)
        (later-IsServed hs _ s' a q g)
