-- ===== src/Api/Chain/Generated.antt =====
-- What a request has passed when a generated route answers it, and whom such a route refuses.
use tsdb_gw.Api.{
  pass, AuthPlugin, Handler, Outcome, Request, auth_handler, authenticate_datadog,
  authenticate_request, check_rate, check_role, dd_auth_handler, generate_handlers, given_handler,
  require_publisher,
}
use tsdb_gw.Api.Chain.{Session, answered, get_context, refusal, run_handlers}
use tsdb_gw.Api.Chain.Laws.{
  AreLater, IsAuthorized, first_datadog, first_request, has_role_check, run,
}
use tsdb_gw.Auth.{User, Users, is_publisher, user_at}
use tsdb_gw.Base.{
  Bool, List, Option, [], ap, arith, false, if◌then◌else◌, map, refl, some, sym, true, ℕ, ◌&&◌,
  ◌++◌, ◌∙◌, ◌∷◌, ◌≡◌,
}
use tsdb_gw.Base.Eq.{bytes_eq, int_eq, nat_eq, ◌==◌}
use tsdb_gw.Base.Int.{ℤ}
use tsdb_gw.Base.Text.{Bytes, codes}

module _ {E A : Type 0} (plugin : AuthPlugin) (available : ℤ → Bool)
    (serve_given : User → E → Option A) (req : Request) where
  AreLater-given : (es : List E) → AreLater (map given_handler es)
  AreLater-given [] = tt
  AreLater-given (e ∷ es) = (refl, AreLater-given es)

  no_role_check : (es : List E) → has_role_check (map given_handler es) ≡ false
  no_role_check [] = refl
  no_role_check (e ∷ es) = refl

  -- What generate_handlers puts behind the authentication.
  abbrev pub guards : Bool → Bool → List E → List (Handler E)
  guards enforce_roles limited es =
      (if enforce_roles then check_role ∷ [] else [])
      ++ (if limited then check_rate ∷ [] else [])
      ++ map given_handler es

  AreLater-guards :
      (enforce_roles limited : Bool) (es : List E) → AreLater (guards enforce_roles limited es)
  AreLater-guards true true es = (refl, (refl, AreLater-given es))
  AreLater-guards true false es = (refl, AreLater-given es)
  AreLater-guards false true es = (refl, AreLater-given es)
  AreLater-guards false false es = AreLater-given es

  role-guards :
      (enforce_roles limited : Bool) (es : List E)
      → has_role_check (guards enforce_roles limited es) ≡ enforce_roles
  role-guards true limited es = refl
  role-guards false true es = no_role_check es
  role-guards false false es = no_role_check es

  pub generate_handlers_shape :
      (kind : Bytes) (enforce_roles datadog rate_limit use_rate_limit : Bool) (es : List E)
      → generate_handlers kind enforce_roles datadog rate_limit use_rate_limit
          (map given_handler es)
        ≡ (if kind == codes "write" && datadog then authenticate_datadog else authenticate_request)
          ∷ guards enforce_roles (use_rate_limit && rate_limit) es
  unfolding generate_handlers
  generate_handlers_shape kind enforce_roles datadog rate_limit use_rate_limit es = ground arith

  -- Whatever the request, a handler of a generated route answers it only for a user whom the plugin
  -- accepted with a key that is not empty.
  pub generate_handlers-IsAuthorized :
      (kind : Bytes) (enforce_roles datadog rate_limit use_rate_limit : Bool) (es : List E)
      (h : Users) (s' : Session) (a : A)
      → run plugin available serve_given req (get_context h) (
          generate_handlers kind enforce_roles datadog rate_limit use_rate_limit
            (map given_handler es))
        ≡ (answered a, s')
      → IsAuthorized plugin available serve_given req enforce_roles h s' a
  generate_handlers-IsAuthorized kind enforce_roles datadog rate_limit use_rate_limit es h s' a e =
      go (kind == codes "write" && datadog) (
        ap (run plugin available serve_given req (get_context h))
          (sym (generate_handlers_shape kind enforce_roles datadog rate_limit use_rate_limit es))
        ∙ e)
    where
      later : List (Handler E)
      later = guards enforce_roles (use_rate_limit && rate_limit) es

      go :
          (b : Bool)
          → run plugin available serve_given req
              (get_context h)
              ((if b then authenticate_datadog else authenticate_request) ∷ later)
            ≡ (answered a, s')
          → IsAuthorized plugin available serve_given req enforce_roles h s' a
      go true f =
          first_datadog plugin available serve_given req enforce_roles h later s' a
            (AreLater-guards enforce_roles (use_rate_limit && rate_limit) es)
            (role-guards enforce_roles (use_rate_limit && rate_limit) es) f
      go false f =
          first_request plugin available serve_given req enforce_roles h later s' a
            (AreLater-guards enforce_roles (use_rate_limit && rate_limit) es)
            (role-guards enforce_roles (use_rate_limit && rate_limit) es) f

  -- The handler that authenticates a generated route.
  abbrev pub login_of : Bytes → Bool → Users → Outcome × Users
  login_of kind datadog h =
      if kind == codes "write" && datadog
      then dd_auth_handler plugin h req
      else auth_handler plugin h req

  refused_guard :
      (h : Users) (p : ℕ)
      → is_publisher (user_at h p).role ≡ false
      → require_publisher (user_at h p) ≡ some 401
  unfolding require_publisher
  refused_guard h p e = rw e refl

  -- When roles are enforced, a user without the role of a publisher gets 401 from every generated
  -- route, those for reading included.
  pub generated_refuses :
      (kind : Bytes) (datadog rate_limit use_rate_limit : Bool) (es : List E) (h h' : Users) (p : ℕ)
      → login_of kind datadog h ≡ (pass p, h')
      → is_publisher (user_at h' p).role ≡ false
      → run plugin available serve_given req
          (get_context h)
          (generate_handlers kind true datadog rate_limit use_rate_limit (map given_handler es))
        ≡ (refusal 401, record { users = h'; user = some p })
  generated_refuses kind datadog rate_limit use_rate_limit es h h' p login role =
      ap (run plugin available serve_given req (get_context h))
        (generate_handlers_shape kind true datadog rate_limit use_rate_limit es)
      ∙ go (kind == codes "write" && datadog) login
    where
      later : List (Handler E)
      later = guards true (use_rate_limit && rate_limit) es

      go :
          (b : Bool)
          → (if b then dd_auth_handler plugin h req else auth_handler plugin h req) ≡ (pass p, h')
          → run plugin available serve_given req
              (get_context h)
              ((if b then authenticate_datadog else authenticate_request) ∷ later)
            ≡ (refusal 401, record { users = h'; user = some p })
      go true f = unfold run_handlers in rw (f, refused_guard h' p role) refl
      go false f = unfold run_handlers in rw (f, refused_guard h' p role) refl
