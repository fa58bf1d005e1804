-- ===== src/Api/Chain.antt =====
-- A request on its way through the handlers of a route (api/middleware.go): `macaron` calls them in
-- their order until one writes a response. GetContextHandler gives the request an empty user.
pub mod Laws
pub mod Generated
use tsdb_gw.Api.{
  reply, pass, AuthPlugin, Handler, Outcome, Request, auth_handler, authenticate_datadog,
  authenticate_request, check_rate, check_role, dd_auth_handler, given_handler, require_publisher,
}
use tsdb_gw.Auth.{User, Users, user_at, zero_user}
use tsdb_gw.Base.{Bool, List, Option, [], if◌then◌else◌, none, not, some, ℕ, ◌∷◌}
use tsdb_gw.Base.Int.{ℤ}

-- What a request has when the handlers run: the users, and the pointer in `ctx.User`, `none` for the
-- empty user that nothing else points to.
pub record Session : Type 0 where
  pub users : Users
  pub user : Option ℕ

-- GetContextHandler
abbrev pub get_context : Users → Session
get_context h = record { users = h; user = none }

abbrev pub pointed : Users → Option ℕ → User
pointed h none = zero_user
pointed h (some p) = user_at h p

abbrev pub session_user : Session → User
session_user s = pointed s.users s.user

-- No handler wrote a response, the middleware did, or a handler of the route.
pub data Handled (A : Type 0) : Type 0 where
  unanswered : Handled A
  refusal : ℕ → Handled A
  answered : A → Handled A

module _ {A : Type 0} where
  abbrev pub after_auth :
      Session → Outcome × Users → (Session → Handled A × Session) → Handled A × Session
  after_auth s (reply status, h) go = (refusal status, record s { users = h })
  after_auth s (pass p, h) go = go (record { users = h; user = some p })

  abbrev pub after_guard :
      Session → Option ℕ → (Session → Handled A × Session) → Handled A × Session
  after_guard s (some status) go = (refusal status, s)
  after_guard s none go = go s

  abbrev pub after_given :
      Session → Option A → (Session → Handled A × Session) → Handled A × Session
  after_given s (some a) go = (answered a, s)
  after_given s none go = go s

-- IngestRateLimiter; `available` is IsRateBudgetAvailable.
unfoldable pub ingest_rate_limiter : (ℤ → Bool) → User → Option ℕ
ingest_rate_limiter available u = if not (available u.id) then some 429 else none

module _ {E A : Type 0} (plugin : AuthPlugin) (available : ℤ → Bool)
    (serve_given : User → E → Option A) (req : Request) where
  -- The handlers of a route, in their order.
  unfoldable pub run_handlers : Session → List (Handler E) → Handled A × Session
  run_handlers s [] = (unanswered, s)
  run_handlers s (authenticate_request ∷ hs) =
      after_auth s (auth_handler plugin s.users req) (λ s'. run_handlers s' hs)
  run_handlers s (authenticate_datadog ∷ hs) =
      after_auth s (dd_auth_handler plugin s.users req) (λ s'. run_handlers s' hs)
  run_handlers s (check_role ∷ hs) =
      after_guard s (require_publisher (session_user s)) (λ s'. run_handlers s' hs)
  run_handlers s (check_rate ∷ hs) =
      after_guard s (ingest_rate_limiter available (session_user s)) (λ s'. run_handlers s' hs)
  run_handlers s (given_handler e ∷ hs) =
      after_given s (serve_given (session_user s) e) (λ s'. run_handlers s' hs)
