-- ===== src/Api.antt =====
-- The middleware in front of every route (api/middleware.go). A handler that writes a response is a
-- `reply`; one that lets the request pass leaves the user in the context. Logging is left out.
pub mod Creds
pub mod Impersonation
pub mod Chain
pub mod Stats
use tsdb_gw.Auth.{
  User, Users, AuthResult, AuthError, ok, err, invalid_credentials, invalid_org_id,
  invalid_instance_id, other, user_at, set_id, is_publisher, is_viewer,
}
use tsdb_gw.Base.{
  ℕ, List, [], ◌∷◌, ◌++◌, Bool, true, false, ◌&&◌, ◌||◌, not, Option, none, some, if◌then◌else◌,
}
use tsdb_gw.Base.Eq.{◌==◌, bytes_eq, int_eq, nat_eq}
use tsdb_gw.Base.Int.{ℤ, pos}
use tsdb_gw.Base.Number.{parse_int}
use tsdb_gw.Base.Text.{Bytes, codes, is_empty, split_two}
use tsdb_gw.Ingest.RateLimit.{rate_limit, use_rate_limit}

-- What the middleware reads of a request: the decoded basic auth, and headers ("" if absent).
pub record Request : Type 0 where
  pub basic_auth : Option (Bytes × Bytes)
  pub authorization : Bytes
  pub dd_api_key : Bytes
  pub tsdb_org : Bytes

pub data Outcome : Type 0 where
  reply : ℕ → Outcome
  pass : ℕ → Outcome

-- A plugin, with the store that it leaves behind.
abbrev pub AuthPlugin : Type 0
AuthPlugin = Users → Bytes → Bytes → AuthResult ℕ × Users

abbrev pub creds_of_key : List Bytes → Bytes × Bytes
creds_of_key (username ∷ key ∷ rest) = (username, key)
creds_of_key (key ∷ []) = (codes "api_key", key)
creds_of_key [] = (codes "api_key", [])

abbrev pub creds_of_header : List Bytes → Bytes × Bytes
creds_of_header (scheme ∷ token ∷ []) =
    if scheme == codes "Bearer" then creds_of_key (split_two token b':') else ([], [])
creds_of_header _ = ([], [])

abbrev pub creds_or_header : Option (Bytes × Bytes) → Bytes → Bytes × Bytes
creds_or_header none header = creds_of_header (split_two header b' ')
creds_or_header (some creds) header = creds

unfoldable pub get_auth_creds : Request → Bytes × Bytes
get_auth_creds req = creds_or_header req.basic_auth req.authorization

abbrev pub status_of_error : AuthError → ℕ
status_of_error invalid_credentials = 401
status_of_error invalid_org_id = 401
status_of_error invalid_instance_id = 401
status_of_error other = 500

abbrev pub impersonate_as : Users → ℕ → Option ℤ → Users
impersonate_as h p none = h
impersonate_as h p (some id) = if not (id == pos 0) then set_id h p id else h

-- Administrators act for the organisation that the header names: `user.ID = int(orgId)`.
unfoldable pub impersonate : Users → ℕ → Bytes → Users
impersonate h p header =
    if (user_at h p).is_admin
    then (if not (is_empty header) then impersonate_as h p (parse_int header 63) else h)
    else h

abbrev pub finish_auth : Bytes → AuthResult ℕ × Users → Outcome × Users
finish_auth header (ok p, h) = (pass p, impersonate h p header)
finish_auth header (err e, h) = (reply (status_of_error e), h)

-- Auth
unfoldable pub auth_handler : AuthPlugin → Users → Request → Outcome × Users
unfolding get_auth_creds
auth_handler plugin h req =
    let (username, key) = get_auth_creds req in
    if is_empty key then (reply 401, h) else finish_auth req.tsdb_org (plugin h username key)

-- The credentials of a DataDog agent. The second branch is written as in the source.
abbrev pub dd_creds : List Bytes → Bytes × Bytes
dd_creds [] = ([], [])
dd_creds (key ∷ []) = (codes "api_key", key)
dd_creds (username ∷ key ∷ rest) = if is_empty key then (codes "api_key", key) else (username, key)

-- DDAuth
unfoldable pub dd_auth_handler : AuthPlugin → Users → Request → Outcome × Users
dd_auth_handler plugin h req =
    let (username, key) = dd_creds (split_two req.dd_api_key b':') in
    if is_empty key then (reply 401, h) else finish_auth req.tsdb_org (plugin h username key)

-- The guards let a request through (`none`) or answer it.
unfoldable pub require_admin : User → Option ℕ
require_admin u = if not u.is_admin then some 403 else none

unfoldable pub require_publisher : User → Option ℕ
require_publisher u = if not (is_publisher u.role) then some 401 else none

unfoldable pub require_viewer : User → Option ℕ
require_viewer u = if not (is_viewer u.role) then some 403 else none

-- The handlers that `GenerateHandlers` puts before those that it is given.
pub data Handler (E : Type 0) : Type 0 where
  authenticate_request authenticate_datadog check_role check_rate : Handler E
  given_handler : E → Handler E

unfoldable pub generate_handlers :
    {E : Type 0} (kind : Bytes) (enforce_roles datadog rate_limit use_rate_limit : Bool)
    → List (Handler E)
    → List (Handler E)
generate_handlers {E} kind enforce_roles datadog rate_limit use_rate_limit handlers =
    let roles : List (Handler E) = if enforce_roles then check_role ∷ [] else [] in
    let first : List (Handler E) =
      if kind == codes "write"
      then (if datadog then authenticate_datadog ∷ [] else authenticate_request ∷ []) ++ roles
      else authenticate_request ∷ roles in
    let limit : List (Handler E) = if use_rate_limit && rate_limit then check_rate ∷ [] else [] in
    (first ++ limit) ++ handlers
