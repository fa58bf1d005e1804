-- ===== src/Gcom.antt =====
-- Authentication against grafana.com (auth/gcom/auth.go, cache.go, roles.go). Time is in nanoseconds.
-- What the remote side answers is an argument of each call; singleflight shares one call among
-- concurrent callers and so does not show in a single one.
pub mod Token
pub mod Instance
pub mod Plugins
use tsdb_gw.Base.{
  ℕ, ◌+◌, ◌/◌, List, [], ◌∷◌, Bool, true, false, ◌||◌, not, Option, none, some, if◌then◌else◌, ltb,
  leb,
}
use tsdb_gw.Base.Eq.{◌==◌, int_eq, nat_eq}
use tsdb_gw.Base.Int.{ℤ}
use tsdb_gw.Base.Text.{Bytes, is_empty}

abbrev pub second : ℕ
second = 1000000000

-- t.Unix()
abbrev pub unix : ℕ → ℕ
unix t = t / second

-- v.retrieved.Before(now.Add(-1 * cacheTTL)): the caches live in a time after the epoch, so the sum
-- on the other side says the same.
abbrev pub is_expired : (retrieved now ttl : ℕ) → Bool
is_expired retrieved now ttl = ltb (retrieved + ttl) now

-- A response of the HTTP client: a transport error, a body that breaks off (with the part that was read), or status and body.
pub data Response : Type 0 where
  no_response : Response
  broken_body : ℕ → Bytes → Response
  response : ℕ → Bytes → Response

-- The errors of the package; `failed` is every other error.
pub data GcomError : Type 0 where
  invalid_api_key invalid_org_id invalid_instance_id : GcomError
  invalid_instance_type invalid_cluster failed : GcomError

pub data Verdict {ℓ} (A : Type ℓ) : Type ℓ where
  valid : A → Verdict A
  invalid : GcomError → Verdict A
