-- ===== src/Ingest/RateLimit.antt =====
-- Rate limits (ingest/rate_limit.go). A limiter of the library golang.org/x/time/rate is known here
-- by its burst size; what its `WaitN` and `Allow` answer is an argument.
pub mod Config
use tsdb_gw.Base.{Bool, List, Option, [], if◌then◌else◌, ltb, none, not, some, true, ℕ, ◌∷◌}
use tsdb_gw.Base.Eq.{bytes_eq, int_eq, nat_eq}
use tsdb_gw.Base.Int.{negsuc, pos, ℤ}
use tsdb_gw.Base.Map.{Map, get, put}
use tsdb_gw.Base.Number.{parse_int, ◌>>=◌}
use tsdb_gw.Base.Text.{Bytes, is_empty, split, split_two}

abbrev pub Limiters : Type 0
Limiters = Map ℤ ℤ

-- The two numbers of a limit; both must be there and fit an int32.
abbrev pub parse_limit : List Bytes → Option (ℤ × ℤ)
parse_limit (org ∷ limit ∷ []) = do o ← parse_int org 31; l ← parse_int limit 31; some (o, l)
parse_limit _ = none

abbrev pub add_limit : Limiters → Option (ℤ × ℤ) → Option Limiters
add_limit m none = none
add_limit m (some (org, limit)) = some (put m org limit)

-- The loop over the limits. `none` is an error, which ends the program.
unfoldable pub configure_from : Limiters → List Bytes → Option Limiters
configure_from m [] = some m
configure_from m (l ∷ ls) = do
  m' ← add_limit m (parse_limit (split_two l b':'))
  configure_from m' ls

-- ConfigureRateLimits; without a text there are no limiters.
unfoldable pub configure_rate_limits : Bytes → Option Limiters
unfolding configure_from
configure_rate_limits limit_str =
    if is_empty limit_str then some [] else configure_from [] (split limit_str b';')

pub data RateError : Type 0 where
  exceeds_burst refused : RateError

-- datapoints > limiter.Burst()
abbrev pub exceeds : ℕ → ℤ → Bool
exceeds n (pos burst) = ltb burst n
exceeds n (negsuc k) = true

abbrev pub limit_by : ℕ → Bool → Option ℤ → Option RateError
limit_by datapoints waited none = none
limit_by datapoints waited (some burst) =
    if exceeds datapoints burst then some exceeds_burst else if waited then none else some refused

-- rateLimit; `waited` is a nil error of WaitN, and none is a nil error.
unfoldable pub rate_limit : Limiters → ℤ → ℕ → Bool → Option RateError
rate_limit limiters org datapoints waited = limit_by datapoints waited (get limiters org)

abbrev pub allowed_by : Bool → Option ℤ → Bool
allowed_by allow none = true
allowed_by allow (some burst) = allow

-- IsRateBudgetAvailable
unfoldable pub is_rate_budget_available : Limiters → ℤ → Bool → Bool
is_rate_budget_available limiters org allow = allowed_by allow (get limiters org)

-- UseRateLimit
unfoldable pub use_rate_limit : Limiters → Bool
use_rate_limit limiters = not (is_empty limiters)
