-- ===== src/Graphite.antt =====
-- The proxy for Graphite queries (query/graphite/graphite.go and validators.go) and the functions of
-- package util that it and the flags use (util/util.go, util/flags.go).
pub mod Laws
use tsdb_gw.Base.{
  Bool, List, Option, [], false, if◌then◌else◌, leb, ltb, nat_eqb, none, not, some, suc, true, zero,
  ℕ, ◌%◌, ◌++◌, ◌+◌, ◌-◌, ◌^◌, ◌∷◌,
}
use tsdb_gw.Base.Eq.{bytes_eq, int_eq, nat_eq}
use tsdb_gw.Base.Int.{ℤ}
use tsdb_gw.Base.Map.{Map, delete, put}
use tsdb_gw.Base.Number.{itoa, parse_int, ◌>>=◌}
use tsdb_gw.Base.Text.{Bytes, codes, ends_with, has_prefix, is_empty, split, trim_space}

-- JoinUrlFragments
unfoldable pub join_url_fragments : Bytes → Bytes → Bytes
join_url_fragments a [] = if ends_with a b'/' then a else a ++ b'/' ∷ []
join_url_fragments a (c ∷ b) =
    if ends_with a b'/'
    then (if nat_eqb c b'/' then a ++ b else a ++ c ∷ b)
    else (if nat_eqb c b'/' then a ++ c ∷ b else a ++ b'/' ∷ c ∷ b)

-- The loop of Int64SliceFlag.Set: the values after it, and whether it returned nil.
unfoldable pub set_values : List ℤ → List Bytes → List ℤ × Bool
set_values values [] = (values, true)
set_values values (item ∷ rest) =
    if is_empty (trim_space item)
    then set_values values rest
    else elim (parse_int (trim_space item) 63) [
      | none ↦ (values, false)
      | some parsed ↦ set_values (values ++ parsed ∷ []) rest
    ]

-- Set of Int64SliceFlag.
unfoldable pub set_flag : List ℤ → Bytes → List ℤ × Bool
unfolding set_values
set_flag values value = set_values values (split value b',')

module _ {A : Type 0} (transport : ℕ → Option A) where
  abbrev pub attempt : ℕ → (ℕ → ℕ × Option A) → Option A → ℕ × Option A
  attempt attempts retry (some res) = (attempts, some res)
  attempt attempts retry none =
      let again = retry (suc attempts) in if leb attempts 3 then again else (attempts, none)

  -- The loop of RoundTrip before attempt `attempts`; `transport` is what each attempt gives. The fuel
  -- is a bound on the attempts that are left.
  unfoldable pub attempt_from : ℕ → ℕ → ℕ × Option A
  attempt_from zero attempts = (attempts, none)
  attempt_from (suc fuel) attempts = attempt attempts (attempt_from fuel) (transport attempts)

  -- RoundTrip: the number of attempts and the response, `none` for an error. It takes four attempts
  -- at most, and none if the request has a body that cannot be read (`body_ok` is a nil error).
  unfoldable pub round_trip : Bool → ℕ × Option A
  unfolding attempt_from
  round_trip body_ok = if body_ok then attempt_from 4 1 else (0, none)

pub record FromTo : Type 0 where
  pub from : Bytes
  pub until : Bytes
  pub to : Bytes

-- getFromTo; `parse` is dur.ParseDateTime with the local time zone.
unfoldable pub get_from_to : (Bytes → ℕ → ℕ → Option ℕ) → FromTo → ℕ → ℕ → ℕ → Option (ℕ × ℕ)
get_from_to parse ft now default_from default_to = do
  from_unix ← parse ft.from now default_from
  to_unix ← parse (if is_empty ft.to then ft.until else ft.to) now default_to
  some (from_unix, to_unix)

pub data RangeError : Type 0 where
  unparsed_range : RangeError
  range_too_large : RangeError

-- The difference of two uint32.
abbrev pub sub32 : ℕ → ℕ → ℕ
sub32 a b = (a + 2 ^ 32 - b) % 2 ^ 32

abbrev pub judge_range : ℕ → Option (ℕ × ℕ) → List RangeError → List RangeError
judge_range limit none errs = errs ++ unparsed_range ∷ []
judge_range limit (some (from_unix, to_unix)) errs =
    if ltb limit (sub32 to_unix from_unix) then errs ++ range_too_large ∷ [] else errs

-- Validate of FromTo, at the Unix time `now`.
unfoldable pub validate_range :
    (Bytes → ℕ → ℕ → Option ℕ) → ℕ → Bytes → FromTo → ℕ → List RangeError → List RangeError
unfolding get_from_to
validate_range parse limit path ft now errs =
    if not (has_prefix path (codes "/graphite/render"))
    then errs
    else judge_range limit (get_from_to parse ft now (sub32 (now % 2 ^ 32) 86400) (now % 2 ^ 32))
        errs

-- Proxy: the headers and the path of the request that is passed on. `Del` and `Add` leave one value.
unfoldable pub proxy : Bytes → ℤ → Bytes → Map Bytes Bytes → Map Bytes Bytes × Bytes
unfolding join_url_fragments
proxy base org_id proxy_path headers = (
  put (delete headers (codes "X-Org-Id")) (codes "X-Org-Id") (itoa org_id),
  join_url_fragments base proxy_path,
)
