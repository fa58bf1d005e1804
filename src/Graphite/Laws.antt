-- ===== src/Graphite/Laws.antt =====
-- The retries, the range check and the request of the Graphite proxy.
use tsdb_gw.Base.{
  Option, [], append_assoc, arith, false, if◌then◌else◌, ltb, none, some, suc, true, zero, ℕ, ◌%◌,
  ◌++◌, ◌+◌, ◌-◌, ◌<◌, ◌^◌, ◌∷◌, ◌≡◌, ◌≢◌, ◌≤◌,
}
use tsdb_gw.Base.Eq.{bytes_eq, int_eq, nat_eq, ◌==◌}
use tsdb_gw.Base.Int.{ℤ}
use tsdb_gw.Base.Map.{Map, delete, get, get-delete, get-put}
use tsdb_gw.Base.Number.{itoa}
use tsdb_gw.Base.Text.{Bytes, codes, ends_with, has_prefix}
use tsdb_gw.Graphite.{
  FromTo, get_from_to, join_url_fragments, proxy, range_too_large, round_trip, sub32,
  validate_range,
}

ends_with-append : (s : Bytes) (c : ℕ) → ends_with (s ++ c ∷ []) c ≡ true
unfolding ends_with
ends_with-append [] c = ground arith
ends_with-append (a ∷ []) c = ground arith
ends_with-append (a ∷ d ∷ s) c = ends_with-append (d ∷ s) c

-- The first of the attempts `n`, n + 1, …, `fuel` of them, that gives a response.
pub first_response : {A : Type 0} → (ℕ → Option A) → ℕ → ℕ → Option A
first_response transport zero n = none
first_response transport (suc fuel) n = elim (transport n) [
  | none ↦ first_response transport fuel (suc n)
  | some res ↦ some res
]

-- A proxied request is attempted at most four times, and its response is that of the first attempt
-- that succeeds; one whose body cannot be read is not attempted and has no response.
pub round_trip_retries :
    {A : Type 0} (transport : ℕ → Option A)
    → ((round_trip transport true).1 ≡ first_response transport 4 1)
      × ((round_trip transport true).0 ≤ 4)
      × (round_trip transport false ≡ (0, none))
unfolding round_trip first_response
round_trip_retries transport = ground arith

-- A render query whose range is parsed and does not run backwards is refused exactly if the range
-- is longer than the limit.
pub validate_range_forward :
    (parse : Bytes → ℕ → ℕ → Option ℕ) (limit : ℕ) (rest : Bytes) (ft : FromTo) (now a b : ℕ)
    → get_from_to parse ft now (sub32 (now % 2 ^ 32) 86400) (now % 2 ^ 32) ≡ some (a, b)
    → a ≤ b
    → b < 2 ^ 32
    → validate_range parse limit (codes "/graphite/render" ++ rest) ft now []
      ≡ (if ltb limit (b - a) then range_too_large ∷ [] else [])
unfolding validate_range has_prefix
validate_range_forward parse limit rest ft now a b e ordered fits =
    rw e (ground (arith, ordered, fits))

-- A render query whose range runs backwards is refused, if the limit is less than 2^32 less the
-- length of the range.
pub validate_range_backward :
    (parse : Bytes → ℕ → ℕ → Option ℕ) (limit : ℕ) (rest : Bytes) (ft : FromTo) (now a b : ℕ)
    → get_from_to parse ft now (sub32 (now % 2 ^ 32) 86400) (now % 2 ^ 32) ≡ some (a, b)
    → b < a
    → a < 2 ^ 32
    → limit + (a - b) < 2 ^ 32
    → validate_range parse limit (codes "/graphite/render" ++ rest) ft now [] ≡ range_too_large ∷ []
unfolding validate_range has_prefix
validate_range_backward parse limit rest ft now a b e backwards fits large =
    rw e (ground (arith, backwards, fits, large))

-- The request that is passed on has the organisation of the user in "X-Org-Id", whatever the client
-- wrote there, and its other headers.
pub proxy_header :
    (base : Bytes) (org : ℤ) (path : Bytes) (headers : Map Bytes Bytes) (j : Bytes)
    → get (proxy base org path headers).0 j
      ≡ (if codes "X-Org-Id" == j then some (itoa org) else get headers j)
unfolding proxy
proxy_header base org path headers j = ground (
  arith,
  get-put (delete headers (codes "X-Org-Id")) (codes "X-Org-Id") j (itoa org),
  get-delete headers (codes "X-Org-Id") j,
)

-- One slash separates two fragments, whether either has one or none.
pub join_one_slash :
    (a b : Bytes) (c : ℕ)
    → ends_with a b'/' ≡ false
    → c ≢ b'/'
    → (join_url_fragments a (c ∷ b) ≡ a ++ b'/' ∷ c ∷ b)
      × (join_url_fragments (a ++ b'/' ∷ []) (c ∷ b) ≡ a ++ b'/' ∷ c ∷ b)
      × (join_url_fragments a (b'/' ∷ c ∷ b) ≡ a ++ b'/' ∷ c ∷ b)
      × (join_url_fragments (a ++ b'/' ∷ []) (b'/' ∷ c ∷ b) ≡ a ++ b'/' ∷ c ∷ b)
unfolding join_url_fragments
join_one_slash a b c no_slash differs =
    ground (arith, ends_with-append a b'/', append_assoc a (b'/' ∷ []) (c ∷ b), differs)
