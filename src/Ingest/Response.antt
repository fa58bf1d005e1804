-- ===== src/Ingest/Response.antt =====
-- MetricsResponse (ingest/metrics_response.go) and discardsByOrg (ingest/metrics.go).
pub mod Laws
use tsdb_gw.Base.{List, Option, [], if◌then◌else◌, ltb, none, some, ℕ, ◌++◌, ◌+◌, ◌∷◌}
use tsdb_gw.Base.Eq.{bytes_eq, int_eq, nat_eq}
use tsdb_gw.Base.Int.{ℤ}
use tsdb_gw.Base.Map.{Map, get, put}
use tsdb_gw.Base.Text.{Bytes}

pub record ValidationError : Type 0 where
  pub count : ℕ
  pub example_ids : List ℕ

pub record MetricsResponse : Type 0 where
  pub invalid : ℕ
  pub published : ℕ
  pub validation_errors : Map Bytes ValidationError

abbrev pub new_metrics_response : MetricsResponse
new_metrics_response = record { invalid = 0; published = 0; validation_errors = [] }

abbrev pub or_no_error : Option ValidationError → ValidationError
or_no_error none = record { count = 0; example_ids = [] }
or_no_error (some e) = e

unfoldable pub note_example : ValidationError → ℕ → ValidationError
note_example e index =
    let n = e.count + 1 in
    if ltb n 10
    then record { count = n; example_ids = e.example_ids ++ index ∷ [] }
    else record e { count = n }

-- AddInvalid
unfoldable pub add_invalid : MetricsResponse → Bytes → ℕ → MetricsResponse
unfolding note_example
add_invalid r key index = record r {
  invalid = r.invalid + 1;
  validation_errors =
      put r.validation_errors key (note_example (or_no_error (get r.validation_errors key)) index);
}

abbrev pub Discards : Type 0
Discards = Map ℤ (Map Bytes ℕ)

abbrev pub or_no_reasons : Option (Map Bytes ℕ) → Map Bytes ℕ
or_no_reasons none = []
or_no_reasons (some r) = r

abbrev pub or_no_count : Option ℕ → ℕ
or_no_count none = 0
or_no_count (some n) = n

-- discardsByOrg.Add
unfoldable pub add_discard : Discards → ℤ → Bytes → Discards
add_discard d org reason =
    let r = or_no_reasons (get d org) in put d org (put r reason (or_no_count (get r reason) + 1))

-- The number of discards of an organisation for a reason.
abbrev pub discard_count : Discards → ℤ → Bytes → ℕ
discard_count d org reason = or_no_count (get (or_no_reasons (get d org)) reason)
