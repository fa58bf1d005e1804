-- ===== src/Datadog.antt =====
-- The DataDog formats (ingest/datadog/util.go and datadog.go). Decompression and JSON decoding are
-- arguments.
pub mod Tags
pub mod Intake
pub mod Checks
use tsdb_gw.Base.{Bool, List, Option, [], if◌then◌else◌, map, none, not, some, ℕ, ◌++◌, ◌∷◌}
use tsdb_gw.Base.Int.{ℤ}
use tsdb_gw.Base.Text.{Bytes, codes, is_empty, sort_strings, split_two}
use tsdb_gw.Ingest.Formats.{Decoded, bad_body, decoded, no_body, plain_metric}
use tsdb_gw.Keycache.{is_some}
use tsdb_gw.Metric.{Metric, Schema}

-- The tag of "name:value", and of a name alone.
abbrev pub tag_of_parts : List Bytes → Bytes
tag_of_parts (k ∷ [] ∷ []) = k
tag_of_parts (k ∷ v ∷ []) = k ++ b'=' ∷ v
tag_of_parts (k ∷ rest) = k
tag_of_parts [] = []

unfoldable pub tag_of : Bytes → Bytes
tag_of t = tag_of_parts (split_two t b':')

-- createTagSet
unfoldable pub create_tag_set : Bytes → Bytes → List Bytes → List Bytes
unfolding tag_of
create_tag_set host device ctags = sort_strings (
    (if is_empty device then [] else (codes "device=" ++ device) ∷ [])
    ++ (codes "host=" ++ host) ∷ map tag_of ctags)

-- One item of DataDogSeriesPayload; a point is the bits of two floats.
pub record Series : Type 0 where
  pub name : Bytes
  pub points : List (ℕ × ℕ)
  pub tags : List Bytes
  pub host : Bytes
  pub mtype : Bytes
  pub device : Bytes

-- One item of DataDogCheckPayload.
pub record Check : Type 0 where
  pub check : Bytes
  pub host : Bytes
  pub timestamp : ℤ
  pub status : ℕ
  pub tags : List Bytes

-- The statuses that `ctx.JSON` was called with, and what the publisher was given.
pub record Answers : Type 0 where
  pub statuses : List ℕ
  pub batch : Option (List Metric)

-- `to_int64` is the conversion of a float64 to int64.
module _ (schema : Schema) (to_int64 : ℕ → ℤ) (org : ℤ) where
  abbrev pub point_metric : Series → ℕ × ℕ → Metric
  point_metric ts (time, value) = schema.set_id (
      plain_metric org ts.name value (to_int64 time) ts.mtype
        (create_tag_set ts.host ts.device ts.tags))

  unfoldable pub series_buffer : List Series → List Metric
  unfolding create_tag_set
  series_buffer [] = []
  series_buffer (ts ∷ tss) = map (point_metric ts) ts.points ++ series_buffer tss

  -- DataDogSeries
  unfoldable pub data_dog_series : (List Metric → Bool) → Decoded (List Series) → Answers
  unfolding series_buffer
  data_dog_series publisher no_body = record { statuses = 400 ∷ []; batch = none }
  data_dog_series publisher bad_body = record { statuses = 400 ∷ []; batch = none }
  data_dog_series publisher (decoded tss) =
      let ms = series_buffer tss in
      record { statuses = (if publisher ms then 200 else 500) ∷ []; batch = some ms }

  unfoldable pub check_metric : Check → Metric
  unfolding create_tag_set
  check_metric c = schema.set_id (
      plain_metric org c.check c.status c.timestamp (codes "gauge")
        (create_tag_set c.host [] c.tags))

  abbrev pub check_errors : Option Bytes → Bool → List ℕ
  check_errors contents fine =
      (if not (is_some contents) then 400 ∷ [] else []) ++ (if fine then [] else 400 ∷ [])

  -- DataDogCheck from a request with a body: `contents` is what decodeJSON gives, and `unmarshal` is
  -- whether json.Unmarshal succeeds, with the checks that it has filled in. Neither error returns.
  unfoldable pub data_dog_check :
      (List Metric → Bool) → (Bytes → Bool × List Check) → Option Bytes → Answers
  unfolding check_metric
  data_dog_check publisher unmarshal contents =
      let (fine, checks) = unmarshal (elim contents [ none ↦ [] | some bytes ↦ bytes ]) in
      let ms = map check_metric checks in
      record {
        statuses = check_errors contents fine ++ (if publisher ms then 200 else 500) ∷ [];
        batch = some ms;
      }
