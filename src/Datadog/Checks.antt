-- ===== src/Datadog/Checks.antt =====
-- What DataDogCheck does with a body that cannot be read.
use tsdb_gw.Base.{
  All, All-append, Bool, List, Option, [], arith, false, if◌then◌else◌, inl, inr, map, none, refl,
  some, subst, ℕ, ◌∷◌, ◌≡◌, ◌⊎◌,
}
use tsdb_gw.Base.Int.{ℤ}
use tsdb_gw.Base.Text.{Bytes}
use tsdb_gw.Datadog.{
  Check, Series, check_metric, data_dog_check, data_dog_series, point_metric, series_buffer,
}
use tsdb_gw.Ingest.Formats.{decoded}
use tsdb_gw.Metric.{Metric, Schema}

-- A body that cannot be decoded is answered three times: 400 for the decoding, 400 for the JSON, and
-- then, as the handler goes on, the status of publishing no metrics.
pub undecodable_check_goes_on :
    (schema : Schema) (to_int64 : ℕ → ℤ) (org : ℤ) (publisher : List Metric → Bool)
    (unmarshal : Bytes → Bool × List Check)
    → unmarshal [] ≡ (false, [])
    → data_dog_check schema to_int64 org publisher unmarshal none
      ≡ record { statuses = 400 ∷ 400 ∷ (if publisher [] then 200 else 500) ∷ []; batch = some [] }
unfolding data_dog_check
undecodable_check_goes_on schema to_int64 org publisher unmarshal e = rw e refl

points-org :
    (schema : Schema) (to_int64 : ℕ → ℤ) (org : ℤ) (ts : Series) (ps : List (ℕ × ℕ))
    → All (λ (m : Metric). m.org_id ≡ org) (map (point_metric schema to_int64 org ts) ps)
points-org schema to_int64 org ts [] = tt
points-org schema to_int64 org ts ((time, value) ∷ ps) =
    (schema.org_id-set_id _, points-org schema to_int64 org ts ps)

pub series-org :
    (schema : Schema) (to_int64 : ℕ → ℤ) (org : ℤ) (tss : List Series)
    → All (λ (m : Metric). m.org_id ≡ org) (series_buffer schema to_int64 org tss)
unfolding series_buffer
series-org schema to_int64 org [] = tt
series-org schema to_int64 org (ts ∷ tss) =
    All-append (λ (m : Metric). m.org_id ≡ org)
      (map (point_metric schema to_int64 org ts) ts.points) (series_buffer schema to_int64 org tss)
      (points-org schema to_int64 org ts ts.points) (series-org schema to_int64 org tss)

checks-org :
    (schema : Schema) (to_int64 : ℕ → ℤ) (org : ℤ) (cs : List Check)
    → All (λ (m : Metric). m.org_id ≡ org) (map (check_metric schema to_int64 org) cs)
unfolding check_metric
checks-org schema to_int64 org [] = tt
checks-org schema to_int64 org (c ∷ cs) =
    (schema.org_id-set_id _, checks-org schema to_int64 org cs)

-- Whatever a DataDog series or check request holds, the publisher is given only metrics of the
-- user's own organisation.
pub data_dog_isolates :
    (schema : Schema) (to_int64 : ℕ → ℤ) (org : ℤ) (publisher : List Metric → Bool)
    (tss : List Series) (unmarshal : Bytes → Bool × List Check) (contents : Option Bytes)
    (ms : List Metric)
    → ((data_dog_series schema to_int64 org publisher (decoded tss)).batch ≡ some ms)
      ⊎ ((data_dog_check schema to_int64 org publisher unmarshal contents).batch ≡ some ms)
    → All (λ (m : Metric). m.org_id ≡ org) ms
unfolding data_dog_series data_dog_check
data_dog_isolates schema to_int64 org publisher tss unmarshal contents ms (inl e) =
    subst (All (λ (m : Metric). m.org_id ≡ org)) (same _ ms e) (series-org schema to_int64 org tss)
  where
    same : (a b : List Metric) → some a ≡ some b → a ≡ b
    same a b h = ground arith
data_dog_isolates schema to_int64 org publisher tss unmarshal contents ms (inr e) =
    subst (All (λ (m : Metric). m.org_id ≡ org)) (same _ ms e) (
      checks-org schema to_int64 org
        (unmarshal (elim contents [ none ↦ [] | some bytes ↦ bytes ])).1)
  where
    same : (a b : List Metric) → some a ≡ some b → a ≡ b
    same a b h = ground arith
