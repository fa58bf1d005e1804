-- ===== src/Ingest/Formats/Laws.antt =====
-- What the OpenTSDB and Prometheus handlers publish.
use tsdb_gw.Base.{
  All, All-append, Bool, Bool-cases, List, Option, [], ap, arith, inl, inr, map, none, refl, some,
  subst, ℕ, ◌++◌, ◌∷◌, ◌≡◌,
}
use tsdb_gw.Base.Int.{ℤ}
use tsdb_gw.Base.Number.{◌>>=◌}
use tsdb_gw.Base.Text.{Bytes, is_empty}
use tsdb_gw.Ingest.Formats.{
  Decoded, TimeSeries, all_series, bad_body, decoded, named_series, no_body, prometheus_mt_write,
  publish_series, read_labels, refused_write, sample_metric, series_metrics,
}
use tsdb_gw.Metric.{Metric, Schema}

OfOrg : ℤ → Metric → Type 0
OfOrg org m = m.org_id ≡ org

module _ (schema : Schema) (org : ℤ) where
  samples-OfOrg :
      (name : Bytes) (tags : List Bytes) (ss : List (ℕ × ℤ))
      → All (λ (m : Metric). m.org_id ≡ org) (map (sample_metric schema org name tags) ss)
  samples-OfOrg name tags [] = tt
  samples-OfOrg name tags ((value, timestamp) ∷ ss) =
      (schema.org_id-set_id _, samples-OfOrg name tags ss)

  named-OfOrg :
      (r : Bytes × List Bytes) (ss : List (ℕ × ℤ)) (ms : List Metric)
      → named_series schema org r ss ≡ some ms
      → All (λ (m : Metric). m.org_id ≡ org) ms
  named-OfOrg (name, tags) ss ms e = elim (Bool-cases (is_empty name)) [
    | inl missing ↦ cc (rw missing at e)
    | inr given ↦
        subst (All (λ (m : Metric). m.org_id ≡ org)) (same _ _ (rw given at e))
          (samples-OfOrg name tags ss)
  ]
    where
      same : (a b : List Metric) → some a ≡ some b → a ≡ b
      same a b h = ground arith

  series-OfOrg :
      (ts : TimeSeries) (ms : List Metric)
      → series_metrics schema org ts ≡ some ms
      → All (λ (m : Metric). m.org_id ≡ org) ms
  unfolding series_metrics
  series-OfOrg ts ms e = named-OfOrg (read_labels ts.labels [] []) ts.samples ms e

  joined-OfOrg :
      (a b : Option (List Metric)) (ms : List Metric)
      → ((xs : List Metric) → a ≡ some xs → All (λ (m : Metric). m.org_id ≡ org) xs)
      → ((xs : List Metric) → b ≡ some xs → All (λ (m : Metric). m.org_id ≡ org) xs)
      → (a >>= λ xs. b >>= λ ys. some (xs ++ ys)) ≡ some ms
      → All (λ (m : Metric). m.org_id ≡ org) ms
  joined-OfOrg none b ms h k e = cc e
  joined-OfOrg (some xs) none ms h k e = cc e
  joined-OfOrg (some xs) (some ys) ms h k e =
      subst (All (λ (m : Metric). m.org_id ≡ org)) (same (xs ++ ys) ms e)
        (All-append (λ (m : Metric). m.org_id ≡ org) xs ys (h xs refl) (k ys refl))
    where
      same : (a b : List Metric) → some a ≡ some b → a ≡ b
      same a b h = ground arith

  all_series-OfOrg :
      (tss : List TimeSeries) (ms : List Metric)
      → all_series schema org tss ≡ some ms
      → All (λ (m : Metric). m.org_id ≡ org) ms
  unfolding all_series
  all_series-OfOrg [] [] e = tt
  all_series-OfOrg [] (m ∷ ms) e = cc e
  all_series-OfOrg (ts ∷ tss) ms e =
      joined-OfOrg (series_metrics schema org ts) (all_series schema org tss) ms (series-OfOrg ts)
        (all_series-OfOrg tss) e

  -- Whatever a Prometheus request holds, the publisher is given only metrics of the user's own
  -- organisation.
  pub prometheus_isolates :
      (publish : List Metric → Bool) (req : Decoded (List TimeSeries)) (ms : List Metric)
      → (prometheus_mt_write schema org publish req).batch ≡ some ms
      → All (λ (m : Metric). m.org_id ≡ org) ms
  unfolding prometheus_mt_write
  prometheus_isolates publish no_body ms e = cc e
  prometheus_isolates publish bad_body ms e = cc e
  prometheus_isolates publish (decoded tss) ms e =
      go (all_series schema org tss) (all_series-OfOrg tss) e
    where
      go :
          (o : Option (List Metric))
          → ((xs : List Metric) → o ≡ some xs → All (λ (m : Metric). m.org_id ≡ org) xs)
          → (publish_series schema org publish o).batch ≡ some ms
          → All (λ (m : Metric). m.org_id ≡ org) ms
      go none h e = cc e
      go (some xs) h e = h ms e

  drops : (a b : Option (List Metric)) → b ≡ none → (a >>= λ xs. b >>= λ ys. some (xs ++ ys)) ≡ none
  drops none b e = refl
  drops (some xs) b e = rw e refl

  nameless :
      (before after : List TimeSeries) (ts : TimeSeries)
      → series_metrics schema org ts ≡ none
      → all_series schema org (before ++ ts ∷ after) ≡ none
  unfolding all_series
  nameless [] after ts e = rw e refl
  nameless (t ∷ before) after ts e =
      drops (series_metrics schema org t) (all_series schema org (before ++ ts ∷ after))
        (nameless before after ts e)

  -- A series without a name, anywhere in a Prometheus request, refuses the whole request with 400,
  -- and nothing is published.
  pub nameless_series_refuses :
      (publish : List Metric → Bool) (before after : List TimeSeries) (ts : TimeSeries)
      → series_metrics schema org ts ≡ none
      → prometheus_mt_write schema org publish (decoded (before ++ ts ∷ after)) ≡ refused_write 400
  unfolding prometheus_mt_write
  nameless_series_refuses publish before after ts e =
      ap (publish_series schema org publish) (nameless before after ts e)
