-- ===== src/Ingest/Formats.antt =====
-- The OpenTSDB and Prometheus formats (ingest/opentsdb.go and ingest/prometheus.go).
pub mod Laws
use tsdb_gw.Base.{
  Bool, List, Option, [], if◌then◌else◌, ltb, map, none, not, some, suc, ℕ, ◌++◌, ◌-◌, ◌/◌, ◌∷◌,
}
use tsdb_gw.Base.Eq.{bytes_eq, int_eq, nat_eq, ◌==◌}
use tsdb_gw.Base.Int.{negsuc, pos, ℤ}
use tsdb_gw.Base.Number.{◌>>=◌}
use tsdb_gw.Base.Text.{Bytes, codes, is_empty}
use tsdb_gw.Metric.{Metric, Schema}

-- What reading and decoding the body gives.
pub data Decoded (A : Type 0) : Type 0 where
  no_body : Decoded A
  bad_body : Decoded A
  decoded : A → Decoded A

-- The status of the reply, and what the publisher was given.
pub record Written : Type 0 where
  pub status : ℕ
  pub batch : Option (List Metric)

abbrev pub refused_write : ℕ → Written
refused_write status = record { status = status; batch = none }

abbrev pub publish_write : (List Metric → Bool) → List Metric → Written
publish_write publish ms = record { status = if publish ms then 200 else 500; batch = some ms }

-- The fields that all formats fill in alike.
abbrev pub plain_metric : ℤ → Bytes → ℕ → ℤ → Bytes → List Bytes → Metric
plain_metric org name value time mtype tags = record {
  id = [];
  org_id = org;
  name = name;
  interval = pos 0;
  value = value;
  unit = codes "unknown";
  time = time;
  mtype = mtype;
  tags = tags;
}

abbrev pub tag_text : Bytes × Bytes → Bytes
tag_text (k, v) = k ++ b'=' ∷ v

pub record OpenTsdbMetric : Type 0 where
  pub metric : Bytes
  pub timestamp : ℤ
  pub value : ℕ
  pub tags : List (Bytes × Bytes)

-- FormatTags; the tags of a pooled metric are empty, and `m.tags` is in the order of the iteration.
unfoldable pub format_tags : OpenTsdbMetric → List Bytes → List Bytes
format_tags m tag_array = tag_array ++ map tag_text m.tags

pub record Label : Type 0 where
  pub name : Bytes
  pub value : Bytes

pub record TimeSeries : Type 0 where
  pub labels : List Label
  pub samples : List (ℕ × ℤ)

-- sample.Timestamp / 1000, which rounds towards zero.
abbrev pub seconds : ℤ → ℤ
seconds (pos n) = pos (n / 1000)
seconds (negsuc n) = if ltb (suc n) 1000 then pos 0 else negsuc (suc n / 1000 - 1)

-- The name and the tags after the labels; `tag_set` is what came before.
unfoldable pub read_labels : List Label → Bytes → List Bytes → Bytes × List Bytes
read_labels [] name tag_set = (name, tag_set)
read_labels (l ∷ ls) name tag_set =
    let rest = read_labels ls in
    if l.name == codes "__name__"
    then rest l.value tag_set
    else rest name (tag_set ++ tag_text (l.name, l.value) ∷ [])

module _ (schema : Schema) (org : ℤ) where
  unfoldable pub open_tsdb_metric : OpenTsdbMetric → Metric
  unfolding format_tags
  open_tsdb_metric ts =
      schema.set_id
        (plain_metric org ts.metric ts.value ts.timestamp (codes "gauge") (format_tags ts []))

  -- OpenTSDBWrite
  unfoldable pub open_tsdb_write : (List Metric → Bool) → Decoded (List OpenTsdbMetric) → Written
  unfolding open_tsdb_metric
  open_tsdb_write publish no_body = refused_write 400
  open_tsdb_write publish bad_body = refused_write 400
  open_tsdb_write publish (decoded req) = publish_write publish (map open_tsdb_metric req)

  abbrev pub sample_metric : Bytes → List Bytes → ℕ × ℤ → Metric
  sample_metric name tag_set (value, timestamp) =
      schema.set_id (plain_metric org name value (seconds timestamp) (codes "gauge") tag_set)

  abbrev pub named_series : Bytes × List Bytes → List (ℕ × ℤ) → Option (List Metric)
  named_series (name, tag_set) samples =
      if not (is_empty name) then some (map (sample_metric name tag_set) samples) else none

  -- The metrics of one series, `none` for one without a name.
  unfoldable pub series_metrics : TimeSeries → Option (List Metric)
  unfolding read_labels
  series_metrics ts = named_series (read_labels ts.labels [] []) ts.samples

  -- The buffer after the series, `none` once a series has no name.
  unfoldable pub all_series : List TimeSeries → Option (List Metric)
  unfolding series_metrics
  all_series [] = some []
  all_series (ts ∷ tss) = do ms ← series_metrics ts; rest ← all_series tss; some (ms ++ rest)

  abbrev pub publish_series : (List Metric → Bool) → Option (List Metric) → Written
  publish_series publish none = refused_write 400
  publish_series publish (some ms) = publish_write publish ms

  -- PrometheusMTWrite
  unfoldable pub prometheus_mt_write : (List Metric → Bool) → Decoded (List TimeSeries) → Written
  unfolding all_series
  prometheus_mt_write publish no_body = refused_write 400
  prometheus_mt_write publish bad_body = refused_write 400
  prometheus_mt_write publish (decoded tss) = publish_series publish (all_series tss)
