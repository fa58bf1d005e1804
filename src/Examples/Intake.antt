-- ===== src/Examples/Intake.antt =====
-- The metrics and requests of the examples.
use tsdb_gw.Base.{
  All, List, [], arith, false, inl, length, none, refl, some, true, ℕ, ◌++◌, ◌+◌, ◌<◌, ◌∷◌, ◌≡◌,
  ◌⊎◌,
}
use tsdb_gw.Base.Eq.{bytes_eq, int_eq, nat_eq, bytes_eqb}
use tsdb_gw.Base.Int.{pos, ℤ}
use tsdb_gw.Base.Map.{Map, get, put}
use tsdb_gw.Base.Text.{Bytes, codes, sort_strings}
use tsdb_gw.Datadog.{Series, create_tag_set, data_dog_check, data_dog_series}
use tsdb_gw.Datadog.Tags.{IsSorted, create_tag_set-IsSorted, occurrences, AreTagsOf}
use tsdb_gw.Ingest.Formats.{TimeSeries, decoded, plain_metric, prometheus_mt_write}
use tsdb_gw.Ingest.Handler.{World, finish_metrics}
use tsdb_gw.Ingest.Handler.Laws.{IsHonest, finish_metrics-IsHonest}
use tsdb_gw.Ingest.Prepare.{Context, prepare_ingest}
use tsdb_gw.Ingest.Prepare.Laws.{
  errors_from, prepare_ingest_isolates, prepare_ingest_reports, prepare_ingest_total, valid_metrics,
}
use tsdb_gw.Ingest.RateLimit.{Limiters}
use tsdb_gw.Ingest.Response.{or_no_error}
use tsdb_gw.Ingest.Response.Laws.{positions, take}
use tsdb_gw.Metric.{Metric, plain_schema}
use tsdb_gw.Publish.{publish, null_publisher, published}

abbrev pub cpu : Metric
cpu = record {
  id = [];
  org_id = pos 7;
  name = codes "cpu.load";
  interval = pos 10;
  value = 0;
  unit = codes "unknown";
  time = pos 1000;
  mtype = codes "gauge";
  tags = [];
}

abbrev pub nameless : Metric
nameless = record cpu { name = [] }

abbrev tenant : Context
tenant = record { id = pos 10; is_admin = false }

abbrev batch : List Metric
batch = cpu ∷ nameless ∷ cpu ∷ []

prepare_ingest_total_example :
    ((prepare_ingest plain_schema tenant batch).to_publish
      ≡ valid_metrics plain_schema tenant batch)
    × (length (prepare_ingest plain_schema tenant batch).to_publish
          + (prepare_ingest plain_schema tenant batch).resp.invalid
        ≡ 3)
prepare_ingest_total_example = prepare_ingest_total plain_schema tenant batch

prepare_ingest_reports_example :
    or_no_error (
      get
        (prepare_ingest plain_schema tenant batch).resp.validation_errors
        (codes "name cannot be empty"))
    ≡ record {
      count =
          length
            (positions (codes "name cannot be empty") (errors_from plain_schema tenant 0 batch));
      example_ids =
          take 9
            (positions (codes "name cannot be empty") (errors_from plain_schema tenant 0 batch));
    }
prepare_ingest_reports_example =
    prepare_ingest_reports plain_schema tenant batch (codes "name cannot be empty")

prepare_ingest_isolates_example :
    All (λ (m : Metric). m.org_id ≡ pos 10) (prepare_ingest plain_schema tenant batch).to_publish
prepare_ingest_isolates_example = prepare_ingest_isolates plain_schema tenant batch refl

abbrev calm : World
calm = record {
  gone_reading = false;
  gone_limited = false;
  gone = false;
  waited = true;
  publisher = null_publisher;
}

abbrev one_limit : Limiters
one_limit = (pos 10, pos 1) ∷ []

finish_metrics-IsHonest_example :
    IsHonest plain_schema one_limit calm tenant batch
      (finish_metrics plain_schema one_limit calm tenant batch)
finish_metrics-IsHonest_example = finish_metrics-IsHonest plain_schema one_limit calm tenant batch

limited : get one_limit (pos 10) ≡ some (pos 1)
unfolding get
limited = refl

two_valid : 1 < length (prepare_ingest plain_schema tenant batch).to_publish
unfolding prepare_ingest
two_valid = omega arith

abbrev counted_orgs : Map ℤ ℕ
counted_orgs = (pos 7, 3) ∷ []

published_batch : publish null_publisher batch ≡ published counted_orgs
unfolding publish null_publisher get put
published_batch = refl

abbrev up_series : TimeSeries
up_series = record {
  labels = record { name = codes "__name__"; value = codes "up" } ∷ [];
  samples = (0, pos 1500) ∷ [];
}

abbrev nameless_series : TimeSeries
nameless_series = record {
  labels = record { name = codes "job"; value = codes "a" } ∷ [];
  samples = [];
}

abbrev up_metric : Metric
up_metric = plain_metric (pos 10) (codes "up") 0 (pos 1) (codes "gauge") []

written_series :
    (prometheus_mt_write plain_schema (pos 10) (λ ms. true) (decoded (up_series ∷ []))).batch
    ≡ some (up_metric ∷ [])
unfolding prometheus_mt_write bytes_eqb
written_series = refl

abbrev dog_series : Series
dog_series = record {
  name = codes "up";
  points = (1, 0) ∷ [];
  tags = [];
  host = codes "h";
  mtype = codes "gauge";
  device = [];
}

abbrev dog_metric : Metric
dog_metric = plain_metric (pos 10) (codes "up") 0 (pos 1) (codes "gauge") (codes "host=h" ∷ [])

given_series :
    ((data_dog_series plain_schema
        (λ n. pos n)
        (pos 10)
        (λ ms. true)
        (decoded (dog_series ∷ []))).batch
      ≡ some (dog_metric ∷ []))
    ⊎ ((data_dog_check plain_schema
          (λ n. pos n)
          (pos 10)
          (λ ms. true)
          (λ s. (false, []))
          none).batch
        ≡ some (dog_metric ∷ []))
unfolding data_dog_series sort_strings
given_series = inl refl

abbrev host_tags : List Bytes
host_tags = create_tag_set (codes "h") (codes "eth0") (codes "env:prod" ∷ [])

create_tag_set-IsSorted_example :
    IsSorted host_tags
    × (outs : List Bytes) × AreTagsOf (codes "env:prod" ∷ []) outs
    × ((tag : Bytes)
        → occurrences tag host_tags
          ≡ occurrences tag ((codes "device=eth0" ∷ []) ++ codes "host=h" ∷ outs))
create_tag_set-IsSorted_example =
    create_tag_set-IsSorted (codes "h") (codes "eth0") (codes "env:prod" ∷ [])
