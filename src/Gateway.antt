-- ===== src/Gateway.antt =====
-- The gateway as one program: the routes of cmd/tsdb-gw/main.go, the handlers behind them, and what
-- a request does on its way through them. The routing itself is macaron's.
pub mod Serve
pub mod Isolation
pub mod Routes
pub mod Shutdown
use tsdb_gw.Api.{Handler, generate_handlers, given_handler}
use tsdb_gw.Base.{Bool, List, [], false, if◌then◌else◌, map, true, ◌∷◌}
use tsdb_gw.Base.Text.{Bytes, codes}
use tsdb_gw.Ingest.RateLimit.{rate_limit}

-- The handlers that initRoutes gives to GenerateHandlers.
pub data Endpoint : Type 0 where
  metrictank_endpoint : Bytes → Endpoint
  prometheus_endpoint capture_body bind_range graphite_endpoint : Endpoint
  prom_stats : Bytes → Endpoint
  metrics_endpoint data_dog_series_endpoint open_tsdb_endpoint : Endpoint
  prometheus_write_endpoint importer_endpoint : Endpoint

pub data Verb : Type 0 where
  get_verb post_verb any_verb : Verb

pub record Route : Type 0 where
  pub verb : Verb
  pub pattern_of : Bytes
  pub handlers : List (Handler Endpoint)

-- The flags: -enforce-roles, whether -timerange-limit and -importer-url are given, and UseRateLimit.
pub record RouteFlags : Type 0 where
  pub enforce_roles : Bool
  pub timerange_limit : Bool
  pub importer_url : Bool
  pub rate_limits : Bool

module _ (flags : RouteFlags) where
  abbrev pub generated : Bytes → Bool → Bool → List Endpoint → List (Handler Endpoint)
  generated kind datadog rate_limit es =
      generate_handlers kind flags.enforce_roles datadog rate_limit flags.rate_limits
        (map given_handler es)

  abbrev pub reading : Verb → Bytes → List Endpoint → Route
  reading verb pattern_of es = record {
    verb = verb;
    pattern_of = pattern_of;
    handlers = generated (codes "read") false false es;
  }

  abbrev pub writing : Verb → Bytes → Bool → Bool → List Endpoint → Route
  writing verb pattern_of datadog rate_limit es = record {
    verb = verb;
    pattern_of = pattern_of;
    handlers = generated (codes "write") datadog rate_limit es;
  }

  abbrev pub graphite_handlers : Bool → List Endpoint
  graphite_handlers limited =
      if limited
      then capture_body ∷ bind_range ∷ prom_stats (codes "graphite") ∷ graphite_endpoint ∷ []
      else prom_stats (codes "graphite") ∷ graphite_endpoint ∷ []

  -- initRoutes
  unfoldable pub init_routes : List Route
  init_routes =
      reading get_verb (codes "/metrics/index.json")
        (metrictank_endpoint (codes "/metrics/index.json") ∷ [])
      ∷ reading get_verb (codes "/graphite/metrics/index.json")
          (metrictank_endpoint (codes "/metrics/index.json") ∷ [])
      ∷ reading any_verb (codes "/prometheus/*") (prometheus_endpoint ∷ [])
      ∷ reading any_verb (codes "/graphite/*") (graphite_handlers flags.timerange_limit)
      ∷ writing post_verb (codes "/metrics") false true (metrics_endpoint ∷ [])
      ∷ writing post_verb (codes "/datadog/api/v1/series") true false
          (data_dog_series_endpoint ∷ [])
      ∷ writing post_verb (codes "/opentsdb/api/put") false false (open_tsdb_endpoint ∷ [])
      ∷ writing any_verb (codes "/prometheus/write") false false (prometheus_write_endpoint ∷ [])
      ∷ writing post_verb (codes "/metrics/delete") false false
          (metrictank_endpoint (codes "/metrics/delete") ∷ [])
      ∷ writing post_verb (codes "/tags/delSeries") false false
          (metrictank_endpoint (codes "/tags/delSeries") ∷ [])
      ∷ (if flags.importer_url
          then writing post_verb (codes "/metrics/import") false false (importer_endpoint ∷ []) ∷ []
          else [])
