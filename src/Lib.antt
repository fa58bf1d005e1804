-- ===== src/Lib.antt =====
-- tsdb-gw, a gateway in front of metrictank: it authenticates HTTP and Carbon requests, decodes and
-- validates metrics, publishes them to Kafka, and passes queries on.
--
-- The parts and the files that model them:
--   * api/middleware.go: `Api`. A request is what the middleware reads of it; `auth_handler` is
--     Auth, `dd_auth_handler` DDAuth. `Api.Creds` is about getAuthCreds, `Api.Impersonation` about
--     the header "X-Tsdb-Org". `Api.Chain` runs the handlers of a route one after the other,
--     `Api.Stats` has the counters of RequestStats.
--   * cmd/tsdb-gw/main.go: `Gateway` has the routes (initRoutes), `Gateway.Serve` what a request to
--     one of them meets, `Gateway.Shutdown` the goroutines of handleShutdown as steps.
--   * query/metrictank and ingest/mt_bulk_importer.go: `Metrictank`, which has what the upstream servers
--     receive; the headers that httputil.ReverseProxy removes are a parameter.
--   * metrics_client: `MetricsClient`.
--   * auth/auth.go, auth/file.go: `Auth` has the users behind shared pointers (a store of cells, as
--     the plugins hand out pointers that the middleware writes through), `Auth.File` the file plugin.
--   * auth/gcom: `Gcom.Token` and `Gcom.Instance` have the two caches and the checks that use them;
--     `Gcom.Token.Trust` has the steps of the token cache as a relation. auth/grafana-com.go and
--     auth/grafana_com_instance.go: `Gcom.Plugins`.
--   * ingest/metrics.go, metrics_response.go, rate_limit.go: `Ingest.Prepare`, `Ingest.Response`,
--     `Ingest.RateLimit` and, from the body to the reply, `Ingest.Handler`. ingest/opentsdb.go and
--     prometheus.go: `Ingest.Formats`.
--   * ingest/datadog: `Datadog`, with the metrics of a host in `Datadog.Intake`.
--   * ingest/carbon: `Carbon`; a run of flush is a run over a list of events. `Carbon.System` has
--     InitCarbon, Dispatch, the goroutines of flush and Stop together.
--   * publish/publish.go: `Publish`. publish/kafka/publish.go: `Kafka.Topics` (the flags),
--     `Kafka.Broker` (the broker addresses),
--     `Kafka.Setup` (New, whose topics `Kafka.Configured` traces back to the flags), `Kafka.Encode`
--     (dataFromMetricData and Publish), with the messages that are expected in `Kafka.Expected` and
--     the lemmas on one metric in `Kafka.Messages` and on a batch in `Kafka.Routing`.
--     `Kafka.Sequence` has batches one after the other, with failed sends and rounds of clearing.
--     publish/kafka/keycache: `Keycache`, which `Keycache.Refinement` compares with a set of keys.
--   * persister: `Persister`, with the mutex as a flag. persister/storage: `Persister.Setup` (New) and
--     `Persister.Storage`, with the handlers on top of it, which `Persister.Refinement` compares with a map of hosts.
--   * query/graphite, util/util.go, util/flags.go: `Graphite`.
--   * `Metric` is the metric that all parts pass on. `Base` has Go's maps, byte strings, integers and
--     number parsing. `Examples` has the theorems at concrete inputs.
--
-- The parts meet in records and function types: `Metric.Schema` is what the code relies on of
-- metrictank's MetricData (SetId and Validate keep the organisation, SetId the name and the time),
-- `Api.AuthPlugin` is the interface of the auth plugins, `Kafka.Encode.Wire` the encoders and the
-- partitioner of the Kafka publisher. A publisher is a function from a batch to whether it was taken.
--
-- Numbers: int and int64 are integers; where the code converts or wraps, the model writes that out
-- (int32 counts modulo 2^32, uint32 differences, int(uint64)). Text is a list of bytes. A map is an
-- association list, whose order stands for the order of an iteration. Time is in nanoseconds or in
-- seconds, as in the code. Loops are structural recursions over the data. Fuel bounds two of them: the
-- decimal printer, which cannot take more digits than the number itself, and the proxy's retries, which
-- the code ends after four attempts.
--
-- Not modelled: the HTTP, Kafka, Bigtable, ini, JSON, snappy and protobuf libraries and metrictank,
-- whose answers are arguments or, for Bigtable and JSON in the storage of the persister, records with laws;
-- statistics but those of requests, logging, tracing and pools; goroutines but those of the
-- shutdown, their steps being run one after the other under the lock that the code takes; the set-up
-- of the programs in cmd.
pub mod Base
pub mod Api
pub mod Auth
pub mod Carbon
pub mod Datadog
pub mod Examples
pub mod Gateway
pub mod Gcom
pub mod Graphite
pub mod Ingest
pub mod Kafka
pub mod Keycache
pub mod Metric
pub mod MetricsClient
pub mod Metrictank
pub mod Persister
pub mod Publish
