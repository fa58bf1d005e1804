-- ===== src/Ingest.antt =====
-- The HTTP ingestion of metrics (ingest/metrics.go, metrics_response.go, rate_limit.go,
-- opentsdb.go, prometheus.go). Counters of the stats library are left out.
pub mod Response
pub mod Prepare
pub mod RateLimit
pub mod Handler
pub mod Formats
