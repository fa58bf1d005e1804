-- ===== src/Gateway/Serve.antt =====
-- What the handlers of the routes do with a request whose user is known. Decoded bodies, the answers
-- of the libraries and what happens around the request come with it.
use tsdb_gw.Api.{AuthPlugin, Request}
use tsdb_gw.Api.Chain.{Session, get_context, run_handlers, Handled}
use tsdb_gw.Auth.{User, Users}
use tsdb_gw.Base.{Bool, List, Option, [], false, none, some, true, ℕ, ◌∷◌}
use tsdb_gw.Base.Int.{ℤ}
use tsdb_gw.Base.Map.{Map}
use tsdb_gw.Base.Text.{Bytes}
use tsdb_gw.Datadog.{Answers, Series, data_dog_series}
use tsdb_gw.Gateway.{
  Endpoint, Route, bind_range, capture_body, data_dog_series_endpoint, graphite_endpoint,
  importer_endpoint, metrics_endpoint, metrictank_endpoint, open_tsdb_endpoint, prom_stats,
  prometheus_endpoint, prometheus_write_endpoint,
}
use tsdb_gw.Graphite.{FromTo, RangeError, validate_range}
use tsdb_gw.Ingest.Formats.{
  Decoded, OpenTsdbMetric, TimeSeries, Written, open_tsdb_write, prometheus_mt_write,
}
use tsdb_gw.Ingest.Handler.{
  no_body as no_metrics, Body, Format, Reply, World, binary, binary_snappy, format_of, json,
  metrics_binary, metrics_json, readable, refuse, unknown, unreadable,
}
use tsdb_gw.Ingest.Prepare.{Context}
use tsdb_gw.Ingest.RateLimit.{Limiters, is_rate_budget_available}
use tsdb_gw.Metric.{Metric, Schema}
use tsdb_gw.Metrictank.{
  Outgoing, Url, graphite_proxy, importer_proxy, metrictank_proxy, prometheus_proxy,
}
use tsdb_gw.Publish.{PublishResult, failed, nothing, publish, published}

-- The upstream servers and the limits, as they are when the program runs, and the headers that
-- httputil.ReverseProxy removes.
pub record Server : Type 0 where
  pub schema : Schema
  pub limiters : Limiters
  pub metrictank_url : Url
  pub graphite_url : Url
  pub importer_url : Url
  pub max_range : ℕ
  pub hop_by_hop : Map Bytes Bytes → List Bytes

-- A request behind the middleware. `bind_status` is the status with which the binding library
-- refuses the errors that Validate leaves, `none` if it goes on.
pub record Inbound : Type 0 where
  pub outgoing : Outgoing
  pub wildcard : Bytes
  pub content_type : Bytes
  pub body : Body
  pub world : World
  pub unmarshal : Bytes → Option (List Metric)
  pub unsnappy : Bytes → Option Bytes
  pub init_from_msg : Bytes → Option Bytes
  pub decode : Bytes → Option (List Metric)
  pub to_int64 : ℕ → ℤ
  pub series : Decoded (List Series)
  pub puts : Decoded (List OpenTsdbMetric)
  pub writes : Decoded (List TimeSeries)
  pub from_to : FromTo
  pub parse_date : Bytes → ℕ → ℕ → Option ℕ
  pub now : ℕ
  pub bind_status : List RangeError → Option ℕ

-- The status (`none` for that of the upstream server), what the publisher was given, and what was
-- passed on.
pub record Answer : Type 0 where
  pub status : Option ℕ
  pub batch : Option (List Metric)
  pub upstream : Option Outgoing

abbrev pub status_answer : ℕ → Answer
status_answer status = record { status = some status; batch = none; upstream = none }

abbrev pub forwarded : Outgoing → Answer
forwarded req = record { status = none; batch = none; upstream = some req }

abbrev pub reply_answer : Reply → Answer
reply_answer r = record { status = some r.status; batch = r.given_batch; upstream = none }

abbrev pub written_answer : Written → Answer
written_answer w = record { status = some w.status; batch = w.batch; upstream = none }

abbrev pub is_published : PublishResult → Bool
is_published nothing = true
is_published failed = false
is_published (published counts) = true

-- publish.Publish, true for a nil error
abbrev pub publish_front : (List Metric → Bool) → List Metric → Bool
publish_front publisher ms = is_published (publish publisher ms)

-- ctx.JSON writes its first status; later calls change nothing on the wire.
abbrev pub first_status : List ℕ → Option ℕ
first_status [] = none
first_status (status ∷ rest) = some status

abbrev pub answers_answer : Answers → Answer
answers_answer a = record { status = first_status a.statuses; batch = a.batch; upstream = none }

abbrev pub bind_answer : Option ℕ → Option Answer
bind_answer none = none
bind_answer (some status) = some (status_answer status)

module _ (server : Server) (inb : Inbound) where
  abbrev pub context_of : User → Context
  context_of u = record { id = u.id; is_admin = u.is_admin }

  abbrev pub metrics_by : Format → Context → Reply
  metrics_by binary ctx =
      metrics_binary server.schema server.limiters inb.world inb.unsnappy inb.init_from_msg
        inb.decode ctx false inb.body
  metrics_by binary_snappy ctx =
      metrics_binary server.schema server.limiters inb.world inb.unsnappy inb.init_from_msg
        inb.decode ctx true inb.body
  metrics_by json ctx =
      metrics_json server.schema server.limiters inb.world inb.unmarshal ctx inb.body
  metrics_by unknown ctx = refuse 400

  -- Metrics
  unfoldable pub handle_metrics : Context → Reply
  handle_metrics ctx = metrics_by (format_of inb.content_type) ctx

  -- CaptureBody: a body that cannot be read is answered with 500, and macaron calls no more handlers.
  abbrev pub capture : Body → Option Answer
  capture no_metrics = none
  capture unreadable = some (status_answer 500)
  capture (readable bytes) = none

  -- `none` if the handler writes no response.
  unfoldable pub serve_endpoint : User → Endpoint → Option Answer
  unfolding handle_metrics
  serve_endpoint u (metrictank_endpoint path) =
      some (
        forwarded (metrictank_proxy server.hop_by_hop server.metrictank_url u.id path inb.outgoing))
  serve_endpoint u prometheus_endpoint = some (
      forwarded
        (prometheus_proxy server.hop_by_hop server.metrictank_url u.id inb.wildcard inb.outgoing))
  serve_endpoint u capture_body = capture inb.body
  serve_endpoint u bind_range = bind_answer (
      inb.bind_status (
        validate_range inb.parse_date server.max_range inb.outgoing.url.path inb.from_to inb.now
          []))
  serve_endpoint u (prom_stats handler) = none
  serve_endpoint u graphite_endpoint = some (
      forwarded
        (graphite_proxy server.hop_by_hop server.graphite_url u.id inb.wildcard inb.outgoing))
  serve_endpoint u metrics_endpoint = some (reply_answer (handle_metrics (context_of u)))
  serve_endpoint u data_dog_series_endpoint = some (
      answers_answer (
        data_dog_series server.schema inb.to_int64 u.id (publish_front inb.world.publisher)
          inb.series))
  serve_endpoint u open_tsdb_endpoint = some (
      written_answer
        (open_tsdb_write server.schema u.id (publish_front inb.world.publisher) inb.puts))
  serve_endpoint u prometheus_write_endpoint = some (
      written_answer
        (prometheus_mt_write server.schema u.id (publish_front inb.world.publisher) inb.writes))
  serve_endpoint u importer_endpoint =
      some (forwarded (importer_proxy server.hop_by_hop server.importer_url u.id inb.outgoing))

-- A request on a route that macaron has chosen; `allow` is what the limiter of an organisation
-- answers.
unfoldable pub serve_route :
    Server → Inbound → AuthPlugin → (ℤ → Bool) → Users → Request → Route → Handled Answer × Session
unfolding run_handlers serve_endpoint
serve_route server inb plugin allow h req route =
    run_handlers plugin (λ org. is_rate_budget_available server.limiters org (allow org))
      (serve_endpoint server inb) req (get_context h) route.handlers
