-- ===== src/Ingest/Handler.antt =====
-- The handlers of ingest/metrics.go from the request body to the reply. The body and the decoders
-- (encoding/json, snappy, metrictank's msg) come as what they answer.
pub mod Laws
use tsdb_gw.Base.{Bool, List, Option, if◌then◌else◌, length, none, not, some, ℕ}
use tsdb_gw.Base.Eq.{bytes_eq, int_eq, nat_eq, ◌==◌}
use tsdb_gw.Base.Text.{Bytes, codes}
use tsdb_gw.Ingest.Prepare.{Batch, Context, prepare_ingest}
use tsdb_gw.Ingest.RateLimit.{
  Limiters, RateError, exceeds_burst, rate_limit, refused, use_rate_limit,
}
use tsdb_gw.Ingest.Response.{MetricsResponse}
use tsdb_gw.Metric.{Metric, Schema}
use tsdb_gw.Publish.{PublishResult, failed, nothing, publish, published}

pub data Body : Type 0 where
  no_body : Body
  unreadable : Body
  readable : Bytes → Body

-- What happens around a request: whether the client is gone when the body has been read, when the
-- limiter has answered and before publishing, whether the limiter lets the batch through, and
-- whether the publisher takes a batch.
pub record World : Type 0 where
  pub gone_reading : Bool
  pub gone_limited : Bool
  pub gone : Bool
  pub waited : Bool
  pub publisher : List Metric → Bool

-- The status and, for 200, the response; and the batch that the publisher was given, if any.
pub record Reply : Type 0 where
  pub status : ℕ
  pub resp : Option MetricsResponse
  pub given_batch : Option (List Metric)

abbrev pub refuse : ℕ → Reply
refuse status = record { status = status; resp = none; given_batch = none }

abbrev pub reply_of : Batch → PublishResult → Reply
reply_of b failed = record { status = 500; resp = none; given_batch = some b.to_publish }
reply_of b nothing = record {
  status = 200;
  resp = some (record b.resp { published = length b.to_publish });
  given_batch = none;
}
reply_of b (published counts) = record {
  status = 200;
  resp = some (record b.resp { published = length b.to_publish });
  given_batch = some b.to_publish;
}

abbrev pub limit_status : RateError → ℕ
limit_status exceeds_burst = 413
limit_status refused = 429

abbrev pub after_limit : World → Batch → Option RateError → Reply
after_limit w b none = if w.gone then refuse 499 else reply_of b (publish w.publisher b.to_publish)
after_limit w b (some e) =
    if not w.gone_limited
    then refuse (limit_status e)
    else if w.gone
    then refuse 499
    else reply_of b (publish w.publisher b.to_publish)

-- What metricsJson and metricsBinary do once the metrics are decoded.
unfoldable pub finish_metrics : Schema → Limiters → World → Context → List Metric → Reply
finish_metrics schema limiters w ctx metrics =
    let b = prepare_ingest schema ctx metrics in
    after_limit w b (
      if use_rate_limit limiters
      then rate_limit limiters ctx.id (length b.to_publish) w.waited
      else none)

abbrev pub with_decoded : (List Metric → Reply) → Option (List Metric) → Reply
with_decoded next_step none = refuse 400
with_decoded next_step (some ms) = next_step ms

abbrev pub decode_json : (Bytes → Option (List Metric)) → (List Metric → Reply) → Bytes → Reply
decode_json unmarshal next_step body = with_decoded next_step (unmarshal body)

-- metricsJson
unfoldable pub metrics_json :
    Schema → Limiters → World → (Bytes → Option (List Metric)) → Context → Body → Reply
unfolding finish_metrics
metrics_json schema limiters w unmarshal ctx no_body = refuse 400
metrics_json schema limiters w unmarshal ctx unreadable =
    if w.gone_reading then refuse 499 else refuse 500
metrics_json schema limiters w unmarshal ctx (readable body) =
    decode_json unmarshal (finish_metrics schema limiters w ctx) body

abbrev pub or_unreadable : Option Bytes → Body
or_unreadable none = unreadable
or_unreadable (some b) = readable b

-- The body that metricsBinary reads; `unsnappy` is none where the compressed body breaks off.
abbrev pub inflated : Bool → (Bytes → Option Bytes) → Body → Body
inflated compressed unsnappy no_body = no_body
inflated compressed unsnappy unreadable = unreadable
inflated compressed unsnappy (readable body) =
    if compressed then or_unreadable (unsnappy body) else readable body

abbrev pub decode_message :
    (Bytes → Option (List Metric)) → (List Metric → Reply) → Option Bytes → Reply
decode_message decode next_step none = refuse 400
decode_message decode next_step (some msg) = decode_json decode next_step msg

abbrev pub read_message :
    World
    → (Bytes → Option Bytes)
    → (Bytes → Option (List Metric))
    → (List Metric → Reply)
    → Body
    → Reply
read_message w init_from_msg decode next_step no_body = refuse 400
read_message w init_from_msg decode next_step unreadable =
    if w.gone_reading then refuse 499 else refuse 500
read_message w init_from_msg decode next_step (readable bytes) =
    decode_message decode next_step (init_from_msg bytes)

-- metricsBinary: `init_from_msg` reads the header of the message and `decode` the metrics behind it.
unfoldable pub metrics_binary :
    Schema
    → Limiters
    → World
    → (Bytes → Option Bytes)
    → (init_from_msg : Bytes → Option Bytes) → (decode : Bytes → Option (List Metric)) → Context
    → Bool
    → Body
    → Reply
unfolding finish_metrics
metrics_binary schema limiters w unsnappy init_from_msg decode ctx compressed body =
    read_message w init_from_msg decode (finish_metrics schema limiters w ctx)
      (inflated compressed unsnappy body)

pub data Format : Type 0 where
  binary binary_snappy json : Format
  unknown : Format

-- The switch of `Metrics` on the content type.
unfoldable pub format_of : Bytes → Format
format_of content_type =
    if content_type == codes "rt-metric-binary"
    then binary
    else if content_type == codes "rt-metric-binary-snappy"
    then binary_snappy
    else if content_type == codes "application/json"
    then json
    else unknown
