-- ===== src/Kafka/Encode.antt =====
-- dataFromMetricData and the loop of `Publish` (publish/kafka/publish.go). The buffers that are taken
-- from a pool and given back are their contents. `none` is the return of an error.
use tsdb_gw.Base.{
  Bool, List, Option, [], false, if◌then◌else◌, none, not, some, true, ℕ, ◌%◌, ◌&&◌, ◌++◌, ◌-◌, ◌^◌,
  ◌||◌, ◌∷◌,
}
use tsdb_gw.Base.Eq.{bytes_eq, int_eq, nat_eq, ◌==◌}
use tsdb_gw.Base.Int.{negsuc, pos, ℤ}
use tsdb_gw.Base.Map.{Map, get, put}
use tsdb_gw.Base.Number.{◌>>=◌}
use tsdb_gw.Base.Text.{Bytes, has_prefix, is_empty}
use tsdb_gw.Kafka.{OrgIdRewrite, TopicSettings}
use tsdb_gw.Keycache.{KeyCache, MKey, touch}
use tsdb_gw.Metric.{Metric, Schema}

pub data MetricDataType : Type 0 where
  metric_data : MetricDataType
  metric_point : MetricDataType
  metric_point_no_org : MetricDataType

pub record MetricDataBuffer : Type 0 where
  pub bytes : Bytes
  pub mtype : MetricDataType

-- The encoders and partitioners of metrictank. `marshal_point org` is the version byte and the rest
-- of a MetricPoint, with or without its organisation.
pub record Wire (P : Type 0) : Type 0 where
  pub schema : Schema
  pub mkey_of : Bytes → Option MKey
  pub marshal : Metric → Option Bytes
  pub marshal_point : Bool → MKey → ℕ → ℕ → Option Bytes
  pub partition : P → Metric → ℕ → Option ℤ
  pub retention : Bytes → ℤ

-- The flags v2 and v2-org, and the publisher's autoInterval.
pub record Options : Type 0 where
  pub v2 : Bool
  pub v2_org : Bool
  pub auto_interval : Bool

-- uint32(t)
abbrev pub to_uint32 : ℤ → ℕ
to_uint32 (pos n) = n % 2 ^ 32
to_uint32 (negsuc n) = 2 ^ 32 - 1 - n % 2 ^ 32

pub record Message : Type 0 where
  pub topic : Bytes
  pub partition : ℤ
  pub value : MetricDataBuffer

module _ {P : Type 0} (wire : Wire P) (options : Options) where
  abbrev pub full_data : Metric → Option MetricDataBuffer
  full_data m = do bytes ← wire.marshal m; some (record { bytes = bytes; mtype = metric_data })

  abbrev pub point_data : MKey → Metric → Option MetricDataBuffer
  point_data mkey m = do
    bytes ← wire.marshal_point options.v2_org mkey m.value (to_uint32 m.time)
    some (record {
      bytes = bytes;
      mtype = if options.v2_org then metric_point else metric_point_no_org;
    })

  abbrev pub touched_data : MKey → Metric → KeyCache × Bool → KeyCache × Option MetricDataBuffer
  touched_data mkey m (cache, known) = (cache, if known then point_data mkey m else full_data m)

  abbrev pub keyed_data : KeyCache → Metric → Option MKey → KeyCache × Option MetricDataBuffer
  keyed_data cache m none = (cache, none)
  keyed_data cache m (some mkey) = touched_data mkey m (touch cache mkey)

  -- dataFromMetricData
  unfoldable pub data_from_metric_data : KeyCache → Metric → KeyCache × Option MetricDataBuffer
  data_from_metric_data cache m =
      if options.v2 then keyed_data cache m (wire.mkey_of m.id) else (cache, full_data m)

  -- The variables of the loop over the topics: the metric, which `Publish` changes in place, the
  -- buffers by organisation, the key cache, the payload, and whether no error has been returned.
  pub record Turn : Type 0 where
    pub metric : Metric
    pub buffers : Map ℤ MetricDataBuffer
    pub cache : KeyCache
    pub payload : List Message
    pub fine : Bool

  unfoldable pub has_some_prefix : Bytes → List Bytes → Bool
  has_some_prefix name [] = false
  has_some_prefix name (prefix ∷ prefixes) = has_prefix name prefix || has_some_prefix name prefixes

  -- Whether the loop continues with the next topic.
  unfoldable pub is_skipped : TopicSettings P → Bytes → ℤ → Bool
  unfolding has_some_prefix
  is_skipped topic name org_id =
      has_some_prefix name topic.discard_prefixes
      || (not (topic.only_org_id == pos 0) && not (org_id == topic.only_org_id))

  unfoldable pub rewrite_org : OrgIdRewrite → Metric → Metric
  rewrite_org r m =
      if m.org_id == r.source then wire.schema.set_id (record m { org_id = r.target }) else m

  unfoldable pub restore_org : ℤ → Metric → Metric
  restore_org original m =
      if not (m.org_id == original) then wire.schema.set_id (record m { org_id = original }) else m

  abbrev pub buffer_of : Turn → Metric → Option MetricDataBuffer → Turn × Option MetricDataBuffer
  buffer_of t m (some b) = (t, some b)
  buffer_of t m none =
      let (cache, o) = data_from_metric_data t.cache m in
      (
        elim o [
          | none ↦ record t { cache = cache }
          | some b ↦ record t { cache = cache; buffers = put t.buffers m.org_id b }
        ],
        o,
      )

  abbrev pub partition_of : TopicSettings P → ℤ → Metric → MetricDataBuffer → Turn → Option ℤ → Turn
  partition_of topic original m b t none = record t { metric = m; fine = false }
  partition_of topic original m b t (some partition) = record t {
    metric = restore_org original m;
    payload = t.payload ++ record { topic = topic.name; partition = partition; value = b } ∷ [];
  }

  abbrev pub add_message : TopicSettings P → ℤ → Metric → Turn × Option MetricDataBuffer → Turn
  add_message topic original m (t, none) = record t { metric = m; fine = false }
  add_message topic original m (t, some b) =
      partition_of topic original m b t (wire.partition topic.partitioner m topic.num_partitions)

  abbrev pub rewritten : TopicSettings P → ℤ → Turn → Metric → Turn
  rewritten topic original t m =
      add_message topic original m (buffer_of t m (get t.buffers m.org_id))

  -- One topic; after an error the function has returned.
  unfoldable pub publish_topic : Turn → TopicSettings P → Turn
  unfolding data_from_metric_data restore_org
  publish_topic t topic =
      if t.fine
      then (if is_skipped topic t.metric.name t.metric.org_id
          then t
          else rewritten topic t.metric.org_id t (rewrite_org topic.org_id_rewrite t.metric))
      else t

  unfoldable pub publish_topics : Turn → List (TopicSettings P) → Turn
  unfolding publish_topic
  publish_topics t [] = t
  publish_topics t (topic ∷ topics) = publish_topics (publish_topic t topic) topics

  -- The interval that the schemas file has for the metric.
  unfoldable pub with_interval : Metric → Option Metric
  with_interval m =
      if m.interval == pos 0
      then (if options.auto_interval
          then some (wire.schema.set_id (record m { interval = wire.retention m.name }))
          else none)
      else some m

  -- What the loop over the metrics leaves: the metrics as they are then, the payload and the cache.
  pub record Collected : Type 0 where
    pub metrics : List Metric
    pub payload : List Message
    pub cache : KeyCache
    pub fine : Bool

  abbrev pub begin_turn : KeyCache → List Message → Metric → Turn
  begin_turn cache payload m = record {
    metric = m;
    buffers = [];
    cache = cache;
    payload = payload;
    fine = true;
  }

  abbrev pub collected : Turn → Collected
  collected t = record {
    metrics = t.metric ∷ [];
    payload = t.payload;
    cache = t.cache;
    fine = t.fine;
  }

  abbrev pub collect_prepared :
      List (TopicSettings P) → KeyCache → List Message → Metric → Option Metric → Collected
  collect_prepared topics cache payload m none = record {
    metrics = m ∷ [];
    payload = payload;
    cache = cache;
    fine = false;
  }
  collect_prepared topics cache payload m (some m') =
      collected (publish_topics (begin_turn cache payload m') topics)

  unfoldable pub collect_metric :
      List (TopicSettings P) → KeyCache → List Message → Metric → Collected
  unfolding publish_topics
  collect_metric topics cache payload m = collect_prepared topics cache payload m (with_interval m)

  unfoldable pub collect :
      List (TopicSettings P) → KeyCache → List Message → List Metric → Collected
  unfolding collect_metric
  collect topics cache payload [] = record {
    metrics = [];
    payload = payload;
    cache = cache;
    fine = true;
  }
  collect topics cache payload (m ∷ ms) =
      let c = collect_metric topics cache payload m in
      let d = collect topics c.cache c.payload ms in
      if c.fine
      then record d { metrics = c.metrics ++ d.metrics }
      else record c { metrics = c.metrics ++ ms }

  pub record Outcome : Type 0 where
    pub fine : Bool
    pub sent : List Message
    pub metrics : List Metric
    pub cache : KeyCache

  -- Publish: `has_producer` is producer ≠ nil, and `send` is producer.SendMessages, true for nil.
  unfoldable pub publish_batch :
      Bool → List (TopicSettings P) → (List Message → Bool) → KeyCache → List Metric → Outcome
  unfolding collect
  publish_batch has_producer topics send cache ms =
      let idle : Outcome = record { fine = true; sent = []; metrics = ms; cache = cache } in
      let c = collect topics cache [] ms in
      if not has_producer
      then idle
      else if is_empty ms
      then idle
      else if is_empty topics
      then idle
      else if c.fine
      then record { fine = send c.payload; sent = c.payload; metrics = c.metrics; cache = c.cache }
      else record { fine = false; sent = []; metrics = c.metrics; cache = c.cache }
