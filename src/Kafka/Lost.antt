-- ===== src/Kafka/Lost.antt =====
-- What a failed SendMessages leaves behind.
use tsdb_gw.Base.{Bool, List, [], ap, false, refl, some, true, ◌∙◌, ◌∷◌, ◌≡◌}
use tsdb_gw.Base.Eq.{beq_refl, bytes_eq, int_eq, nat_eq}
use tsdb_gw.Base.Int.{ℤ}
use tsdb_gw.Base.Map.{get, put}
use tsdb_gw.Kafka.{TopicSettings}
use tsdb_gw.Kafka.Encode.{
  Message, MetricDataBuffer, Options, Outcome, Turn, Wire, begin_turn, collect, collect_metric,
  data_from_metric_data, full_data, is_skipped, point_data, publish_batch, publish_topic,
  publish_topics, restore_org, rewrite_org, rewritten, with_interval,
}
use tsdb_gw.Kafka.Points.{data_twice}
use tsdb_gw.Keycache.{KeyCache, MKey}
use tsdb_gw.Keycache.Seen.{IsKey, IsValid, seen}
use tsdb_gw.Metric.{Metric}

module _ {P : Type 0} (wire : Wire P) (options : Options) (topic : TopicSettings P) where
  abbrev pub message_of : ℤ → MetricDataBuffer → Message
  message_of partition b = record { topic = topic.name; partition = partition; value = b }

  -- A metric that the one topic takes as it is.
  pub record IsTaken (m : Metric) (partition : ℤ) : Type 0 where
    pub interval : with_interval wire options m ≡ some m
    pub wanted : is_skipped wire options topic m.name m.org_id ≡ false
    pub unchanged : rewrite_org wire options topic.org_id_rewrite m ≡ m
    pub placed : wire.partition topic.partitioner m topic.num_partitions ≡ some partition

  restore_same : (m : Metric) → restore_org wire options m.org_id m ≡ m
  unfolding restore_org
  restore_same m = rw (beq_refl m.org_id) refl

  abbrev start_turn : KeyCache → Metric → Turn wire options
  start_turn cache m = begin_turn wire options cache [] m

  rewritten_once :
      (cache : KeyCache) (m : Metric) (b : MetricDataBuffer) (partition : ℤ)
      → wire.partition topic.partitioner m topic.num_partitions ≡ some partition
      → (data_from_metric_data wire options cache m).1 ≡ some b
      → rewritten wire options topic m.org_id (start_turn cache m) m ≡ record {
        metric = m;
        buffers = put [] m.org_id b;
        cache = (data_from_metric_data wire options cache m).0;
        payload = message_of partition b ∷ [];
        fine = true;
      }
  unfolding get
  rewritten_once cache m b partition placed e = rw (e, placed, restore_same m) refl

  publish_one :
      (cache : KeyCache) (m : Metric) (b : MetricDataBuffer) (partition : ℤ)
      (send_messages : List Message → Bool)
      → IsTaken m partition
      → (data_from_metric_data wire options cache m).1 ≡ some b
      → publish_batch wire options true (topic ∷ []) send_messages cache (m ∷ []) ≡ record {
        fine = send_messages (message_of partition b ∷ []);
        sent = message_of partition b ∷ [];
        metrics = m ∷ [];
        cache = (data_from_metric_data wire options cache m).0;
      }
  unfolding publish_batch collect collect_metric publish_topics publish_topic
  publish_one cache m b partition send_messages t e =
      rw (t.interval, t.wanted, t.unchanged, rewritten_once cache m b partition t.placed e) refl

  -- With v2, when the whole data of a metric with a new key could not be sent, the next
  -- publication of the metric sends only its point, for a metric that the one topic takes as it
  -- is.
  pub failed_send_hides_data :
      (cache : KeyCache) (m : Metric) (k : MKey) (full_bytes point_bytes : MetricDataBuffer)
      (partition : ℤ) (send_messages : List Message → Bool)
      → options.v2 ≡ true
      → IsValid cache
      → IsKey k.key
      → wire.mkey_of m.id ≡ some k
      → seen cache k ≡ false
      → IsTaken m partition
      → full_data wire options m ≡ some full_bytes
      → point_data wire options k m ≡ some point_bytes
      → let failed_batch =
          publish_batch wire options true (topic ∷ []) (λ ms. false) cache (m ∷ []) in
        let later =
          publish_batch wire options true (topic ∷ []) send_messages failed_batch.cache (m ∷ []) in
        (failed_batch.fine ≡ false) × (later.sent ≡ message_of partition point_bytes ∷ [])
  failed_send_hides_data cache m k full_bytes point_bytes partition send_messages v2 valid_cache
        is_key e fresh t full point =
      let (one, two) = data_twice wire options cache m m k v2 valid_cache is_key e refl in
      let d = data_from_metric_data wire options cache m in
      let first_batch =
        publish_one cache m full_bytes partition (λ ms. false) t (one ∙ rw fresh full) in
      let second_batch = publish_one d.0 m point_bytes partition send_messages t (two ∙ point) in
      (
        ap (λ (o : Outcome wire options). o.fine) first_batch,
        ap
              (λ (o : Outcome wire options).
                (publish_batch wire options true (topic ∷ []) send_messages o.cache (m ∷ [])).sent)
              first_batch
            ∙ ap (λ (o : Outcome wire options). o.sent) second_batch,
      )
