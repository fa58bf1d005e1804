-- ===== src/Examples/History.antt =====
-- Batches that Kafka is sent in the examples: the data of a message is the key of its metric.
use tsdb_gw.Base.{
  List, Option, [], ap, arith, false, none, refl, some, subst, sym, true, ◌++◌, ◌∙◌, ◌∷◌, ◌≡◌,
}
use tsdb_gw.Base.Eq.{bytes_eq, int_eq, nat_eq, bytes_eqb}
use tsdb_gw.Base.Int.{pos}
use tsdb_gw.Base.Map.{get, put}
use tsdb_gw.Base.Text.{Bytes, codes}
use tsdb_gw.Examples.Caches.{empty_cache, empty_cache-IsValid, key_one, key_one-IsKey}
use tsdb_gw.Examples.Intake.{cpu}
use tsdb_gw.Kafka.{TopicSettings}
use tsdb_gw.Kafka.Encode.{
  Message, MetricDataType, Options, Wire, collect, collect_metric, is_skipped, metric_data,
  metric_point, publish_batch, publish_topic, publish_topics, rewrite_org, with_interval,
}
use tsdb_gw.Kafka.Failing.{unknown_id_fails_batch}
use tsdb_gw.Kafka.History.{Consumer, IsOrdered}
use tsdb_gw.Kafka.Lost.{IsTaken, failed_send_hides_data}
use tsdb_gw.Kafka.Sequence.{clearing, points_follow_data, run_events, BatchEvent, batch}
use tsdb_gw.Keycache.{
  MKey, new_key_cache, cache_clear, cache_len, cache_touch, clear_round, new_cache, shard_touch,
  touch,
}
use tsdb_gw.Keycache.Seen.{IsKey, seen}
use tsdb_gw.Metric.{Metric, plain_schema}

abbrev key_bytes : MKey → Bytes
key_bytes k = k.org ∷ k.key

abbrev id_key : Bytes → Option MKey
id_key [] = none
id_key (c ∷ s) = some key_one

abbrev key_wire : Wire Bytes
key_wire = record {
  schema = plain_schema;
  mkey_of = id_key;
  marshal = λ m. some (key_bytes key_one);
  marshal_point = λ org k v t. some (key_bytes k);
  partition = λ p m n. some (pos 0);
  retention = λ s. pos 10;
}

abbrev points : Options
points = record { v2 = true; v2_org = true; auto_interval = false }

id_key-IsKey : (s : Bytes) (k : MKey) → id_key s ≡ some k → IsKey k.key
id_key-IsKey [] k e = cc e
id_key-IsKey (c ∷ s) k e = subst (λ (j : MKey). IsKey j.key) (same_mkey key_one k e) key_one-IsKey
  where
    same_mkey : (a b : MKey) → some a ≡ some b → a ≡ b
    same_mkey a b f = ground arith

id_key-bytes : (s : Bytes) (k : MKey) → id_key s ≡ some k → key_bytes key_one ≡ key_bytes k
id_key-bytes [] k e = cc e
id_key-bytes (c ∷ s) k e = ap key_bytes (same_mkey key_one k e)
  where
    same_mkey : (a b : MKey) → some a ≡ some b → a ≡ b
    same_mkey a b f = ground arith

same_data : (a b : Bytes) → some a ≡ some b → a ≡ b
same_data a b f = ground arith

abbrev reader : Consumer Bytes key_wire points
reader = record {
  key_of = λ b. b.bytes;
  read = key_bytes;
  keys = id_key-IsKey;
  reads_metric =
      λ m bytes k e f. sym (same_data (key_bytes key_one) bytes e) ∙ id_key-bytes m.id k f;
  reads_point = λ k value time bytes e. sym (same_data (key_bytes k) bytes e);
}

abbrev plain_topic : TopicSettings Bytes
plain_topic = record {
  name = codes "mdm";
  partitioner = codes "bySeries";
  num_partitions = 1;
  only_org_id = pos 0;
  discard_prefixes = [];
  org_id_rewrite = record { source = pos 0; target = pos 0 };
}

abbrev known : Metric
known = record cpu { id = codes "id" }

abbrev events : List BatchEvent
events = batch (known ∷ known ∷ []) ∷ clearing ∷ batch (known ∷ []) ∷ []

abbrev sent_message : MetricDataType → Message
sent_message t = record {
  topic = codes "mdm";
  partition = pos 0;
  value = record { bytes = key_bytes key_one; mtype = t };
}

abbrev sent_all : List Message
sent_all = sent_message metric_data ∷ sent_message metric_point ∷ sent_message metric_point ∷ []

events_sent :
    run_events key_wire points reader refl true
      (plain_topic ∷ [])
      (λ ms. true)
      (new_key_cache 3600)
      []
      events
    ≡ some sent_all
unfolding run_events publish_batch collect collect_metric publish_topics publish_topic get put
    with_interval is_skipped rewrite_org touch cache_touch shard_touch new_key_cache new_cache
    bytes_eqb clear_round cache_clear cache_len
events_sent = refl

points_follow_data_example : IsOrdered key_wire points reader [] sent_all
points_follow_data_example =
    points_follow_data key_wire points reader refl true (plain_topic ∷ []) (λ ms. true) 3600 events
      sent_all events_sent

known-IsTaken : IsTaken key_wire points plain_topic known (pos 0)
known-IsTaken = record {
  interval = unfold with_interval in refl;
  wanted = unfold is_skipped in refl;
  unchanged = unfold rewrite_org in refl;
  placed = refl;
}

unseen : seen empty_cache key_one ≡ false
unfolding seen get
unseen = refl

failed_send_hides_data_example :
    let failed_batch =
      publish_batch key_wire points true
        (plain_topic ∷ [])
        (λ ms. false)
        empty_cache
        (known ∷ []) in
    let later =
      publish_batch key_wire points true
        (plain_topic ∷ [])
        (λ ms. true)
        failed_batch.cache
        (known ∷ []) in
    (failed_batch.fine ≡ false) × (later.sent ≡ sent_message metric_point ∷ [])
failed_send_hides_data_example =
    failed_send_hides_data key_wire points plain_topic empty_cache known key_one
      (sent_message metric_data).value (sent_message metric_point).value (pos 0) (λ ms. true) refl
      empty_cache-IsValid key_one-IsKey refl unseen known-IsTaken refl refl

unskipped : is_skipped key_wire points plain_topic cpu.name cpu.org_id ≡ false
unfolding is_skipped
unskipped = refl

has_interval : with_interval key_wire points cpu ≡ some cpu
unfolding with_interval
has_interval = refl

not_rewritten : rewrite_org key_wire points plain_topic.org_id_rewrite cpu ≡ cpu
unfolding rewrite_org
not_rewritten = refl

unknown_id_fails_batch_example :
    let o =
      publish_batch key_wire points true
        (plain_topic ∷ [])
        (λ ms. true)
        empty_cache
        ((known ∷ []) ++ cpu ∷ known ∷ []) in
    (o.fine ≡ false) × (o.sent ≡ [])
unknown_id_fails_batch_example =
    unknown_id_fails_batch key_wire points plain_topic [] cpu refl refl has_interval unskipped
      not_rewritten (λ ms. true) empty_cache (known ∷ []) (known ∷ [])
