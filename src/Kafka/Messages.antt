-- ===== src/Kafka/Messages.antt =====
-- The messages of one metric are those that the settings ask for.
use tsdb_gw.Base.{
  Bool-cases, List, Option, [], ap, append-nil, append_assoc, arith, false, if◌then◌else◌, inl, inr,
  none, refl, some, subst, sym, true, ℕ, ◌++◌, ◌∙◌, ◌∷◌, ◌≡◌,
}
use tsdb_gw.Base.Eq.{bytes_eq, int_eq, nat_eq, ◌==◌}
use tsdb_gw.Base.Int.{int_eqb, int_eqb_iff, ℤ}
use tsdb_gw.Base.Map.{Map, get, get-put, put}
use tsdb_gw.Base.Text.{Bytes}
use tsdb_gw.Kafka.{OrgIdRewrite, TopicSettings}
use tsdb_gw.Kafka.Encode.{
  MetricDataBuffer, Options, Turn, Wire, add_message, buffer_of, data_from_metric_data, is_skipped,
  metric_data, metric_point, metric_point_no_org, partition_of, publish_topic, publish_topics,
  restore_org, rewrite_org, rewritten, to_uint32,
}
use tsdb_gw.Kafka.Expected.{
  all_sent, all_sent-append, expected, is_wanted_lem, name-restore_org, name-rewrite_org,
  org_id-rewrite_org, restored, routes, sent_org,
}
use tsdb_gw.Keycache.{KeyCache, MKey, touch}
use tsdb_gw.Metric.{Metric}

module _ {P : Type 0} (wire : Wire P) (options : Options) where
  -- `reads` finds the organisation and the facts in the data of a message, and `IsMarked` says that
  -- the id of a metric goes with its other fields, as it does after `SetId`.
  module _ {F : Type 0} (facts : Metric → F) (place : P → ℤ → F → ℕ → ℤ)
      (facts-set_id : (m : Metric) → facts (wire.schema.set_id m) ≡ facts m)
      (facts-org : (m : Metric) (org : ℤ) → facts (record m { org_id = org }) ≡ facts m)
      (reads : Bytes → ℤ × F) (IsMarked : Metric → Type 0)
      (marks : (m : Metric) → IsMarked (wire.schema.set_id m))
      (encodes : (m : Metric)
        → IsMarked m
        → (bytes : Bytes) × (wire.marshal m ≡ some bytes) × (reads bytes ≡ (m.org_id, facts m)))
      (encodes_point : (m : Metric)
        → options.v2 ≡ true
        → IsMarked m
        → (k : MKey) × (wire.mkey_of m.id ≡ some k)
          × (bytes : Bytes) × (wire.marshal_point options.v2_org k m.value (to_uint32 m.time)
              ≡ some bytes)
          × (reads bytes ≡ (m.org_id, facts m)))
      (partitions : (p : P) (m : Metric) (n : ℕ)
        → wire.partition p m n ≡ some (place p m.org_id (facts m) n)) where
    abbrev whole_data : Bytes → MetricDataBuffer
    whole_data bytes = record { bytes = bytes; mtype = metric_data }

    abbrev point_buffer : Bytes → MetricDataBuffer
    point_buffer bytes = record {
      bytes = bytes;
      mtype = if options.v2_org then metric_point else metric_point_no_org;
    }

    -- Whether as a point or whole, the data of a metric is made and can be read.
    data_made :
        (cache : KeyCache) (m : Metric)
        → IsMarked m
        → (b : MetricDataBuffer) × ((data_from_metric_data wire options cache m).1 ≡ some b)
          × (reads b.bytes ≡ (m.org_id, facts m))
    unfolding data_from_metric_data
    data_made cache m h = elim (Bool-cases options.v2) [
      | inr plain ↦ let (bytes, e, r) = encodes m h in (whole_data bytes, rw (plain, e) refl, r)
      | inl keyed ↦
          let (k, known_id, bytes, e, r) = encodes_point m keyed h in
          let (all, f, s) = encodes m h in
          elim (Bool-cases (touch cache k).1) [
            | inl known ↦ (point_buffer bytes, rw (keyed, known_id, known, e) refl, r)
            | inr fresh ↦ (whole_data all, rw (keyed, known_id, fresh, f) refl, s)
          ]
    ]

    -- The buffers that are kept for an organisation hold its data of the metric.
    abbrev pub OwnBuffers : F → Map ℤ MetricDataBuffer → Type 0
    OwnBuffers fs buffers =
        (org : ℤ) (b : MetricDataBuffer) → get buffers org ≡ some b → reads b.bytes ≡ (org, fs)

    pub record IsRouted (name : Bytes) (org : ℤ) (fs : F) (sent : List (Bytes × ℤ × (ℤ × F)))
        (t : Turn wire options) : Type 0 where
      pub fine : t.fine ≡ true
      pub marked : IsMarked t.metric
      pub same_name : t.metric.name ≡ name
      pub same_org : t.metric.org_id ≡ org
      pub same_facts : facts t.metric ≡ fs
      pub buffers : OwnBuffers fs t.buffers
      pub topics : all_sent reads t.payload ≡ sent

    facts-restore_org :
        (original : ℤ) (m : Metric) → facts (restore_org wire options original m) ≡ facts m
    unfolding restore_org
    facts-restore_org original m =
        ground (arith, facts-set_id (record m { org_id = original }), facts-org m original)

    facts-rewrite_org :
        (r : OrgIdRewrite) (m : Metric) → facts (rewrite_org wire options r m) ≡ facts m
    unfolding rewrite_org
    facts-rewrite_org r m =
        ground (arith, facts-set_id (record m { org_id = r.target }), facts-org m r.target)

    pub no_buffers : (fs : F) → OwnBuffers fs []
    unfolding get
    no_buffers fs org b e = cc e

    pub same_metric : (m n : Metric) → some m ≡ some n → m ≡ n
    same_metric m n e = ground arith

    restore-IsMarked :
        (original : ℤ) (m : Metric) → IsMarked m → IsMarked (restore_org wire options original m)
    unfolding restore_org
    restore-IsMarked original m h = elim (Bool-cases (m.org_id == original)) [
      | inl same ↦ rw same h
      | inr moved ↦ rw moved (marks (record m { org_id = original }))
    ]

    rewrite-IsMarked :
        (r : OrgIdRewrite) (m : Metric) → IsMarked m → IsMarked (rewrite_org wire options r m)
    unfolding rewrite_org
    rewrite-IsMarked r m h = elim (Bool-cases (m.org_id == r.source)) [
      | inl moved ↦ rw moved (marks (record m { org_id = r.target }))
      | inr same ↦ rw same h
    ]

    put-OwnBuffers :
        (fs : F) (buffers : Map ℤ MetricDataBuffer) (org : ℤ) (b : MetricDataBuffer)
        → OwnBuffers fs buffers
        → reads b.bytes ≡ (org, fs)
        → OwnBuffers fs (put buffers org b)
    put-OwnBuffers fs buffers org b h e o c found = elim (Bool-cases (int_eqb org o)) [
      | inl same ↦ ground (arith, get-put buffers org o b, int_eqb_iff org o)
      | inr other ↦ h o c (ground (arith, get-put buffers org o b))
    ]

    partition_of-IsRouted :
        (topic : TopicSettings P) (original : ℤ) (m : Metric) (b : MetricDataBuffer)
        (t : Turn wire options)
        → t.fine ≡ true
        → IsMarked m
        → OwnBuffers (facts m) t.buffers
        → reads b.bytes ≡ (m.org_id, facts m)
        → IsRouted m.name original
            (facts m)
            (all_sent reads t.payload
              ++ expected wire options facts place topic m.org_id (facts m) ∷ [])
            (partition_of wire options topic original m b t
              (wire.partition topic.partitioner m topic.num_partitions))
    partition_of-IsRouted topic original m b t f h k e =
        rw (partitions topic.partitioner m topic.num_partitions) (record {
          fine = f;
          marked = restore-IsMarked original m h;
          same_name = name-restore_org wire options original m;
          same_org = restored wire options original m;
          same_facts = facts-restore_org original m;
          buffers = k;
          topics =
              all_sent-append reads t.payload (record {
                topic = topic.name;
                partition = place topic.partitioner m.org_id (facts m) topic.num_partitions;
                value = b;
              })
              ∙ ap
                  (λ d.
                    all_sent reads t.payload
                    ++ (
                      topic.name,
                      place topic.partitioner m.org_id (facts m) topic.num_partitions,
                      d,
                    )
                      ∷ [])
                  e;
        })

    fresh_buffer :
        (topic : TopicSettings P) (original : ℤ) (m : Metric) (t : Turn wire options)
        (b : MetricDataBuffer)
        → (data_from_metric_data wire options t.cache m).1 ≡ some b
        → t.fine ≡ true
        → IsMarked m
        → OwnBuffers (facts m) t.buffers
        → reads b.bytes ≡ (m.org_id, facts m)
        → IsRouted m.name original
            (facts m)
            (all_sent reads t.payload
              ++ expected wire options facts place topic m.org_id (facts m) ∷ [])
            (add_message wire options topic original m (buffer_of wire options t m none))
    fresh_buffer topic original m t b made f h k e = rw made (
        partition_of-IsRouted topic original m b
          (record t {
            cache = (data_from_metric_data wire options t.cache m).0;
            buffers = put t.buffers m.org_id b;
          })
          f h (put-OwnBuffers (facts m) t.buffers m.org_id b k e) e)

    buffered :
        (topic : TopicSettings P) (original : ℤ) (m : Metric) (t : Turn wire options)
        (o : Option MetricDataBuffer)
        → get t.buffers m.org_id ≡ o
        → t.fine ≡ true
        → IsMarked m
        → OwnBuffers (facts m) t.buffers
        → IsRouted m.name original
            (facts m)
            (all_sent reads t.payload
              ++ expected wire options facts place topic m.org_id (facts m) ∷ [])
            (add_message wire options topic original m (buffer_of wire options t m o))
    buffered topic original m t (some b) present f h k =
        partition_of-IsRouted topic original m b t f h k (k m.org_id b present)
    buffered topic original m t none present f h k =
        let (b, made, e) = data_made t.cache m h in fresh_buffer topic original m t b made f h k e

    skips :
        (t : Turn wire options) (topic : TopicSettings P)
        → t.fine ≡ true
        → is_skipped wire options topic t.metric.name t.metric.org_id ≡ true
        → publish_topic wire options t topic ≡ t
    unfolding publish_topic
    skips t topic f s = ground arith

    takes :
        (t : Turn wire options) (topic : TopicSettings P)
        → t.fine ≡ true
        → is_skipped wire options topic t.metric.name t.metric.org_id ≡ false
        → publish_topic wire options t topic
          ≡ rewritten wire options topic t.metric.org_id t
              (rewrite_org wire options topic.org_id_rewrite t.metric)
    unfolding publish_topic
    takes t topic f s = rw (f, s) refl

    after_first :
        (t next : Turn wire options) (topic : TopicSettings P) (topics : List (TopicSettings P))
        → publish_topic wire options t topic ≡ next
        → publish_topics wire options t (topic ∷ topics) ≡ publish_topics wire options next topics
    unfolding publish_topics
    after_first t next topic topics e = ap (λ x. publish_topics wire options x topics) e

    pub publish_topics-IsRouted :
        (t : Turn wire options) (topics : List (TopicSettings P))
        → t.fine ≡ true
        → IsMarked t.metric
        → OwnBuffers (facts t.metric) t.buffers
        → IsRouted t.metric.name t.metric.org_id
            (facts t.metric)
            (all_sent reads t.payload
              ++ routes wire options facts place topics t.metric.name t.metric.org_id
                  (facts t.metric))
            (publish_topics wire options t topics)
    unfolding routes
    publish_topics-IsRouted t [] f h k =
        unfold publish_topics in
        record {
          fine = f;
          marked = h;
          same_name = refl;
          same_org = refl;
          same_facts = refl;
          buffers = k;
          topics = sym (append-nil (all_sent reads t.payload));
        }
    publish_topics-IsRouted t (topic ∷ topics) f h k =
        elim (Bool-cases (is_skipped wire options topic t.metric.name t.metric.org_id)) [
          | inl skipped ↦
              rw
                (
                  after_first t t topic topics (skips t topic f skipped),
                  is_wanted_lem wire options topic t.metric.name t.metric.org_id,
                  skipped,
                )
                (publish_topics-IsRouted t topics f h k)
          | inr kept ↦
              let m = rewrite_org wire options topic.org_id_rewrite t.metric in
              let next_turn : Turn wire options =
                rewritten wire options topic t.metric.org_id t m in
              let q : facts m ≡ facts t.metric = facts-rewrite_org topic.org_id_rewrite t.metric in
              let i : IsRouted m.name t.metric.org_id (facts m)
                  (all_sent reads t.payload
                    ++ expected wire options facts place topic m.org_id (facts m) ∷ [])
                  next_turn =
                buffered topic t.metric.org_id m t (get t.buffers m.org_id) refl f
                  (rewrite-IsMarked topic.org_id_rewrite t.metric h)
                  (subst (λ fs. OwnBuffers fs t.buffers) (sym q) k) in
              let n : next_turn.metric.name ≡ t.metric.name =
                i.same_name ∙ name-rewrite_org wire options topic.org_id_rewrite t.metric in
              let o : m.org_id ≡ sent_org wire options topic.org_id_rewrite t.metric.org_id =
                org_id-rewrite_org wire options topic.org_id_rewrite t.metric in
              let tail =
                publish_topics-IsRouted next_turn topics i.fine i.marked
                  (subst (λ fs. OwnBuffers fs next_turn.buffers) (sym i.same_facts) i.buffers) in
              rw
                (
                  after_first t next_turn topic topics (takes t topic f kept),
                  is_wanted_lem wire options topic t.metric.name t.metric.org_id,
                  kept,
                )
                (record {
                  fine = tail.fine;
                  marked = tail.marked;
                  same_name = tail.same_name ∙ n;
                  same_org = tail.same_org ∙ i.same_org;
                  same_facts = tail.same_facts ∙ i.same_facts ∙ q;
                  buffers =
                      subst
                        (λ fs. OwnBuffers fs (publish_topics wire options next_turn topics).buffers)
                        (i.same_facts ∙ q) tail.buffers;
                  topics =
                      tail.topics
                      ∙ ap
                          (λ ts.
                            ts
                            ++ routes wire options facts place topics next_turn.metric.name
                                next_turn.metric.org_id (facts next_turn.metric))
                          i.topics
                      ∙ append_assoc (all_sent reads t.payload)
                          (expected wire options facts place topic m.org_id (facts m) ∷ [])
                          (routes wire options facts place topics next_turn.metric.name
                            next_turn.metric.org_id (facts next_turn.metric))
                      ∙ cc (n, i.same_org, i.same_facts, q, o);
                })
        ]
