-- ===== src/Kafka/Batches.antt =====
-- One batch of `Publish` and the history of a topic.
use tsdb_gw.Base.{
  Bool, List, Option, [], false, if◌then◌else◌, inl, inr, none, refl, some, subst, sym, true, ◌∷◌,
  ◌≡◌, ◌⊎◌, ◌++◌,
}
use tsdb_gw.Base.Eq.{bytes_eq, int_eq, nat_eq}
use tsdb_gw.Base.Int.{ℤ}
use tsdb_gw.Base.Map.{Map, get, put}
use tsdb_gw.Kafka.{TopicSettings}
use tsdb_gw.Kafka.Encode.{
  Collected, Message, MetricDataBuffer, Options, Turn, Wire, add_message, buffer_of,
  data_from_metric_data, is_skipped, partition_of, publish_topic, publish_topics, rewrite_org,
  rewritten, begin_turn, collect, collect_metric, collect_prepared, collected, with_interval,
}
use tsdb_gw.Kafka.History.{
  Consumer, IsGood, IsMade, Made, IsGood-forget, IsGood-kept, IsGood-made,
  data_from_metric_data-Made,
}
use tsdb_gw.Keycache.{KeyCache, MKey, touch}
use tsdb_gw.Metric.{Metric}

module _ {P K : Type 0} (wire : Wire P) (options : Options) (consumer : Consumer K wire options)
    (v2 : options.v2 ≡ true) where
  abbrev pub Good : List Message → KeyCache → List Message → Map ℤ MetricDataBuffer → Type 0
  Good = IsGood wire options consumer v2

  abbrev GoodTurn : List Message → Turn wire options → Type 0
  GoodTurn sent t = (t.fine ≡ false) ⊎ Good sent t.cache t.payload t.buffers

  kept-GoodTurn :
      (sent : List Message) (topic : TopicSettings P) (original org : ℤ) (m : Metric)
      (b : MetricDataBuffer) (t : Turn wire options) (o : Option ℤ)
      → Good sent t.cache t.payload t.buffers
      → get t.buffers org ≡ some b
      → GoodTurn sent (partition_of wire options topic original m b t o)
  kept-GoodTurn sent topic original org m b t none g e = inl refl
  kept-GoodTurn sent topic original org m b t (some p) g e =
      inr (IsGood-kept wire options consumer v2 sent t.cache t.payload t.buffers _ org g e)

  made-GoodTurn :
      (sent : List Message) (topic : TopicSettings P) (original org : ℤ) (m : Metric)
      (b : MetricDataBuffer) (t : Turn wire options) (k : MKey) (o : Option ℤ)
      → Good sent t.cache t.payload t.buffers
      → IsMade wire options consumer v2 t.cache k b
      → GoodTurn sent (
          partition_of wire options topic original m b
            (record t { cache = (touch t.cache k).0; buffers = put t.buffers org b })
            o)
  made-GoodTurn sent topic original org m b t k none g i = inl refl
  made-GoodTurn sent topic original org m b t k (some p) g i =
      inr (IsGood-made wire options consumer v2 sent t.cache t.payload t.buffers _ org k g i)

  abbrev with_data :
      Turn wire options
      → Metric
      → KeyCache × Option MetricDataBuffer
      → Turn wire options × Option MetricDataBuffer
  with_data t m (cache, none) = (record t { cache = cache }, none)
  with_data t m (cache, some b) =
      (record t { cache = cache; buffers = put t.buffers m.org_id b }, some b)

  added-GoodTurn :
      (sent : List Message) (topic : TopicSettings P) (original : ℤ) (m : Metric)
      (t : Turn wire options) (d : KeyCache × Option MetricDataBuffer)
      → Good sent t.cache t.payload t.buffers
      → Made wire options consumer v2 t.cache d
      → GoodTurn sent (add_message wire options topic original m (with_data t m d))
  added-GoodTurn sent topic original m t (c, none) g made = inl refl
  added-GoodTurn sent topic original m t (c, some b) g (k, same, i) =
      subst
        (λ x. GoodTurn sent (add_message wire options topic original m (with_data t m (x, some b))))
        (sym same) (made-GoodTurn sent topic original m.org_id m b t k _ g i)

  rewritten-GoodTurn :
      (sent : List Message) (topic : TopicSettings P) (original : ℤ) (m : Metric)
      (t : Turn wire options)
      → Good sent t.cache t.payload t.buffers
      → GoodTurn sent (rewritten wire options topic original t m)
  rewritten-GoodTurn sent topic original m t g = go (get t.buffers m.org_id) refl
    where
      fresh :
          (d : KeyCache × Option MetricDataBuffer)
          → Made wire options consumer v2 t.cache d
          → GoodTurn sent (
              add_message wire options topic original m (
                elim d.1 [
                  | none ↦ record t { cache = d.0 }
                  | some b ↦ record t { cache = d.0; buffers = put t.buffers m.org_id b }
                ],
                d.1,
              ))
      fresh (c, none) made = added-GoodTurn sent topic original m t (c, none) g made
      fresh (c, some b) made = added-GoodTurn sent topic original m t (c, some b) g made

      go :
          (o : Option MetricDataBuffer)
          → get t.buffers m.org_id ≡ o
          → GoodTurn sent (add_message wire options topic original m (buffer_of wire options t m o))
      go none e =
          fresh (data_from_metric_data wire options t.cache m)
            (data_from_metric_data-Made wire options consumer v2 t.cache m g.valid_cache)
      go (some b) e = kept-GoodTurn sent topic original m.org_id m b t _ g e

  publish_topic-GoodTurn :
      (sent : List Message) (t : Turn wire options) (topic : TopicSettings P)
      → GoodTurn sent t
      → GoodTurn sent (publish_topic wire options t topic)
  unfolding publish_topic
  publish_topic-GoodTurn sent t topic (inl e) = stopped t.fine _ e
    where
      stopped :
          (fine : Bool) (u : Turn wire options)
          → fine ≡ false
          → GoodTurn sent (if fine then u else t)
      stopped true u f = cc f
      stopped false u f = inl e
  publish_topic-GoodTurn sent t topic (inr g) =
      go t.fine (is_skipped wire options topic t.metric.name t.metric.org_id)
    where
      go :
          (fine skipped : Bool)
          → GoodTurn sent (
              if fine
              then (if skipped
                  then t
                  else rewritten wire options topic t.metric.org_id t
                      (rewrite_org wire options topic.org_id_rewrite t.metric))
              else t)
      go false skipped = inr g
      go true true = inr g
      go true false = rewritten-GoodTurn sent topic t.metric.org_id _ t g

  publish_topics-GoodTurn :
      (sent : List Message) (t : Turn wire options) (topics : List (TopicSettings P))
      → GoodTurn sent t
      → GoodTurn sent (publish_topics wire options t topics)
  unfolding publish_topics
  publish_topics-GoodTurn sent t [] h = h
  publish_topics-GoodTurn sent t (topic ∷ topics) h =
      publish_topics-GoodTurn sent (publish_topic wire options t topic) topics
        (publish_topic-GoodTurn sent t topic h)

  -- What the loop over the metrics leaves.
  abbrev pub GoodBatch : List Message → Collected wire options → Type 0
  GoodBatch sent c = (c.fine ≡ false) ⊎ Good sent c.cache c.payload []

  collect_metric-GoodBatch :
      (sent payload : List Message) (topics : List (TopicSettings P)) (cache : KeyCache)
      (m : Metric)
      → Good sent cache payload []
      → GoodBatch sent (collect_metric wire options topics cache payload m)
  unfolding collect_metric
  collect_metric-GoodBatch sent payload topics cache m g = go (with_interval wire options m)
    where
      forget : (t : Turn wire options) → GoodTurn sent t → GoodBatch sent (collected wire options t)
      forget t (inl e) = inl e
      forget t (inr h) =
          inr (IsGood-forget wire options consumer v2 sent t.cache t.payload t.buffers h)

      go :
          (o : Option Metric)
          → GoodBatch sent (collect_prepared wire options topics cache payload m o)
      go none = inl refl
      go (some n) =
          forget (publish_topics wire options (begin_turn wire options cache payload n) topics)
            (publish_topics-GoodTurn sent (begin_turn wire options cache payload n) topics (inr g))

  pub collect-GoodBatch :
      (sent payload : List Message) (topics : List (TopicSettings P)) (cache : KeyCache)
      (ms : List Metric)
      → Good sent cache payload []
      → GoodBatch sent (collect wire options topics cache payload ms)
  unfolding collect
  collect-GoodBatch sent payload topics cache [] g = inr g
  collect-GoodBatch sent payload topics cache (m ∷ ms) g =
      go (collect_metric wire options topics cache payload m)
        (collect_metric-GoodBatch sent payload topics cache m g)
        (λ c h. collect-GoodBatch sent c.payload topics c.cache ms h)
    where
      same_loop :
          (d : Collected wire options) (ns : List Metric)
          → GoodBatch sent d
          → GoodBatch sent (record d { metrics = ns })
      same_loop d ns (inl e) = inl e
      same_loop d ns (inr h) = inr h

      refused :
          (fine : Bool) (x y : Collected wire options)
          → fine ≡ false
          → y.fine ≡ false
          → GoodBatch sent (if fine then x else y)
      refused true x y e f = cc e
      refused false x y e f = inl f

      either :
          (fine : Bool) (x y : Collected wire options)
          → GoodBatch sent x
          → GoodBatch sent y
          → GoodBatch sent (if fine then x else y)
      either true x y h k = h
      either false x y h k = k

      go :
          (c : Collected wire options)
          → GoodBatch sent c
          → ((c : Collected wire options)
              → Good sent c.cache c.payload []
              → GoodBatch sent (collect wire options topics c.cache c.payload ms))
          → GoodBatch sent (
              let d = collect wire options topics c.cache c.payload ms in
              if c.fine
              then record d { metrics = c.metrics ++ d.metrics }
              else record c { metrics = c.metrics ++ ms })
      go c (inl e) ih = refused c.fine _ _ e e
      go c (inr h) ih =
          let d = collect wire options topics c.cache c.payload ms in
          either c.fine (record d { metrics = c.metrics ++ d.metrics })
            (record c { metrics = c.metrics ++ ms }) (same_loop d (c.metrics ++ d.metrics) (ih c h))
            (inr h)
