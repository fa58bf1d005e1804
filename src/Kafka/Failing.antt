-- ===== src/Kafka/Failing.antt =====
-- A metric whose id is no key.
use tsdb_gw.Base.{
  Bool, Bool-cases, List, [], false, if◌then◌else◌, inl, inr, none, refl, some, true, ◌++◌, ◌∷◌,
  ◌≡◌,
}
use tsdb_gw.Base.Eq.{bytes_eq, int_eq, nat_eq}
use tsdb_gw.Base.Map.{get}
use tsdb_gw.Base.Text.{is_empty}
use tsdb_gw.Kafka.{TopicSettings}
use tsdb_gw.Kafka.Encode.{
  Collected, Message, Options, Turn, Wire, begin_turn, collect, collect_metric,
  data_from_metric_data, is_skipped, publish_batch, publish_topic, publish_topics, rewrite_org,
  with_interval,
}
use tsdb_gw.Keycache.{KeyCache}
use tsdb_gw.Metric.{Metric}

module _ {P : Type 0} (wire : Wire P) (options : Options) (topic : TopicSettings P)
    (topics : List (TopicSettings P)) (m : Metric) where
  no_data :
      (cache : KeyCache)
      → options.v2 ≡ true
      → wire.mkey_of m.id ≡ none
      → data_from_metric_data wire options cache m ≡ (cache, none)
  unfolding data_from_metric_data
  no_data cache v2 e = rw (v2, e) refl

  stopped_topic :
      (t : Turn wire options) (next_topic : TopicSettings P)
      → t.fine ≡ false
      → (publish_topic wire options t next_topic).fine ≡ false
  unfolding publish_topic
  stopped_topic t next_topic e = go t.fine _ e
    where
      go : (b : Bool) (u : Turn wire options) → b ≡ false → (if b then u else t).fine ≡ false
      go true u f = cc f
      go false u f = e

  stopped_topics :
      (t : Turn wire options) (ts : List (TopicSettings P))
      → t.fine ≡ false
      → (publish_topics wire options t ts).fine ≡ false
  unfolding publish_topics
  stopped_topics t [] e = e
  stopped_topics t (u ∷ ts) e =
      stopped_topics (publish_topic wire options t u) ts (stopped_topic t u e)

  module _ (v2 : options.v2 ≡ true) (unknown : wire.mkey_of m.id ≡ none)
      (interval : with_interval wire options m ≡ some m)
      (wanted : is_skipped wire options topic m.name m.org_id ≡ false)
      (unchanged : rewrite_org wire options topic.org_id_rewrite m ≡ m) where
    first_topic :
        (cache : KeyCache) (payload : List Message)
        → (publish_topic wire options (begin_turn wire options cache payload m) topic).fine ≡ false
    unfolding publish_topic get
    first_topic cache payload = rw (wanted, unchanged, no_data cache v2 unknown) refl

    fails_metric :
        (cache : KeyCache) (payload : List Message)
        → (collect_metric wire options (topic ∷ topics) cache payload m).fine ≡ false
    unfolding collect_metric publish_topics
    fails_metric cache payload = rw interval (
        stopped_topics (publish_topic wire options (begin_turn wire options cache payload m) topic)
          topics (first_topic cache payload))

    fails_batch :
        (cache : KeyCache) (payload : List Message) (before after : List Metric)
        → (collect wire options (topic ∷ topics) cache payload (before ++ m ∷ after)).fine ≡ false
    unfolding collect
    fails_batch cache payload [] after =
        go (collect_metric wire options (topic ∷ topics) cache payload m).fine _ _
          (fails_metric cache payload) (fails_metric cache payload)
      where
        go :
            (b : Bool) (c d : Collected wire options)
            → b ≡ false
            → d.fine ≡ false
            → (if b then c else d).fine ≡ false
        go true c d e f = cc e
        go false c d e f = f
    fails_batch cache payload (n ∷ before) after =
        go (collect_metric wire options (topic ∷ topics) cache payload n)
          (λ c. fails_batch c.cache c.payload before after)
      where
        go :
            (c : Collected wire options)
            → ((c : Collected wire options)
                → (collect wire options
                    (topic ∷ topics)
                    c.cache
                    c.payload
                    (before ++ m ∷ after)).fine
                  ≡ false)
            → (let d =
                  collect wire options (topic ∷ topics) c.cache c.payload (before ++ m ∷ after) in
                if c.fine
                then record d { metrics = c.metrics ++ d.metrics }
                else record c { metrics = c.metrics ++ (before ++ m ∷ after) }).fine
              ≡ false
        go c ih = elim (Bool-cases c.fine) [
          | inl good ↦ on_true c.fine _ _ good (ih c)
          | inr bad ↦ on_false c.fine _ _ bad bad
        ]
          where
            on_true :
                (b : Bool) (x y : Collected wire options)
                → b ≡ true
                → x.fine ≡ false
                → (if b then x else y).fine ≡ false
            on_true true x y e f = f
            on_true false x y e f = cc e

            on_false :
                (b : Bool) (x y : Collected wire options)
                → b ≡ false
                → y.fine ≡ false
                → (if b then x else y).fine ≡ false
            on_false true x y e f = cc e
            on_false false x y e f = f

    nonempty : (before after : List Metric) → is_empty (before ++ m ∷ after) ≡ false
    nonempty [] after = refl
    nonempty (n ∷ before) after = refl

    -- With v2, a metric whose id is no key, anywhere in a batch, fails the whole batch and nothing
    -- is sent, when the first topic takes it as it is and it has an interval.
    pub unknown_id_fails_batch :
        (send_messages : List Message → Bool) (cache : KeyCache) (before after : List Metric)
        → let o =
            publish_batch wire options true
              (topic ∷ topics)
              send_messages
              cache
              (before ++ m ∷ after) in
          (o.fine ≡ false) × (o.sent ≡ [])
    unfolding publish_batch
    unknown_id_fails_batch send_messages cache before after =
        rw (nonempty before after, fails_batch cache [] before after) (refl, refl)
