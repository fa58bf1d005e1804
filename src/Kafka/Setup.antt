-- ===== src/Kafka/Setup.antt =====
-- `New` of the Kafka publisher (publish/kafka/publish.go): the checks and settings between the flags
-- and a publisher. What sarama, the TLS package and the reader of the schemas file answer are
-- arguments; `none` is log.Fatalf. Kafka numbers partitions by int32, so their number fits one.
use tsdb_gw.Base.{
  Bool, List, Option, [], false, if◌then◌else◌, length, none, not, refl, some, subst, true, ◌&&◌,
  ◌||◌, ◌∷◌, ◌≡◌, arith, some-injective, Bool-cases, inl, inr, ℕ, ◌∙◌, All, ◌+◌,
}
use tsdb_gw.Base.Int.{ℤ}
use tsdb_gw.Base.Number.{◌>>=◌}
use tsdb_gw.Base.Text.{Bytes, split}
use tsdb_gw.Kafka.{CompressionCodec, TopicSettings, get_compression}
use tsdb_gw.Kafka.Broker.{are_valid_brokers, IsBroker, are_valid_brokers-IsBroker}
use tsdb_gw.Kafka.Configured.{AreConfigured, IsConfigured, bind_some, parse_flags-AreConfigured}
use tsdb_gw.Kafka.Topics.{TopicFlags, parse_flags, parse_topic_settings}
use tsdb_gw.Keycache.{KeyCache, new_key_cache}

-- The answers of the libraries: whether they accept the version, the TLS files, the configuration,
-- the schemas file, the client and the producer, and the partitions that the client has for a topic.
pub record KafkaAnswers : Type 0 where
  pub version_ok : Bool
  pub schemas_ok : Bool
  pub tls_ok : Bool
  pub config_ok : Bool
  pub client_ok : Bool
  pub producer_ok : Bool
  pub partitions : Bytes → Option (List ℤ)

-- The flags that `New` reads itself.
pub record PublisherFlags : Type 0 where
  pub enabled : Bool
  pub codec : Bytes
  pub tls_enabled : Bool
  pub v2 : Bool
  pub v2_clear_interval : ℕ

pub record Publisher (P : Type 0) : Type 0 where
  pub auto_interval : Bool
  pub topics : List (TopicSettings P)
  pub compression : CompressionCodec
  pub key_cache : Option KeyCache

abbrev pub require : Bool → Option (Unit {0})
require true = some tt
require false = none

module _ {P : Type 0} where
  abbrev pub counted : TopicSettings P → Option (List ℤ) → Option (TopicSettings P)
  counted topic none = none
  counted topic (some []) = none
  counted topic (some (p ∷ ps)) = some (record topic { num_partitions = length (p ∷ ps) })

  -- The loop over the topics.
  unfoldable pub set_partitions :
      (Bytes → Option (List ℤ)) → List (TopicSettings P) → Option (List (TopicSettings P))
  set_partitions partitions [] = some []
  set_partitions partitions (topic ∷ topics) = do
    t ← counted topic (partitions topic.name)
    ts ← set_partitions partitions topics
    some (t ∷ ts)

  -- From the topics of parseTopicSettings to the publisher; of the settings of sarama's client only
  -- the compression is kept.
  abbrev pub connect :
      KafkaAnswers → PublisherFlags → Bool → Option (List (TopicSettings P)) → Option (Publisher P)
  connect answers settings auto_interval parsed = do
    topics ← parsed
    _ ← require (not auto_interval || answers.schemas_ok)
    compression ← get_compression settings.codec
    _ ← require (not settings.tls_enabled || answers.tls_ok)
    _ ← require (answers.config_ok && answers.client_ok)
    counted_topics ← set_partitions answers.partitions topics
    _ ← require answers.producer_ok
    some (record {
      auto_interval = auto_interval;
      topics = counted_topics;
      compression = compression;
      key_cache = if settings.v2 then some (new_key_cache settings.v2_clear_interval) else none;
    })

  -- New; `some none` is a nil publisher.
  unfoldable pub new_publisher :
      KafkaAnswers
      → PublisherFlags
      → (new_partitioner : Bytes → Option P) → TopicFlags
      → List Bytes
      → Bool
      → Option (Option (Publisher P))
  unfolding set_partitions get_compression are_valid_brokers parse_topic_settings
  new_publisher answers settings new_partitioner flags brokers auto_interval =
      if not settings.enabled
      then some none
      else if not (are_valid_brokers brokers && answers.version_ok)
      then none
      else do
        p ← connect answers settings auto_interval (parse_flags new_partitioner flags)
        some (some p)

  module _ (answers : KafkaAnswers) (settings : PublisherFlags) (new_partitioner : Bytes → Option P)
      (flags : TopicFlags) where
    -- A topic of the flags, with the number of its partitions.
    pub record IsReady (i : ℕ) (n : Bytes) (t : TopicSettings P) : Type 0 where
      pub configured : IsConfigured new_partitioner flags i n t
      pub known :
          (p : ℤ) × (ps : List ℤ) × (answers.partitions t.name ≡ some (p ∷ ps))
          × (t.num_partitions ≡ length (p ∷ ps))

    -- The topics one by one, from number `i`.
    pub AreReady : ℕ → List Bytes → List (TopicSettings P) → Type 0
    AreReady i [] [] = Unit
    AreReady i (n ∷ names) (t ∷ ts) = IsReady i n t × AreReady (i + 1) names ts
    AreReady i names ts = ⊥

    counted-IsReady :
        (i : ℕ) (n : Bytes) (topic t : TopicSettings P) (o : Option (List ℤ))
        → answers.partitions topic.name ≡ o
        → IsConfigured new_partitioner flags i n topic
        → counted topic o ≡ some t
        → IsReady i n t
    counted-IsReady i n topic t none e c h = cc h
    counted-IsReady i n topic t (some []) e c h = cc h
    counted-IsReady i n topic t (some (p ∷ ps)) e c h =
        subst (IsReady i n) (some-injective _ _ h) (record {
          configured = record {
            topic_name = c.topic_name;
            scheme = c.scheme;
            only_org = c.only_org;
            prefixes = c.prefixes;
            rewrites = c.rewrites;
          };
          known = (p, ps, e, refl);
        })

    set_partitions-AreReady :
        (i : ℕ) (names : List Bytes) (topics ts : List (TopicSettings P))
        → AreConfigured new_partitioner flags i names topics
        → set_partitions answers.partitions topics ≡ some ts
        → AreReady i names ts
    unfolding set_partitions AreReady AreConfigured
    set_partitions-AreReady i [] [] ts c h = subst (AreReady i []) (some-injective _ _ h) tt
    set_partitions-AreReady i [] (topic ∷ topics) ts c h = elim c [ ]
    set_partitions-AreReady i (n ∷ names) [] ts c h = elim c [ ]
    set_partitions-AreReady i (n ∷ names) (topic ∷ topics) ts (c, cs) h =
        let (t, e, h1) = bind_some (counted topic (answers.partitions topic.name)) _ ts h in
        let (us, f, h2) = bind_some (set_partitions answers.partitions topics) _ ts h1 in
        subst (AreReady i (n ∷ names)) (some-injective _ _ h2) (
          counted-IsReady i n topic t (answers.partitions topic.name) refl c e,
          set_partitions-AreReady (i + 1) names topics us cs f,
        )

    connect-AreReady :
        (auto_interval : Bool) (p : Publisher P)
        → connect answers settings auto_interval (parse_flags new_partitioner flags) ≡ some p
        → AreReady 0 (split flags.topics b',') p.topics
    connect-AreReady auto_interval p h =
        let (topics, parsed, h0) = bind_some (parse_flags new_partitioner flags) _ p h in
        let (_, _, h1) = bind_some (require (not auto_interval || answers.schemas_ok)) _ p h0 in
        let (_, _, h2) = bind_some (get_compression settings.codec) _ p h1 in
        let (_, _, h3) = bind_some (require (not settings.tls_enabled || answers.tls_ok)) _ p h2 in
        let (_, _, h4) = bind_some (require (answers.config_ok && answers.client_ok)) _ p h3 in
        let (ts, e, h5) = bind_some (set_partitions answers.partitions topics) _ p h4 in
        let (_, _, h6) = bind_some (require answers.producer_ok) _ p h5 in
        subst (λ (q : Publisher P). AreReady 0 (split flags.topics b',') q.topics)
          (some-injective _ _ h6)
          (set_partitions-AreReady 0 (split flags.topics b',') topics ts
            (parse_flags-AreConfigured new_partitioner flags topics parsed) e)

    -- When `New` makes a publisher, every broker address is a host, or a host and a numeric port
    -- around its only colon, and the publisher has one topic for each name of metrics-topic, in
    -- that order: with the trimmed name, the partitioner, the organisation, the prefixes and the
    -- rewriting that the other flags have for it, and with the number of its partitions, which is
    -- at least 1.
    pub new_publisher-IsReady :
        (brokers : List Bytes) (auto_interval : Bool) (p : Publisher P)
        → new_publisher answers settings new_partitioner flags brokers auto_interval ≡ some (some p)
        → All IsBroker brokers × AreReady 0 (split flags.topics b',') p.topics
    unfolding new_publisher
    new_publisher-IsReady brokers auto_interval p h = elim (Bool-cases settings.enabled) [
      | inr off ↦ cc (rw off at h)
      | inl on ↦ elim (Bool-cases (are_valid_brokers brokers && answers.version_ok)) [
        | inr bad ↦ cc (rw (on, bad) at h)
        | inl fine ↦
            let (q, e, g) =
              bind_some (connect answers settings auto_interval (parse_flags new_partitioner flags))
                _ (some p) (rw (on, fine) at h) in
            (
              are_valid_brokers-IsBroker brokers (ground (arith, fine)),
              connect-AreReady auto_interval p (e ∙ some-injective _ _ g),
            )
      ]
    ]
