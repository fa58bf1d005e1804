-- ===== src/Kafka/Expected.antt =====
-- The messages that the settings of the topics ask for.
use tsdb_gw.Base.{
  Bool, List, [], ap, arith, false, if◌then◌else◌, map, not, refl, true, ℕ, ◌&&◌, ◌++◌, ◌||◌, ◌∷◌,
  ◌≡◌,
}
use tsdb_gw.Base.Eq.{bytes_eq, int_eq, nat_eq, ◌==◌}
use tsdb_gw.Base.Int.{int_eqb_iff, pos, ℤ}
use tsdb_gw.Base.Text.{Bytes, has_prefix}
use tsdb_gw.Kafka.{OrgIdRewrite, TopicSettings}
use tsdb_gw.Kafka.Encode.{
  Message, Options, Wire, has_some_prefix, is_skipped, restore_org, rewrite_org,
}
use tsdb_gw.Metric.{Metric}

-- The topic of a message, its partition, and what `reads` finds in its data.
abbrev pub sent_of : {D : Type 0} → (Bytes → D) → Message → Bytes × ℤ × D
sent_of reads m = (m.topic, m.partition, reads m.value.bytes)

abbrev pub all_sent : {D : Type 0} → (Bytes → D) → List Message → List (Bytes × ℤ × D)
all_sent reads = map (sent_of reads)

pub all_sent-append :
    {D : Type 0} (reads : Bytes → D) (ms : List Message) (m : Message)
    → all_sent reads (ms ++ m ∷ []) ≡ all_sent reads ms ++ sent_of reads m ∷ []
all_sent-append reads [] m = refl
all_sent-append reads (n ∷ ms) m = ap (λ ts. sent_of reads n ∷ ts) (all_sent-append reads ms m)

module _ {P : Type 0} (wire : Wire P) (options : Options) where
  -- The organisation of a metric in the messages of a topic.
  unfoldable pub sent_org : OrgIdRewrite → ℤ → ℤ
  sent_org r org = if org == r.source then r.target else org

  -- Whether a name starts with one of the prefixes.
  unfoldable pub discards : List Bytes → Bytes → Bool
  discards [] name = false
  discards (prefix ∷ prefixes) name =
      let rest = discards prefixes name in if has_prefix name prefix then true else rest

  -- A topic takes a metric whose organisation is not excluded, unless it discards the name.
  unfoldable pub is_wanted : TopicSettings P → Bytes → ℤ → Bool
  is_wanted topic name org =
      (topic.only_org_id == pos 0 || org == topic.only_org_id)
      && not (discards topic.discard_prefixes name)

  discards_lem :
      (prefixes : List Bytes) (name : Bytes)
      → has_some_prefix wire options name prefixes ≡ discards prefixes name
  unfolding has_some_prefix discards
  discards_lem [] name = refl
  discards_lem (prefix ∷ prefixes) name = ground (arith, discards_lem prefixes name)

  pub is_wanted_lem :
      (topic : TopicSettings P) (name : Bytes) (org : ℤ)
      → is_wanted topic name org ≡ not (is_skipped wire options topic name org)
  unfolding is_wanted is_skipped
  is_wanted_lem topic name org = ground (arith, discards_lem topic.discard_prefixes name)

  -- The metric with its own interval, or with that of the schemas file.
  unfoldable pub given_interval : Metric → Metric
  given_interval m =
      if m.interval == pos 0 then record m { interval = wire.retention m.name } else m

  -- `facts` is what there is in the data of a metric besides its organisation, and `place` the
  -- partition that the partitioners choose by the two.
  module _ {F : Type 0} (facts : Metric → F) (place : P → ℤ → F → ℕ → ℤ) where
    -- The message of a topic.
    abbrev pub expected : TopicSettings P → ℤ → F → Bytes × ℤ × (ℤ × F)
    expected topic org fs =
        (topic.name, place topic.partitioner org fs topic.num_partitions, (org, fs))

    -- The messages of a metric, in the order of the topics of the flag.
    unfoldable pub routes : List (TopicSettings P) → Bytes → ℤ → F → List (Bytes × ℤ × (ℤ × F))
    routes [] name org fs = []
    routes (topic ∷ topics) name org fs =
        if is_wanted topic name org
        then expected topic (sent_org topic.org_id_rewrite org) fs ∷ routes topics name org fs
        else routes topics name org fs

    unfoldable pub batch_routes : List (TopicSettings P) → List Metric → List (Bytes × ℤ × (ℤ × F))
    batch_routes topics [] = []
    batch_routes topics (m ∷ ms) =
        routes topics m.name m.org_id (facts (given_interval m)) ++ batch_routes topics ms

  pub restored :
      (original : ℤ) (m : Metric) → (restore_org wire options original m).org_id ≡ original
  unfolding restore_org
  restored original m = ground (
    arith,
    int_eqb_iff m.org_id original,
    wire.schema.org_id-set_id (record m { org_id = original }),
  )

  pub name-restore_org :
      (original : ℤ) (m : Metric) → (restore_org wire options original m).name ≡ m.name
  unfolding restore_org
  name-restore_org original m =
      ground (arith, wire.schema.name-set_id (record m { org_id = original }))

  pub name-rewrite_org :
      (r : OrgIdRewrite) (m : Metric) → (rewrite_org wire options r m).name ≡ m.name
  unfolding rewrite_org
  name-rewrite_org r m = ground (arith, wire.schema.name-set_id (record m { org_id = r.target }))

  pub org_id-rewrite_org :
      (r : OrgIdRewrite) (m : Metric) → (rewrite_org wire options r m).org_id ≡ sent_org r m.org_id
  unfolding rewrite_org sent_org
  org_id-rewrite_org r m =
      ground (arith, wire.schema.org_id-set_id (record m { org_id = r.target }))
