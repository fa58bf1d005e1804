-- ===== src/Kafka/Topics.antt =====
-- parseTopicSettings (publish/kafka/publish.go). Where the source would index a list out of range or
-- return an error, the result is `none`.
use tsdb_gw.Base.{
  Bool, List, Option, [], get_elem?, if◌then◌else◌, length, ltb, nat_eqb, none, not, some, ℕ, ◌&&◌,
  ◌+◌, ◌-◌, ◌^◌, ◌||◌, ◌∷◌,
}
use tsdb_gw.Base.Eq.{bytes_eq, int_eq, nat_eq, ◌==◌}
use tsdb_gw.Base.Int.{negsuc, pos, ℤ}
use tsdb_gw.Base.Number.{parse_uint, ◌>>=◌}
use tsdb_gw.Base.Text.{Bytes, fields_func, is_empty, split, trim_space}
use tsdb_gw.Kafka.{OrgIdRewrite, TopicSettings}

-- strconv.ParseUint(s, 10, 64) and the conversion of the result to int.
unfoldable pub to_int : ℕ → ℤ
to_int n = if ltb n (2 ^ 63) then pos n else negsuc (2 ^ 64 - 1 - n)

abbrev pub parse_org : Bytes → Option ℤ
parse_org s = do n ← parse_uint s 64; some (to_int n)

abbrev pub parse_rewrite_parts : List Bytes → Option OrgIdRewrite
parse_rewrite_parts (s ∷ t ∷ []) = do
  source ← parse_org s
  target ← parse_org t
  some (record { source = source; target = target })
parse_rewrite_parts parts = none

abbrev pub no_rewrite : OrgIdRewrite
no_rewrite = record { source = pos 0; target = pos 0 }

-- One item of rewrite-org-id.
unfoldable pub parse_rewrite : Bytes → Option OrgIdRewrite
parse_rewrite s = if is_empty s then some no_rewrite else parse_rewrite_parts (split s b':')

-- A flag that may be missing, and else has an item for each topic.
abbrev pub item_or {ℓ} : {A : Type ℓ} → A → List A → ℕ → Option A
item_or d [] i = some d
item_or d (x ∷ xs) i = get_elem? (x ∷ xs) i

-- A flag that may be missing, may stand for all topics, and else has an item for each topic.
abbrev pub shared_or {ℓ} : {A : Type ℓ} → A → List A → ℕ → Option A
shared_or d [] i = some d
shared_or d (x ∷ []) i = some x
shared_or d (x ∷ y ∷ xs) i = get_elem? (x ∷ y ∷ xs) i

abbrev pub items : Bytes → List Bytes
items s = if is_empty s then [] else split s b','

pub record Flags : Type 0 where
  pub partition_schemes : List Bytes
  pub only_org_ids : List ℤ
  pub discard_prefixes : List Bytes
  pub rewrites : List Bytes

abbrev pub mismatch : ℕ → ℕ → ℕ → Bool
mismatch few n topics = ltb few n && not (nat_eqb n topics)

unfoldable pub are_mismatched : Flags → ℕ → Bool
are_mismatched f topics =
    mismatch 1 (length f.partition_schemes) topics
    || (mismatch 1 (length f.only_org_ids) topics
        || (mismatch 0 (length f.discard_prefixes) topics || mismatch 0 (length f.rewrites) topics))

module _ {P : Type 0} (new_partitioner : Bytes → Option P) where
  -- The partitioner of topic `i`: a single scheme gives one partitioner, which all topics share.
  unfoldable pub topic_partitioner : List Bytes → ℕ → Option P
  topic_partitioner schemes i = do
    scheme ← shared_or [] schemes i
    new_partitioner (trim_space scheme)

  unfoldable pub parse_topic : Flags → ℕ → Bytes → Option (TopicSettings P)
  unfolding topic_partitioner parse_rewrite
  parse_topic f i topic_name = do
    partitioner ← topic_partitioner f.partition_schemes i
    only_org_id ← shared_or (pos 0) f.only_org_ids i
    prefixes ← item_or [] f.discard_prefixes i
    rewrite ← item_or [] f.rewrites i
    org_id_rewrite ← parse_rewrite rewrite
    some (record {
      name = trim_space topic_name;
      partitioner = partitioner;
      num_partitions = 0;
      only_org_id = only_org_id;
      discard_prefixes = fields_func prefixes (λ c. c == b'|');
      org_id_rewrite = org_id_rewrite;
    })

  unfoldable pub parse_topics : Flags → ℕ → List Bytes → Option (List (TopicSettings P))
  unfolding parse_topic
  parse_topics f i [] = some []
  parse_topics f i (topic_name ∷ names) = do
    topic ← parse_topic f i topic_name
    topics ← parse_topics f (i + 1) names
    some (topic ∷ topics)

  unfoldable pub parse_topic_settings :
      Bytes → Bytes → List ℤ → Bytes → Bytes → Option (List (TopicSettings P))
  unfolding parse_topics are_mismatched
  parse_topic_settings partition_schemes topics only_org_ids discard_prefixes rewrite_org_id =
      let f : Flags = record {
        partition_schemes = split partition_schemes b',';
        only_org_ids = only_org_ids;
        discard_prefixes = items discard_prefixes;
        rewrites = items rewrite_org_id;
      } in
      if are_mismatched f (length (split topics b','))
      then none
      else parse_topics f 0 (split topics b',')

-- The flags about topics.
pub record TopicFlags : Type 0 where
  pub partition_schemes : Bytes
  pub topics : Bytes
  pub only_org_ids : List ℤ
  pub discard_prefixes : Bytes
  pub rewrite_org_id : Bytes

-- parseTopicSettings of the flags.
abbrev pub parse_flags :
    {P : Type 0} (new_partitioner : Bytes → Option P) (f : TopicFlags)
    → Option (List (TopicSettings P))
parse_flags new_partitioner f =
    parse_topic_settings new_partitioner f.partition_schemes f.topics f.only_org_ids
      f.discard_prefixes f.rewrite_org_id
