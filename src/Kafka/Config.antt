-- ===== src/Kafka/Config.antt =====
-- What the flags of the Kafka publisher configure.
use tsdb_gw.Base.{
  Bool-cases, List, Option, [], ap, arith, false, inl, inr, length, lt→ltb, map, none, refl, some,
  ℕ, ◌++◌, ◌+◌, ◌<◌, ◌^◌, ◌∙◌, ◌∷◌, ◌≡◌, ◌≢◌,
}
use tsdb_gw.Base.Decimal.{
  All-weaken, IsDigit, format_uint-IsDigit, parse_uint-format_uint, split-join, split-whole,
}
use tsdb_gw.Base.Int.{pos, ℤ}
use tsdb_gw.Base.Number.{format_uint, ◌>>=◌}
use tsdb_gw.Base.Text.{Bytes, Lacks, is_empty, split, trim_space}
use tsdb_gw.Kafka.{TopicSettings}
use tsdb_gw.Kafka.Topics.{
  Flags, are_mismatched, items, parse_rewrite, parse_rewrite_parts, parse_topic,
  parse_topic_settings, parse_topics, to_int,
}

module _ {P : Type 0} where
  abbrev names_of : List (TopicSettings P) → List Bytes
  names_of = map (λ (t : TopicSettings P). t.name)

  one_more :
      (o : Option (TopicSettings P)) (rest : Option (List (TopicSettings P))) (n : Bytes)
      (names : List Bytes) (topics : List (TopicSettings P))
      → ((t : TopicSettings P) → o ≡ some t → t.name ≡ n)
      → ((ts : List (TopicSettings P)) → rest ≡ some ts → names_of ts ≡ names)
      → (o >>= λ t. rest >>= λ ts. some (t ∷ ts)) ≡ some topics
      → names_of topics ≡ n ∷ names
  one_more none rest n names topics h k e = cc e
  one_more (some t) none n names topics h k e = cc e
  one_more (some t) (some ts) n names [] h k e = cc e
  one_more (some t) (some ts) n names (u ∷ us) h k e =
      let same : (t ≡ u) × (ts ≡ us) = ground arith in cc (same.0, same.1, h t refl, k ts refl)

  module _ (new_partitioner : Bytes → Option P) where
    parse_topic-name :
        (f : Flags) (i : ℕ) (n : Bytes) (t : TopicSettings P)
        → parse_topic new_partitioner f i n ≡ some t
        → t.name ≡ trim_space n
    unfolding parse_topic
    parse_topic-name f i n t e = ground arith

    parse_topics-names :
        (f : Flags) (i : ℕ) (names : List Bytes) (topics : List (TopicSettings P))
        → parse_topics new_partitioner f i names ≡ some topics
        → names_of topics ≡ map trim_space names
    unfolding parse_topics
    parse_topics-names f i [] [] e = refl
    parse_topics-names f i [] (t ∷ ts) e = cc e
    parse_topics-names f i (n ∷ names) topics e =
        one_more (parse_topic new_partitioner f i n) (parse_topics new_partitioner f (i + 1) names)
          (trim_space n) (map trim_space names) topics (parse_topic-name f i n)
          (parse_topics-names f (i + 1) names) e

    -- If the flags are accepted, there is one topic for each name of metrics-topic, in that order.
    parse_topic_settings-names :
        (partition_schemes names : Bytes) (only_org_ids : List ℤ)
        (discard_prefixes rewrite_org_id : Bytes) (topics : List (TopicSettings P))
        → parse_topic_settings new_partitioner partition_schemes names only_org_ids discard_prefixes
            rewrite_org_id
          ≡ some topics
        → names_of topics ≡ map trim_space (split names b',')
    unfolding parse_topic_settings
    parse_topic_settings-names partition_schemes names only_org_ids discard_prefixes rewrite_org_id
          topics e =
        let f : Flags = record {
          partition_schemes = split partition_schemes b',';
          only_org_ids = only_org_ids;
          discard_prefixes = items discard_prefixes;
          rewrites = items rewrite_org_id;
        } in
        elim (Bool-cases (are_mismatched f (length (split names b',')))) [
          | inl bad ↦ cc (rw bad at e)
          | inr good ↦ parse_topics-names f 0 (split names b',') topics (rw good at e)
        ]

format_uint-Lacks : (n : ℕ) → Lacks b':' (format_uint n)
format_uint-Lacks n =
    All-weaken IsDigit (λ c. c ≢ b':') (format_uint n) (λ c d. omega arith) (format_uint-IsDigit n)

append_nonempty : (s t : Bytes) (c : ℕ) → is_empty (s ++ c ∷ t) ≡ false
append_nonempty [] t c = refl
append_nonempty (d ∷ s) t c = refl

-- An item "33:45" of rewrite-org-id rewrites 33 into 45, for all organisations below 2^63.
pub parse_rewrite-text :
    (source target : ℕ)
    → source < 2 ^ 63
    → target < 2 ^ 63
    → parse_rewrite (format_uint source ++ b':' ∷ format_uint target)
      ≡ some (record { source = pos source; target = pos target })
unfolding parse_rewrite to_int
parse_rewrite-text source target h k =
    rw (append_nonempty (format_uint source) (format_uint target) b':') (
      ap parse_rewrite_parts (
        split-join (format_uint source) (format_uint target) b':' (format_uint-Lacks source)
        ∙ ap (λ ts. format_uint source ∷ ts)
            (split-whole (format_uint target) b':' (format_uint-Lacks target)))
      ∙ rw
          (
            parse_uint-format_uint source 64 (omega arith),
            parse_uint-format_uint target 64 (omega arith),
          )
          (rw (lt→ltb source (2 ^ 63) h, lt→ltb target (2 ^ 63) k) refl))
