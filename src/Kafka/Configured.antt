-- ===== src/Kafka/Configured.antt =====
-- The settings of the topics and the flags that they come from.
use tsdb_gw.Base.{
  Bool-cases, List, Option, [], ap, get_elem?, inl, inr, length, none, refl, some, some-injective,
  subst, sym, true, ℕ, ◌+◌, ◌∙◌, ◌∷◌, ◌≡◌, ◌⊎◌,
}
use tsdb_gw.Base.Eq.{bytes_eq, int_eq, nat_eq, ◌==◌}
use tsdb_gw.Base.Int.{pos}
use tsdb_gw.Base.Number.{parse_uint, ◌>>=◌}
use tsdb_gw.Base.Text.{Bytes, fields_func, is_empty, split, trim_space}
use tsdb_gw.Kafka.{OrgIdRewrite, TopicSettings}
use tsdb_gw.Kafka.Topics.{
  Flags, are_mismatched, item_or, items, parse_org, parse_rewrite, parse_rewrite_parts, parse_topic,
  parse_topic_settings, parse_topics, shared_or, to_int, topic_partitioner, TopicFlags, parse_flags,
}

-- The value of topic `i` in a flag that may be missing, may stand for all topics, and else has an item
-- for each topic.
abbrev pub IsShared {ℓ} : {A : Type ℓ} → A → List A → ℕ → A → Type ℓ
IsShared d xs i x = ((xs ≡ []) × (x ≡ d)) ⊎ ((xs ≡ x ∷ []) ⊎ (get_elem? xs i ≡ some x))

-- The same without an item for all topics.
abbrev pub IsItem {ℓ} : {A : Type ℓ} → A → List A → ℕ → A → Type ℓ
IsItem d xs i x = ((xs ≡ []) × (x ≡ d)) ⊎ (get_elem? xs i ≡ some x)

-- An item of rewrite-org-id: nothing, or two numbers around a colon.
abbrev pub IsRewrite : Bytes → OrgIdRewrite → Type 0
IsRewrite s r =
    ((is_empty s ≡ true) × (r ≡ record { source = pos 0; target = pos 0 }))
    ⊎ ((a : Bytes) × (b : Bytes) × (m : ℕ) × (n : ℕ) × (split s b':' ≡ a ∷ b ∷ [])
        × (parse_uint a 64 ≡ some m)
        × (parse_uint b 64 ≡ some n)
        × (r ≡ record { source = to_int m; target = to_int n }))

-- Topic `i`, whose item in the flag of names is `n`, is set up as the flags say.
pub record IsConfigured {P : Type 0} (new_partitioner : Bytes → Option P) (f : TopicFlags) (i : ℕ)
    (n : Bytes) (t : TopicSettings P) : Type 0 where
  pub topic_name : t.name ≡ trim_space n
  pub scheme :
      (s : Bytes) × IsShared [] (split f.partition_schemes b',') i s
      × (new_partitioner (trim_space s) ≡ some t.partitioner)
  pub only_org : IsShared (pos 0) f.only_org_ids i t.only_org_id
  pub prefixes :
      (s : Bytes) × IsItem [] (items f.discard_prefixes) i s
      × (t.discard_prefixes ≡ fields_func s (λ c. c == b'|'))
  pub rewrites : (s : Bytes) × IsItem [] (items f.rewrite_org_id) i s × IsRewrite s t.org_id_rewrite

pub bind_some :
    {A B : Type 0} (o : Option A) (k : A → Option B) (b : B)
    → (o >>= k) ≡ some b
    → (a : A) × (o ≡ some a) × (k a ≡ some b)
bind_some none k b h = cc h
bind_some (some a) k b h = (a, refl, h)

shared_or-IsShared :
    {A : Type 0} (d : A) (xs : List A) (i : ℕ) (x : A)
    → shared_or d xs i ≡ some x
    → IsShared d xs i x
shared_or-IsShared d [] i x e = inl (refl, sym (some-injective _ _ e))
shared_or-IsShared d (y ∷ []) i x e = inr (inl (ap (λ z. z ∷ []) (some-injective _ _ e)))
shared_or-IsShared d (y ∷ z ∷ xs) i x e = inr (inr e)

item_or-IsItem :
    {A : Type 0} (d : A) (xs : List A) (i : ℕ) (x : A) → item_or d xs i ≡ some x → IsItem d xs i x
item_or-IsItem d [] i x e = inl (refl, sym (some-injective _ _ e))
item_or-IsItem d (y ∷ xs) i x e = inr e

parts-IsRewrite :
    (s : Bytes) (r : OrgIdRewrite) (parts : List Bytes)
    → split s b':' ≡ parts
    → parse_rewrite_parts parts ≡ some r
    → IsRewrite s r
parts-IsRewrite s r [] e h = cc h
parts-IsRewrite s r (a ∷ []) e h = cc h
parts-IsRewrite s r (a ∷ b ∷ c ∷ rest) e h = cc h
parts-IsRewrite s r (a ∷ b ∷ []) e h =
    let (source, f, h1) = bind_some (parse_org a) _ r h in
    let (m, p, q) = bind_some (parse_uint a 64) _ source f in
    let (target, g, h2) = bind_some (parse_org b) _ r h1 in
    let (n, p', q') = bind_some (parse_uint b 64) _ target g in
    inr (
      a,
      b,
      m,
      n,
      e,
      p,
      p',
      sym (some-injective _ _ h2) ∙ cc (some-injective _ _ q, some-injective _ _ q'),
    )

parse_rewrite-IsRewrite : (s : Bytes) (r : OrgIdRewrite) → parse_rewrite s ≡ some r → IsRewrite s r
unfolding parse_rewrite
parse_rewrite-IsRewrite s r e = elim (Bool-cases (is_empty s)) [
  | inl nothing_written ↦ inl (nothing_written, sym (some-injective _ _ (rw nothing_written at e)))
  | inr written ↦ parts-IsRewrite s r (split s b':') refl (rw written at e)
]

module _ {P : Type 0} (new_partitioner : Bytes → Option P) (f : TopicFlags) where
  -- The flags as `parseTopicSettings` splits them.
  abbrev flags_of : Flags
  flags_of = record {
    partition_schemes = split f.partition_schemes b',';
    only_org_ids = f.only_org_ids;
    discard_prefixes = items f.discard_prefixes;
    rewrites = items f.rewrite_org_id;
  }

  -- The topics one by one, from number `i`.
  unfoldable pub AreConfigured : ℕ → List Bytes → List (TopicSettings P) → Type 0
  AreConfigured i [] [] = Unit
  AreConfigured i (n ∷ names) (t ∷ ts) =
      IsConfigured new_partitioner f i n t × AreConfigured (i + 1) names ts
  AreConfigured i names ts = ⊥

  parse_topic-IsConfigured :
      (i : ℕ) (n : Bytes) (t : TopicSettings P)
      → parse_topic new_partitioner flags_of i n ≡ some t
      → IsConfigured new_partitioner f i n t
  unfolding parse_topic topic_partitioner
  parse_topic-IsConfigured i n t e =
      let (p, e1, h1) =
        bind_some (topic_partitioner new_partitioner (split f.partition_schemes b',') i) _ t e in
      let (s, e2, made) = bind_some (shared_or [] (split f.partition_schemes b',') i) _ p e1 in
      let (org, e3, h3) = bind_some (shared_or (pos 0) f.only_org_ids i) _ t h1 in
      let (ps, e4, h4) = bind_some (item_or [] (items f.discard_prefixes) i) _ t h3 in
      let (rs, e5, h5) = bind_some (item_or [] (items f.rewrite_org_id) i) _ t h4 in
      let (r, e6, h6) = bind_some (parse_rewrite rs) _ t h5 in
      subst (IsConfigured new_partitioner f i n) (some-injective _ _ h6) (record {
        topic_name = refl;
        scheme = (s, shared_or-IsShared [] (split f.partition_schemes b',') i s e2, made);
        only_org = shared_or-IsShared (pos 0) f.only_org_ids i org e3;
        prefixes = (ps, item_or-IsItem [] (items f.discard_prefixes) i ps e4, refl);
        rewrites = (
          rs,
          item_or-IsItem [] (items f.rewrite_org_id) i rs e5,
          parse_rewrite-IsRewrite rs r e6,
        );
      })

  parse_topics-AreConfigured :
      (i : ℕ) (names : List Bytes) (ts : List (TopicSettings P))
      → parse_topics new_partitioner flags_of i names ≡ some ts
      → AreConfigured i names ts
  unfolding parse_topics AreConfigured
  parse_topics-AreConfigured i [] ts e = subst (AreConfigured i []) (some-injective _ _ e) tt
  parse_topics-AreConfigured i (n ∷ names) ts e =
      let (t, e1, h1) = bind_some (parse_topic new_partitioner flags_of i n) _ ts e in
      let (us, e2, h2) = bind_some (parse_topics new_partitioner flags_of (i + 1) names) _ ts h1 in
      subst (AreConfigured i (n ∷ names)) (some-injective _ _ h2)
        (parse_topic-IsConfigured i n t e1, parse_topics-AreConfigured (i + 1) names us e2)

  -- When the flags are accepted, each topic is set up as they say.
  pub parse_flags-AreConfigured :
      (ts : List (TopicSettings P))
      → parse_flags new_partitioner f ≡ some ts
      → AreConfigured 0 (split f.topics b',') ts
  unfolding parse_topic_settings
  parse_flags-AreConfigured ts e =
      elim (Bool-cases (are_mismatched flags_of (length (split f.topics b',')))) [
        | inl bad ↦ cc (rw bad at e)
        | inr good ↦ parse_topics-AreConfigured 0 (split f.topics b',') ts (rw good at e)
      ]
