-- ===== src/Keycache/Rounds.antt =====
-- The whole key cache: `touch` and the rounds of `clear`, over all organisations.
use tsdb_gw.Base.{
  ℕ, zero, suc, ◌+◌, ◌-◌, ◌%◌, ◌<◌, [], ◌∷◌, true, false, Option, none, some, ◌≡◌, refl, arith,
  if◌then◌else◌, ◌&&◌, Bool-cases, inl, inr, nat_eqb, nat_eqb_iff, ◌∙◌, ap, sym, ltb,
}
use tsdb_gw.Base.Eq.{◌==◌, bytes_eq, nat_eq}
use tsdb_gw.Base.Map.{Map, get, get-put, get-delete, Unique, Unique-put, Unique-delete}
use tsdb_gw.Base.Text.{Bytes}
use tsdb_gw.Keycache.{
  MKey, Cache, KeyCache, first_byte, or_new_cache, cache_touch, cache_clear, touch, clear_target,
  clear_targets, clear_round, clear_rounds, cache_len,
}
use tsdb_gw.Keycache.Seen.{
  IsKey, cache_seen, caches_seen, seen, HasShards, IsValid, HasShards-or_new, HasShards-touch,
  HasShards-clear,
}
use tsdb_gw.Keycache.Laws.{
  cache_seen-touch, touch_result, cache_seen-new, cache_seen-clear, cache_seen_of_empty,
}

seen_or_new : (o : Option Cache) (key : Bytes) → cache_seen (or_new_cache o) key ≡ caches_seen o key
unfolding caches_seen
seen_or_new none key = cache_seen-new key
seen_or_new (some c) key = refl

-- In a valid key cache a touch reports whether the key was seen before; afterwards the key is seen
-- and every other key of every organisation is seen exactly if it was.
pub seen-touch :
    (k : KeyCache) (m j : MKey)
    → IsValid k
    → IsKey m.key
    → IsKey j.key
    → ((touch k m).1 ≡ seen k m)
      × (seen (touch k m).0 j ≡ (if m.org == j.org && m.key == j.key then true else seen k j))
unfolding touch seen
seen-touch k m j v hm hj =
    let cache = or_new_cache (get k.caches m.org) in
    let shape : HasShards cache =
      HasShards-or_new (get k.caches m.org) (λ c e. v.shards m.org c e) in
    (
      touch_result cache m.key ∙ seen_or_new (get k.caches m.org) m.key,
      rw get-put (elim (Bool-cases (nat_eqb m.org j.org)) [
        | inl same ↦ rw same (
            unfold caches_seen in
            cache_seen-touch cache m.key j.key shape hm hj
            ∙ ap (λ b. if m.key == j.key then true else b)
                (seen_or_new (get k.caches m.org) j.key
                  ∙ ap (λ o. caches_seen (get k.caches o) j.key)
                      ((nat_eqb_iff m.org j.org).0 same)))
        | inr other ↦ rw other
      ]),
    )

some-HasShards : (a c : Cache) → some a ≡ some c → HasShards a → HasShards c
some-HasShards a c e h = ground arith

-- A touch keeps a key cache valid: the clear index below 256, one cache for an organisation, 256
-- shards in each.
pub touch-IsValid : (k : KeyCache) (m : MKey) → IsValid k → IsValid (touch k m).0
unfolding touch
touch-IsValid k m v = record {
  index = v.index;
  orgs = Unique-put k.caches m.org _ v.orgs;
  shards = λ org c e. elim (Bool-cases (nat_eqb m.org org)) [
    | inl same ↦
        some-HasShards (cache_touch (or_new_cache (get k.caches m.org)) m.key).0 c
          (ground (
            arith,
            get-put k.caches m.org org (cache_touch (or_new_cache (get k.caches m.org)) m.key).0,
          ))
          (HasShards-touch _ m.key
            (HasShards-or_new (get k.caches m.org) (λ c e. v.shards m.org c e)))
    | inr other ↦ v.shards org c (
        ground (
          arith,
          get-put k.caches m.org org (cache_touch (or_new_cache (get k.caches m.org)) m.key).0,
        ))
  ];
}

-- What a round leaves of a cache.
cleared : ℕ → Cache → Option Cache
cleared i c = if (cache_clear c i).1 == 0 then none else some (cache_clear c i).0

get-clear_target :
    (i : ℕ) (m : Map ℕ Cache) (org o : ℕ) (c : Cache)
    → get (clear_target i m (org, c)) o ≡ (if org == o then cleared i c else get m o)
unfolding clear_target cleared
get-clear_target i m org o c = elim (Bool-cases (nat_eqb (cache_clear c i).1 0)) [
  | inl gone ↦ rw gone (rw get-delete)
  | inr left ↦ rw left (rw get-put)
]

after : ℕ → Option Cache → Option Cache → Option Cache
after i none d = d
after i (some c) d = cleared i c

get-clear_targets :
    (i : ℕ) (m ts : Map ℕ Cache) (o : ℕ)
    → Unique ts
    → get (clear_targets i m ts) o ≡ after i (get ts o) (get m o)
unfolding clear_targets after get
get-clear_targets i m [] o u = refl
get-clear_targets i m ((org, c) ∷ ts) o (fresh, u) =
    rw (get-clear_targets i (clear_target i m (org, c)) ts o u) (
      rw get-clear_target (elim (Bool-cases (nat_eqb org o)) [
        | inl same ↦ rw same (rw (← (nat_eqb_iff org o).0 same) (rw fresh refl))
        | inr other ↦ rw other
      ]))

get-clear_round :
    (k : KeyCache) (o : ℕ)
    → IsValid k
    → get (clear_round k).caches o ≡ after k.clear_idx (get k.caches o) (get k.caches o)
unfolding clear_round
get-clear_round k o v = get-clear_targets k.clear_idx k.caches k.caches o v.orgs

size_zero :
    (c : Cache) (i : ℕ) → nat_eqb (cache_clear c i).1 0 ≡ true → cache_len (cache_clear c i).0 ≡ 0
unfolding cache_clear
size_zero c i h = (nat_eqb_iff _ 0).0 h

caches_seen-cleared :
    (i : ℕ) (c : Cache) (key : Bytes)
    → HasShards c
    → i < 256
    → caches_seen (cleared i c) key
      ≡ (if nat_eqb (first_byte key) i then false else caches_seen (some c) key)
unfolding cleared caches_seen
caches_seen-cleared i c key h k = elim (Bool-cases (nat_eqb (cache_clear c i).1 0)) [
  | inl gone ↦ rw gone (
      sym (cache_seen_of_empty (cache_clear c i).0 key (size_zero c i gone))
      ∙ cache_seen-clear c i key h k)
  | inr left ↦ rw left (cache_seen-clear c i key h k)
]

-- A round of clearing of a valid key cache forgets the keys of the current shard, in every
-- organisation, and no other key.
pub seen-clear_round :
    (k : KeyCache) (m : MKey)
    → IsValid k
    → seen (clear_round k) m ≡ (if first_byte m.key == k.clear_idx then false else seen k m)
unfolding seen
seen-clear_round k m v =
    rw (get-clear_round k m.org v) (go (get k.caches m.org) (λ c e. v.shards m.org c e))
  where
    go :
        (o : Option Cache)
        → ((c : Cache) → o ≡ some c → HasShards c)
        → caches_seen (after k.clear_idx o o) m.key
          ≡ (if nat_eqb (first_byte m.key) k.clear_idx then false else caches_seen o m.key)
    go none h = unfold after caches_seen in ground arith
    go (some c) h = unfold after in caches_seen-cleared k.clear_idx c m.key (h c refl) v.index

Unique-clear_targets : (i : ℕ) (m ts : Map ℕ Cache) → Unique m → Unique (clear_targets i m ts)
unfolding clear_targets
Unique-clear_targets i m [] u = u
Unique-clear_targets i m ((org, c) ∷ ts) u = Unique-clear_targets i (clear_target i m (org, c)) ts (
    unfold clear_target in
    elim (Bool-cases (nat_eqb (cache_clear c i).1 0)) [
      | inl gone ↦ rw gone (Unique-delete m org u)
      | inr left ↦ rw left (Unique-put m org _ u)
    ])

cleared-HasShards : (i : ℕ) (a c : Cache) → cleared i a ≡ some c → HasShards a → HasShards c
unfolding cleared
cleared-HasShards i a c e h = elim (Bool-cases (nat_eqb (cache_clear a i).1 0)) [
  | inl gone ↦ cc (gone, e)
  | inr left ↦ some-HasShards (cache_clear a i).0 c (rw left at e) (HasShards-clear a i h)
]

-- A round of clearing keeps a key cache valid.
pub clear_round-IsValid : (k : KeyCache) → IsValid k → IsValid (clear_round k)
clear_round-IsValid k v = record {
  index = unfold clear_round in ground (arith, v.index);
  orgs = unfold clear_round in Unique-clear_targets k.clear_idx k.caches k.caches v.orgs;
  shards = λ org c e.
      go org c (get k.caches org) (λ a h. v.shards org a h) (sym (get-clear_round k org v) ∙ e);
}
  where
    go :
        (org : ℕ) (c : Cache) (o : Option Cache)
        → ((a : Cache) → o ≡ some a → HasShards a)
        → after k.clear_idx o o ≡ some c
        → HasShards c
    go org c none h e = unfold after in cc e
    go org c (some a) h e = cleared-HasShards k.clear_idx a c (unfold after in e) (h a refl)

-- How many rounds pass before the round that clears shard `b`.
abbrev pub rounds_before : ℕ → ℕ → ℕ
rounds_before b clear_idx = (b + 256 - clear_idx) % 256

clear_rounds-unseen :
    (n : ℕ) (k : KeyCache) (m : MKey)
    → IsValid k
    → seen k m ≡ false
    → seen (clear_rounds n k) m ≡ false
unfolding clear_rounds
clear_rounds-unseen zero k m v h = h
clear_rounds-unseen (suc n) k m v h =
    clear_rounds-unseen n (clear_round k) m (clear_round-IsValid k v)
      (ground (arith, seen-clear_round k m v))

-- Of a valid key cache, n rounds of clearing forget exactly the keys of the shards whose turn
-- falls in those rounds, in every organisation.
pub seen-clear_rounds :
    (n : ℕ) (k : KeyCache) (m : MKey)
    → IsValid k
    → first_byte m.key < 256
    → seen (clear_rounds n k) m
      ≡ (if ltb (rounds_before (first_byte m.key) k.clear_idx) n then false else seen k m)
unfolding clear_rounds
seen-clear_rounds zero k m v h = ground arith
seen-clear_rounds (suc n) k m v h = elim (Bool-cases (nat_eqb (first_byte m.key) k.clear_idx)) [
  | inl turn ↦
      clear_rounds-unseen n (clear_round k) m (clear_round-IsValid k v)
        (ground (arith, seen-clear_round k m v))
      ∙ ground (arith, v.index)
  | inr later ↦
      seen-clear_rounds n (clear_round k) m (clear_round-IsValid k v) h
      ∙ unfold clear_round in ground (arith, v.index, seen-clear_round k m v)
]
