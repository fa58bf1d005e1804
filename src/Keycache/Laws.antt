-- ===== src/Keycache/Laws.antt =====
-- What the operations of the key cache do to the set of seen keys.
use tsdb_gw.Base.{
  ℕ, zero, suc, ◌<◌, ◌≤◌, ◌≢◌, List, [], ◌∷◌, true, false, ◌≡◌, refl, arith, length, get_or,
  if◌then◌else◌, ◌&&◌, get_or-set_self, get_or-set_ne, get_or-replicate, Bool-cases, inl, inr,
  nat_eqb, nat_eqb_iff, ap,
}
use tsdb_gw.Base.Eq.{◌==◌, bytes_eq, nat_eq, bytes_eqb}
use tsdb_gw.Base.Map.{Map, get, get-put}
use tsdb_gw.Base.Text.{Bytes}
use tsdb_gw.Keycache.{
  Shard, Cache, is_some, sub_key, first_byte, shard_at, new_cache, cache_touch, cache_clear,
  shard_touch, new_shard, cache_len, sum_len, shard_len,
}
use tsdb_gw.Keycache.Seen.{IsKey, shard_seen, cache_seen, HasShards}

-- One shard.
shard_seen-touch :
    (s : Shard) (key sub : Bytes)
    → shard_seen (shard_touch s key).0 sub ≡ (if sub_key key == sub then true else shard_seen s sub)
unfolding shard_seen shard_touch
shard_seen-touch s key sub = rw get-put (ground arith)

key_eqb : (b d : ℕ) (s t : Bytes) → bytes_eqb (b ∷ s) (d ∷ t) ≡ (nat_eqb b d && bytes_eqb s t)
unfolding bytes_eqb
key_eqb b d s t = refl

same_byte :
    (c : Cache) (b d : ℕ) (s t : Bytes)
    → HasShards c
    → b < 256
    → b ≡ d
    → cache_seen (cache_touch c (b ∷ s)).0 (d ∷ t)
      ≡ (if bytes_eqb s t then true else cache_seen c (d ∷ t))
unfolding cache_seen cache_touch
same_byte c b d s t h k e = rw (← e) (
    rw (get_or-set_self c.shards b (shard_touch (shard_at c b) (b ∷ s)).0 new_shard (omega arith))
      (shard_seen-touch (shard_at c b) (b ∷ s) t))

other_byte :
    (c : Cache) (b d : ℕ) (s t : Bytes)
    → b ≢ d
    → cache_seen (cache_touch c (b ∷ s)).0 (d ∷ t) ≡ cache_seen c (d ∷ t)
unfolding cache_seen cache_touch
other_byte c b d s t h = ap (λ x. shard_seen x t) (get_or-set_ne c.shards b d _ new_shard h)

pub cache_seen-touch :
    (c : Cache) (key j : Bytes)
    → HasShards c
    → IsKey key
    → IsKey j
    → cache_seen (cache_touch c key).0 j ≡ (if key == j then true else cache_seen c j)
cache_seen-touch c [] j h k l = absurd (omega (arith, k.size))
cache_seen-touch c (b ∷ s) [] h k l = absurd (omega (arith, l.size))
cache_seen-touch c (b ∷ s) (d ∷ t) h k l =
    ground (arith, key_eqb b d s t, same_byte c b d s t h k.byte, other_byte c b d s t)

pub touch_result : (c : Cache) (key : Bytes) → (cache_touch c key).1 ≡ cache_seen c key
unfolding cache_touch cache_seen shard_touch shard_seen
touch_result c key = refl

pub cache_seen-new : (key : Bytes) → cache_seen new_cache key ≡ false
unfolding cache_seen new_cache shard_seen get
cache_seen-new key = rw get_or-replicate

pub cache_seen-clear :
    (c : Cache) (i : ℕ) (key : Bytes)
    → HasShards c
    → i < 256
    → cache_seen (cache_clear c i).0 key
      ≡ (if nat_eqb (first_byte key) i then false else cache_seen c key)
unfolding cache_seen cache_clear shard_seen get
cache_seen-clear c i key h k = elim (Bool-cases (nat_eqb (first_byte key) i)) [
  | inl same ↦ rw same (
      rw ((nat_eqb_iff (first_byte key) i).0 same)
        (rw (get_or-set_self c.shards i _ new_shard (omega arith))))
  | inr other ↦
      rw other (rw (get_or-set_ne c.shards i (first_byte key) _ new_shard (λ e. ground (arith, e))))
]

-- A cache of length 0 has seen nothing.
no_entries : (s : Shard) (sub : Bytes) → shard_len s ≡ 0 → shard_seen s sub ≡ false
unfolding shard_seen get
no_entries s sub h = go s.entries h
  where
    go : (m : Map Bytes (Unit {0})) → length m ≡ 0 → is_some (get m sub) ≡ false
    go [] e = refl
    go (x ∷ m) e = absurd (omega arith)

shard_len-le_sum : (ss : List Shard) (i : ℕ) → shard_len (get_or ss i new_shard) ≤ sum_len ss
unfolding sum_len
shard_len-le_sum [] i = omega arith
shard_len-le_sum (s ∷ ss) zero = omega arith
shard_len-le_sum (s ∷ ss) (suc i) = omega (arith, shard_len-le_sum ss i)

pub cache_seen_of_empty : (c : Cache) (key : Bytes) → cache_len c ≡ 0 → cache_seen c key ≡ false
unfolding cache_seen cache_len
cache_seen_of_empty c key h =
    no_entries (shard_at c (first_byte key)) (sub_key key)
      (omega (arith, shard_len-le_sum c.shards (first_byte key)))
