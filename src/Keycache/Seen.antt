-- ===== src/Keycache/Seen.antt =====
-- The abstract view of the key cache: the keys that count as seen, and the shape that every
-- operation keeps.
use tsdb_gw.Base.{
  ℕ, ◌<◌, Bool, false, Option, none, some, ◌≡◌, refl, arith, length, length-set, length-replicate,
}
use tsdb_gw.Base.Eq.{bytes_eq, nat_eq}
use tsdb_gw.Base.Map.{get, Unique}
use tsdb_gw.Base.Text.{Bytes}
use tsdb_gw.Keycache.{
  MKey, Shard, Cache, KeyCache, is_some, sub_key, first_byte, shard_at, new_cache, or_new_cache,
  cache_touch, cache_clear, new_shard,
}

-- A key of the type [16]byte.
pub record IsKey (key : Bytes) : Type 0 where
  pub size : length key ≡ 16
  pub byte : first_byte key < 256

unfoldable pub shard_seen : Shard → Bytes → Bool
shard_seen s sub = is_some (get s.entries sub)

unfoldable pub cache_seen : Cache → Bytes → Bool
unfolding shard_seen
cache_seen c key = shard_seen (shard_at c (first_byte key)) (sub_key key)

unfoldable pub caches_seen : Option Cache → Bytes → Bool
caches_seen none key = false
caches_seen (some c) key = cache_seen c key

unfoldable pub seen : KeyCache → MKey → Bool
unfolding caches_seen
seen k m = caches_seen (get k.caches m.org) m.key

abbrev pub HasShards : Cache → Type 0
HasShards c = length c.shards ≡ 256

pub record IsValid (k : KeyCache) : Type 0 where
  pub index : k.clear_idx < 256
  pub orgs : Unique k.caches
  pub shards : (org : ℕ) (c : Cache) → get k.caches org ≡ some c → HasShards c

pub HasShards-new : HasShards new_cache
unfolding new_cache
HasShards-new = length-replicate 256 new_shard

pub HasShards-or_new :
    (o : Option Cache) → ((c : Cache) → o ≡ some c → HasShards c) → HasShards (or_new_cache o)
HasShards-or_new none h = HasShards-new
HasShards-or_new (some c) h = h c refl

pub HasShards-touch : (c : Cache) (key : Bytes) → HasShards c → HasShards (cache_touch c key).0
unfolding cache_touch
HasShards-touch c key h = omega (arith, length-set c.shards)

pub HasShards-clear : (c : Cache) (i : ℕ) → HasShards c → HasShards (cache_clear c i).0
unfolding cache_clear
HasShards-clear c i h = omega (arith, length-set c.shards)
