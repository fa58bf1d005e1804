-- ===== src/Keycache.antt =====
-- The key cache that decides which metrics are sent in the short format
-- (publish/kafka/keycache/shard.go, cache.go and keycache.go). A map under a mutex is the map; each
-- method is one step, and one round of the `clear` loop is `clear_round`. Of `schema.MKey` the
-- program uses the two fields `Key`, 16 bytes, and `Org`, a uint32.
pub mod Seen
pub mod Laws
pub mod Rounds
pub mod Refinement
use tsdb_gw.Base.{
  ℕ, zero, suc, ◌+◌, ◌/◌, List, [], ◌∷◌, Bool, true, false, Option, none, some, length, get_or, set,
  replicate, if◌then◌else◌,
}
use tsdb_gw.Base.Eq.{◌==◌, bytes_eq, nat_eq}
use tsdb_gw.Base.Map.{Map, get, put, delete}
use tsdb_gw.Base.Text.{Bytes}

abbrev pub SubKey : Type 0
SubKey = Bytes

pub record MKey : Type 0 where
  pub key : Bytes
  pub org : ℕ

abbrev pub is_some {ℓ} : {A : Type ℓ} → Option A → Bool
is_some none = false
is_some (some a) = true

pub record Shard : Type 0 where
  pub entries : Map SubKey (Unit {0})

abbrev pub new_shard : Shard
new_shard = record { entries = [] }

-- copy(sub[:], key[1:]) for a key of 16 bytes
abbrev pub sub_key : Bytes → SubKey
sub_key [] = []
sub_key (b ∷ s) = s

-- key[0]
abbrev pub first_byte : Bytes → ℕ
first_byte [] = 0
first_byte (b ∷ s) = b

unfoldable pub shard_touch : Shard → Bytes → Shard × Bool
shard_touch s key =
    let sub = sub_key key in
    (record s { entries = put s.entries sub tt }, is_some (get s.entries sub))

abbrev pub shard_len : Shard → ℕ
shard_len s = length s.entries

abbrev pub shard_reset : Shard → Shard
shard_reset s = record s { entries = [] }

pub record Cache : Type 0 where
  pub shards : List Shard

unfoldable pub new_cache : Cache
new_cache = record { shards = replicate 256 new_shard }

abbrev pub shard_at : Cache → ℕ → Shard
shard_at c i = get_or c.shards i new_shard

unfoldable pub cache_touch : Cache → Bytes → Cache × Bool
cache_touch c key =
    let i = first_byte key in
    let (s, seen) = shard_touch (shard_at c i) key in (record c { shards = set c.shards i s }, seen)

-- The loop of `Len` over the array.
unfoldable pub sum_len : List Shard → ℕ
sum_len [] = 0
sum_len (s ∷ ss) = shard_len s + sum_len ss

unfoldable pub cache_len : Cache → ℕ
unfolding sum_len
cache_len c = sum_len c.shards

unfoldable pub cache_clear : Cache → ℕ → Cache × ℕ
cache_clear c i =
    let c' : Cache = record c { shards = set c.shards i (shard_reset (shard_at c i)) } in
    (c', cache_len c')

pub record KeyCache : Type 0 where
  pub clear_idx : ℕ
  pub clear_interval : ℕ
  pub caches : Map ℕ Cache

unfoldable pub new_key_cache : ℕ → KeyCache
new_key_cache interval = record { clear_idx = 0; clear_interval = interval / 256; caches = [] }

abbrev pub or_new_cache : Option Cache → Cache
or_new_cache none = new_cache
or_new_cache (some c) = c

unfoldable pub touch : KeyCache → MKey → KeyCache × Bool
touch k m =
    let cache = or_new_cache (get k.caches m.org) in
    let (cache', seen) = cache_touch cache m.key in
    (record k { caches = put k.caches m.org cache' }, seen)

unfoldable pub sum_caches : Map ℕ Cache → ℕ
sum_caches [] = 0
sum_caches ((org, c) ∷ m) = cache_len c + sum_caches m

unfoldable pub len : KeyCache → ℕ
unfolding sum_caches
len k = sum_caches k.caches

-- What one target of a round leaves in the map: the cleared cache, or nothing if it is empty.
unfoldable pub clear_target : ℕ → Map ℕ Cache → ℕ × Cache → Map ℕ Cache
clear_target i m (org, c) =
    let (c', size) = cache_clear c i in if size == 0 then delete m org else put m org c'

unfoldable pub clear_targets : ℕ → Map ℕ Cache → List (ℕ × Cache) → Map ℕ Cache
unfolding clear_target
clear_targets i m [] = m
clear_targets i m (t ∷ ts) = clear_targets i (clear_target i m t) ts

-- One tick of `clear`: the targets are the entries that the map has when the round begins.
unfoldable pub clear_round : KeyCache → KeyCache
unfolding clear_targets
clear_round k = record k {
  clear_idx = if k.clear_idx + 1 == 256 then 0 else k.clear_idx + 1;
  caches = clear_targets k.clear_idx k.caches k.caches;
}

unfoldable pub clear_rounds : ℕ → KeyCache → KeyCache
clear_rounds zero k = k
clear_rounds (suc n) k = clear_rounds n (clear_round k)
