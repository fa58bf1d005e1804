-- ===== src/Keycache/Refinement.antt =====
-- publish/kafka/keycache against its specification: the set of the keys that were touched since the
-- last round that cleared their shard.
use mathlib.Core.Path.{ap₂}
use tsdb_gw.Base.{
  All, Bool, List, [], ap, arith, false, if◌then◌else◌, refl, some, true, ℕ, ◌%◌, ◌&&◌, ◌+◌, ◌∙◌,
  ◌∷◌, ◌≡◌,
}
use tsdb_gw.Base.Eq.{bytes_eq, int_eq, nat_eq, ◌==◌}
use tsdb_gw.Base.Map.{get}
use tsdb_gw.Keycache.{Cache, KeyCache, MKey, clear_round, first_byte, new_key_cache, touch}
use tsdb_gw.Keycache.Rounds.{clear_round-IsValid, seen-clear_round, seen-touch, touch-IsValid}
use tsdb_gw.Keycache.Seen.{HasShards, IsKey, IsValid, seen}

-- What the program does with the cache.
pub data Op : Type 0 where
  touch_key : MKey → Op
  tick_clear : Op

-- The answers of the touches, in their order.
pub run : KeyCache → List Op → List Bool
run k [] = []
run k (touch_key m ∷ ops) = (touch k m).1 ∷ run (touch k m).0 ops
run k (tick_clear ∷ ops) = run (clear_round k) ops

-- The specification: a set of keys, and the first byte of the keys that the next round forgets.
pub record KeySet : Type 0 where
  pub has : MKey → Bool
  pub turn : ℕ

abbrev pub no_keys : KeySet
no_keys = record { has = λ m. false; turn = 0 }

abbrev pub same_key : MKey → MKey → Bool
same_key m j = m.org == j.org && m.key == j.key

abbrev pub add_key : KeySet → MKey → KeySet
add_key s m = record s { has = λ j. if same_key m j then true else s.has j }

abbrev pub forget : KeySet → KeySet
forget s = record {
  has = λ j. if first_byte j.key == s.turn then false else s.has j;
  turn = (s.turn + 1) % 256;
}

pub run_set : KeySet → List Op → List Bool
run_set s [] = []
run_set s (touch_key m ∷ ops) = s.has m ∷ run_set (add_key s m) ops
run_set s (tick_clear ∷ ops) = run_set (forget s) ops

abbrev pub IsOp : Op → Type 0
IsOp (touch_key m) = IsKey m.key
IsOp tick_clear = Unit

-- The cache stands for the set.
pub record Stands (k : KeyCache) (s : KeySet) : Type 0 where
  pub valid : IsValid k
  pub turns : k.clear_idx ≡ s.turn
  pub agrees : (j : MKey) → IsKey j.key → seen k j ≡ s.has j

pub Stands-new : (interval : ℕ) → Stands (new_key_cache interval) no_keys
Stands-new interval = record {
  valid = record {
    index = unfold new_key_cache in omega arith;
    orgs = unfold new_key_cache in tt;
    shards = λ org c e. no_shards org c e;
  };
  turns = unfold new_key_cache in refl;
  agrees = λ j h. nothing_seen j;
}
  where
    no_shards :
        (org : ℕ) (c : Cache) → get (new_key_cache interval).caches org ≡ some c → HasShards c
    no_shards org c e = unfold new_key_cache in (unfold get in cc e)

    nothing_seen : (j : MKey) → seen (new_key_cache interval) j ≡ false
    nothing_seen j = unfold seen in (unfold new_key_cache in (unfold get in refl))

Stands-touch :
    (k : KeyCache) (s : KeySet) (m : MKey)
    → IsKey m.key
    → Stands k s
    → Stands (touch k m).0 (add_key s m)
Stands-touch k s m h st = record {
  valid = touch-IsValid k m st.valid;
  turns = unfold touch in st.turns;
  agrees = λ j i.
      (seen-touch k m j st.valid h i).1
      ∙ ap (λ b. if same_key m j then true else b) (st.agrees j i);
}

Stands-clear : (k : KeyCache) (s : KeySet) → Stands k s → Stands (clear_round k) (forget s)
unfolding seen
Stands-clear k s st = record {
  valid = clear_round-IsValid k st.valid;
  turns = unfold clear_round in ground (arith, st.valid.index, st.turns);
  agrees = λ j i.
      seen-clear_round k j st.valid
      ∙ rw (st.turns) (ap (λ b. if first_byte j.key == s.turn then false else b) (st.agrees j i));
}

run_agrees :
    (k : KeyCache) (s : KeySet) (ops : List Op)
    → Stands k s
    → All IsOp ops
    → run k ops ≡ run_set s ops
unfolding run run_set
run_agrees k s [] st h = refl
run_agrees k s (touch_key m ∷ ops) st (h, hs) =
    ap₂ ◌∷◌ ((seen-touch k m m st.valid h h).0 ∙ st.agrees m h)
      (run_agrees (touch k m).0 (add_key s m) ops (Stands-touch k s m h st) hs)
run_agrees k s (tick_clear ∷ ops) st (h, hs) =
    run_agrees (clear_round k) (forget s) ops (Stands-clear k s st) hs

-- The key cache implements a set of keys: over any series of touches of keys of 16 bytes and
-- rounds of clearing from a new cache, every touch answers whether the key was touched since the
-- last round that forgot it, where the round r forgets the keys, of every organisation, whose
-- first byte is r modulo 256.
pub run_refines :
    (interval : ℕ) (ops : List Op)
    → All IsOp ops
    → run (new_key_cache interval) ops ≡ run_set no_keys ops
run_refines interval ops h = run_agrees (new_key_cache interval) no_keys ops (Stands-new interval) h
