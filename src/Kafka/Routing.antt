-- ===== src/Kafka/Routing.antt =====
-- The messages of a batch are those that the settings ask for.
use tsdb_gw.Base.{List, map, some, true, ℕ, ◌++◌, ◌≡◌}
use tsdb_gw.Base.Eq.{bytes_eq, int_eq, nat_eq}
use tsdb_gw.Base.Int.{ℤ}
use tsdb_gw.Base.Text.{Bytes}
use tsdb_gw.Kafka.{TopicSettings}
use tsdb_gw.Kafka.Encode.{Options, Wire, Collected, to_uint32}
use tsdb_gw.Kafka.Expected.{all_sent, batch_routes}
use tsdb_gw.Keycache.{MKey}
use tsdb_gw.Metric.{Metric}

module _ {P : Type 0} (wire : Wire P) (options : Options) where
  -- `reads` finds the organisation and the facts in the data of a message, and `IsMarked` says that
  -- the id of a metric goes with its other fields, as it does after `SetId`.
  module _ {F : Type 0} (facts : Metric → F) (place : P → ℤ → F → ℕ → ℤ)
      (facts-set_id : (m : Metric) → facts (wire.schema.set_id m) ≡ facts m)
      (facts-org : (m : Metric) (org : ℤ) → facts (record m { org_id = org }) ≡ facts m)
      (reads : Bytes → ℤ × F) (IsMarked : Metric → Type 0)
      (marks : (m : Metric) → IsMarked (wire.schema.set_id m))
      (encodes : (m : Metric)
        → IsMarked m
        → (bytes : Bytes) × (wire.marshal m ≡ some bytes) × (reads bytes ≡ (m.org_id, facts m)))
      (encodes_point : (m : Metric)
        → options.v2 ≡ true
        → IsMarked m
        → (k : MKey) × (wire.mkey_of m.id ≡ some k)
          × (bytes : Bytes) × (wire.marshal_point options.v2_org k m.value (to_uint32 m.time)
              ≡ some bytes)
          × (reads bytes ≡ (m.org_id, facts m)))
      (partitions : (p : P) (m : Metric) (n : ℕ)
        → wire.partition p m n ≡ some (place p m.org_id (facts m) n)) where
    record IsCollected (topics : List (TopicSettings P)) (before : List (Bytes × ℤ × (ℤ × F)))
        (ms : List Metric) (c : Collected wire options) : Type 0 where
      fine : c.fine ≡ true
      sent : all_sent reads c.payload ≡ before ++ batch_routes wire options facts place topics ms
      orgs : map (λ (m : Metric). m.org_id) c.metrics ≡ map (λ (m : Metric). m.org_id) ms
