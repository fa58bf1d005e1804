-- ===== src/Examples/Output.antt =====
-- The Kafka publisher in the examples.
use tsdb_gw.Base.{List, [], false, some, true, ◌∷◌, ℕ}
use tsdb_gw.Base.Int.{pos, ℤ, negsuc}
use tsdb_gw.Base.Text.{Bytes, codes}
use tsdb_gw.Examples.Caches.{key_one}
use tsdb_gw.Kafka.{OrgIdRewrite, TopicSettings}
use tsdb_gw.Kafka.Encode.{Options, Wire}
use tsdb_gw.Metric.{Metric, plain_schema}

-- Encoders that give one byte, and a partitioner that sends all to partition 0.
abbrev wire : Wire Bytes
wire = record {
  schema = plain_schema;
  mkey_of = λ s. some key_one;
  marshal = λ m. some (1 ∷ []);
  marshal_point = λ org k v t. some (2 ∷ []);
  partition = λ p m n. some (pos 0);
  retention = λ s. pos 10;
}

abbrev options : Options
options = record { v2 = true; v2_org = true; auto_interval = false }

abbrev topic : Bytes → ℤ → OrgIdRewrite → TopicSettings Bytes
topic name only r = record {
  name = name;
  partitioner = codes "bySeries";
  num_partitions = 1;
  only_org_id = only;
  discard_prefixes = codes "mem." ∷ [];
  org_id_rewrite = r;
}

abbrev topics : List (TopicSettings Bytes)
topics =
    topic (codes "all") (pos 0) (record { source = pos 7; target = pos 8 })
    ∷ topic (codes "eight") (pos 8) (record { source = pos 0; target = pos 0 })
    ∷ []

-- An encoder whose data is the value and the organisation.
abbrev code : ℤ → Bytes
code (pos n) = n ∷ []
code (negsuc n) = 0 ∷ n ∷ []

abbrev decode_org : Bytes → ℤ
decode_org [] = pos 0
decode_org (n ∷ []) = pos n
decode_org (k ∷ n ∷ s) = negsuc n

abbrev decode : Bytes → ℤ × ℕ
decode [] = (pos 0, 0)
decode (v ∷ s) = (decode_org s, v)

-- The partition is the number of the value.
abbrev org_wire : Wire Bytes
org_wire = record wire {
  marshal = λ m. some (m.value ∷ code m.org_id);
  partition = λ p m n. some (pos m.value);
}

abbrev whole : Options
whole = record { v2 = false; v2_org = true; auto_interval = false }

abbrev AnyMetric : Metric → Type 0
AnyMetric m = Unit

abbrev value_of : Metric → ℕ
value_of m = m.value

abbrev place_of : Bytes → ℤ → ℕ → ℕ → ℤ
place_of p org v n = pos v
