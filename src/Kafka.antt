-- ===== src/Kafka.antt =====
-- The Kafka publisher (publish/kafka/publish.go): what the flags configure, the check of the broker
-- addresses, the format of a message and the messages of a batch.
pub mod Topics
pub mod Encode
pub mod Expected
pub mod Messages
pub mod Routing
pub mod History
pub mod Batches
pub mod Sequence
pub mod Lost
pub mod Failing
pub mod Config
pub mod Points
pub mod Broker
pub mod Configured
pub mod Setup
use tsdb_gw.Base.{List, Option, if◌then◌else◌, none, some, ℕ}
use tsdb_gw.Base.Eq.{bytes_eq, int_eq, nat_eq, ◌==◌}
use tsdb_gw.Base.Int.{ℤ}
use tsdb_gw.Base.Text.{Bytes, codes}

pub record OrgIdRewrite : Type 0 where
  pub source : ℤ
  pub target : ℤ

-- `P` is the type of the partitioners of metrictank.
pub record TopicSettings (P : Type 0) : Type 0 where
  pub name : Bytes
  pub partitioner : P
  pub num_partitions : ℕ
  pub only_org_id : ℤ
  pub discard_prefixes : List Bytes
  pub org_id_rewrite : OrgIdRewrite

pub data CompressionCodec : Type 0 where
  compression_none : CompressionCodec
  compression_gzip : CompressionCodec
  compression_snappy : CompressionCodec

-- getCompression; `none` is log.Fatalf.
unfoldable pub get_compression : Bytes → Option CompressionCodec
get_compression codec =
    if codec == codes "none"
    then some compression_none
    else if codec == codes "gzip"
    then some compression_gzip
    else if codec == codes "snappy"
    then some compression_snappy
    else none
