-- ===== src/Examples/Config.antt =====
-- The flags and addresses of the examples.
use tsdb_gw.Base.{
  Option, [], arith, if◌then◌else◌, ltb, none, refl, some, ℕ, ◌%◌, ◌++◌, ◌^◌, ◌∷◌, ◌≡◌, ◌≤◌, false,
  true, All,
}
use tsdb_gw.Base.Eq.{bytes_eqb}
use tsdb_gw.Base.Int.{pos}
use tsdb_gw.Base.Number.{parse_int, parse_uint}
use tsdb_gw.Base.Text.{
  count_byte, split_two, Bytes, codes, fields_func, is_empty, split, trim_space,
}
use tsdb_gw.Graphite.{FromTo, get_from_to, range_too_large, round_trip, sub32, validate_range}
use tsdb_gw.Graphite.Laws.{first_response, round_trip_retries, validate_range_forward}
use tsdb_gw.Ingest.RateLimit.{configure_rate_limits}
use tsdb_gw.Ingest.RateLimit.Config.{configure-limits_text, limits_text, put_limits}
use tsdb_gw.Kafka.{TopicSettings, compression_snappy, get_compression}
use tsdb_gw.Kafka.Broker.{are_valid_brokers, is_valid_broker, IsBroker}
use tsdb_gw.Kafka.Setup.{
  KafkaAnswers, Publisher, PublisherFlags, new_publisher, set_partitions, AreReady,
  new_publisher-IsReady,
}
use tsdb_gw.Kafka.Topics.{parse_topic_settings, TopicFlags}

abbrev host : Bytes
host = codes "kafka"

abbrev mdm_topic : TopicSettings Bytes
mdm_topic = record {
  name = codes "mdm";
  partitioner = codes "bySeries";
  num_partitions = 0;
  only_org_id = pos 0;
  discard_prefixes = [];
  org_id_rewrite = record { source = pos 0; target = pos 0 };
}

one_topic :
    parse_topic_settings (λ s. some s) (codes "bySeries") (codes " mdm") [] [] []
    ≡ some (mdm_topic ∷ [])
unfolding parse_topic_settings fields_func split trim_space
one_topic = refl

configure-limits_text_example :
    configure_rate_limits (limits_text (pos 1, pos 500) ((pos 2, pos 20) ∷ []))
    ≡ some (put_limits [] ((pos 1, pos 500) ∷ (pos 2, pos 20) ∷ []))
configure-limits_text_example =
    configure-limits_text (pos 1, pos 500) ((pos 2, pos 20) ∷ [])
      ((omega arith, omega arith), ((omega arith, omega arith), tt))

abbrev parse_time : Bytes → ℕ → ℕ → Option ℕ
parse_time s now default = if is_empty s then some default else parse_uint s 32

abbrev an_hour : FromTo
an_hour = record { from = codes "7200"; until = codes "10800"; to = [] }

forward_times :
    get_from_to parse_time an_hour 100000 (sub32 (100000 % 2 ^ 32) 86400) (100000 % 2 ^ 32)
    ≡ some (7200, 10800)
unfolding get_from_to parse_uint
forward_times = refl

abbrev reversed : FromTo
reversed = record { from = codes "10800"; until = []; to = codes "7200" }

backward_times :
    get_from_to parse_time reversed 100000 (sub32 (100000 % 2 ^ 32) 86400) (100000 % 2 ^ 32)
    ≡ some (10800, 7200)
unfolding get_from_to parse_uint
backward_times = refl

validate_range_forward_example :
    validate_range parse_time 600 (codes "/graphite/render" ++ codes "/x") an_hour 100000 []
    ≡ range_too_large ∷ []
validate_range_forward_example =
    validate_range_forward parse_time 600 (codes "/x") an_hour 100000 7200 10800 forward_times
      (omega arith) (omega arith)

-- A server that answers from the third attempt on.
abbrev third_time : ℕ → Option ℕ
third_time n = if ltb n 3 then none else some 200

round_trip_retries_example :
    ((round_trip third_time true).1 ≡ first_response third_time 4 1)
    × ((round_trip third_time true).0 ≤ 4)
    × (round_trip third_time false ≡ (0, none))
round_trip_retries_example = round_trip_retries third_time

abbrev two_partitions : KafkaAnswers
two_partitions = record {
  version_ok = true;
  schemas_ok = true;
  tls_ok = true;
  config_ok = true;
  client_ok = true;
  producer_ok = true;
  partitions = λ name. some (pos 0 ∷ pos 1 ∷ []);
}

abbrev kafka_settings : PublisherFlags
kafka_settings = record {
  enabled = true;
  codec = codes "snappy";
  tls_enabled = false;
  v2 = false;
  v2_clear_interval = 3600;
}

abbrev mdm_publisher : Publisher Bytes
mdm_publisher = record {
  auto_interval = false;
  topics = record mdm_topic { num_partitions = 2 } ∷ [];
  compression = compression_snappy;
  key_cache = none;
}

abbrev mdm_flags : TopicFlags
mdm_flags = record {
  partition_schemes = codes "bySeries";
  topics = codes " mdm";
  only_org_ids = [];
  discard_prefixes = [];
  rewrite_org_id = [];
}

mdm_publisher_made :
    new_publisher two_partitions kafka_settings
      (λ s. some s)
      mdm_flags
      (codes "kafka:9092" ∷ [])
      false
    ≡ some (some mdm_publisher)
unfolding new_publisher set_partitions get_compression are_valid_brokers is_valid_broker count_byte
    split_two parse_int bytes_eqb parse_topic_settings fields_func split trim_space
mdm_publisher_made = refl

new_publisher-IsReady_example :
    All IsBroker (codes "kafka:9092" ∷ [])
    × AreReady two_partitions kafka_settings
        (λ s. some s)
        mdm_flags
        0
        (split (codes " mdm") b',')
        mdm_publisher.topics
new_publisher-IsReady_example =
    new_publisher-IsReady two_partitions kafka_settings (λ s. some s) mdm_flags
      (codes "kafka:9092" ∷ []) false mdm_publisher mdm_publisher_made
