-- ===== src/Carbon.antt =====
-- The plain text input of Carbon (ingest/carbon/carbon.go and schemas.go): the channel between
-- `Dispatch` and `flush`, the loop of `flush`, and the text of a metric.
pub mod Laws
pub mod System
use tsdb_gw.Api.{AuthPlugin}
use tsdb_gw.Auth.{AuthResult, User, Users, err, is_publisher, ok, set_id, user_at}
use tsdb_gw.Base.{
  Bool, List, Option, [], false, if◌then◌else◌, length, ltb, nat_eqb, none, not, some, true, ℕ,
  ◌&&◌, ◌++◌, ◌+◌, ◌∷◌,
}
use tsdb_gw.Base.Int.{pos, ℤ}
use tsdb_gw.Base.Number.{parse_uint, ◌>>=◌}
use tsdb_gw.Base.Text.{Bytes, codes, contains_byte, fields, is_empty, split, split_two, trim_space}
use tsdb_gw.Ingest.Formats.{plain_metric}
use tsdb_gw.Metric.{Metric, Schema}

-- The channel of packets, and the packets that were dropped.
pub record Channel : Type 0 where
  pub capacity : ℕ
  pub items : List Bytes
  pub dropped : ℕ

-- The send of Dispatch into the buffer; `none` is a send that has to wait. A send that goes straight
-- to a loop is a step of `Carbon.System`.
unfoldable pub dispatch : Bool → Channel → Bytes → Option Channel
dispatch non_blocking_buffer ch buf =
    if is_empty buf
    then some ch
    else if ltb (length ch.items) ch.capacity
    then some (record ch { items = ch.items ++ buf ∷ [] })
    else if non_blocking_buffer
    then some (record ch { dropped = ch.dropped + 1 })
    else none

abbrev pub starts_with_byte : Bytes → ℕ → Bool
starts_with_byte [] b = false
starts_with_byte (c ∷ s) b = nat_eqb c b

unfoldable pub is_tag : Bytes → Bool
is_tag v = not (is_empty v) && (contains_byte v b'=' && not (starts_with_byte v b'='))

unfoldable pub are_tags : List Bytes → Bool
unfolding is_tag
are_tags [] = true
are_tags (v ∷ vs) = is_tag v && are_tags vs

-- The name and the tags before the first and after it, and whether the tags can be parsed.
abbrev pub name_and_tags : List Bytes → Option (Bytes × List Bytes)
name_and_tags [] = none
name_and_tags (name ∷ tags) = if are_tags tags then some (name, tags) else none

-- `parse_float` is strconv.ParseFloat, whose result is the bits of the float.
module _ (schema : Schema) (parse_float : Bytes → Option ℕ) where
  abbrev pub parse_elements : List Bytes → ℤ → Option Metric
  parse_elements (path ∷ value ∷ timestamp ∷ []) org_id = do
    nt ← name_and_tags (split path b';')
    val ← parse_float value
    time ← parse_uint timestamp 32
    some (schema.set_id (plain_metric org_id nt.0 val (pos time) (codes "gauge") nt.1))
  parse_elements elements org_id = none

  -- parseMetric; `none` is an error.
  unfoldable pub parse_metric : Bytes → ℤ → Option Metric
  unfolding are_tags
  parse_metric buf org_id = parse_elements (fields (trim_space buf)) org_id

  -- The variables of `flush`, its counters, the batches given to the publisher without an error, and
  -- the users of the auth plugin.
  pub record Flush : Type 0 where
    pub buf : List Metric
    pub published : List (List Metric)
    pub valid_count : ℕ
    pub failed_count : ℕ
    pub rejected : ℕ
    pub auth_failed : ℕ
    pub users : Users
    pub finished : Bool

  pub data Event : Type 0 where
    tick : Event
    packet : Bytes → Event
    closed : Event

  module _ (plugin : AuthPlugin) (require_publisher_role : Bool) (valid_packet : Bytes → Bool)
      (publisher : List Metric → Bool) where
    abbrev pub flush_tick : Flush → Flush
    flush_tick s =
        if publisher s.buf
        then record s {
          valid_count = s.valid_count + length s.buf;
          published = s.published ++ s.buf ∷ [];
          buf = [];
        }
        else record s { failed_count = s.failed_count + length s.buf }

    abbrev pub take_parsed : Flush → Option Metric → Flush
    take_parsed s none = record s { rejected = s.rejected + 1 }
    take_parsed s (some m) = record s { buf = s.buf ++ m ∷ [] }

    -- parts[1] of a packet without "." panics.
    abbrev pub take_parts : Flush → User → List Bytes → Option Flush
    take_parts s user (key_part ∷ rest ∷ []) = some (take_parsed s (parse_metric rest user.id))
    take_parts s user parts = none

    abbrev pub take_auth : Flush → List Bytes → AuthResult ℕ × Users → Option Flush
    take_auth s parts (err e, h) = some (record s { auth_failed = s.auth_failed + 1; users = h })
    take_auth s parts (ok p, h) =
        if require_publisher_role && not (is_publisher (user_at h p).role)
        then some (record s { auth_failed = s.auth_failed + 1; users = h })
        else take_parts (record s { users = h }) (user_at h p) parts

    abbrev pub head_part : List Bytes → Bytes
    head_part [] = []
    head_part (s ∷ rest) = s

    unfoldable pub flush_packet : Flush → Bytes → Option Flush
    unfolding parse_metric
    flush_packet s b =
        let parts = split_two b b'.' in
        if not (valid_packet b)
        then some (record s { rejected = s.rejected + 1 })
        else take_auth s parts (plugin s.users (codes "api_key") (head_part parts))

    -- One turn of the loop of `flush`; `none` is a panic.
    unfoldable pub flush_step : Flush → Event → Option Flush
    unfolding flush_packet
    flush_step s tick = some (if s.finished then s else flush_tick s)
    flush_step s (packet b) = if s.finished then some s else flush_packet s b
    flush_step s closed = some (record s { finished = true })

    unfoldable pub flush_steps : Flush → List Event → Option Flush
    unfolding flush_step
    flush_steps s [] = some s
    flush_steps s (e ∷ es) = do s' ← flush_step s e; flush_steps s' es
