-- ===== src/Carbon/System.antt =====
-- InitCarbon, Dispatch, the goroutines of flush and Stop (ingest/carbon/carbon.go) as one system: a
-- channel with a buffer, and the loops that take from it. The loops share the auth plugin, so its
-- users are the system's. A step that cannot happen yet leaves the system as it is.
pub mod Account
pub mod Laws
use tsdb_gw.Api.{AuthPlugin}
use tsdb_gw.Auth.{Users}
use tsdb_gw.Base.{
  Bool, List, Option, [], false, if◌then◌else◌, none, not, replicate, some, suc, true, zero, ℕ, ◌+◌,
  ◌||◌, ◌∷◌, length, ltb, ◌++◌,
}
use tsdb_gw.Base.Number.{◌>>=◌}
use tsdb_gw.Base.Text.{Bytes, is_empty}
use tsdb_gw.Carbon.{Channel, Event, Flush, closed, dispatch, flush_step, packet, tick}
use tsdb_gw.Kafka.Topics.{items}
use tsdb_gw.Metric.{Metric, Schema}
use tsdb_gw.Publish.{published}

-- The system; `received` is metricsReceived, which Dispatch counts before it sends, and `waiting` has
-- the packets of the calls of Dispatch whose send has to wait.
pub record System (schema : Schema) (parse_float : Bytes → Option ℕ) : Type 0 where
  pub channel : Channel
  pub received : ℕ
  pub waiting : List Bytes
  pub is_closed : Bool
  pub users : Users
  pub loops : List (Flush schema parse_float)

-- A packet from a connection; the send of the call that has waited longest goes on; a packet goes from
-- a connection straight to loop `i`, or from the call that has waited longest, as happens without
-- a buffer; loop `i` takes a packet from the buffer, has a tick, or sees that the channel is closed;
-- Stop closes the channel.
pub data CarbonAction : Type 0 where
  submit : Bytes → CarbonAction
  hand_over : Bytes → ℕ → CarbonAction
  take_over : ℕ → CarbonAction
  proceed : CarbonAction
  receive tick_at see_closed : ℕ → CarbonAction
  stop : CarbonAction

module _ (schema : Schema) (parse_float : Bytes → Option ℕ) where
  abbrev pub new_loop : Users → Flush schema parse_float
  new_loop h = record {
    buf = [];
    published = [];
    valid_count = 0;
    failed_count = 0;
    rejected = 0;
    auth_failed = 0;
    users = h;
    finished = false;
  }

  -- InitCarbon
  unfoldable pub init_carbon : ℕ → ℕ → Users → System schema parse_float
  init_carbon buffer_size concurrency h = record {
    channel = record { capacity = buffer_size; items = []; dropped = 0 };
    received = 0;
    waiting = [];
    is_closed = false;
    users = h;
    loops = replicate concurrency (new_loop h);
  }

  unfoldable pub is_running : List (Flush schema parse_float) → ℕ → Bool
  is_running [] i = false
  is_running (l ∷ ls) zero = not l.finished
  is_running (l ∷ ls) (suc i) = is_running ls i

  -- What follows the increment of metricsReceived: `none` is a send that has to wait.
  abbrev pub received_one :
      System schema parse_float → Bytes → Option Channel → System schema parse_float
  received_one s b none = record s { received = s.received + 1; waiting = s.waiting ++ b ∷ [] }
  received_one s b (some ch) = record s { received = s.received + 1; channel = ch }

  -- Dispatch; the listener makes no call after it has stopped, which comes before the close.
  unfoldable pub submit_packet :
      Bool → System schema parse_float → Bytes → System schema parse_float
  unfolding dispatch
  submit_packet non_blocking_buffer s b =
      if is_empty b || s.is_closed
      then s
      else received_one s b (dispatch non_blocking_buffer s.channel b)

  -- The send of the first call that waits, if there is room now.
  abbrev pub proceed_first : System schema parse_float → List Bytes → System schema parse_float
  proceed_first s [] = s
  proceed_first s (b ∷ bs) =
      if ltb (length s.channel.items) s.channel.capacity
      then record s {
        channel = record s.channel { items = s.channel.items ++ b ∷ [] };
        waiting = bs;
      }
      else s

  -- Stop closes the channel when the listener has stopped, which waits for all calls of Dispatch.
  abbrev pub close_buf : System schema parse_float → List Bytes → System schema parse_float
  close_buf s [] = record s { is_closed = true }
  close_buf s (b ∷ bs) = s

  module _ (plugin : AuthPlugin) (require_publisher_role : Bool) (valid_packet : Bytes → Bool)
      (publisher : List Metric → Bool) (non_blocking_buffer : Bool) where
    -- A turn of loop `i`.
    unfoldable pub turn_of :
        Users
        → List (Flush schema parse_float)
        → ℕ
        → Event schema parse_float
        → Option (Users × List (Flush schema parse_float))
    unfolding flush_step
    turn_of h [] i e = some (h, [])
    turn_of h (l ∷ ls) zero e = do
      l' ←
          flush_step schema parse_float plugin require_publisher_role valid_packet publisher
            (record l { users = h }) e
      some (l'.users, l' ∷ ls)
    turn_of h (l ∷ ls) (suc i) e = do r ← turn_of h ls i e; some (r.0, l ∷ r.1)

    abbrev pub system_turn :
        System schema parse_float
        → ℕ
        → Event schema parse_float
        → Option (System schema parse_float)
    system_turn s i e = do
      r ← turn_of s.users s.loops i e
      some (record s { users = r.0; loops = r.1 })

    abbrev pub receive_from :
        System schema parse_float → ℕ → List Bytes → Option (System schema parse_float)
    receive_from s i [] = some s
    receive_from s i (b ∷ bs) =
        system_turn (record s { channel = record s.channel { items = bs } }) i (packet b)

    -- A packet that does not pass through the buffer, which is empty.
    abbrev pub take_waiting :
        System schema parse_float
        → ℕ
        → (waiting items : List Bytes) → Option (System schema parse_float)
    take_waiting s i (b ∷ bs) [] = system_turn (record s { waiting = bs }) i (packet b)
    take_waiting s i waiting items = some s

    abbrev pub hand_to :
        System schema parse_float
        → ℕ
        → Bytes
        → (waiting items : List Bytes) → Option (System schema parse_float)
    hand_to s i b [] [] =
        if is_empty b || s.is_closed
        then some s
        else system_turn (record s { received = s.received + 1 }) i (packet b)
    hand_to s i b waiting items = some s

    abbrev pub see_closed_by :
        System schema parse_float → ℕ → List Bytes → Option (System schema parse_float)
    see_closed_by s i [] = if s.is_closed then system_turn s i closed else some s
    see_closed_by s i (b ∷ bs) = some s

    -- `none` is a panic.
    unfoldable pub carbon_step :
        System schema parse_float → CarbonAction → Option (System schema parse_float)
    unfolding submit_packet turn_of
    carbon_step s (submit b) = some (submit_packet non_blocking_buffer s b)
    carbon_step s proceed = some (proceed_first s s.waiting)
    carbon_step s stop = some (close_buf s s.waiting)
    carbon_step s (hand_over b i) =
        if is_running s.loops i then hand_to s i b s.waiting s.channel.items else some s
    carbon_step s (take_over i) =
        if is_running s.loops i then take_waiting s i s.waiting s.channel.items else some s
    carbon_step s (receive i) =
        if is_running s.loops i then receive_from s i s.channel.items else some s
    carbon_step s (tick_at i) = if is_running s.loops i then system_turn s i tick else some s
    carbon_step s (see_closed i) =
        if is_running s.loops i then see_closed_by s i s.channel.items else some s

    unfoldable pub carbon_steps :
        System schema parse_float → List CarbonAction → Option (System schema parse_float)
    unfolding carbon_step
    carbon_steps s [] = some s
    carbon_steps s (a ∷ acts) = do s' ← carbon_step s a; carbon_steps s' acts
