-- ===== src/Examples/Rows.antt =====
-- The rows of the persister and the packets of Carbon in the examples.
use tsdb_gw.Api.{AuthPlugin}
use tsdb_gw.Auth.{is_publisher, user_at, admin_user, initial_users, ok}
use tsdb_gw.Base.{
  Bool, List, Option, [], arith, false, length, none, refl, some, true, ℕ, ◌+◌, ◌∷◌, ◌≡◌, ◌≤◌, map,
}
use tsdb_gw.Base.Eq.{bytes_eqb, bytes_eq, int_eq, nat_eq}
use tsdb_gw.Base.Int.{pos, ℤ}
use tsdb_gw.Base.Map.{get}
use tsdb_gw.Base.Number.{parse_uint, ◌>>=◌}
use tsdb_gw.Base.Text.{split_two, fields, trim_space, split, Bytes, codes, contains_byte}
use tsdb_gw.Carbon.{Event, Flush, closed, flush_steps, packet, dispatch, flush_packet, parse_metric}
use tsdb_gw.Carbon.Laws.{accounted, close_drops_buffer}
use tsdb_gw.Carbon.System.{
  System, init_carbon, receive, see_closed, stop, submit, submit_packet, tick_at, turn_of,
  CarbonAction, carbon_steps, is_running, hand_over, proceed, take_over,
}
use tsdb_gw.Examples.Intake.{cpu}
use tsdb_gw.Metric.{Metric, float_one, plain_schema}
use tsdb_gw.Persister.{row_key, Persister, Sent, index, persist, remove_rows, send, stamp}
use tsdb_gw.Persister.Failure.{send_failure_locks}
use tsdb_gw.Persister.Rows.{row_key-injective}
use tsdb_gw.Persister.Send.{IsDelivered, pending, send-IsDelivered, resent}

abbrev row : List Metric
row = cpu ∷ cpu ∷ cpu ∷ []

abbrev rows_of_two : Persister
rows_of_two = record {
  locked = false;
  metrics = (codes "10:h", row) ∷ (codes "11:h", cpu ∷ []) ∷ [];
  interval = pos 60;
  max_buffer_size = 2;
}

abbrev all_pending : List Metric
all_pending = pending (resent (pos 5000) (pos 60)) rows_of_two.metrics

send-IsDelivered_example :
    (s : Sent) × (send rows_of_two (pos 5000) (λ b. true) ≡ some s) × IsDelivered 2 all_pending s
send-IsDelivered_example = send-IsDelivered rows_of_two (pos 5000) (λ b. true) refl (λ b. refl)

enough : 2 ≤ length (pending (stamp (pos 5000) (pos 60)) rows_of_two.metrics)
unfolding pending
enough = omega arith

send_failure_locks_example :
    (s : Sent) × (send rows_of_two (pos 5000) (λ b. false) ≡ some s)
    × (s.fine ≡ false)
    × ((row_key : Bytes) (metrics : List Metric) → persist s.after row_key metrics ≡ none)
    × ((later : ℤ) (any : List Metric → Bool) → send s.after later any ≡ none)
    × (index s.after ≡ none)
    × ((row_keys : List Bytes) → remove_rows s.after row_keys (λ ks. true) ≡ none)
send_failure_locks_example =
    send_failure_locks rows_of_two (pos 5000) (λ b. false) refl (omega arith) enough (λ b. refl)

key_of_host : row_key (pos 10) (codes "h") ≡ row_key (pos 10) (codes "h")
key_of_host = refl

row_key-injective_example : (pos 10 ≡ pos 10) × (codes "h" ≡ codes "h")
row_key-injective_example =
    row_key-injective (pos 10) (pos 10) (codes "h") (codes "h") (omega arith) (omega arith)
      key_of_host

abbrev parse_one : Bytes → Option ℕ
parse_one s = some float_one

abbrev empty_loop : Flush plain_schema parse_one
empty_loop = record {
  buf = [];
  published = [];
  valid_count = 0;
  failed_count = 0;
  rejected = 0;
  auth_failed = 0;
  users = initial_users;
  finished = false;
}

abbrev lets_in : AuthPlugin
lets_in h username key = (ok admin_user, h)

abbrev good_packet : Bytes
good_packet = codes "k.cpu 1 1000"

has_dot : contains_byte good_packet b'.' ≡ true
unfolding contains_byte
has_dot = refl

abbrev flush_run : List (Event plain_schema parse_one) → Option (Flush plain_schema parse_one)
flush_run = flush_steps plain_schema parse_one lets_in true (λ b. true) (λ ms. true) empty_loop

-- Two loops over a channel with room for one packet, whose senders wait.
abbrev carbon_acts : List CarbonAction
carbon_acts =
    submit good_packet
    ∷ submit good_packet
    ∷ receive 1
    ∷ proceed
    ∷ tick_at 1
    ∷ submit good_packet
    ∷ receive 0
    ∷ take_over 1
    ∷ hand_over good_packet 1
    ∷ stop
    ∷ see_closed 0
    ∷ []

abbrev run_carbon : Option (System plain_schema parse_one)
run_carbon =
    carbon_steps plain_schema parse_one lets_in true (λ b. true) (λ ms. true) false
      (init_carbon plain_schema parse_one 1 2 initial_users) carbon_acts

-- One packet was published, one is lost in the buffer of a loop that has ended, and the other loop
-- still has two.
abbrev summary : System plain_schema parse_one → ℕ × ℕ × List (ℕ × ℕ)
summary s = (s.received, s.channel.dropped, map (λ l. (l.valid_count, length l.buf)) s.loops)

carbon_run : (do s ← run_carbon; some (summary s)) ≡ some (4, 0, (0, 1) ∷ (1, 2) ∷ [])
unfolding carbon_steps init_carbon submit_packet turn_of is_running dispatch flush_packet
    parse_metric is_publisher bytes_eqb user_at get split_two fields trim_space split parse_uint
carbon_run = refl

close_drops_buffer_example :
    (s' : Flush plain_schema parse_one) × (flush_run (packet good_packet ∷ closed ∷ []) ≡ some s')
    × (s'.finished ≡ true)
    × (s'.published ≡ [])
    × (accounted plain_schema parse_one s' ≡ accounted plain_schema parse_one empty_loop + 1)
close_drops_buffer_example =
    close_drops_buffer plain_schema parse_one lets_in true (λ b. true) (λ ms. true) empty_loop
      (good_packet ∷ []) (has_dot, tt) refl
