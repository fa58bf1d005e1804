-- ===== src/Carbon/System/Laws.antt =====
-- The account of the packets is kept by every step of the Carbon input.
use tsdb_gw.Api.{AuthPlugin}
use tsdb_gw.Auth.{Users}
use tsdb_gw.Base.{Bool, List, Option, false, some, ℕ, ◌+◌, ◌≡◌}
use tsdb_gw.Base.Text.{Bytes}
use tsdb_gw.Carbon.{Event, Flush, flush_step}
use tsdb_gw.Carbon.Laws.{accounted}
use tsdb_gw.Carbon.System.{System, turn_of}
use tsdb_gw.Carbon.System.Account.{IsAccounted, Loops}
use tsdb_gw.Metric.{Metric, Schema}

module _ (schema : Schema) (parse_float : Bytes → Option ℕ) where
  module _ (plugin : AuthPlugin) (require_publisher_role : Bool) (valid_packet : Bytes → Bool)
      (publisher : List Metric → Bool) (non_blocking_buffer : Bool) where
    -- A turn of a running loop on this event adds `n` packets and leaves it running or not.
    abbrev Adds : Event schema parse_float → ℕ → Bool → Type 0
    Adds e n f =
        (l : Flush schema parse_float)
        → l.finished ≡ false
        → (l' : Flush schema parse_float) × (flush_step schema parse_float plugin
              require_publisher_role valid_packet publisher l e
            ≡ some l')
          × (accounted schema parse_float l' ≡ accounted schema parse_float l + n)
          × (l'.finished ≡ f)

    abbrev turn :
        Users
        → Loops schema parse_float
        → ℕ
        → Event schema parse_float
        → Option (Users × Loops schema parse_float)
    turn =
        turn_of schema parse_float plugin require_publisher_role valid_packet publisher
          non_blocking_buffer

    abbrev Runs : Option (System schema parse_float) → Type 0
    Runs o = (s : System schema parse_float) × (o ≡ some s) × IsAccounted schema parse_float s
