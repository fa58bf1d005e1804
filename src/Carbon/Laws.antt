-- ===== src/Carbon/Laws.antt =====
-- What becomes of the packets that `flush` takes from the channel.
use tsdb_gw.Api.{AuthPlugin}
use tsdb_gw.Auth.{AuthResult, Users, err, is_publisher, ok, user_at}
use tsdb_gw.Base.{
  Bool, Bool-cases, List, Option, [], arith, false, if◌then◌else◌, inl, inr, length, length-append,
  nat_eqb, none, not, refl, some, true, ℕ, ◌&&◌, ◌+◌, ◌∷◌, ◌≡◌, All, map, ◌++◌, ◌∙◌,
}
use tsdb_gw.Base.Text.{Bytes, contains_byte, split_two, codes}
use tsdb_gw.Carbon.{
  Event, Flush, closed, flush_packet, flush_step, flush_steps, packet, parse_metric, take_auth,
  take_parsed, tick, flush_tick, head_part,
}
use tsdb_gw.Metric.{Metric, Schema}

split_two_found :
    (s : Bytes) (sep : ℕ)
    → contains_byte s sep ≡ true
    → (k : Bytes) × (rest : Bytes) × (split_two s sep ≡ k ∷ rest ∷ [])
unfolding split_two contains_byte
split_two_found [] sep h = cc h
split_two_found (c ∷ s) sep h = elim (Bool-cases (nat_eqb c sep)) [
  | inl here ↦ rw here ([], s, refl)
  | inr later ↦
      rw later
        (let (k, rest, e) = split_two_found s sep (rw later at h) in (c ∷ k, rest, rw e refl))
]

module _ (schema : Schema) (parse_float : Bytes → Option ℕ) where
  abbrev pub Loop : Type 0
  Loop = Flush schema parse_float

  -- What a live loop receives: ticks, and packets with a ".".
  abbrev pub IsLive : Event schema parse_float → Type 0
  IsLive tick = Unit
  IsLive (packet b) = contains_byte b b'.' ≡ true
  IsLive closed = ⊥

  packets : List (Event schema parse_float) → ℕ
  packets [] = 0
  packets (packet b ∷ es) = 1 + packets es
  packets (tick ∷ es) = packets es
  packets (closed ∷ es) = packets es

  -- The packets that the counters and the buffer stand for.
  abbrev pub accounted : Loop → ℕ
  accounted s = s.valid_count + s.rejected + s.auth_failed + length s.buf

  -- `n` packets have been taken since the state `s`, none of them by a loop that has finished.
  pub record IsAfter (n : ℕ) (s s' : Loop) : Type 0 where
    pub running : s'.finished ≡ false
    pub accounts : accounted s' ≡ accounted s + n

  module _ (plugin : AuthPlugin) (require_publisher_role : Bool) (valid_packet : Bytes → Bool)
      (publisher : List Metric → Bool) where
    abbrev run_from : Loop → List (Event schema parse_float) → Option Loop
    run_from = flush_steps schema parse_float plugin require_publisher_role valid_packet publisher

    take_parsed-IsAfter :
        (s : Loop) (o : Option Metric)
        → s.finished ≡ false
        → IsAfter 1 s (
            take_parsed schema parse_float plugin require_publisher_role valid_packet publisher s o)
          × ((take_parsed schema parse_float plugin require_publisher_role valid_packet publisher s
                o).published
              ≡ s.published)
    take_parsed-IsAfter s none r = (record { running = r; accounts = omega arith }, refl)
    take_parsed-IsAfter s (some m) r =
        (record { running = r; accounts = omega (arith, length-append s.buf (m ∷ [])) }, refl)

    abbrev pub Taken : Loop → Option Loop → Type 0
    Taken s o = (s' : Loop) × (o ≡ some s') × IsAfter 1 s s' × (s'.published ≡ s.published)

    if-Taken :
        (s : Loop) (b : Bool) (o p : Option Loop)
        → Taken s o
        → Taken s p
        → Taken s (if b then o else p)
    if-Taken s true o p h k = h
    if-Taken s false o p h k = k

    take_auth-Taken :
        (s : Loop) (parts : List Bytes) (k rest : Bytes) (a : AuthResult ℕ × Users)
        → parts ≡ k ∷ rest ∷ []
        → s.finished ≡ false
        → Taken s (
            take_auth schema parse_float plugin require_publisher_role valid_packet publisher s
              parts a)
    take_auth-Taken s parts k rest (err e, h) two r =
        (_, refl, record { running = r; accounts = omega arith }, refl)
    take_auth-Taken s parts k rest (ok p, h) two r =
        if-Taken s (require_publisher_role && not (is_publisher (user_at h p).role)) _ _
          (_, refl, record { running = r; accounts = omega arith }, refl)
          (rw two (
            let (i, q) =
              take_parsed-IsAfter (record s { users = h })
                (parse_metric schema parse_float rest (user_at h p).id) r in
            (_, refl, record { running = i.running; accounts = i.accounts }, q)))

    flush_packet-Taken :
        (s : Loop) (b : Bytes)
        → contains_byte b b'.' ≡ true
        → s.finished ≡ false
        → Taken s (
            flush_packet schema parse_float plugin require_publisher_role valid_packet publisher s
              b)
    unfolding flush_packet
    flush_packet-Taken s b dot r =
        let (k, rest, e) = split_two_found b b'.' dot in
        if-Taken s (not (valid_packet b)) _ _
          (_, refl, record { running = r; accounts = omega arith }, refl)
          (take_auth-Taken s (split_two b b'.') k rest
            (plugin s.users (codes "api_key") (
              head_part schema parse_float plugin require_publisher_role valid_packet publisher
                (split_two b b'.')))
            e r)

    packet_step :
        (s : Loop) (b : Bytes)
        → s.finished ≡ false
        → flush_step schema parse_float plugin require_publisher_role valid_packet publisher s
            (packet b)
          ≡ flush_packet schema parse_float plugin require_publisher_role valid_packet publisher s b
    unfolding flush_step
    packet_step s b r = rw r refl

    pub packet-Taken :
        (s : Loop) (b : Bytes)
        → contains_byte b b'.' ≡ true
        → s.finished ≡ false
        → Taken s (
            flush_step schema parse_float plugin require_publisher_role valid_packet publisher s
              (packet b))
    packet-Taken s b dot r =
        let (m, f, i, q) = flush_packet-Taken s b dot r in (m, packet_step s b r ∙ f, i, q)

    pub tick-IsAfter :
        (s : Loop)
        → s.finished ≡ false
        → IsAfter 0 s
            (flush_tick schema parse_float plugin require_publisher_role valid_packet publisher s)
    tick-IsAfter s r = elim (Bool-cases (publisher s.buf)) [
      | inl fine ↦ rw fine (record { running = r; accounts = omega arith })
      | inr bad ↦ rw bad (record { running = r; accounts = omega arith })
    ]

    pub tick_step :
        (s : Loop)
        → s.finished ≡ false
        → flush_step schema parse_float plugin require_publisher_role valid_packet publisher s tick
          ≡ some
              (flush_tick schema parse_float plugin require_publisher_role valid_packet publisher s)
    unfolding flush_step
    tick_step s r = rw r refl

    steps_cons :
        (s s' : Loop) (e : Event schema parse_float) (es : List (Event schema parse_float))
        → flush_step schema parse_float plugin require_publisher_role valid_packet publisher s e
          ≡ some s'
        → run_from s (e ∷ es) ≡ run_from s' es
    unfolding flush_steps
    steps_cons s s' e es h = rw h refl

    -- Whatever the auth plugin, the parser and the publisher do, the loop of flush does not stop
    -- on packets that hold a ".", and every packet that it takes is published, counted as rejected
    -- or as unauthorized, or still in the buffer; a failed publication loses none.
    flush_accounts :
        (s : Loop) (es : List (Event schema parse_float))
        → All IsLive es
        → s.finished ≡ false
        → (s' : Loop) × (run_from s es ≡ some s') × IsAfter (packets es) s s'
    unfolding packets
    flush_accounts s [] h r =
        (s, unfold flush_steps in refl, record { running = r; accounts = omega arith })
    flush_accounts s (tick ∷ es) (h, hs) r =
        let i = tick-IsAfter s r in
        let (s', e, j) =
          flush_accounts
            (flush_tick schema parse_float plugin require_publisher_role valid_packet publisher s)
            es hs i.running in
        (
          s',
          steps_cons s _ tick es (tick_step s r) ∙ e,
          record { running = j.running; accounts = omega (arith, i.accounts, j.accounts) },
        )
    flush_accounts s (packet b ∷ es) (h, hs) r =
        let (m, f, i, _) = packet-Taken s b h r in
        let (s', e, j) = flush_accounts m es hs i.running in
        (
          s',
          steps_cons s m (packet b) es f ∙ e,
          record { running = j.running; accounts = omega (arith, i.accounts, j.accounts) },
        )
    flush_accounts s (closed ∷ es) (h, hs) r = elim h [ ]

    -- When the channel is closed, the packets with a "." since the last tick are not published:
    -- the loop ends with what it had published before them.
    pub close_drops_buffer :
        (s : Loop) (bs : List Bytes)
        → All (λ b. contains_byte b b'.' ≡ true) bs
        → s.finished ≡ false
        → (s' : Loop) × (run_from s (map packet bs ++ closed ∷ []) ≡ some s')
          × (s'.finished ≡ true)
          × (s'.published ≡ s.published)
          × (accounted s' ≡ accounted s + length bs)
    close_drops_buffer s [] h r = (
      record s { finished = true },
      unfold flush_steps in (unfold flush_step in refl),
      refl,
      refl,
      omega arith,
    )
    close_drops_buffer s (b ∷ bs) (h, hs) r =
        let (m, f, i, q) = packet-Taken s b h r in
        let (s', e, z, p, n) = close_drops_buffer m bs hs i.running in
        (
          s',
          steps_cons s m (packet b) (map packet bs ++ closed ∷ []) f ∙ e,
          z,
          p ∙ q,
          omega (arith, i.accounts, n),
        )
