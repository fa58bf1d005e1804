-- ===== src/Carbon/System/Account.antt =====
-- What becomes of a packet that a connection hands to the Carbon input, and the account of all.
use tsdb_gw.Auth.{Users}
use tsdb_gw.Base.{
  All, All-append, Bool, Bool-cases, List, Option, [], arith, false, inl, inr, length,
  length-append, ltb, none, refl, replicate, some, suc, true, zero, ℕ, ◌+◌, ◌||◌, ◌∷◌, ◌≡◌, ◌⊎◌,
}
use tsdb_gw.Base.Text.{Bytes, contains_byte, is_empty}
use tsdb_gw.Carbon.{Channel, Flush, dispatch}
use tsdb_gw.Carbon.Laws.{accounted}
use tsdb_gw.Carbon.System.{
  CarbonAction, System, init_carbon, new_loop, receive, see_closed, stop, submit, submit_packet,
  tick_at, hand_over, proceed, take_over, close_buf, proceed_first,
}
use tsdb_gw.Metric.{Schema}

abbrev pub IsDotted : Bytes → Type 0
IsDotted b = contains_byte b b'.' ≡ true

-- An action whose packet, if it has one, holds a ".".
abbrev pub IsPlain : CarbonAction → Type 0
IsPlain (submit b) = IsDotted b
IsPlain (hand_over b i) = IsDotted b
IsPlain (take_over i) = Unit
IsPlain proceed = Unit
IsPlain (receive i) = Unit
IsPlain (tick_at i) = Unit
IsPlain (see_closed i) = Unit
IsPlain stop = Unit

dispatched :
    (non_blocking_buffer : Bool) (ch : Channel) (b : Bytes)
    → is_empty b ≡ false
    → IsDotted b
    → All IsDotted ch.items
    → (dispatch non_blocking_buffer ch b ≡ none)
      ⊎ ((ch' : Channel) × (dispatch non_blocking_buffer ch b ≡ some ch')
          × (ch'.dropped + length ch'.items ≡ ch.dropped + length ch.items + 1)
          × All IsDotted ch'.items)
unfolding dispatch
dispatched non_blocking_buffer ch b some_bytes dot dots =
    rw some_bytes (elim (Bool-cases (ltb (length ch.items) ch.capacity)) [
      | inl room ↦ rw room (
          inr (
            _,
            refl,
            omega (arith, length-append ch.items (b ∷ [])),
            All-append IsDotted ch.items (b ∷ []) dots (dot, tt),
          ))
      | inr full ↦ rw full (elim (Bool-cases non_blocking_buffer) [
        | inl drop ↦ rw drop (inr (_, refl, omega arith, dots))
        | inr wait ↦ rw wait (inl refl)
      ])
    ])

module _ (schema : Schema) (parse_float : Bytes → Option ℕ) where
  abbrev pub Loops : Type 0
  Loops = List (Flush schema parse_float)

  -- The packets that the loops have taken, by their counters and buffers.
  unfoldable pub taken : Loops → ℕ
  taken [] = 0
  taken (l ∷ ls) = accounted schema parse_float l + taken ls

  unfoldable pub any_finished : Loops → Bool
  any_finished [] = false
  any_finished (l ∷ ls) = l.finished || any_finished ls

  -- Every packet that was received is dropped, waits, or was taken; a loop has ended only if the
  -- channel is closed and empty and no call waits, and the channel is closed only when no call does.
  pub record IsAccounted (s : System schema parse_float) : Type 0 where
    pub balance :
        s.received ≡ s.channel.dropped + length s.channel.items + length s.waiting + taken s.loops
    pub dotted : All IsDotted s.channel.items
    pub waiting_dotted : All IsDotted s.waiting
    pub settled : (s.is_closed ≡ false) ⊎ (s.waiting ≡ [])
    pub drained :
        (any_finished s.loops ≡ false)
        ⊎ ((s.channel.items ≡ []) × (s.waiting ≡ []) × (s.is_closed ≡ true))

  pub taken-replicate :
      (n : ℕ) (h : Users)
      → (taken (replicate n (new_loop schema parse_float h)) ≡ 0)
        × (any_finished (replicate n (new_loop schema parse_float h)) ≡ false)
  unfolding taken any_finished
  taken-replicate zero h = (refl, refl)
  taken-replicate (suc n) h = let (t, f) = taken-replicate n h in (omega (arith, t), f)

  pub init_carbon-IsAccounted :
      (buffer_size concurrency : ℕ) (h : Users)
      → IsAccounted (init_carbon schema parse_float buffer_size concurrency h)
  unfolding init_carbon
  init_carbon-IsAccounted buffer_size concurrency h =
      let (t, f) = taken-replicate concurrency h in
      record {
        balance = omega (arith, t);
        dotted = tt;
        waiting_dotted = tt;
        settled = inl refl;
        drained = inl f;
      }

  pub submit-IsAccounted :
      (non_blocking_buffer : Bool) (s : System schema parse_float) (b : Bytes)
      → IsDotted b
      → IsAccounted s
      → IsAccounted (submit_packet schema parse_float non_blocking_buffer s b)
  unfolding submit_packet
  submit-IsAccounted non_blocking_buffer s b dot h = elim (Bool-cases (is_empty b || s.is_closed)) [
    | inl idle ↦ rw idle h
    | inr busy ↦
        rw busy
          (elim (dispatched non_blocking_buffer s.channel b (ground (arith, busy)) dot h.dotted) [
            | inl waits ↦ rw waits (record {
              balance = omega (arith, h.balance, length-append s.waiting (b ∷ []));
              dotted = h.dotted;
              waiting_dotted = All-append IsDotted s.waiting (b ∷ []) h.waiting_dotted (dot, tt);
              settled = inl (ground (arith, busy));
              drained = inl (ground (arith, busy, h.drained));
            })
            | inr (ch, e, n, dots) ↦ rw e (record {
              balance = omega (arith, h.balance, n);
              dotted = dots;
              waiting_dotted = h.waiting_dotted;
              settled = inl (ground (arith, busy));
              drained = inl (ground (arith, busy, h.drained));
            })
          ])
  ]

  pub proceed-IsAccounted :
      (s : System schema parse_float) (waiting : List Bytes)
      → s.waiting ≡ waiting
      → IsAccounted s
      → IsAccounted (proceed_first schema parse_float s waiting)
  proceed-IsAccounted s [] eq h = h
  proceed-IsAccounted s (b ∷ bs) eq h =
      let dots : All IsDotted (b ∷ bs) = rw eq at h.waiting_dotted in
      elim (Bool-cases (ltb (length s.channel.items) s.channel.capacity)) [
        | inr full ↦ rw full h
        | inl room ↦ rw room (record {
          balance = omega (arith, rw eq at h.balance, length-append s.channel.items (b ∷ []));
          dotted = All-append IsDotted s.channel.items (b ∷ []) h.dotted (dots.0, tt);
          waiting_dotted = dots.1;
          settled = inl (ground (arith, h.settled, eq));
          drained = inl (ground (arith, h.drained, eq));
        })
      ]

  pub close-IsAccounted :
      (s : System schema parse_float) (waiting : List Bytes)
      → s.waiting ≡ waiting
      → IsAccounted s
      → IsAccounted (close_buf schema parse_float s waiting)
  close-IsAccounted s (b ∷ bs) eq h = h
  close-IsAccounted s [] eq h = record {
    balance = h.balance;
    dotted = h.dotted;
    waiting_dotted = h.waiting_dotted;
    settled = inr eq;
    drained = elim h.drained [ inl y ↦ inl y | inr z ↦ inr (z.0, z.1, refl) ];
  }
