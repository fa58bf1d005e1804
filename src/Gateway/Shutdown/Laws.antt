-- ===== src/Gateway/Shutdown/Laws.antt =====
-- How a shutdown ends.
use tsdb_gw.Base.{
  Bool, Bool-cases, List, Option, [], arith, false, get_or, if◌then◌else◌, inl, inr, length, none,
  refl, replicate, set, some, subst, suc, true, zero, ℕ, ◌+◌, ◌∷◌, ◌≡◌, ◌≤◌, ◌⊎◌,
}
use tsdb_gw.Gateway.Shutdown.{
  Action, Shutdown, interrupt, is_open, select_complete, select_timer, server_fatal, started,
  still_running, still_running-replicate, stop_input, take_step, timer_fires, wait_returns, when,
}
use tsdb_gw.Keycache.{is_some}

still_running-set :
    (bs : List Bool) (i : ℕ)
    → get_or bs i true ≡ false
    → still_running bs ≡ still_running (set bs i true) + 1
unfolding still_running
still_running-set [] i e = cc e
still_running-set (b ∷ bs) zero e = ground arith
still_running-set (b ∷ bs) (suc i) e = ground (arith, still_running-set bs i e)

still_running-le : (bs : List Bool) → still_running bs ≤ length bs
unfolding still_running
still_running-le [] = omega arith
still_running-le (b ∷ bs) = ground (arith, still_running-le bs)

all_running : (n : ℕ) → still_running (replicate n false) ≡ length (replicate n false)
unfolding still_running
all_running zero = refl
all_running (suc n) = omega (arith, all_running n)

-- The WaitGroup counts the inputs that run, and nothing is reported too early.
pub record IsSound (s : Shutdown) : Type 0 where
  pub early : (s.interrupted ≡ true) ⊎ (still_running s.stopped ≡ length s.stopped)
  pub counted : (s.interrupted ≡ false) ⊎ (s.wg ≡ still_running s.stopped)
  pub quiet : (s.interrupted ≡ true) ⊎ ((s.complete ≡ false) × (s.timer ≡ false))
  pub waited : (s.complete ≡ false) ⊎ (still_running s.stopped ≡ 0)
  pub ended : (s.done ≡ false) ⊎ (s.timer ≡ true) ⊎ (still_running s.stopped ≡ 0)

IsSound-started : (n : ℕ) → IsSound (started n)
IsSound-started n = record {
  early = inr (all_running n);
  counted = inl refl;
  quiet = inr (refl, refl);
  waited = inl refl;
  ended = inl refl;
}

bit : Bool → ℕ
bit b = if b then 0 else 1

-- A bound on the steps that are left.
pub steps_left : Shutdown → ℕ
steps_left s =
    bit s.interrupted
    + still_running s.stopped
    + bit s.complete
    + bit s.timer
    + bit s.done
    + bit s.exited

abbrev Progress : Shutdown → Shutdown → Type 0
Progress s t = IsSound t × (steps_left s ≡ steps_left t + 1)

when-some : (b : Bool) (s t : Shutdown) → when b s ≡ some t → (b ≡ true) × (s ≡ t)
when-some true s t e = ground arith
when-some false s t e = cc e

after_step :
    (s t u : Shutdown) (b : Bool) → (b ≡ true → Progress s u) → when b u ≡ some t → Progress s t
after_step s t u b h e = let (g, f) = when-some b u t e in subst (Progress s) f (h g)

take_step-Progress :
    (ms : ℕ) (s t : Shutdown) (a : Action) → IsSound s → take_step ms s a ≡ some t → Progress s t
unfolding take_step steps_left bit
take_step-Progress ms s t interrupt h e =
    after_step s t _ _
      (λ g. (
        record {
          early = inl refl;
          counted = inr (ground (arith, h.early));
          quiet = inl refl;
          waited = h.waited;
          ended = h.ended;
        },
        ground (arith, h.early),
      ))
      e
take_step-Progress ms s t (stop_input i) h e =
    after_step s t _ _
      (λ g.
        let n = still_running-set s.stopped i (ground arith) in
        (
          record {
            early = inl (ground arith);
            counted = inr (ground (arith, h.counted, n));
            quiet = inl (ground arith);
            waited = ground (arith, h.waited, n);
            ended = ground (arith, h.ended, n);
          },
          ground (arith, n),
        ))
      e
take_step-Progress ms s t wait_returns h e =
    after_step s t _ _
      (λ g. (
        record {
          early = h.early;
          counted = h.counted;
          quiet = inl (ground arith);
          waited = inr (ground (arith, h.counted));
          ended = h.ended;
        },
        ground arith,
      ))
      e
take_step-Progress ms s t timer_fires h e =
    after_step s t _ _
      (λ g. (
        record {
          early = h.early;
          counted = h.counted;
          quiet = inl (ground arith);
          waited = h.waited;
          ended = inr (inl refl);
        },
        ground arith,
      ))
      e
take_step-Progress ms s t select_timer h e =
    after_step s t _ _
      (λ g. (
        record {
          early = h.early;
          counted = h.counted;
          quiet = h.quiet;
          waited = h.waited;
          ended = inr (inl (ground arith));
        },
        ground arith,
      ))
      e
take_step-Progress ms s t select_complete h e =
    after_step s t _ _
      (λ g. (
        record {
          early = h.early;
          counted = h.counted;
          quiet = h.quiet;
          waited = h.waited;
          ended = inr (inr (ground (arith, h.waited)));
        },
        ground arith,
      ))
      e
take_step-Progress ms s t server_fatal h e =
    after_step s t _ _
      (λ g. (
        record {
          early = h.early;
          counted = h.counted;
          quiet = h.quiet;
          waited = h.waited;
          ended = h.ended;
        },
        ground arith,
      ))
      e

abbrev pub run_on : (Shutdown → Shutdown) → Shutdown → Option Shutdown → Shutdown
run_on rest s none = s
run_on rest s (some t) = rest t

-- A run in which `pick` chooses the next action, for at most `fuel` steps.
pub run_picked : ℕ → (Shutdown → Action) → ℕ → Shutdown → Shutdown
run_picked ms pick zero s = s
run_picked ms pick (suc fuel) s = run_on (run_picked ms pick fuel) s (take_step ms s (pick s))

-- Some action can happen until `done` is closed.
enabled :
    (ms : ℕ) (s : Shutdown) → is_open s ≡ true → (a : Action) × (is_some (take_step ms s a) ≡ true)
unfolding take_step
enabled ms s e = elim (Bool-cases s.interrupted) [
  | inr before ↦ (interrupt, ground (arith, e, before))
  | inl begun ↦ elim (Bool-cases s.timer) [
    | inl fired ↦ (select_timer, ground (arith, e, fired))
    | inr ticking ↦ (timer_fires, ground (arith, e, begun, ticking))
  ]
]

pub nothing_left :
    (ms : ℕ) (s : Shutdown) (a : Action) → is_open s ≡ false → take_step ms s a ≡ none
unfolding take_step
nothing_left ms s interrupt e = ground arith
nothing_left ms s (stop_input i) e = ground arith
nothing_left ms s wait_returns e = ground arith
nothing_left ms s timer_fires e = ground arith
nothing_left ms s select_timer e = ground arith
nothing_left ms s select_complete e = ground arith
nothing_left ms s server_fatal e = ground arith

module _ (ms : ℕ) (pick : Shutdown → Action)
    (fair : (s : Shutdown) (a : Action)
      → is_some (take_step ms s a) ≡ true
      → is_some (take_step ms s (pick s)) ≡ true) where
  run_ends :
      (fuel : ℕ) (s : Shutdown)
      → IsSound s
      → steps_left s ≤ fuel
      → (is_open (run_picked ms pick fuel s) ≡ false) × IsSound (run_picked ms pick fuel s)
  unfolding run_picked
  run_ends zero s h l = (unfold steps_left in (unfold bit in ground arith), h)
  run_ends (suc fuel) s h l = elim (Bool-cases (is_open s)) [
    | inr closed ↦ rw (nothing_left ms s (pick s) closed) (closed, h)
    | inl undone ↦
        let (a, can) = enabled ms s undone in
        go (take_step ms s (pick s)) refl (fair s a can) (λ t. run_ends fuel t)
  ]
    where
      go :
          (o : Option Shutdown)
          → take_step ms s (pick s) ≡ o
          → is_some o ≡ true
          → ((t : Shutdown)
              → IsSound t
              → steps_left t ≤ fuel
              → (is_open (run_picked ms pick fuel t) ≡ false) × IsSound (run_picked ms pick fuel t))
          → (is_open (run_on (run_picked ms pick fuel) s o) ≡ false)
            × IsSound (run_on (run_picked ms pick fuel) s o)
      go none e i ih = cc i
      go (some t) e i ih =
          let (sound, fewer) = take_step-Progress ms s t (pick s) h e in ih t sound (omega arith)

  -- Whatever the order in which the goroutines of a shutdown with n inputs go on, as long as one
  -- that can go on does, within n + 5 steps either the program has been ended by the metrics
  -- server, or `done` is closed, and then the timer has fired or every input has stopped.
  pub shutdown_ends :
      (n : ℕ)
      → let s = run_picked ms pick (n + 5) (started n) in
        (s.done ≡ true) × ((s.timer ≡ true) ⊎ (still_running s.stopped ≡ 0)) ⊎ (s.exited ≡ true)
  shutdown_ends n =
      let (closed, sound) =
        run_ends (n + 5) (started n) (IsSound-started n)
          (unfold steps_left in (unfold bit in omega (arith, still_running-replicate n))) in
      ground (arith, closed, sound.ended)
