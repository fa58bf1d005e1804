-- ===== src/Examples/Shutdown.antt =====
-- Shutdowns in the examples.
use tsdb_gw.Base.{
  [], arith, false, if◌then◌else◌, not, some, true, ◌+◌, ◌∷◌, ◌≡◌, ◌⊎◌, Bool-cases, inl, inr,
}
use tsdb_gw.Gateway.Shutdown.{
  Action, Shutdown, interrupt, select_timer, server_fatal, started, still_running, stop_input,
  take_step, timer_fires, is_open,
}
use tsdb_gw.Gateway.Shutdown.Exit.{metrics_server_ends_program, run_actions}
use tsdb_gw.Gateway.Shutdown.Laws.{nothing_left, run_picked, shutdown_ends}
use tsdb_gw.Keycache.{is_some}

-- The timer fires before any input stops.
abbrev impatient : Shutdown → Action
impatient s =
    if not s.interrupted then interrupt else if not s.timer then timer_fires else select_timer

impatient_goes_on :
    (s : Shutdown) (a : Action)
    → is_some (take_step 2 s a) ≡ true
    → is_some (take_step 2 s (impatient s)) ≡ true
unfolding take_step
impatient_goes_on s a h = elim (Bool-cases (is_open s)) [
  | inl going ↦ ground (arith, going)
  | inr over ↦ cc (rw (nothing_left 2 s a over) at h)
]

shutdown_ends_example :
    let s = run_picked 2 impatient 8 (started 3) in
    (s.done ≡ true) × ((s.timer ≡ true) ⊎ (still_running s.stopped ≡ 0)) ⊎ (s.exited ≡ true)
shutdown_ends_example = shutdown_ends 2 impatient impatient_goes_on 3

metrics_server_ends_program_example :
    (s : Shutdown) × (run_actions 2 (started 3) (interrupt ∷ stop_input 2 ∷ server_fatal ∷ [])
      ≡ some s)
    × (s.exited ≡ true)
    × (s.done ≡ false)
    × (still_running s.stopped + 1 ≡ 3)
metrics_server_ends_program_example = metrics_server_ends_program 3 2 (omega arith)
