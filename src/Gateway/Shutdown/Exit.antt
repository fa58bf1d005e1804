-- ===== src/Gateway/Shutdown/Exit.antt =====
-- How the metrics server ends the program.
use tsdb_gw.Base.{
  List, Option, [], arith, false, get_or, length, refl, replicate, set, some, suc, true, zero, ℕ,
  ◌+◌, ◌-◌, ◌<◌, ◌∷◌, ◌≡◌,
}
use tsdb_gw.Base.Number.{◌>>=◌}
use tsdb_gw.Gateway.Shutdown.{
  Action, Shutdown, interrupt, server_fatal, started, still_running, still_running-replicate,
  stop_input, take_step,
}

-- The state after some actions, `none` if one of them cannot happen.
pub run_actions : ℕ → Shutdown → List Action → Option Shutdown
run_actions ms s [] = some s
run_actions ms s (a ∷ rest) = do t ← take_step ms s a; run_actions ms t rest

one_stopped :
    (n ms : ℕ)
    → ms < n
    → (get_or (replicate n false) ms true ≡ false)
      × (get_or (set (replicate n false) ms true) ms false ≡ true)
      × (still_running (set (replicate n false) ms true) + 1 ≡ n)
unfolding still_running
one_stopped zero ms h = absurd (omega arith)
one_stopped (suc n) zero h = (refl, refl, omega (arith, still_running-replicate n))
one_stopped (suc n) (suc ms) h =
    let (a, b, c) = one_stopped n ms (omega arith) in (a, b, omega (arith, c))

-- Of n inputs, the metrics server can end the program as soon as it has been stopped, when none of
-- the other n - 1 inputs has.
pub metrics_server_ends_program :
    (n ms : ℕ)
    → ms < n
    → (s : Shutdown) × (run_actions ms (started n) (interrupt ∷ stop_input ms ∷ server_fatal ∷ [])
        ≡ some s)
      × (s.exited ≡ true)
      × (s.done ≡ false)
      × (still_running s.stopped + 1 ≡ n)
unfolding run_actions take_step
metrics_server_ends_program n ms h =
    let (a, b, c) = one_stopped n ms h in
    (
      record {
        interrupted = true;
        stopped = set (replicate n false) ms true;
        wg = length (replicate n false) - 1;
        complete = false;
        timer = false;
        done = false;
        exited = true;
      },
      rw (a, b) refl,
      refl,
      refl,
      c,
    )
