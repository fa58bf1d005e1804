-- ===== src/Gateway/Shutdown.antt =====
-- handleShutdown (cmd/tsdb-gw/main.go): one goroutine for each input, one that waits for them, the
-- timer, and the select that closes `done`, after which the program ends. One of the inputs is the
-- metrics server (util/metrics_server.go), whose goroutine ends the program with log.Fatalf once
-- ListenAndServe returns, as it does after Close.
pub mod Laws
pub mod Exit
use tsdb_gw.Base.{
  Bool, List, Option, [], arith, false, get_or, if◌then◌else◌, inl, inr, length, nat_eqb, none, not,
  refl, replicate, set, some, suc, true, zero, ℕ, ◌&&◌, ◌+◌, ◌-◌, ◌∷◌, ◌≡◌, ◌≤◌, ◌⊎◌, Bool-cases,
  subst,
}
use tsdb_gw.Keycache.{is_some}

-- Which inputs have stopped, the counter of the WaitGroup, and the channels that have fired.
pub record Shutdown : Type 0 where
  pub interrupted : Bool
  pub stopped : List Bool
  pub wg : ℕ
  pub complete : Bool
  pub timer : Bool
  pub done : Bool
  pub exited : Bool

pub data Action : Type 0 where
  interrupt wait_returns timer_fires select_timer select_complete : Action
  server_fatal : Action
  stop_input : ℕ → Action

-- The program before the interrupt, with `n` inputs.
abbrev pub started : ℕ → Shutdown
started n = record {
  interrupted = false;
  stopped = replicate n false;
  wg = 0;
  complete = false;
  timer = false;
  done = false;
  exited = false;
}

-- Neither has `done` been closed nor the program been ended.
abbrev pub is_open : Shutdown → Bool
is_open s = not s.done && not s.exited

abbrev pub when {ℓ} : {A : Type ℓ} → Bool → A → Option A
when true a = some a
when false a = none

-- What an action does, `none` where it cannot happen; `ms` is the place of the metrics server.
unfoldable pub take_step : ℕ → Shutdown → Action → Option Shutdown
take_step ms s interrupt =
    when (is_open s && not s.interrupted) (record s { interrupted = true; wg = length s.stopped })
take_step ms s (stop_input i) =
    when (is_open s && (s.interrupted && not (get_or s.stopped i true)))
      (record s { stopped = set s.stopped i true; wg = s.wg - 1 })
take_step ms s wait_returns =
    when (is_open s && (s.interrupted && (nat_eqb s.wg 0 && not s.complete)))
      (record s { complete = true })
take_step ms s timer_fires =
    when (is_open s && (s.interrupted && not s.timer)) (record s { timer = true })
take_step ms s select_timer = when (is_open s && s.timer) (record s { done = true })
take_step ms s select_complete = when (is_open s && s.complete) (record s { done = true })
take_step ms s server_fatal =
    when (is_open s && get_or s.stopped ms false) (record s { exited = true })

-- How many inputs have not stopped.
pub still_running : List Bool → ℕ
still_running [] = 0
still_running (b ∷ bs) = (if b then 0 else 1) + still_running bs

pub still_running-replicate : (n : ℕ) → still_running (replicate n false) ≡ n
unfolding still_running
still_running-replicate zero = refl
still_running-replicate (suc n) = omega (arith, still_running-replicate n)
