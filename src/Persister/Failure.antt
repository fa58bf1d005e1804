-- ===== src/Persister/Failure.antt =====
-- One round of `Send` when the gateway accepts nothing.
use tsdb_gw.Base.{
  Bool, List, [], arith, false, length, length-append, map, refl, true, ℕ, ◌++◌, ◌+◌, ◌<◌, ◌∷◌, ◌≡◌,
  ◌≤◌, some, length-map, ltb, none, subst,
}
use tsdb_gw.Base.Int.{ℤ}
use tsdb_gw.Base.Map.{Map}
use tsdb_gw.Base.Text.{Bytes}
use tsdb_gw.Metric.{Metric}
use tsdb_gw.Persister.{
  Sending, Sent, send_metric, send_row, send_rows, Persister, finish_send, send, stamp, index,
  persist, remove_rows, with_lock,
}
use tsdb_gw.Persister.Send.{pending, with_lock_free}

-- The state of the loop once `n` metrics have been taken and every push fails.
record IsStuck (max n : ℕ) (s : Sending) : Type 0 where
  fine : s.fine ≡ ltb n max
  held : s.fine ≡ true → length s.buffer ≡ n

module _ (push : List Metric → Bool) (max : ℕ) (mark : Metric → Metric) where
  module _ (refuses : (b : List Metric) → push b ≡ false) where
    IsStuck-send_metric :
        (n : ℕ) (s : Sending) (m : Metric)
        → IsStuck max n s
        → IsStuck max (n + 1) (send_metric push max mark s m).0
    unfolding send_metric
    IsStuck-send_metric n s m i =
        let size : length (s.buffer ++ mark m ∷ []) ≡ length s.buffer + 1 =
          length-append s.buffer (mark m ∷ []) in
        record {
          fine = ground (arith, i.fine, i.held, size, refuses (s.buffer ++ mark m ∷ []));
          held = λ e. ground (arith, i.fine, i.held, size, refuses (s.buffer ++ mark m ∷ []));
        }

    IsStuck-send_row :
        (n : ℕ) (s : Sending) (row : List Metric)
        → IsStuck max n s
        → IsStuck max (n + length row) (send_row push max mark s row).0
    unfolding send_row
    IsStuck-send_row n s [] i = subst (λ x. IsStuck max x s) (omega arith) i
    IsStuck-send_row n s (m ∷ row) i =
        subst (λ x. IsStuck max x (send_row push max mark s (m ∷ row)).0) (omega arith)
          (IsStuck-send_row (n + 1) (send_metric push max mark s m).0 row
            (IsStuck-send_metric n s m i))

    IsStuck-send_rows :
        (n : ℕ) (s : Sending) (rows : Map Bytes (List Metric))
        → IsStuck max n s
        → IsStuck max (n + length (pending mark rows)) (send_rows push max mark s rows).0
    unfolding send_rows pending
    IsStuck-send_rows n s [] i = subst (λ x. IsStuck max x s) (omega arith) i
    IsStuck-send_rows n s ((key, row) ∷ rows) i =
        subst (λ x. IsStuck max x (send_rows push max mark s ((key, row) ∷ rows)).0)
          (omega (arith, length-append (map mark row) (pending mark rows), length-map mark row))
          (IsStuck-send_rows (n + length row) (send_row push max mark s row).0 rows
            (IsStuck-send_row n s row i))

-- When the lock is free, the rows hold enough metrics to fill the buffer and every push fails, the
-- round reports the failure and leaves the lock taken: no later Persist, Send, IndexHandler or
-- accepted removal of rows returns.
pub send_failure_locks :
    (p : Persister) (now : ℤ) (push : List Metric → Bool)
    → p.locked ≡ false
    → 0 < p.max_buffer_size
    → p.max_buffer_size ≤ length (pending (stamp now p.interval) p.metrics)
    → ((b : List Metric) → push b ≡ false)
    → (s : Sent) × (send p now push ≡ some s)
      × (s.fine ≡ false)
      × ((row_key : Bytes) (metrics : List Metric) → persist s.after row_key metrics ≡ none)
      × ((later : ℤ) (any : List Metric → Bool) → send s.after later any ≡ none)
      × (index s.after ≡ none)
      × ((row_keys : List Bytes) → remove_rows s.after row_keys (λ ks. true) ≡ none)
unfolding send persist index remove_rows
send_failure_locks p now push free positive full refuses =
    let begun : Sending = record { buffer = []; batches = []; fine = true } in
    let stuck : IsStuck p.max_buffer_size (length (pending (stamp now p.interval) p.metrics))
        (send_rows push p.max_buffer_size (stamp now p.interval) begun p.metrics).0 =
      subst
        (λ x.
          IsStuck p.max_buffer_size x
            (send_rows push p.max_buffer_size (stamp now p.interval) begun p.metrics).0)
        (omega arith)
        (IsStuck-send_rows push p.max_buffer_size (stamp now p.interval) refuses 0 begun p.metrics
          (record { fine = ground (arith, positive); held = λ e. refl })) in
    locked (send_rows push p.max_buffer_size (stamp now p.interval) begun p.metrics)
      (ground (arith, full, stuck.fine))
  where
    locked :
        (r : Sending × Map Bytes (List Metric))
        → r.0.fine ≡ false
        → (s : Sent) × (with_lock p (finish_send push p r) ≡ some s)
          × (s.fine ≡ false)
          × ((row_key : Bytes) (metrics : List Metric) → persist s.after row_key metrics ≡ none)
          × ((later : ℤ) (any : List Metric → Bool) → send s.after later any ≡ none)
          × (index s.after ≡ none)
          × ((row_keys : List Bytes) → remove_rows s.after row_keys (λ ks. true) ≡ none)
    locked (s, rows) e =
        rw e (_, with_lock_free p _ free, refl, (λ k ms. refl), (λ n q. refl), refl, λ ks. refl)
