-- ===== src/Persister.antt =====
-- The persister (persister/persister.go): rows of metrics that are sent again and again. The mutex is
-- a flag of the state, and a call that finds it taken does not return: `none`. A push of the metrics
-- client and the calls of the storage client are arguments, true for a nil error.
pub mod Setup
pub mod Send
pub mod Failure
pub mod Rows
pub mod Storage
pub mod Restart
pub mod Refinement
pub mod Hidden
pub mod Removal
use tsdb_gw.Base.{
  Bool, List, Option, [], false, if◌then◌else◌, leb, length, none, some, true, ℕ, ◌++◌, ◌∷◌,
}
use tsdb_gw.Base.Eq.{bytes_eq, int_eq, nat_eq}
use tsdb_gw.Base.Int.{ℤ}
use tsdb_gw.Base.Map.{Map, delete, put}
use tsdb_gw.Base.Number.{itoa, ◌>>=◌}
use tsdb_gw.Base.Text.{Bytes, is_empty}
use tsdb_gw.Metric.{Metric}

pub record Persister : Type 0 where
  pub locked : Bool
  pub metrics : Map Bytes (List Metric)
  pub interval : ℤ
  pub max_buffer_size : ℕ

-- p.Lock()
abbrev pub with_lock {ℓ} : {A : Type ℓ} → Persister → A → Option A
with_lock p a = if p.locked then none else some a

-- Persist
unfoldable pub persist : Persister → Bytes → List Metric → Option Persister
persist p row_key metrics = with_lock p (record p { metrics = put p.metrics row_key metrics })

-- metric.Time = now; metric.Interval = p.interval
unfoldable pub stamp : ℤ → ℤ → Metric → Metric
stamp now interval m = record m { time = now; interval = interval }

-- The variables of the loop in `Send`: the metrics not yet pushed, the batches that were pushed, and
-- whether no push has failed.
pub record Sending : Type 0 where
  pub buffer : List Metric
  pub batches : List (List Metric)
  pub fine : Bool

abbrev pub push_full : (List Metric → Bool) → ℕ → Sending → List Metric → Sending
push_full push max s buffer =
    if leb max (length buffer)
    then (if push buffer
        then record { buffer = []; batches = s.batches ++ buffer ∷ []; fine = true }
        else record { buffer = buffer; batches = s.batches ++ buffer ∷ []; fine = false })
    else record s { buffer = buffer }

-- One metric of a row; after a failed push the function has returned.
unfoldable pub send_metric :
    (List Metric → Bool) → ℕ → (Metric → Metric) → Sending → Metric → Sending × Metric
send_metric push max mark s m =
    if s.fine then (push_full push max s (s.buffer ++ mark m ∷ []), mark m) else (s, m)

unfoldable pub send_row :
    (List Metric → Bool) → ℕ → (Metric → Metric) → Sending → List Metric → Sending × List Metric
unfolding send_metric
send_row push max mark s [] = (s, [])
send_row push max mark s (m ∷ row) =
    let (s', m') = send_metric push max mark s m in
    let (s'', row') = send_row push max mark s' row in (s'', m' ∷ row')

unfoldable pub send_rows :
    (List Metric → Bool)
    → ℕ
    → (Metric → Metric)
    → Sending
    → Map Bytes (List Metric)
    → Sending × Map Bytes (List Metric)
unfolding send_row
send_rows push max mark s [] = (s, [])
send_rows push max mark s ((key, row) ∷ rows) =
    let (s', row') = send_row push max mark s row in
    let (s'', rows') = send_rows push max mark s' rows in (s'', (key, row') ∷ rows')

-- Whether `Send` returned a nil error, the batches that it pushed, and the state.
pub record Sent : Type 0 where
  pub fine : Bool
  pub batches : List (List Metric)
  pub after : Persister

abbrev pub push_last : (List Metric → Bool) → Sending → Persister → Sent
push_last push s p =
    if is_empty s.buffer
    then record { fine = true; batches = s.batches; after = p }
    else record { fine = push s.buffer; batches = s.batches ++ s.buffer ∷ []; after = p }

-- A push that fails inside the loop returns with the mutex held.
abbrev pub finish_send : (List Metric → Bool) → Persister → Sending × Map Bytes (List Metric) → Sent
finish_send push p (s, rows) =
    if s.fine then push_last push s (record p { metrics = rows }) else record {
      fine = false;
      batches = s.batches;
      after = record p { metrics = rows; locked = true };
    }

-- Send
unfoldable pub send : Persister → ℤ → (List Metric → Bool) → Option Sent
unfolding send_rows
send p now push = with_lock p (
    finish_send push p (
      send_rows push p.max_buffer_size (stamp now p.interval)
        (record { buffer = []; batches = []; fine = true }) p.metrics))

-- strconv.Itoa(payload.OrgID) + ":" + payload.Hostname
unfoldable pub row_key : ℤ → Bytes → Bytes
row_key org_id hostname = itoa org_id ++ b':' ∷ hostname

unfoldable pub delete_rows : Map Bytes (List Metric) → List Bytes → Map Bytes (List Metric)
delete_rows m [] = m
delete_rows m (k ∷ ks) = delete_rows (delete m k) ks

-- RemoveRowsHandler from the decoded request: the status, and the state.
unfoldable pub remove_rows : Persister → List Bytes → (List Bytes → Bool) → Option (ℕ × Persister)
unfolding delete_rows
remove_rows p row_keys remove =
    if remove row_keys
    then with_lock p (200, record p { metrics = delete_rows p.metrics row_keys })
    else some (500, p)

-- load: the rows of the storage, each persisted.
unfoldable pub load : Persister → List (Bytes × List Metric) → Option Persister
unfolding persist
load p [] = some p
load p ((key, metrics) ∷ rows) = do p' ← persist p key metrics; load p' rows

-- PersistHandler from the decoded payload: `store` is the storage client and `metrics_of` decodes
-- the raw intake and generates its metrics.
unfoldable pub persist_handler :
    Persister → ℤ → Bytes → (Bytes → Bool) → Option (List Metric) → Option (ℕ × Persister)
unfolding persist
persist_handler p org_id hostname store metrics_of =
    if store (row_key org_id hostname)
    then elim metrics_of [
      | none ↦ some (400, p)
      | some ms ↦ (do p' ← persist p (row_key org_id hostname) ms; some (200, p'))
    ]
    else some (500, p)

-- IndexHandler takes the lock too.
unfoldable pub index : Persister → Option (Map Bytes (List Metric))
index p = with_lock p p.metrics
