-- ===== src/Persister/Storage.antt =====
-- The storage of the persister (persister/storage/storage.go), and the handlers of the persister on
-- top of it. Bigtable is known by what its calls do to the newest cell of the one column that the
-- client writes, and JSON by what it reads back.
use tsdb_gw.Base.{
  Bool, List, Option, [], false, if◌then◌else◌, map, none, some, true, ℕ, ◌&&◌, ◌∷◌, ◌≡◌,
}
use tsdb_gw.Base.Eq.{bytes_eq, int_eq, nat_eq, ◌==◌}
use tsdb_gw.Base.Int.{ℤ}
use tsdb_gw.Base.Map.{Map, Unique, get, put}
use tsdb_gw.Base.Number.{◌>>=◌}
use tsdb_gw.Base.Text.{Bytes, has_prefix}
use tsdb_gw.Datadog.Intake.{Gohai, IntakePayload, generate_persistent_metrics}
use tsdb_gw.Metric.{Metric}
use tsdb_gw.Persister.{Persister, load, persist_handler, remove_rows, row_key}

-- `read_rows t prefix` is what a read of the rows with that prefix gives, one after the other.
pub record Bigtable (T : Type 0) : Type 0 where
  pub set_cell : T → Bytes → Bytes → T
  pub delete_row : T → Bytes → T
  pub read_rows : T → Bytes → Map Bytes Bytes
  pub created : T
  pub rows-created : (prefix : Bytes) → read_rows created prefix ≡ []
  pub rows-Unique : (t : T) (prefix : Bytes) → Unique (read_rows t prefix)
  pub get-set_cell :
      (t : T) (key cell prefix j : Bytes)
      → get (read_rows (set_cell t key cell) prefix) j
        ≡ (if key == j && has_prefix j prefix then some cell else get (read_rows t prefix) j)
  pub get-read_rows :
      (t : T) (prefix j : Bytes)
      → get (read_rows t prefix) j ≡ (if has_prefix j prefix then get (read_rows t []) j else none)
  pub get-delete_row :
      (t : T) (key prefix j : Bytes)
      → get (read_rows (delete_row t key) prefix) j
        ≡ (if key == j then none else get (read_rows t prefix) j)

pub record PersistPayload : Type 0 where
  pub org_id : ℤ
  pub hostname : Bytes
  pub raw : Bytes

-- encoding/json on the types of the payloads.
pub record Codec : Type 0 where
  pub marshal : PersistPayload → Option Bytes
  pub unmarshal : Bytes → Option PersistPayload
  pub unmarshal_intake : Bytes → Option IntakePayload
  pub unmarshal_gohai : Bytes → Option Gohai
  pub unmarshal-marshal :
      (p : PersistPayload) (buf : Bytes)
      → marshal p ≡ some buf
      → (q : PersistPayload) × (unmarshal buf ≡ some q) × (q.org_id ≡ p.org_id) × (q.raw ≡ p.raw)

module _ {T : Type 0} (table : Bigtable T) (codec : Codec) where
  abbrev pub apply_set : T → Bytes → Bool → Option Bytes → T × Bool
  apply_set t key applied none = (t, false)
  apply_set t key applied (some buf) =
      if applied then (table.set_cell t key buf, true) else (t, false)

  -- Store; `applied` is a nil error of Apply, and a call that fails changes nothing.
  unfoldable pub store : T → Bytes → PersistPayload → Bool → T × Bool
  store t key payload applied = apply_set t key applied (codec.marshal payload)

  -- intake.OrgID = payload.OrgID
  abbrev pub with_org : ℤ → IntakePayload → IntakePayload
  with_org org intake = record intake { org_id = org }

  abbrev pub decode_payload : PersistPayload → Option IntakePayload
  decode_payload p = do intake ← codec.unmarshal_intake p.raw; some (with_org p.org_id intake)

  unfoldable pub decode_row : Bytes → Option IntakePayload
  decode_row cell = do p ← codec.unmarshal cell; decode_payload p

  abbrev pub take_row :
      (Map Bytes IntakePayload → Map Bytes IntakePayload)
      → Map Bytes IntakePayload
      → Bytes
      → Option IntakePayload
      → Map Bytes IntakePayload
  take_row rest intakes key none = intakes
  take_row rest intakes key (some intake) = rest (put intakes key intake)

  -- The function that Retrieve gives to ReadRows: after a row that it cannot decode, the reading
  -- stops.
  unfoldable pub retrieve_rows : Map Bytes IntakePayload → Map Bytes Bytes → Map Bytes IntakePayload
  unfolding decode_row
  retrieve_rows intakes [] = intakes
  retrieve_rows intakes ((key, cell) ∷ rows) =
      take_row (λ is. retrieve_rows is rows) intakes key (decode_row cell)

  -- Retrieve; `read_ok` is a nil error of ReadRows, after which the rows that were read are dropped.
  unfoldable pub retrieve : T → Bytes → Bool → Option (Map Bytes IntakePayload)
  unfolding retrieve_rows
  retrieve t prefix read_ok =
      if read_ok then some (retrieve_rows [] (table.read_rows t prefix)) else none

  -- What ApplyBulk does to the rows: `errs` says of each of them whether its mutation failed, and is
  -- empty if none did.
  abbrev pub delete_all : T → List Bytes → List Bool → T
  delete_all t [] errs = t
  delete_all t (key ∷ keys) [] = delete_all (table.delete_row t key) keys []
  delete_all t (key ∷ keys) (e ∷ errs) =
      let rest = if e then t else table.delete_row t key in delete_all rest keys errs

  -- Remove; the answer of ApplyBulk is `none` for its error, and otherwise the errors of the rows,
  -- which are only logged.
  unfoldable pub remove : T → List Bytes → Option (List Bool) → T × Bool
  remove t keys none = (t, false)
  remove t keys (some errs) = (delete_all t keys errs, true)

  abbrev pub metrics_of : IntakePayload → List Metric
  metrics_of intake = generate_persistent_metrics codec.unmarshal_gohai intake

  abbrev pub raw_metrics : PersistPayload → Option (List Metric)
  raw_metrics p = do intake ← decode_payload p; some (metrics_of intake)

  -- PersistHandler from the decoded request, with the storage.
  unfoldable pub handle_persist : T → Persister → PersistPayload → Bool → T × Option (ℕ × Persister)
  unfolding store persist_handler
  handle_persist t p payload applied =
      let (t', stored) = store t (row_key payload.org_id payload.hostname) payload applied in
      (t', persist_handler p payload.org_id payload.hostname (λ key. stored) (raw_metrics payload))

  -- RemoveRowsHandler from the decoded request, with the storage.
  unfoldable pub handle_remove :
      T → Persister → List Bytes → Option (List Bool) → T × Option (ℕ × Persister)
  unfolding remove remove_rows
  handle_remove t p keys applied =
      let (t', removed) = remove t keys applied in (t', remove_rows p keys (λ ks. removed))

  -- New of the persister
  abbrev pub new_persister : ℤ → ℕ → Persister
  new_persister interval max_buffer_size = record {
    locked = false;
    metrics = [];
    interval = interval;
    max_buffer_size = max_buffer_size;
  }

  abbrev pub load_intakes : Persister → Option (Map Bytes IntakePayload) → Option (Persister × Bool)
  load_intakes p none = some (p, false)
  load_intakes p (some intakes) = do
    q ← load p (map (λ (r : Bytes × IntakePayload). (r.0, metrics_of r.1)) intakes)
    some (q, true)

  -- load of the persister, with the storage; true for a nil error.
  unfoldable pub load_stored : Persister → T → Bytes → Bool → Option (Persister × Bool)
  unfolding retrieve load
  load_stored p t prefix read_ok = load_intakes p (retrieve t prefix read_ok)
