-- ===== src/Examples/Restart.antt =====
-- The persister and its storage in the examples: a table is a map without double keys.
use tsdb_gw.Base.{
  Bool-cases, List, Option, [], arith, if◌then◌else◌, inl, inr, none, refl, some, subst, ◌&&◌, ◌∙◌,
  ◌∷◌, ◌≡◌, true, ◌++◌, Bool,
}
use tsdb_gw.Base.Eq.{bytes_eq, bytes_eqb, bytes_eqb_iff, int_eq, nat_eq, beq_refl, ◌==◌}
use tsdb_gw.Base.Int.{negsuc, pos, ℤ}
use tsdb_gw.Base.Map.{Map, Unique, Unique-delete, Unique-put, delete, get, get-delete, get-put, put}
use tsdb_gw.Base.Number.{itoa}
use tsdb_gw.Base.Text.{Bytes, codes, has_prefix}
use tsdb_gw.Datadog.Intake.{IntakePayload}
use tsdb_gw.Persister.{Persister, row_key}
use tsdb_gw.Persister.Hidden.{refused_payload_hides_rows}
use tsdb_gw.Persister.Refinement.{StorageOp, drop_hosts, keep_host, restart_restores, run_ops}
use tsdb_gw.Persister.Setup.{
  Admin, Calls, IsReady, ensure_family, ensure_table, new_storage, new_storage-IsReady,
  slice_contains,
}
use tsdb_gw.Persister.Storage.{
  Bigtable, Codec, PersistPayload, load_stored, new_persister, handle_persist, retrieve,
  retrieve_rows,
}

abbrev keep_prefix : Bytes → Map Bytes Bytes → Map Bytes Bytes
keep_prefix prefix [] = []
keep_prefix prefix ((k, v) ∷ m) =
    let rest = keep_prefix prefix m in if has_prefix k prefix then (k, v) ∷ rest else rest

get-keep_prefix :
    (prefix : Bytes) (m : Map Bytes Bytes) (j : Bytes)
    → get (keep_prefix prefix m) j ≡ (if has_prefix j prefix then get m j else none)
unfolding get
get-keep_prefix prefix [] j = ground arith
get-keep_prefix prefix ((k, v) ∷ m) j =
    ground (arith, get-keep_prefix prefix m j, bytes_eqb_iff k j)

Unique-keep_prefix :
    (prefix : Bytes) (m : Map Bytes Bytes) → Unique m → Unique (keep_prefix prefix m)
Unique-keep_prefix prefix [] u = tt
Unique-keep_prefix prefix ((k, v) ∷ m) (fresh, u) = elim (Bool-cases (has_prefix k prefix)) [
  | inl kept ↦
      rw kept (get-keep_prefix prefix m k ∙ rw (kept, fresh) refl, Unique-keep_prefix prefix m u)
  | inr dropped ↦ rw dropped (Unique-keep_prefix prefix m u)
]

abbrev Rows : Type 0
Rows = (m : Map Bytes Bytes) × Unique m

set_law :
    (m : Map Bytes Bytes) (key cell prefix j : Bytes)
    → get (keep_prefix prefix (put m key cell)) j
      ≡ (if bytes_eqb key j && has_prefix j prefix then some cell else get (keep_prefix prefix m) j)
set_law m key cell prefix j =
    get-keep_prefix prefix (put m key cell) j
    ∙ ground (arith, get-keep_prefix prefix m j, get-put m key j cell)

delete_law :
    (m : Map Bytes Bytes) (key prefix j : Bytes)
    → get (keep_prefix prefix (delete m key)) j
      ≡ (if bytes_eqb key j then none else get (keep_prefix prefix m) j)
delete_law m key prefix j =
    get-keep_prefix prefix (delete m key) j
    ∙ ground (arith, get-keep_prefix prefix m j, get-delete m key j)

read_law :
    (m : Map Bytes Bytes) (prefix j : Bytes)
    → get (keep_prefix prefix m) j
      ≡ (if has_prefix j prefix then get (keep_prefix [] m) j else none)
unfolding has_prefix
read_law m prefix j = rw (get-keep_prefix prefix m j, get-keep_prefix [] m j) refl

abbrev table : Bigtable Rows
table = record {
  set_cell = λ t key cell. (put t.0 key cell, Unique-put t.0 key cell t.1);
  delete_row = λ t key. (delete t.0 key, Unique-delete t.0 key t.1);
  read_rows = λ t prefix. keep_prefix prefix t.0;
  created = ([], tt);
  rows-created = λ prefix. refl;
  rows-Unique = λ t prefix. Unique-keep_prefix prefix t.0 t.1;
  get-set_cell = λ t key cell prefix j. set_law t.0 key cell prefix j;
  get-read_rows = λ t prefix j. read_law t.0 prefix j;
  get-delete_row = λ t key prefix j. delete_law t.0 key prefix j;
}

abbrev blank_intake : IntakePayload
blank_intake = record {
  agent_version = [];
  os = [];
  internal_hostname = codes "h";
  machine = [];
  processor = [];
  hostname = [];
  socket_fqdn = [];
  socket_hostname = [];
  instance_id = [];
  system_tags = [];
  google_tags = [];
  gohai = [];
  org_id = pos 0;
}

abbrev raw_intake : Bytes → Option IntakePayload
raw_intake [] = none
raw_intake (c ∷ s) = some (record blank_intake { agent_version = c ∷ s })

-- The number of the organisation, and the raw payload behind it.
abbrev written : PersistPayload → Option Bytes
written p = number p.org_id
  where
    number : ℤ → Option Bytes
    number (pos n) = some (n ∷ p.raw)
    number (negsuc n) = none

abbrev read_back : Bytes → Option PersistPayload
read_back [] = none
read_back (n ∷ s) = some (record { org_id = pos n; hostname = []; raw = s })

same_bytes : (a b : Bytes) → some a ≡ some b → a ≡ b
same_bytes a b e = ground arith

read-written :
    (org : ℤ) (hostname raw buf : Bytes)
    → written (record { org_id = org; hostname = hostname; raw = raw }) ≡ some buf
    → (q : PersistPayload) × (read_back buf ≡ some q) × (q.org_id ≡ org) × (q.raw ≡ raw)
read-written (pos n) hostname raw buf e =
    let same : n ∷ raw ≡ buf = same_bytes (n ∷ raw) buf e in
    subst (λ b. (q : PersistPayload) × (read_back b ≡ some q) × (q.org_id ≡ pos n) × (q.raw ≡ raw))
      same (record { org_id = pos n; hostname = []; raw = raw }, refl, refl, refl)
read-written (negsuc n) hostname raw buf e = cc e

abbrev codec : Codec
codec = record {
  marshal = written;
  unmarshal = read_back;
  unmarshal_intake = raw_intake;
  unmarshal_gohai = λ s. none;
  unmarshal-marshal = λ p buf e. read-written p.org_id p.hostname p.raw buf e;
}

abbrev host_one : PersistPayload
host_one = record { org_id = pos 10; hostname = codes "h"; raw = codes "x" }

abbrev host_two : PersistPayload
host_two = record { org_id = pos 11; hostname = codes "k"; raw = codes "y" }

abbrev host_bad : PersistPayload
host_bad = record { org_id = pos 10; hostname = codes "a"; raw = [] }

abbrev requests : List (StorageOp table codec)
requests = keep_host host_one ∷ keep_host host_two ∷ drop_hosts (codes "10:h" ∷ []) ∷ []

restart_restores_example :
    let fresh = new_persister table codec (pos 60) 1000 in
    (t : Rows) × (p : Persister) × (run_ops table codec ([], tt) fresh requests ≡ some (t, p))
    × (q : Persister) × (load_stored table codec fresh t (codes "11:") true ≡ some (q, true))
    × ((key : Bytes)
        → get q.metrics key ≡ (if has_prefix key (codes "11:") then get p.metrics key else none))
restart_restores_example =
    restart_restores table codec (pos 60) 1000 requests (codes "11:")
      ((refl, refl), ((refl, refl), (tt, tt)))

abbrev one_row : Rows
one_row = ((codes "10:h", 10 ∷ codes "x") ∷ [], unfold get in (refl, tt))

bad_row_last :
    table.read_rows
      (table.set_cell one_row (row_key host_bad.org_id host_bad.hostname) (10 ∷ []))
      []
    ≡ ((codes "10:h", 10 ∷ codes "x") ∷ [])
      ++ (row_key host_bad.org_id host_bad.hostname, 10 ∷ []) ∷ []
unfolding put bytes_eqb has_prefix row_key itoa
bad_row_last = refl

refused_payload_hides_rows_example :
    let fresh = new_persister table codec (pos 60) 1000 in
    let t = table.set_cell one_row (row_key (pos 10) (codes "a")) (10 ∷ []) in
    (handle_persist table codec one_row fresh host_bad true ≡ (t, some (400, fresh)))
    × (retrieve table codec t [] true
        ≡ some (retrieve_rows table codec [] ((codes "10:h", 10 ∷ codes "x") ∷ [])))
refused_payload_hides_rows_example =
    refused_payload_hides_rows table codec one_row (new_persister table codec (pos 60) 1000)
      host_bad (10 ∷ []) [] ((codes "10:h", 10 ∷ codes "x") ∷ []) [] refl refl bad_row_last

-- A service of tables, and for each of them its families.
abbrev plain_admin : Admin (List Bytes × (Bytes → List Bytes))
plain_admin = record {
  tables = λ t. t.0;
  families = λ t. t.1;
  create_table = λ t name. (t.0 ++ name ∷ [], t.1);
  create_column_family =
      λ t name family. (t.0, λ n. if name == n then t.1 n ++ family ∷ [] else t.1 n);
  tables-create_table = λ t name. refl;
  tables-create_column_family = λ t name family. refl;
  families-create_column_family = λ t name family there. rw (beq_refl name) refl;
}

abbrev all_calls : Calls
all_calls = record {
  admin_client_ok = true;
  tables_ok = true;
  create_table_ok = true;
  table_info_ok = true;
  create_family_ok = true;
  client_ok = true;
}

abbrev first_storage : (List Bytes × (Bytes → List Bytes)) × Bool
first_storage = new_storage plain_admin all_calls ([], λ n. []) (codes "persister")

first_storage_made : first_storage.1 ≡ true
unfolding new_storage ensure_table ensure_family slice_contains
first_storage_made = refl

new_storage-IsReady_example :
    IsReady plain_admin first_storage.0 (codes "persister")
    × ((later : Calls)
        → (new_storage plain_admin later first_storage.0 (codes "persister")).0 ≡ first_storage.0)
new_storage-IsReady_example =
    new_storage-IsReady plain_admin all_calls ([], λ n. []) (codes "persister") first_storage_made
