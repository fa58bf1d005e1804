-- ===== src/Persister/Refinement.antt =====
-- The rows in memory and those in the storage.
use tsdb_gw.Base.{
  All, Bool, Bool-cases, List, Option, [], ap, false, if◌then◌else◌, inl, inr, none, refl, some,
  sym, true, ℕ, ◌&&◌, ◌∙◌, ◌∷◌, ◌≡◌,
}
use tsdb_gw.Base.Eq.{bytes_eq, bytes_eqb, int_eq, nat_eq}
use tsdb_gw.Base.Int.{ℤ}
use tsdb_gw.Base.Map.{delete, get, get-delete, get-put, put}
use tsdb_gw.Base.Number.{◌>>=◌}
use tsdb_gw.Base.Text.{Bytes, has_prefix}
use tsdb_gw.Datadog.Intake.{IntakePayload}
use tsdb_gw.Keycache.{is_some}
use tsdb_gw.Metric.{Metric}
use tsdb_gw.Persister.{Persister, delete_rows, persist_handler, remove_rows, row_key, with_lock}
use tsdb_gw.Persister.Restart.{
  AreDecodable, decoded_row, get-load_stored, metrics_of_row, or_else, persist_free,
}
use tsdb_gw.Persister.Storage.{
  Bigtable, Codec, PersistPayload, decode_payload, decode_row, delete_all, handle_persist,
  handle_remove, load_stored, metrics_of, new_persister, remove, store,
}

module _ {T : Type 0} (table : Bigtable T) (codec : Codec) where
  -- The requests that a persister is sent.
  pub data StorageOp : Type 0 where
    keep_host : PersistPayload → StorageOp
    drop_hosts : List Bytes → StorageOp

  abbrev pub answered_state : T × Option (ℕ × Persister) → Option (T × Persister)
  answered_state (t, none) = none
  answered_state (t, some (status, p)) = some (t, p)

  -- One request, all of whose calls of the storage succeed, for all rows.
  pub run_op : T → Persister → StorageOp → Option (T × Persister)
  run_op t p (keep_host payload) = answered_state (handle_persist table codec t p payload true)
  run_op t p (drop_hosts keys) = answered_state (handle_remove table codec t p keys (some []))

  pub run_ops : T → Persister → List StorageOp → Option (T × Persister)
  run_ops t p [] = some (t, p)
  run_ops t p (op ∷ ops) = do s ← run_op t p op; run_ops s.0 s.1 ops

  -- The payload can be written and read again.
  abbrev pub IsKept : StorageOp → Type 0
  IsKept (keep_host payload) =
      (is_some (codec.marshal payload) ≡ true)
      × (is_some (decode_payload table codec payload) ≡ true)
  IsKept (drop_hosts keys) = Unit

  -- The rows in memory are those of the storage.
  pub record Matches (t : T) (p : Persister) : Type 0 where
    pub free : p.locked ≡ false
    pub readable : AreDecodable table codec (table.read_rows t [])
    pub agrees :
        (j : Bytes)
        → get p.metrics j
          ≡ metrics_of_row table codec (decoded_row table codec (get (table.read_rows t []) j))

  decode_row-marshal :
      (payload : PersistPayload) (buf : Bytes)
      → codec.marshal payload ≡ some buf
      → decode_row table codec buf ≡ decode_payload table codec payload
  unfolding decode_row
  decode_row-marshal payload buf e =
      let (q, f, org, raw) = codec.unmarshal-marshal payload buf e in rw (f, org, raw) refl

  handle_persist_kept :
      (t : T) (p : Persister) (payload : PersistPayload) (buf : Bytes) (intake : IntakePayload)
      → p.locked ≡ false
      → codec.marshal payload ≡ some buf
      → decode_payload table codec payload ≡ some intake
      → let key = row_key payload.org_id payload.hostname in
        run_op t p (keep_host payload)
        ≡ some (
          table.set_cell t key buf,
          record p { metrics = put p.metrics key (metrics_of table codec intake) },
        )
  unfolding run_op handle_persist store persist_handler
  handle_persist_kept t p payload buf intake free e f =
      rw
        (
          e,
          f,
          persist_free table codec p (row_key payload.org_id payload.hostname)
              (metrics_of table codec intake) free,
        )
        refl

  read_set :
      (t : T) (key buf j : Bytes)
      → get (table.read_rows (table.set_cell t key buf) []) j
        ≡ (if bytes_eqb key j then some buf else get (table.read_rows t []) j)
  read_set t key buf j = table.get-set_cell t key buf [] j ∙ go (bytes_eqb key j)
    where
      go :
          (b : Bool)
          → (if b && has_prefix j [] then some buf else get (table.read_rows t []) j)
            ≡ (if b then some buf else get (table.read_rows t []) j)
      go true = unfold has_prefix in refl
      go false = refl

  Matches-keep :
      (t : T) (p : Persister) (key buf : Bytes) (intake : IntakePayload)
      → Matches t p
      → decode_row table codec buf ≡ some intake
      → Matches
          (table.set_cell t key buf)
          (record p { metrics = put p.metrics key (metrics_of table codec intake) })
  Matches-keep t p key buf intake m e = record {
    free = m.free;
    readable = λ j cell f. elim (Bool-cases (bytes_eqb key j)) [
      | inl same ↦
          let g : some buf ≡ some cell = rw same at (sym (read_set t key buf j) ∙ f) in
          ap (λ o. is_some (o >>= decode_row table codec)) (sym g) ∙ rw e refl
      | inr moved ↦ m.readable j cell (rw moved at (sym (read_set t key buf j) ∙ f))
    ];
    agrees = λ j.
        get-put p.metrics key j (metrics_of table codec intake)
        ∙ elim (Bool-cases (bytes_eqb key j)) [
          | inl same ↦ rw (read_set t key buf j, same, e) refl
          | inr moved ↦ rw (read_set t key buf j, moved) (m.agrees j)
        ];
  }

  Matches-delete :
      (t : T) (p : Persister) (key : Bytes)
      → Matches t p
      → Matches (table.delete_row t key) (record p { metrics = delete p.metrics key })
  Matches-delete t p key m = record {
    free = m.free;
    readable = λ j cell f. elim (Bool-cases (bytes_eqb key j)) [
      | inl same ↦ cc (rw same at (sym (table.get-delete_row t key [] j) ∙ f))
      | inr kept ↦ m.readable j cell (rw kept at (sym (table.get-delete_row t key [] j) ∙ f))
    ];
    agrees = λ j. get-delete p.metrics key j ∙ elim (Bool-cases (bytes_eqb key j)) [
      | inl same ↦ rw (table.get-delete_row t key [] j, same) refl
      | inr kept ↦ rw (table.get-delete_row t key [] j, kept) (m.agrees j)
    ];
  }

  Matches-drop :
      (t : T) (p : Persister) (keys : List Bytes)
      → Matches t p
      → Matches
          (delete_all table codec t keys [])
          (record p { metrics = delete_rows p.metrics keys })
  unfolding delete_rows
  Matches-drop t p [] m = record { free = m.free; readable = m.readable; agrees = m.agrees }
  Matches-drop t p (key ∷ keys) m =
      Matches-drop (table.delete_row t key) (record p { metrics = delete p.metrics key }) keys
        (Matches-delete t p key m)

  handle_remove_kept :
      (t : T) (p : Persister) (keys : List Bytes)
      → p.locked ≡ false
      → run_op t p (drop_hosts keys)
        ≡ some (delete_all table codec t keys [], record p { metrics = delete_rows p.metrics keys })
  unfolding run_op handle_remove remove remove_rows
  handle_remove_kept t p keys free =
      ap (λ o. answered_state (delete_all table codec t keys [], o))
        (answer_free p (200, record p { metrics = delete_rows p.metrics keys }) free)
    where
      answer_free : (p : Persister) (a : ℕ × Persister) → p.locked ≡ false → with_lock p a ≡ some a
      answer_free p a free = rw free refl

  run_op-Matches :
      (t : T) (p : Persister) (op : StorageOp)
      → Matches t p
      → IsKept op
      → (s : T × Persister) × (run_op t p op ≡ some s) × Matches s.0 s.1
  run_op-Matches t p (keep_host payload) m (h, k) =
      let (buf, e) = of_some (codec.marshal payload) h in
      let (intake, f) = of_some (decode_payload table codec payload) k in
      (
        _,
        handle_persist_kept t p payload buf intake m.free e f,
        Matches-keep t p (row_key payload.org_id payload.hostname) buf intake m
            (decode_row-marshal payload buf e ∙ f),
      )
    where
      of_some : {A : Type 0} (o : Option A) → is_some o ≡ true → (a : A) × (o ≡ some a)
      of_some none h = cc h
      of_some (some a) h = (a, refl)
  run_op-Matches t p (drop_hosts keys) m h =
      (_, handle_remove_kept t p keys m.free, Matches-drop t p keys m)

  run_ops-Matches :
      (t : T) (p : Persister) (ops : List StorageOp)
      → Matches t p
      → All IsKept ops
      → (s : T × Persister) × (run_ops t p ops ≡ some s) × Matches s.0 s.1
  unfolding run_ops
  run_ops-Matches t p [] m h = ((t, p), refl, m)
  run_ops-Matches t p (op ∷ ops) m (h, hs) =
      let ((t', p'), e, m') = run_op-Matches t p op m h in
      let (s, f, m'') = run_ops-Matches t' p' ops m' hs in (s, rw e f, m'')

  Matches-created :
      (interval : ℤ) (max_buffer_size : ℕ)
      → Matches table.created (new_persister table codec interval max_buffer_size)
  unfolding get
  Matches-created interval max_buffer_size = record {
    free = refl;
    readable = λ j cell e. cc (rw (table.rows-created []) at e);
    agrees = λ j. rw (table.rows-created []) refl;
  }

  readable_prefix :
      (t : T) (prefix : Bytes)
      → AreDecodable table codec (table.read_rows t [])
      → AreDecodable table codec (table.read_rows t prefix)
  readable_prefix t prefix h j cell e =
      h j cell (go (has_prefix j prefix) (sym (table.get-read_rows t prefix j) ∙ e))
    where
      go :
          (b : Bool)
          → (if b then get (table.read_rows t []) j else none) ≡ some cell
          → get (table.read_rows t []) j ≡ some cell
      go true f = f
      go false f = cc f

  -- After any series of requests to keep and to drop hosts whose payloads can be written and read
  -- again, and in which every call of the storage succeeds and every row that is dropped is
  -- deleted, every request was served, and a new persister that can read the rows with a prefix
  -- holds for every key with the prefix the row that the running one has, and no others.
  pub restart_restores :
      (interval : ℤ) (max_buffer_size : ℕ) (ops : List StorageOp) (prefix : Bytes)
      → All IsKept ops
      → let fresh = new_persister table codec interval max_buffer_size in
        (t : T) × (p : Persister) × (run_ops table.created fresh ops ≡ some (t, p))
        × (q : Persister) × (load_stored table codec fresh t prefix true ≡ some (q, true))
        × ((key : Bytes)
            → get q.metrics key ≡ (if has_prefix key prefix then get p.metrics key else none))
  unfolding get
  restart_restores interval max_buffer_size ops prefix h =
      let fresh = new_persister table codec interval max_buffer_size in
      let ((t, p), e, m) =
        run_ops-Matches table.created fresh ops (Matches-created interval max_buffer_size) h in
      let (q, f, g) =
        get-load_stored table codec fresh t prefix refl (readable_prefix t prefix m.readable) in
      (
        t,
        p,
        e,
        q,
        f,
        λ key.
            g key
            ∙ none_before _
            ∙ ap (λ o. metrics_of_row table codec (decoded_row table codec o))
                (table.get-read_rows t prefix key)
            ∙ within (has_prefix key prefix) key t p (m.agrees key),
      )
    where
      none_before : (o : Option (List Metric)) → or_else o none ≡ o
      none_before none = refl
      none_before (some i) = refl

      within :
          (b : Bool) (key : Bytes) (t : T) (p : Persister)
          → get p.metrics key
            ≡ metrics_of_row table codec (decoded_row table codec (get (table.read_rows t []) key))
          → metrics_of_row table codec
              (decoded_row table codec (if b then get (table.read_rows t []) key else none))
            ≡ (if b then get p.metrics key else none)
      within true key t p e = sym e
      within false key t p e = refl
