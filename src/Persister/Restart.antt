-- ===== src/Persister/Restart.antt =====
-- What a persister that starts again finds in the storage.
use tsdb_gw.Base.{
  List, Option, [], arith, false, if◌then◌else◌, map, none, refl, some, true, ◌∙◌, ◌∷◌, ◌≡◌,
  Bool-cases, ap, inl, inr, subst,
}
use tsdb_gw.Base.Eq.{beq_refl, bytes_eq, bytes_eqb_iff, int_eq, nat_eq, ◌==◌, bytes_eqb}
use tsdb_gw.Base.Map.{Map, Unique, Unique-put, get, get-put, put}
use tsdb_gw.Base.Number.{◌>>=◌}
use tsdb_gw.Base.Text.{Bytes}
use tsdb_gw.Datadog.Intake.{IntakePayload}
use tsdb_gw.Keycache.{is_some}
use tsdb_gw.Metric.{Metric}
use tsdb_gw.Persister.{Persister, load, persist, with_lock}
use tsdb_gw.Persister.Storage.{
  Bigtable, Codec, decode_row, metrics_of, retrieve_rows, take_row, load_stored, retrieve,
}

abbrev pub or_else {ℓ} : {A : Type ℓ} → Option A → Option A → Option A
or_else none o = o
or_else (some a) o = some a

module _ {T : Type 0} (table : Bigtable T) (codec : Codec) where
  -- Every row can be decoded.
  abbrev pub AreDecodable : Map Bytes Bytes → Type 0
  AreDecodable rows =
      (key cell : Bytes) → get rows key ≡ some cell → is_some (decode_row table codec cell) ≡ true

  abbrev pub decoded_row : Option Bytes → Option IntakePayload
  decoded_row o = o >>= decode_row table codec

  get-retrieve_rows :
      (intakes : Map Bytes IntakePayload) (rows : Map Bytes Bytes) (j : Bytes)
      → Unique rows
      → AreDecodable rows
      → get (retrieve_rows table codec intakes rows) j
        ≡ or_else (decoded_row (get rows j)) (get intakes j)
  unfolding retrieve_rows get
  get-retrieve_rows intakes [] j u h = refl
  get-retrieve_rows intakes ((key, cell) ∷ rows) j (fresh, u) h =
      go (decode_row table codec cell) refl (h key cell (rw (beq_refl key) refl))
        (λ is. get-retrieve_rows is rows j u tail)
    where
      tail : AreDecodable rows
      tail k v e = h k v (ground (arith, bytes_eqb_iff key k, fresh, e))

      go :
          (o : Option IntakePayload)
          → decode_row table codec cell ≡ o
          → is_some o ≡ true
          → ((is : Map Bytes IntakePayload)
              → get (retrieve_rows table codec is rows) j
                ≡ or_else (decoded_row (get rows j)) (get is j))
          → get (take_row table codec (λ is. retrieve_rows table codec is rows) intakes key o) j
            ≡ or_else (decoded_row (if key == j then some cell else get rows j)) (get intakes j)
      go none e s ih = cc s
      go (some intake) e s ih = ih (put intakes key intake) ∙ elim (Bool-cases (bytes_eqb key j)) [
        | inl same ↦
            let gone : get rows j ≡ none =
              subst (λ k. get rows k ≡ none) ((bytes_eqb_iff key j).0 same) fresh in
            rw (gone, get-put intakes key j intake, same, e) refl
        | inr other ↦ rw (get-put intakes key j intake, other) refl
      ]

  Unique-retrieve_rows :
      (intakes : Map Bytes IntakePayload) (rows : Map Bytes Bytes)
      → Unique intakes
      → Unique (retrieve_rows table codec intakes rows)
  unfolding retrieve_rows
  Unique-retrieve_rows intakes [] u = u
  Unique-retrieve_rows intakes ((key, cell) ∷ rows) u =
      go (decode_row table codec cell) (λ is v. Unique-retrieve_rows is rows v)
    where
      go :
          (o : Option IntakePayload)
          → ((is : Map Bytes IntakePayload)
              → Unique is
              → Unique (retrieve_rows table codec is rows))
          → Unique (take_row table codec (λ is. retrieve_rows table codec is rows) intakes key o)
      go none ih = u
      go (some intake) ih = ih (put intakes key intake) (Unique-put intakes key intake u)

  abbrev pub generated_row : Bytes × IntakePayload → Bytes × List Metric
  generated_row r = (r.0, metrics_of table codec r.1)

  abbrev pub metrics_of_row : Option IntakePayload → Option (List Metric)
  metrics_of_row o = do intake ← o; some (metrics_of table codec intake)

  get-generated :
      (intakes : Map Bytes IntakePayload) (j : Bytes)
      → get (map generated_row intakes) j ≡ metrics_of_row (get intakes j)
  unfolding get
  get-generated [] j = refl
  get-generated ((key, intake) ∷ rows) j = ground (arith, get-generated rows j)

  Unique-generated :
      (intakes : Map Bytes IntakePayload) → Unique intakes → Unique (map generated_row intakes)
  Unique-generated [] u = tt
  Unique-generated ((key, intake) ∷ rows) (fresh, u) =
      (get-generated rows key ∙ rw fresh refl, Unique-generated rows u)

  pub free_lock : (p : Persister) (q : Persister) → p.locked ≡ false → with_lock p q ≡ some q
  free_lock p q free = rw free refl

  pub persist_free :
      (p : Persister) (key : Bytes) (metrics : List Metric)
      → p.locked ≡ false
      → persist p key metrics ≡ some (record p { metrics = put p.metrics key metrics })
  unfolding persist
  persist_free p key metrics free = free_lock p _ free

  load_cons :
      (p : Persister) (key : Bytes) (metrics : List Metric) (rows : Map Bytes (List Metric))
      → p.locked ≡ false
      → load p ((key, metrics) ∷ rows)
        ≡ load (record p { metrics = put p.metrics key metrics }) rows
  unfolding load
  load_cons p key metrics rows free = rw (persist_free p key metrics free) refl

  get-load :
      (p : Persister) (rows : Map Bytes (List Metric))
      → p.locked ≡ false
      → Unique rows
      → (q : Persister) × (load p rows ≡ some q)
        × ((j : Bytes) → get q.metrics j ≡ or_else (get rows j) (get p.metrics j))
  unfolding load
  get-load p [] free u = (p, refl, λ j. unfold get in refl)
  get-load p ((key, metrics) ∷ rows) free (fresh, u) =
      let (q, e, h) = get-load (record p { metrics = put p.metrics key metrics }) rows free u in
      (
        q,
        load_cons p key metrics rows free ∙ e,
        λ j.
            h j
            ∙ unfold get in
              ground (arith, get-put p.metrics key j metrics, bytes_eqb_iff key j, fresh),
      )

  -- A persister started again finds the rows of the storage.
  pub get-load_stored :
      (p : Persister) (t : T) (prefix : Bytes)
      → p.locked ≡ false
      → AreDecodable (table.read_rows t prefix)
      → (q : Persister) × (load_stored table codec p t prefix true ≡ some (q, true))
        × ((j : Bytes)
            → get q.metrics j
              ≡ or_else
                  (metrics_of_row (decoded_row (get (table.read_rows t prefix) j)))
                  (get p.metrics j))
  unfolding load_stored retrieve get
  get-load_stored p t prefix free h =
      let rows = table.read_rows t prefix in
      let intakes = retrieve_rows table codec [] rows in
      let (q, e, f) =
        get-load p (map generated_row intakes) free
          (Unique-generated intakes (Unique-retrieve_rows [] rows tt)) in
      (
        q,
        rw e refl,
        λ j.
            f j
            ∙ ap (λ o. or_else o (get p.metrics j))
                (get-generated intakes j
                  ∙ ap metrics_of_row (
                      get-retrieve_rows [] rows j (table.rows-Unique t prefix) h
                      ∙ no_others (decoded_row (get rows j)))),
      )
    where
      no_others : (o : Option IntakePayload) → or_else o none ≡ o
      no_others none = refl
      no_others (some i) = refl
