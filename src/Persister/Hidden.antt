-- ===== src/Persister/Hidden.antt =====
-- A stored payload that cannot be read again.
use tsdb_gw.Base.{Option, [], none, refl, some, true, ◌++◌, ◌∷◌, ◌≡◌, ap}
use tsdb_gw.Base.Eq.{bytes_eq, int_eq, nat_eq}
use tsdb_gw.Base.Map.{Map, put}
use tsdb_gw.Base.Text.{Bytes}
use tsdb_gw.Datadog.Intake.{IntakePayload}
use tsdb_gw.Persister.{Persister, persist_handler, row_key}
use tsdb_gw.Persister.Storage.{
  Bigtable, Codec, PersistPayload, decode_row, handle_persist, retrieve, retrieve_rows, store,
  take_row,
}

module _ {T : Type 0} (table : Bigtable T) (codec : Codec) where
  retrieve_stops :
      (intakes : Map Bytes IntakePayload) (before after : Map Bytes Bytes) (key cell : Bytes)
      → decode_row table codec cell ≡ none
      → retrieve_rows table codec intakes (before ++ (key, cell) ∷ after)
        ≡ retrieve_rows table codec intakes before
  unfolding retrieve_rows
  retrieve_stops intakes [] after key cell e = rw e refl
  retrieve_stops intakes ((j, c) ∷ before) after key cell e =
      go (decode_row table codec c) (λ is. retrieve_stops is before after key cell e)
    where
      go :
          (o : Option IntakePayload)
          → ((is : Map Bytes IntakePayload)
              → retrieve_rows table codec is (before ++ (key, cell) ∷ after)
                ≡ retrieve_rows table codec is before)
          → take_row table codec
              (λ is. retrieve_rows table codec is (before ++ (key, cell) ∷ after))
              intakes
              j
              o
            ≡ take_row table codec (λ is. retrieve_rows table codec is before) intakes j o
      go none ih = refl
      go (some i) ih = ih (put intakes j i)

  undecodable_row :
      (payload : PersistPayload) (buf : Bytes)
      → codec.marshal payload ≡ some buf
      → codec.unmarshal_intake payload.raw ≡ none
      → decode_row table codec buf ≡ none
  unfolding decode_row
  undecodable_row payload buf e bad =
      let (q, f, org, raw) = codec.unmarshal-marshal payload buf e in rw (f, raw, bad) refl

  -- A payload whose raw data cannot be decoded is stored although the request is answered with
  -- 400, and a later load from the storage stops at its row: it finds what it would find if the
  -- rows behind it did not exist.
  pub refused_payload_hides_rows :
      (t : T) (p : Persister) (payload : PersistPayload) (buf prefix : Bytes)
      (before after : Map Bytes Bytes)
      → codec.marshal payload ≡ some buf
      → codec.unmarshal_intake payload.raw ≡ none
      → let key = row_key payload.org_id payload.hostname in
        table.read_rows (table.set_cell t key buf) prefix ≡ before ++ (key, buf) ∷ after
        → (handle_persist table codec t p payload true ≡ (table.set_cell t key buf, some (400, p)))
          × (retrieve table codec (table.set_cell t key buf) prefix true
              ≡ some (retrieve_rows table codec [] before))
  unfolding handle_persist store persist_handler retrieve
  refused_payload_hides_rows t p payload buf prefix before after e bad rows = (
    rw (e, bad) refl,
    rw rows (
        ap some (
          retrieve_stops [] before after (row_key payload.org_id payload.hostname) buf
            (undecodable_row payload buf e bad))),
  )
