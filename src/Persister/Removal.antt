-- ===== src/Persister/Removal.antt =====
-- A row that Bigtable does not delete.
use tsdb_gw.Base.{[], false, none, refl, some, true, ◌∙◌, ◌∷◌, ◌≡◌}
use tsdb_gw.Base.Eq.{beq_refl, bytes_eq, int_eq, nat_eq}
use tsdb_gw.Base.Map.{delete, get, get-delete}
use tsdb_gw.Base.Text.{Bytes}
use tsdb_gw.Datadog.Intake.{IntakePayload}
use tsdb_gw.Persister.{Persister, delete_rows, remove_rows}
use tsdb_gw.Persister.Restart.{AreDecodable, get-load_stored}
use tsdb_gw.Persister.Storage.{
  Bigtable, Codec, decode_row, handle_remove, load_stored, metrics_of, remove,
}

module _ {T : Type 0} (table : Bigtable T) (codec : Codec) where
  -- A row whose deletion fails is gone from memory although the request is answered with 200, and a
  -- new persister has it again.
  failed_removal_returns :
      (t : T) (p fresh : Persister) (key cell : Bytes) (intake : IntakePayload)
      → p.locked ≡ false
      → fresh.locked ≡ false
      → AreDecodable table codec (table.read_rows t [])
      → get (table.read_rows t []) key ≡ some cell
      → decode_row table codec cell ≡ some intake
      → let removed = handle_remove table codec t p (key ∷ []) (some (true ∷ [])) in
        (p' : Persister) × (removed.1 ≡ some (200, p'))
        × (get p'.metrics key ≡ none)
        × (q : Persister) × (load_stored table codec fresh removed.0 [] true ≡ some (q, true))
        × (get q.metrics key ≡ some (metrics_of table codec intake))
  unfolding handle_remove remove remove_rows delete_rows
  failed_removal_returns t p fresh key cell intake free open_lock decodable there reads =
      let (q, f, g) = get-load_stored table codec fresh t [] open_lock decodable in
      (
        record p { metrics = delete p.metrics key },
        rw free refl,
        get-delete p.metrics key key ∙ rw (beq_refl key) refl,
        q,
        f,
        g key ∙ rw (there, reads) refl,
      )
