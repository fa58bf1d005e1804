-- ===== src/Persister/Rows.antt =====
-- The rows of the persister and their keys.
use tsdb_gw.Base.{
  Bool, List, [], ap, arith, false, if◌then◌else◌, none, refl, sym, ◌||◌, ◌∙◌, ◌∷◌, ◌≡◌, some,
}
use tsdb_gw.Base.Decimal.{itoa-Lacks, parse_int-itoa}
use tsdb_gw.Base.Eq.{bytes_eq, int_eq, nat_eq, ◌==◌}
use tsdb_gw.Base.Int.{InSigned, ℤ}
use tsdb_gw.Base.Map.{Map, delete, get, get-delete}
use tsdb_gw.Base.Number.{itoa, parse_int}
use tsdb_gw.Base.Text.{Bytes, split_two, split_two-join}
use tsdb_gw.Metric.{Metric}
use tsdb_gw.Persister.{delete_rows, row_key}

same_int : (a b : ℤ) → some a ≡ some b → a ≡ b
same_int a b e = ground arith

-- Two hosts, or one host of two organisations, never share a row of the persister, for
-- organisations that fit an int64.
pub row_key-injective :
    (o p : ℤ) (h k : Bytes)
    → InSigned 63 o
    → InSigned 63 p
    → row_key o h ≡ row_key p k
    → (o ≡ p) × (h ≡ k)
unfolding row_key
row_key-injective o p h k ho hp e =
    let parts : (itoa o ∷ h ∷ []) ≡ (itoa p ∷ k ∷ []) =
      sym (split_two-join (itoa o) h b':' (itoa-Lacks o b':' (omega arith)))
      ∙ ap (λ s. split_two s b':') e
      ∙ split_two-join (itoa p) k b':' (itoa-Lacks p b':' (omega arith)) in
    let same : itoa o ≡ itoa p = cc parts in
    let values : some o ≡ some p =
      sym (parse_int-itoa o 63 ho) ∙ ap (λ s. parse_int s 63) same ∙ parse_int-itoa p 63 hp in
    (same_int o p values, cc parts)

-- Whether a key is among the row keys of a request.
unfoldable pub contains_key : List Bytes → Bytes → Bool
contains_key [] k = false
contains_key (j ∷ js) k = j == k || contains_key js k

-- After a removal exactly the rows of the request are gone, and every other row is what it was.
pub get-delete_rows :
    (m : Map Bytes (List Metric)) (ks : List Bytes) (k : Bytes)
    → get (delete_rows m ks) k ≡ (if contains_key ks k then none else get m k)
unfolding delete_rows contains_key
get-delete_rows m [] k = refl
get-delete_rows m (j ∷ js) k = get-delete_rows (delete m j) js k ∙ ground (arith, get-delete m j k)
