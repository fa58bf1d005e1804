-- ===== src/Ingest/Response/Laws.antt =====
-- What a series of AddInvalid calls reports.
use tsdb_gw.Base.{
  Bool-cases, List, [], append-nil, append_assoc, arith, if◌then◌else◌, inl, inr, length, ltb, refl,
  suc, zero, ℕ, ◌++◌, ◌+◌, ◌-◌, ◌∙◌, ◌∷◌, ◌≡◌,
}
use tsdb_gw.Base.Eq.{bytes_eq, bytes_eqb_iff, int_eq, nat_eq, ◌==◌}
use tsdb_gw.Base.Map.{get, get-put}
use tsdb_gw.Base.Text.{Bytes}
use tsdb_gw.Ingest.Response.{
  MetricsResponse, ValidationError, add_invalid, new_metrics_response, note_example, or_no_error,
}

abbrev pub Errors : Type 0
Errors = List (ℕ × Bytes)

unfoldable pub add_errors : Errors → MetricsResponse → MetricsResponse
add_errors [] r = r
add_errors ((i, error) ∷ es) r = add_errors es (add_invalid r error i)

pub add_errors-append :
    (es fs : Errors) (r : MetricsResponse)
    → add_errors (es ++ fs) r ≡ add_errors fs (add_errors es r)
unfolding add_errors
add_errors-append [] fs r = refl
add_errors-append ((i, error) ∷ es) fs r = add_errors-append es fs (add_invalid r error i)

pub invalid-add_errors :
    (es : Errors) (r : MetricsResponse) → (add_errors es r).invalid ≡ r.invalid + length es
unfolding add_errors add_invalid
invalid-add_errors [] r = omega arith
invalid-add_errors ((i, error) ∷ es) r =
    omega (arith, invalid-add_errors es (add_invalid r error i))

-- The positions at which an error was reported, in order.
pub positions : Bytes → Errors → List ℕ
positions key [] = []
positions key ((i, error) ∷ es) =
    let rest = positions key es in if error == key then i ∷ rest else rest

abbrev pub take {ℓ} : {A : Type ℓ} → ℕ → List A → List A
take zero xs = []
take (suc n) [] = []
take (suc n) (x ∷ xs) = x ∷ take n xs

note_all : ValidationError → List ℕ → ValidationError
note_all e [] = e
note_all e (i ∷ is) = note_all (note_example e i) is

note_all_lem :
    (n : ℕ) (ids is : List ℕ)
    → note_all (record { count = n; example_ids = ids }) is
      ≡ record { count = n + length is; example_ids = ids ++ take (9 - n) is }
unfolding note_all note_example
note_all_lem n ids [] = go (9 - n)
  where
    go :
        (k : ℕ)
        → ◌≡◌ {A = ValidationError}
            (record { count = n; example_ids = ids })
            (record { count = n + 0; example_ids = ids ++ take k [] })
    go zero = ground (arith, append-nil ids)
    go (suc k) = ground (arith, append-nil ids)
note_all_lem n ids (i ∷ is) = elim (Bool-cases (ltb (n + 1) 10)) [
  | inl few ↦
      let k : 9 - n ≡ suc (9 - (n + 1)) = ground arith in
      rw (few, k)
        (note_all_lem (n + 1) (ids ++ i ∷ []) is
          ∙ ground (arith, append_assoc ids (i ∷ []) (take (9 - (n + 1)) is)))
  | inr many ↦
      let k : 9 - n ≡ 0 = ground arith in
      let l : 9 - (n + 1) ≡ 0 = ground arith in
      rw (many, k) (note_all_lem (n + 1) ids is ∙ rw l (ground arith))
]

errors_of : MetricsResponse → Bytes → ValidationError
errors_of r key = or_no_error (get r.validation_errors key)

errors_of-add_invalid :
    (r : MetricsResponse) (key error : Bytes) (i : ℕ)
    → errors_of (add_invalid r error i) key
      ≡ (if error == key then note_example (errors_of r key) i else errors_of r key)
unfolding errors_of add_invalid
errors_of-add_invalid r key error i = rw get-put (ground (arith, bytes_eqb_iff error key))

errors_of-add_errors :
    (es : Errors) (r : MetricsResponse) (key : Bytes)
    → errors_of (add_errors es r) key ≡ note_all (errors_of r key) (positions key es)
unfolding add_errors positions note_all
errors_of-add_errors [] r key = refl
errors_of-add_errors ((i, error) ∷ es) r key =
    errors_of-add_errors es (add_invalid r error i) key
    ∙ ground (arith, errors_of-add_invalid r key error i)

-- Of each error the response has the number of reports, and of the positions the first nine.
pub report :
    (es : Errors) (key : Bytes)
    → or_no_error (get (add_errors es new_metrics_response).validation_errors key)
      ≡ record { count = length (positions key es); example_ids = take 9 (positions key es) }
unfolding note_all errors_of get
report es key =
    errors_of-add_errors es new_metrics_response key
    ∙ note_all_lem 0 [] (positions key es)
    ∙ ground arith
