-- ===== src/Persister/Setup.antt =====
-- New of the storage client (persister/storage/storage.go): it makes the table and its column family
-- where they are missing. Bigtable's admin client is known by what its calls do to the lists of
-- tables and of families; a call that fails changes nothing.
use tsdb_gw.Base.{
  Bool, Bool-cases, List, [], arith, false, if◌then◌else◌, inl, inr, refl, true, ◌&&◌, ◌++◌, ◌||◌,
  ◌∷◌, ◌≡◌,
}
use tsdb_gw.Base.Eq.{beq_refl, bytes_eq, int_eq, nat_eq, ◌==◌}
use tsdb_gw.Base.Text.{Bytes, codes}

unfoldable pub slice_contains : List Bytes → Bytes → Bool
slice_contains [] target = false
slice_contains (s ∷ list) target = s == target || slice_contains list target

pub record Admin (T : Type 0) : Type 0 where
  pub tables : T → List Bytes
  pub families : T → Bytes → List Bytes
  pub create_table : T → Bytes → T
  pub create_column_family : T → Bytes → Bytes → T
  pub tables-create_table :
      (t : T) (name : Bytes) → tables (create_table t name) ≡ tables t ++ name ∷ []
  pub tables-create_column_family :
      (t : T) (name family : Bytes) → tables (create_column_family t name family) ≡ tables t
  pub families-create_column_family :
      (t : T) (name family : Bytes)
      → slice_contains (tables t) name ≡ true
      → families (create_column_family t name family) name ≡ families t name ++ family ∷ []

-- Which of the calls succeed.
pub record Calls : Type 0 where
  pub admin_client_ok : Bool
  pub tables_ok : Bool
  pub create_table_ok : Bool
  pub table_info_ok : Bool
  pub create_family_ok : Bool
  pub client_ok : Bool

abbrev pub bigtable_family : Bytes
bigtable_family = codes "intakePayload"

module _ {T : Type 0} (admin : Admin T) where
  -- What is there is left, what is missing is made if the call succeeds.
  abbrev pub ensure : Bool → Bool → T → T → T × Bool
  ensure is_there call_ok t made =
      if is_there then (t, true) else if call_ok then (made, true) else (t, false)

  abbrev pub and_then : T × Bool → (T → T × Bool) → T × Bool
  and_then (t, fine) k = if fine then k t else (t, false)

  -- The first part of New, about the table.
  unfoldable pub ensure_table : Calls → T → Bytes → T × Bool
  unfolding slice_contains
  ensure_table calls t name =
      if calls.admin_client_ok && calls.tables_ok
      then ensure (slice_contains (admin.tables t) name) calls.create_table_ok t
          (admin.create_table t name)
      else (t, false)

  -- The second part, about the column family.
  unfoldable pub ensure_family : Calls → T → Bytes → T × Bool
  unfolding slice_contains
  ensure_family calls t name =
      if calls.table_info_ok
      then ensure (slice_contains (admin.families t name) bigtable_family) calls.create_family_ok t
          (admin.create_column_family t name bigtable_family)
      else (t, false)

  abbrev pub connect_client : Calls → T → T × Bool
  connect_client calls t = (t, calls.client_ok)

  abbrev pub after_table : Calls → Bytes → T → T × Bool
  after_table calls name t = and_then (ensure_family calls t name) (connect_client calls)

  -- New; false is an error.
  unfoldable pub new_storage : Calls → T → Bytes → T × Bool
  unfolding ensure_table ensure_family
  new_storage calls t name = and_then (ensure_table calls t name) (after_table calls name)

  -- The table is there with its column family.
  pub record IsReady (t : T) (name : Bytes) : Type 0 where
    pub has_table : slice_contains (admin.tables t) name ≡ true
    pub has_family : slice_contains (admin.families t name) bigtable_family ≡ true

  slice_contains-last : (l : List Bytes) (x : Bytes) → slice_contains (l ++ x ∷ []) x ≡ true
  unfolding slice_contains
  slice_contains-last [] x = rw (beq_refl x) refl
  slice_contains-last (y ∷ l) x = ground (arith, slice_contains-last l x)

  ensure_cases :
      (P : T → Type 0) (is_there call_ok : Bool) (t made : T)
      → (is_there ≡ true → P t)
      → P made
      → (ensure is_there call_ok t made).1 ≡ true
      → P (ensure is_there call_ok t made).0
  ensure_cases P true call_ok t made old new h = old refl
  ensure_cases P false true t made old new h = new
  ensure_cases P false false t made old new h = cc h

  ensure_table_lem :
      (calls : Calls) (t : T) (name : Bytes)
      → (ensure_table calls t name).1 ≡ true
      → slice_contains (admin.tables (ensure_table calls t name).0) name ≡ true
  unfolding ensure_table
  ensure_table_lem calls t name h = elim (Bool-cases (calls.admin_client_ok && calls.tables_ok)) [
    | inr bad ↦ cc (rw bad at h)
    | inl good ↦ rw good (
        ensure_cases (λ u. slice_contains (admin.tables u) name ≡ true)
          (slice_contains (admin.tables t) name) calls.create_table_ok t (admin.create_table t name)
          (λ e. e)
          (rw (admin.tables-create_table t name) (slice_contains-last (admin.tables t) name))
          (rw good at h))
  ]

  ensure_family_lem :
      (calls : Calls) (t : T) (name : Bytes)
      → slice_contains (admin.tables t) name ≡ true
      → (ensure_family calls t name).1 ≡ true
      → IsReady (ensure_family calls t name).0 name
  unfolding ensure_family
  ensure_family_lem calls t name there h = elim (Bool-cases calls.table_info_ok) [
    | inr bad ↦ cc (rw bad at h)
    | inl good ↦ rw good (
        ensure_cases (λ u. IsReady u name) (slice_contains (admin.families t name) bigtable_family)
          calls.create_family_ok t (admin.create_column_family t name bigtable_family)
          (λ e. record { has_table = there; has_family = e })
          (record {
            has_table = rw (admin.tables-create_column_family t name bigtable_family) there;
            has_family =
                rw (admin.families-create_column_family t name bigtable_family there)
                  (slice_contains-last (admin.families t name) bigtable_family);
          })
          (rw good at h))
  ]

  and_then_lem :
      (P : T → Type 0) (r : T × Bool) (k : T → T × Bool)
      → (r.1 ≡ true → (k r.0).1 ≡ true → P (k r.0).0)
      → (and_then r k).1 ≡ true
      → P (and_then r k).0
  and_then_lem P (t, true) k go h = go refl h
  and_then_lem P (t, false) k go h = cc h

  new_storage-made :
      (calls : Calls) (t : T) (name : Bytes)
      → (new_storage calls t name).1 ≡ true
      → IsReady (new_storage calls t name).0 name
  unfolding new_storage
  new_storage-made calls t name h =
      and_then_lem (λ u. IsReady u name) (ensure_table calls t name) (after_table calls name)
        (λ e.
          and_then_lem (λ u. IsReady u name)
            (ensure_family calls (ensure_table calls t name).0 name) (connect_client calls)
            (λ f g.
              ensure_family_lem calls (ensure_table calls t name).0 name
                (ensure_table_lem calls t name e) f))
        h

  ensure_table_again :
      (calls : Calls) (t : T) (name : Bytes) → IsReady t name → (ensure_table calls t name).0 ≡ t
  unfolding ensure_table
  ensure_table_again calls t name h = rw h.has_table (ground arith)

  ensure_family_again :
      (calls : Calls) (t : T) (name : Bytes) → IsReady t name → (ensure_family calls t name).0 ≡ t
  unfolding ensure_family
  ensure_family_again calls t name h = rw h.has_family (ground arith)

  and_then_same :
      (t : T) (r : T × Bool) (k : T → T × Bool) → r.0 ≡ t → (k t).0 ≡ t → (and_then r k).0 ≡ t
  and_then_same t (u, true) k e f = rw e f
  and_then_same t (u, false) k e f = e

  -- New changes nothing when the table is there with its column family.
  new_storage_again :
      (calls : Calls) (t : T) (name : Bytes) → IsReady t name → (new_storage calls t name).0 ≡ t
  unfolding new_storage
  new_storage_again calls t name h =
      and_then_same t (ensure_table calls t name) (after_table calls name)
        (ensure_table_again calls t name h)
        (and_then_same t (ensure_family calls t name) (connect_client calls)
          (ensure_family_again calls t name h) refl)

  -- When New of the storage succeeds, the table is there with its column family, whatever was
  -- there before, and a later New leaves the tables and families as they are, whichever of its
  -- calls fail.
  pub new_storage-IsReady :
      (calls : Calls) (t : T) (name : Bytes)
      → (new_storage calls t name).1 ≡ true
      → IsReady (new_storage calls t name).0 name
        × ((later : Calls)
            → (new_storage later (new_storage calls t name).0 name).0
              ≡ (new_storage calls t name).0)
  new_storage-IsReady calls t name h =
      let ready = new_storage-made calls t name h in
      (ready, λ later. new_storage_again later (new_storage calls t name).0 name ready)
