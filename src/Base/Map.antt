-- ===== src/Base/Map.antt =====
-- Go's maps: the list of the entries in the order in which an iteration visits them. Go leaves that
-- order open, so a statement for every list of entries is one for every order.
use tsdb_gw.Base.{
  List, [], ◌∷◌, ◌≡◌, Option, none, some, arith, if◌then◌else◌, refl, ◌∙◌, Bool-cases, inl, inr,
}
use tsdb_gw.Base.Eq.{Comparable, ◌==◌}

abbrev pub Map {ℓ κ} : Type ℓ → Type κ → Type (ℓ ⊔ κ)
Map K V = List (K × V)

module _ {ℓ κ} {K : Type ℓ} {V : Type κ} ⦃e : Comparable K⦄ where
  -- v, ok := m[k]
  unfoldable pub get : Map K V → K → Option V
  get [] k = none
  get ((j, v) ∷ m) k = if j == k then some v else get m k

  -- m[k] = v
  unfoldable pub put : Map K V → K → V → Map K V
  put [] k v = (k, v) ∷ []
  put ((j, w) ∷ m) k v = if j == k then (j, v) ∷ m else (j, w) ∷ put m k v

  -- delete(m, k)
  unfoldable pub delete : Map K V → K → Map K V
  delete [] k = []
  delete ((j, w) ∷ m) k = let rest = delete m k in if j == k then rest else (j, w) ∷ rest

  pub get-put :
      (m : Map K V) (k j : K) (v : V) → get (put m k v) j ≡ (if k == j then some v else get m j)
  unfolding get put
  get-put [] k j v = ground arith
  get-put ((i, w) ∷ m) k j v =
      ground (arith, get-put m k j v, e.equals_iff i k, e.equals_iff i j, e.equals_iff k j)

  pub get-delete : (m : Map K V) (k j : K) → get (delete m k) j ≡ (if k == j then none else get m j)
  unfolding get delete
  get-delete [] k j = ground arith
  get-delete ((i, w) ∷ m) k j =
      ground (arith, get-delete m k j, e.equals_iff i k, e.equals_iff i j, e.equals_iff k j)

  -- No key stands in two entries.
  abbrev pub Unique : Map K V → Type κ
  Unique [] = Unit
  Unique ((k, v) ∷ m) = (get m k ≡ none) × Unique m

  pub Unique-put : (m : Map K V) (k : K) (v : V) → Unique m → Unique (put m k v)
  unfolding get put
  Unique-put [] k v h = (refl, tt)
  Unique-put ((j, w) ∷ m) k v (h, u) = elim (Bool-cases (j == k)) [
    | inl same ↦ rw same (h, u)
    | inr other ↦
        rw other
          (get-put m k j v ∙ ground (arith, e.equals_iff k j, e.equals_iff j k), Unique-put m k v u)
  ]

  pub Unique-delete : (m : Map K V) (k : K) → Unique m → Unique (delete m k)
  unfolding get delete
  Unique-delete [] k h = tt
  Unique-delete ((j, w) ∷ m) k (h, u) = elim (Bool-cases (j == k)) [
    | inl same ↦ rw same (Unique-delete m k u)
    | inr other ↦
        rw other (get-delete m k j ∙ ground (arith, e.equals_iff k j), Unique-delete m k u)
  ]

pub ruleset map_laws = (get-put, get-delete)
