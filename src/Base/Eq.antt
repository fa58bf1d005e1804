-- ===== src/Base/Eq.antt =====
-- Types with a Boolean test of equality: the keys of Go's maps.
use tsdb_gw.Base.{
  ℕ, List, [], ◌∷◌, Bool, true, false, ◌&&◌, ◌≡◌, refl, ◌↔◌, arith, nat_eqb, nat_eqb_iff,
}
use tsdb_gw.Base.Int.{ℤ, int_eqb, int_eqb_iff}

-- The bytes of two strings, one by one.
unfoldable pub bytes_eqb : List ℕ → List ℕ → Bool
bytes_eqb [] [] = true
bytes_eqb (a ∷ s) (b ∷ t) = nat_eqb a b && bytes_eqb s t
bytes_eqb _ _ = false

pub bytes_eqb_iff : (s t : List ℕ) → (bytes_eqb s t ≡ true) ↔ (s ≡ t)
unfolding bytes_eqb
bytes_eqb_iff [] [] = ground arith
bytes_eqb_iff (a ∷ s) (b ∷ t) = ground (arith, bytes_eqb_iff s t)
bytes_eqb_iff [] (b ∷ t) = ground arith
bytes_eqb_iff (a ∷ s) [] = ground arith

-- What Go calls a comparable type.
pub record Comparable {ℓ} (K : Type ℓ) : Type ℓ where
  pub equals : K → K → Bool
  pub equals_iff : (j k : K) → (equals j k ≡ true) ↔ (j ≡ k)

instance abbrev pub bytes_eq : Comparable (List ℕ)
bytes_eq = record { equals = bytes_eqb; equals_iff = bytes_eqb_iff }

instance abbrev pub int_eq : Comparable ℤ
int_eq = record { equals = int_eqb; equals_iff = int_eqb_iff }

instance abbrev pub nat_eq : Comparable ℕ
nat_eq = record { equals = nat_eqb; equals_iff = nat_eqb_iff }

module _ {ℓ} {K : Type ℓ} ⦃c : Comparable K⦄ where
  infix 50 ◌==◌
  abbrev pub ◌==◌ : K → K → Bool
  j == k = c.equals j k

  pub beq_refl : (k : K) → (k == k) ≡ true
  beq_refl k = (c.equals_iff k k).1 refl
