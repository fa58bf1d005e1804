-- ===== src/Base/Int.antt =====
-- Go's signed integers, as integers over the native numbers.
use tsdb_gw.Base.{ℕ, ◌+◌, ◌≤◌, ◌^◌, ◌≡◌, ◌↔◌, Bool, true, false, arith, nat_eqb}

-- `negsuc n` is -(n + 1).
pub data ℤ : Type 0 where
  pos : ℕ → ℤ
  negsuc : ℕ → ℤ

abbrev pub int_eqb : ℤ → ℤ → Bool
int_eqb (pos a) (pos b) = nat_eqb a b
int_eqb (negsuc a) (negsuc b) = nat_eqb a b
int_eqb _ _ = false

pub int_eqb_iff : (a b : ℤ) → (int_eqb a b ≡ true) ↔ (a ≡ b)
int_eqb_iff (pos a) (pos b) = ground arith
int_eqb_iff (negsuc a) (negsuc b) = ground arith
int_eqb_iff (pos a) (negsuc b) = ground arith
int_eqb_iff (negsuc a) (pos b) = ground arith

-- The integers of a signed type with `bits + 1` bits.
abbrev pub InSigned : ℕ → ℤ → Type 0
InSigned bits (pos n) = n + 1 ≤ 2 ^ bits
InSigned bits (negsuc n) = n + 1 ≤ 2 ^ bits
