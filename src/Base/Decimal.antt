-- ===== src/Base/Decimal.antt =====
-- Printing a number and reading it again.
use native.Mathlib.Nat.{pow-suc}
use tsdb_gw.Base.{
  All, All-append, Bool-cases, [], arith, false, inl, inr, nat_eqb, refl, some, suc, zero, ℕ, ◌%◌,
  ◌++◌, ◌+◌, ◌/◌, ◌<◌, ◌^◌, ◌∙◌, ◌∷◌, ◌≡◌, ◌≢◌, ◌≤◌,
}
use tsdb_gw.Base.Int.{InSigned, negsuc, pos, ℤ}
use tsdb_gw.Base.Number.{
  emit, format_uint, itoa, parse_int, parse_uint, positive_in, scan, scan-emit, ◌>>=◌,
}
use tsdb_gw.Base.Text.{Bytes, Lacks, is_empty, split}

abbrev pub IsDigit : ℕ → Type 0
IsDigit c = (b'0' ≤ c) × (c ≤ b'9')

emit-IsDigit : (f n : ℕ) (out : Bytes) → All IsDigit out → All IsDigit (emit f n out)
unfolding emit
emit-IsDigit zero n out h = h
emit-IsDigit (suc f) n out h = elim (Bool-cases (nat_eqb n 0)) [
  | inl done ↦ rw done h
  | inr more ↦ rw more (emit-IsDigit f (n / 10) ((b'0' + n % 10) ∷ out) (omega arith, h))
]

emit_nonempty : (f n c : ℕ) (out : Bytes) → is_empty (emit f n (c ∷ out)) ≡ false
unfolding emit
emit_nonempty zero n c out = refl
emit_nonempty (suc f) n c out = ground (arith, emit_nonempty f (n / 10) (b'0' + n % 10) (c ∷ out))

pub format_uint-IsDigit : (n : ℕ) → All IsDigit (format_uint n)
unfolding format_uint
format_uint-IsDigit n = elim (Bool-cases (nat_eqb n 0)) [
  | inl none_left ↦ rw none_left (omega arith)
  | inr some_left ↦ rw some_left (emit-IsDigit n n [] tt)
]

format_uint_nonempty : (n : ℕ) → is_empty (format_uint n) ≡ false
unfolding format_uint emit
format_uint_nonempty zero = refl
format_uint_nonempty (suc n) = ground (arith, emit_nonempty n (suc n / 10) (b'0' + suc n % 10) [])

scan-format_uint : (n : ℕ) → scan (format_uint n) 0 ≡ some n
unfolding format_uint
scan-format_uint n = elim (Bool-cases (nat_eqb n 0)) [
  | inl none_left ↦ rw none_left (unfold scan in ground arith)
  | inr some_left ↦ rw some_left (scan-emit n n [] (omega arith) ∙ unfold scan in refl)
]

parse_uint-scan :
    (s : Bytes) (bits n : ℕ)
    → is_empty s ≡ false
    → scan s 0 ≡ some n
    → n < 2 ^ bits
    → parse_uint s bits ≡ some n
unfolding parse_uint
parse_uint-scan [] bits n h e l = cc
parse_uint-scan (c ∷ s) bits n h e l = rw e (ground arith)

pub parse_uint-format_uint : (n bits : ℕ) → n < 2 ^ bits → parse_uint (format_uint n) bits ≡ some n
parse_uint-format_uint n bits h =
    parse_uint-scan (format_uint n) bits n (format_uint_nonempty n) (scan-format_uint n) h

parse_int_unsigned :
    (s : Bytes) (bits : ℕ)
    → All IsDigit s
    → parse_int s bits ≡ (parse_uint s (suc bits) >>= positive_in (2 ^ bits))
unfolding parse_int
parse_int_unsigned [] bits h = refl
parse_int_unsigned (c ∷ s) bits h = ground (arith, h.0)

pow_suc : (k : ℕ) → 2 ^ suc k ≡ 2 ^ k + 2 ^ k
pow_suc k = grind (arith, pow-suc)

-- A number that fits a signed type is read back as it was printed.
pub parse_int-itoa : (z : ℤ) (bits : ℕ) → InSigned bits z → parse_int (itoa z) bits ≡ some z
unfolding itoa
parse_int-itoa (pos n) bits h =
    parse_int_unsigned (format_uint n) bits (format_uint-IsDigit n)
    ∙ rw (parse_uint-format_uint n (suc bits) (omega (arith, pow_suc bits))) (ground arith)
parse_int-itoa (negsuc n) bits h =
    unfold parse_int in
    rw (parse_uint-format_uint (suc n) (suc bits) (omega (arith, pow_suc bits))) (ground arith)

pub All-weaken : (P Q : ℕ → Type 0) (s : Bytes) → ((c : ℕ) → P c → Q c) → All P s → All Q s
All-weaken P Q [] h a = tt
All-weaken P Q (c ∷ s) h a = (h c a.0, All-weaken P Q s h a.1)

-- The text of a number holds no byte that is neither a digit nor "-".
pub itoa-Lacks : (z : ℤ) (b : ℕ) → b'9' < b → Lacks b (itoa z)
unfolding itoa
itoa-Lacks (pos n) b h =
    All-weaken IsDigit (λ c. c ≢ b) (format_uint n) (λ c d. omega arith) (format_uint-IsDigit n)
itoa-Lacks (negsuc n) b h = (
  omega arith,
  All-weaken IsDigit (λ c. c ≢ b) (format_uint (suc n)) (λ c d. omega arith)
      (format_uint-IsDigit (suc n)),
)

pub Lacks-append : (s t : Bytes) (b : ℕ) → Lacks b s → Lacks b t → Lacks b (s ++ t)
Lacks-append s t b h k = All-append (λ c. c ≢ b) s t h k

pub split-join : (s t : Bytes) (sep : ℕ) → Lacks sep s → split (s ++ sep ∷ t) sep ≡ s ∷ split t sep
unfolding split
split-join [] t sep h = ground arith
split-join (c ∷ s) t sep h = ground (arith, split-join s t sep h.1, h.0)

pub split-whole : (s : Bytes) (sep : ℕ) → Lacks sep s → split s sep ≡ s ∷ []
unfolding split
split-whole [] sep h = refl
split-whole (c ∷ s) sep h = ground (arith, split-whole s sep h.1, h.0)
