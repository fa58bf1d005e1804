-- ===== src/Base/Number.antt =====
-- `strconv`: reading and printing decimal numbers.
use native.Mathlib.Nat.{one-le-pow}
use tsdb_gw.Base.{
  ℕ, zero, suc, ◌+◌, ◌-◌, ◌*◌, ◌/◌, ◌%◌, ◌^◌, ◌≤◌, [], ◌∷◌, ◌&&◌, Option, none, some, ◌≡◌, refl,
  arith, leb, ltb, nat_eqb, if◌then◌else◌, Bool-cases, inl, inr, nat_eqb_iff, ◌∙◌,
}
use tsdb_gw.Base.Int.{ℤ, pos, negsuc, InSigned}
use tsdb_gw.Base.Text.{Bytes, codes}

infixl 5 ◌>>=◌
abbrev pub ◌>>=◌ {ℓ κ} : {A : Type ℓ} {B : Type κ} → Option A → (A → Option B) → Option B
none >>= f = none
some a >>= f = f a

unfoldable pub scan : Bytes → ℕ → Option ℕ
scan [] n = some n
scan (c ∷ s) n = if leb b'0' c && leb c b'9' then scan s (n * 10 + (c - b'0')) else none

-- strconv.ParseUint(s, 10, bits): an empty text, another byte and a number out of range are errors.
unfoldable pub parse_uint : Bytes → ℕ → Option ℕ
unfolding scan
parse_uint [] bits = none
parse_uint (c ∷ s) bits = do n ← scan (c ∷ s) 0; if ltb n (2 ^ bits) then some n else none

abbrev pub negative : ℕ → ℤ
negative zero = pos 0
negative (suc n) = negsuc n

abbrev pub positive_in : ℕ → ℕ → Option ℤ
positive_in cutoff n = if ltb n cutoff then some (pos n) else none

abbrev pub negative_in : ℕ → ℕ → Option ℤ
negative_in cutoff n = if leb n cutoff then some (negative n) else none

-- strconv.ParseInt(s, 10, bits + 1)
unfoldable pub parse_int : Bytes → ℕ → Option ℤ
unfolding parse_uint
parse_int [] bits = none
parse_int (c ∷ s) bits =
    if nat_eqb c b'+'
    then parse_uint s (suc bits) >>= positive_in (2 ^ bits)
    else if nat_eqb c b'-'
    then parse_uint s (suc bits) >>= negative_in (2 ^ bits)
    else parse_uint (c ∷ s) (suc bits) >>= positive_in (2 ^ bits)

unfoldable pub emit : ℕ → ℕ → Bytes → Bytes
emit zero n out = out
emit (suc f) n out =
    let rest = emit f (n / 10) ((b'0' + n % 10) ∷ out) in if nat_eqb n 0 then out else rest

unfoldable pub format_uint : ℕ → Bytes
unfolding emit
format_uint n = if nat_eqb n 0 then codes "0" else emit n n []

-- strconv.Itoa(n)
unfoldable pub itoa : ℤ → Bytes
unfolding format_uint
itoa (pos n) = format_uint n
itoa (negsuc n) = b'-' ∷ format_uint (suc n)

positive_in-InSigned : (bits n : ℕ) (z : ℤ) → positive_in (2 ^ bits) n ≡ some z → InSigned bits z
positive_in-InSigned bits n (pos m) h = ground arith
positive_in-InSigned bits n (negsuc m) h = ground arith

negative_in-InSigned : (bits n : ℕ) (z : ℤ) → negative_in (2 ^ bits) n ≡ some z → InSigned bits z
negative_in-InSigned bits zero (pos m) h = ground (arith, one-le-pow bits 2 (omega arith))
negative_in-InSigned bits zero (negsuc m) h = ground arith
negative_in-InSigned bits (suc n) (pos m) h = ground arith
negative_in-InSigned bits (suc n) (negsuc m) h = ground arith

>>=-eq-some {ℓ κ} :
    {A : Type ℓ} {B : Type κ} (m : Option A) (f : A → Option B) {b : B}
    → (m >>= f) ≡ some b
    → (a : A) × (m ≡ some a) × (f a ≡ some b)
>>=-eq-some none f h = cc
>>=-eq-some (some a) f h = (a, refl, h)

-- An accepted number lies in the range of its type.
pub parse_int-InSigned :
    (s : Bytes) (bits : ℕ) (z : ℤ) → parse_int s bits ≡ some z → InSigned bits z
unfolding parse_int
parse_int-InSigned [] bits z h = cc
parse_int-InSigned (c ∷ s) bits z h = elim (Bool-cases (nat_eqb c b'+')) [
  | inl plus ↦
      let (n, _, e) =
        >>=-eq-some (parse_uint s (suc bits)) (positive_in (2 ^ bits)) (rw plus at h) in
      positive_in-InSigned bits n z e
  | inr other ↦ elim (Bool-cases (nat_eqb c b'-')) [
    | inl minus ↦
        let (n, _, e) =
          >>=-eq-some (parse_uint s (suc bits)) (negative_in (2 ^ bits)) (rw (other, minus) at h) in
        negative_in-InSigned bits n z e
    | inr digit ↦
        let (n, _, e) =
          >>=-eq-some (parse_uint (c ∷ s) (suc bits)) (positive_in (2 ^ bits))
            (rw (other, digit) at h) in
        positive_in-InSigned bits n z e
  ]
]

pub scan-emit : (f n : ℕ) (out : Bytes) → n ≤ f → scan (emit f n out) 0 ≡ scan out n
unfolding scan emit
scan-emit zero n out h = let e : n ≡ 0 = omega arith in rw e
scan-emit (suc f) n out h = elim (Bool-cases (nat_eqb n 0)) [
  | inl done ↦ let e : n ≡ 0 = (nat_eqb_iff n 0).0 done in rw e
  | inr more ↦ rw more (scan-emit f (n / 10) ((b'0' + n % 10) ∷ out) (ground arith) ∙ ground arith)
]

number_test :
    (parse_int (codes "-12") 31 ≡ some (negsuc 11))
    × (parse_int (codes "2147483648") 31 ≡ none)
    × (parse_int (codes "+7") 31 ≡ some (pos 7))
    × (parse_int (codes "1x") 31 ≡ none)
    × (itoa (negsuc 1204) ≡ codes "-1205")
unfolding parse_int itoa
number_test = (refl, refl, refl, refl, refl)
