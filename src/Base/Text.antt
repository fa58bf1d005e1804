-- ===== src/Base/Text.antt =====
-- Go's strings as lists of bytes, and the functions of package `strings` and `sort.Strings` that the
-- program calls, always with a separator of one byte. Spaces are those of ASCII.
use Prim.Native.Char.{code}
use Prim.Native.String.{String}
use mathlib.Core.List.{reverse}
use tsdb_gw.Base.{
  ℕ, List, [], ◌∷◌, ◌++◌, Bool, true, false, ◌&&◌, ◌||◌, ◌≡◌, refl, leb, ltb, nat_eqb,
  if◌then◌else◌, All, arith, ◌≢◌, Bool-cases, ap, inl, inr, nat_eqb_iff, ◌⊎◌,
}

abbrev pub Bytes : Type 0
Bytes = List ℕ

-- The bytes of an ASCII literal.
abbrev pub codes : String → Bytes
codes String.[] = []
codes (String.◌∷◌ c s) = code c ∷ codes s

-- s == ""
abbrev pub is_empty {ℓ} : {A : Type ℓ} → List A → Bool
is_empty [] = true
is_empty (c ∷ s) = false

-- strings.HasPrefix(s, prefix)
unfoldable pub has_prefix : Bytes → Bytes → Bool
has_prefix s [] = true
has_prefix [] (p ∷ prefix) = false
has_prefix (c ∷ s) (p ∷ prefix) = nat_eqb c p && has_prefix s prefix

-- strings.HasSuffix(s, c) for a suffix of one byte
unfoldable pub ends_with : Bytes → ℕ → Bool
ends_with [] b = false
ends_with (c ∷ []) b = nat_eqb c b
ends_with (c ∷ d ∷ s) b = ends_with (d ∷ s) b

-- strings.Contains(s, c) for one byte
unfoldable pub contains_byte : Bytes → ℕ → Bool
contains_byte [] b = false
contains_byte (c ∷ s) b = nat_eqb c b || contains_byte s b

-- strings.Count(s, c) for one byte
unfoldable pub count_byte : Bytes → ℕ → ℕ
count_byte [] b = 0
count_byte (c ∷ s) b = let n = count_byte s b in if nat_eqb c b then ℕ.suc n else n

abbrev pub cons_head : ℕ → List Bytes → List Bytes
cons_head c [] = (c ∷ []) ∷ []
cons_head c (p ∷ ps) = (c ∷ p) ∷ ps

-- strings.Split(s, sep)
unfoldable pub split : Bytes → ℕ → List Bytes
split [] sep = [] ∷ []
split (c ∷ s) sep = let rest = split s sep in if nat_eqb c sep then [] ∷ rest else cons_head c rest

-- strings.SplitN(s, sep, 2)
unfoldable pub split_two : Bytes → ℕ → List Bytes
split_two [] sep = [] ∷ []
split_two (c ∷ s) sep =
    let rest = split_two s sep in if nat_eqb c sep then [] ∷ s ∷ [] else cons_head c rest

unfoldable pub is_space : ℕ → Bool
is_space c = nat_eqb c b' ' || (leb 9 c && leb c 13)

unfoldable pub trim_left : Bytes → Bytes
unfolding is_space
trim_left [] = []
trim_left (c ∷ s) = let rest = trim_left s in if is_space c then rest else c ∷ s

-- strings.TrimSpace(s)
unfoldable pub trim_space : Bytes → Bytes
unfolding trim_left
trim_space s = reverse (trim_left (reverse (trim_left s)))

abbrev pub flush_field : Bytes → List Bytes → List Bytes
flush_field [] fs = fs
flush_field (c ∷ s) fs = (c ∷ s) ∷ fs

-- The fields of `cur ++ s`, where `cur` holds no separator.
unfoldable pub fields_from : (ℕ → Bool) → Bytes → Bytes → List Bytes
fields_from p cur [] = flush_field cur []
fields_from p cur (c ∷ s) = elim (p c) [
  | true ↦ flush_field cur (fields_from p [] s)
  | false ↦ fields_from p (cur ++ c ∷ []) s
]

-- strings.FieldsFunc(s, p)
unfoldable pub fields_func : Bytes → (ℕ → Bool) → List Bytes
unfolding fields_from
fields_func s p = fields_from p [] s

-- strings.Fields(s)
unfoldable pub fields : Bytes → List Bytes
unfolding fields_func is_space
fields s = fields_func s is_space

-- s <= t
unfoldable pub bytes_leb : Bytes → Bytes → Bool
bytes_leb [] t = true
bytes_leb (a ∷ s) [] = false
bytes_leb (a ∷ s) (b ∷ t) = ltb a b || (nat_eqb a b && bytes_leb s t)

unfoldable pub insert : Bytes → List Bytes → List Bytes
insert s [] = s ∷ []
insert s (t ∷ ts) = let rest = insert s ts in if bytes_leb s t then s ∷ t ∷ ts else t ∷ rest

-- sort.Strings: the order is total and antisymmetric, so every sort gives this list.
unfoldable pub sort_strings : List Bytes → List Bytes
unfolding insert bytes_leb
sort_strings [] = []
sort_strings (s ∷ ss) = insert s (sort_strings ss)

-- No byte of the text is the separator.
abbrev pub Lacks : ℕ → Bytes → Type 0
Lacks sep = All (λ c. c ≢ sep)

pub split_two-join :
    (s t : Bytes) (sep : ℕ) → Lacks sep s → split_two (s ++ sep ∷ t) sep ≡ s ∷ t ∷ []
unfolding split_two
split_two-join [] t sep h = ground arith
split_two-join (c ∷ s) t sep (h, hs) = ground (arith, split_two-join s t sep hs)

pub split_two-whole : (s : Bytes) (sep : ℕ) → Lacks sep s → split_two s sep ≡ s ∷ []
unfolding split_two
split_two-whole [] sep h = refl
split_two-whole (c ∷ s) sep (h, hs) = ground (arith, split_two-whole s sep hs)

-- A text has no separator, or parts before and after its first one.
pub first_separator :
    (s : Bytes) (sep : ℕ)
    → Lacks sep s ⊎ ((k : Bytes) × (rest : Bytes) × Lacks sep k × (s ≡ k ++ sep ∷ rest))
first_separator [] sep = inl tt
first_separator (c ∷ s) sep = elim (Bool-cases (nat_eqb c sep)) [
  | inl found ↦ inr ([], s, tt, ap (λ d. d ∷ s) (same c sep found))
  | inr later ↦ elim (first_separator s sep) [
    | inl none_left ↦ inl (differs c sep later, none_left)
    | inr (k, rest, h, e) ↦ inr (c ∷ k, rest, (differs c sep later, h), ap (λ x. c ∷ x) e)
  ]
]
  where
    same : (c sep : ℕ) → nat_eqb c sep ≡ true → c ≡ sep
    same c sep h = ground (arith, nat_eqb_iff c sep)

    differs : (c sep : ℕ) → nat_eqb c sep ≡ false → c ≢ sep
    differs c sep h = ground (arith, nat_eqb_iff c sep)

split_test :
    (split (codes "a,,b") b',' ≡ codes "a" ∷ [] ∷ codes "b" ∷ [])
    × (split_two (codes "a:b:c") b':' ≡ codes "a" ∷ codes "b:c" ∷ [])
    × (split_two (codes "abc") b':' ≡ codes "abc" ∷ [])
    × (fields (codes " a  b ") ≡ codes "a" ∷ codes "b" ∷ [])
    × (trim_space (codes "  a b ") ≡ codes "a b")
    × (sort_strings (codes "b" ∷ codes "ab" ∷ codes "a" ∷ [])
        ≡ codes "a" ∷ codes "ab" ∷ codes "b" ∷ [])
unfolding split split_two fields trim_space sort_strings
split_test = (refl, refl, refl, refl, refl, refl)
