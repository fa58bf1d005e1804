-- ===== src/Datadog/Tags.antt =====
-- The tags of a DataDog metric.
use tsdb_gw.Base.{
  Bool-cases, List, [], ap, arith, false, if◌then◌else◌, inl, inr, map, refl, true, ℕ, ◌++◌, ◌+◌,
  ◌∷◌, ◌≡◌, ◌∙◌, ◌⊎◌,
}
use tsdb_gw.Base.Eq.{bytes_eq, int_eq, nat_eq, ◌==◌}
use tsdb_gw.Base.Text.{
  Bytes, Lacks, bytes_leb, codes, insert, is_empty, sort_strings, split_two-join, split_two-whole,
  first_separator, split_two,
}
use tsdb_gw.Datadog.{create_tag_set, tag_of, tag_of_parts}

pub IsSorted : List Bytes → Type 0
IsSorted [] = Unit
IsSorted (s ∷ []) = Unit
IsSorted (s ∷ t ∷ ts) = (bytes_leb s t ≡ true) × IsSorted (t ∷ ts)

pub occurrences : Bytes → List Bytes → ℕ
occurrences x [] = 0
occurrences x (y ∷ ys) = (if x == y then 1 else 0) + occurrences x ys

bytes_leb_total : (s t : Bytes) → bytes_leb s t ≡ false → bytes_leb t s ≡ true
unfolding bytes_leb
bytes_leb_total [] t e = cc e
bytes_leb_total (a ∷ s) [] e = refl
bytes_leb_total (a ∷ s) (b ∷ t) e = ground (arith, bytes_leb_total s t)

insert-IsSorted : (x : Bytes) (ys : List Bytes) → IsSorted ys → IsSorted (insert x ys)
unfolding insert IsSorted
insert-IsSorted x [] h = tt
insert-IsSorted x (y ∷ []) h = elim (Bool-cases (bytes_leb x y)) [
  | inl le ↦ rw le (le, tt)
  | inr gt ↦ rw gt (bytes_leb_total x y gt, tt)
]
insert-IsSorted x (y ∷ z ∷ ys) h = elim (Bool-cases (bytes_leb x y)) [
  | inl le ↦ rw le (le, h)
  | inr gt ↦ rw gt (below x y z ys gt h (insert-IsSorted x (z ∷ ys) h.1))
]
  where
    below :
        (x y z : Bytes) (ys : List Bytes)
        → bytes_leb x y ≡ false
        → IsSorted (y ∷ z ∷ ys)
        → IsSorted (insert x (z ∷ ys))
        → IsSorted (y ∷ insert x (z ∷ ys))
    below x y z ys gt h r = elim (Bool-cases (bytes_leb x z)) [
      | inl le ↦ rw le (bytes_leb_total x y gt, rw le at r)
      | inr gt' ↦ rw gt' (h.0, rw gt' at r)
    ]

sort_strings-IsSorted : (xs : List Bytes) → IsSorted (sort_strings xs)
unfolding sort_strings
sort_strings-IsSorted [] = unfold IsSorted in tt
sort_strings-IsSorted (x ∷ xs) = insert-IsSorted x (sort_strings xs) (sort_strings-IsSorted xs)

occurrences-insert :
    (x y : Bytes) (ys : List Bytes)
    → occurrences x (insert y ys) ≡ (if x == y then 1 else 0) + occurrences x ys
unfolding insert occurrences
occurrences-insert x y [] = refl
occurrences-insert x y (z ∷ zs) = ground (arith, occurrences-insert x y zs)

occurrences-sort_strings :
    (x : Bytes) (ys : List Bytes) → occurrences x (sort_strings ys) ≡ occurrences x ys
unfolding sort_strings occurrences
occurrences-sort_strings x [] = refl
occurrences-sort_strings x (y ∷ ys) =
    omega (arith, occurrences-insert x y (sort_strings ys), occurrences-sort_strings x ys)

-- A tag "name:value" becomes "name=value", whatever the value holds, and a tag without a value the
-- name alone.
tag_of-parts :
    (name value : Bytes) (c : ℕ)
    → Lacks b':' name
    → (tag_of (name ++ b':' ∷ c ∷ value) ≡ name ++ b'=' ∷ c ∷ value)
      × (tag_of (name ++ b':' ∷ []) ≡ name)
      × (tag_of name ≡ name)
unfolding tag_of
tag_of-parts name value c h = (
  ap tag_of_parts (split_two-join name (c ∷ value) b':' h),
  ap tag_of_parts (split_two-join name [] b':' h),
  ap tag_of_parts (split_two-whole name b':' h),
)

-- A tag of the request and the tag that is stored: a name alone stays, "name:" becomes the name, and
-- "name:value" becomes "name=value", the name being what stands before the first colon.
abbrev pub IsTagOf : Bytes → Bytes → Type 0
IsTagOf t out =
    (Lacks b':' t × (out ≡ t))
    ⊎ ((name : Bytes) × (value : Bytes) × Lacks b':' name
        × (t ≡ name ++ b':' ∷ value)
        × (out ≡ (if is_empty value then name else name ++ b'=' ∷ value)))

pub AreTagsOf : List Bytes → List Bytes → Type 0
AreTagsOf [] [] = Unit
AreTagsOf (t ∷ ts) (out ∷ outs) = IsTagOf t out × AreTagsOf ts outs
AreTagsOf ts outs = ⊥

tag_of-IsTagOf : (t : Bytes) → IsTagOf t (tag_of t)
unfolding tag_of
tag_of-IsTagOf t = elim (first_separator t b':') [
  | inl bare ↦ inl (bare, ap tag_of_parts (split_two-whole t b':' bare))
  | inr (name, value, h, e) ↦ inr (
    name,
    value,
    h,
    e,
    ap (λ s. tag_of_parts (split_two s b':')) e
        ∙ ap tag_of_parts (split_two-join name value b':' h)
        ∙ joined name value,
  )
]
  where
    joined :
        (name value : Bytes)
        → tag_of_parts (name ∷ value ∷ []) ≡ (if is_empty value then name else name ++ b'=' ∷ value)
    joined name [] = refl
    joined name (c ∷ value) = refl

tags-AreTagsOf : (ts : List Bytes) → AreTagsOf ts (map tag_of ts)
unfolding AreTagsOf
tags-AreTagsOf [] = tt
tags-AreTagsOf (t ∷ ts) = (tag_of-IsTagOf t, tags-AreTagsOf ts)

-- The tags of a DataDog series are sorted, and are exactly the device, if there is one, the host
-- and one tag for each tag of the request, none lost or doubled: "name=value" for "name:value",
-- where the name ends at the first colon, and the name alone where there is no colon or no value.
pub create_tag_set-IsSorted :
    (host device : Bytes) (ctags : List Bytes)
    → IsSorted (create_tag_set host device ctags)
      × (outs : List Bytes) × AreTagsOf ctags outs
      × ((tag : Bytes)
          → occurrences tag (create_tag_set host device ctags)
            ≡ occurrences tag (
                (if is_empty device then [] else (codes "device=" ++ device) ∷ [])
                ++ (codes "host=" ++ host) ∷ outs))
unfolding create_tag_set
create_tag_set-IsSorted host device ctags = (
  sort_strings-IsSorted _,
  map tag_of ctags,
  tags-AreTagsOf ctags,
  λ tag. occurrences-sort_strings tag _,
)
