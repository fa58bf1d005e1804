-- ===== src/Gcom/Token/Expiry.antt =====
-- What a round of validation leaves in the token cache.
use tsdb_gw.Base.{
  Bool, Bool-cases, List, Option, [], arith, false, if◌then◌else◌, inl, inr, ltb, none, refl, some,
  ℕ, ◌||◌, ◌∙◌, ◌∷◌, ◌≡◌, sym,
}
use tsdb_gw.Base.Eq.{bytes_eq, bytes_eqb_iff, int_eq, nat_eq, ◌==◌}
use tsdb_gw.Base.Map.{Map, Unique, get, get-delete, get-put, Unique-delete, Unique-put}
use tsdb_gw.Base.Text.{Bytes}
use tsdb_gw.Gcom.{Verdict, invalid, invalid_api_key, is_expired, unix, valid, invalid_org_id}
use tsdb_gw.Gcom.Token.{
  SignedInUser, TokenCache, TokenResp, expired_keys, refresh_item, refresh_token, refresh_tokens,
  validate_tokens,
}

contains : List Bytes → Bytes → Bool
contains [] j = false
contains (k ∷ ks) j = k == j || contains ks j

abbrev Distinct : List Bytes → Type 0
Distinct [] = Unit
Distinct (k ∷ ks) = (contains ks k ≡ false) × Distinct ks

-- An answer of grafana.com about a key: the user, or that the key is invalid.
pub refreshed : ℕ → Option SignedInUser → TokenResp → Option TokenResp
refreshed now user i =
    if ltb i.last_read (unix i.retrieved)
    then none
    else some (record i { user = user; retrieved = now })

pub looked_at : ℕ → Verdict SignedInUser → Option TokenResp → Option TokenResp
unfolding refreshed
looked_at now v none = none
looked_at now (valid user) (some i) = refreshed now (some user) i
looked_at now (invalid invalid_api_key) (some i) = refreshed now none i
looked_at now (invalid _) (some i) = some i

get-refresh_item :
    (c : TokenCache) (k j : Bytes) (now : ℕ) (user : Option SignedInUser) (o : Option TokenResp)
    → get c.items k ≡ o
    → get (refresh_item c k now user o).items j ≡ (
        if k == j
        then looked_at now (elim user [ none ↦ invalid invalid_api_key | some u ↦ valid u ]) o
        else get c.items j)
unfolding looked_at
get-refresh_item c k j now none none h = ground (arith, bytes_eqb_iff k j)
get-refresh_item c k j now (some u) none h = ground (arith, bytes_eqb_iff k j)
get-refresh_item c k j now none (some i) h =
    ground (
      arith,
      get-put c.items k j (record i { user = none; retrieved = now }),
      get-delete c.items k j,
    )
get-refresh_item c k j now (some u) (some i) h = ground (
  arith,
  get-put c.items k j (record i { user = some u; retrieved = now }),
  get-delete c.items k j,
)

get-refresh_token :
    (c : TokenCache) (k j : Bytes) (now : ℕ) (v : Verdict SignedInUser)
    → get (refresh_token c k now v).items j
      ≡ (if k == j then looked_at now v (get c.items j) else get c.items j)
unfolding refresh_token
get-refresh_token c k j now (valid user) =
    get-refresh_item c k j now (some user) (get c.items k) refl ∙ ground (arith, bytes_eqb_iff k j)
get-refresh_token c k j now (invalid invalid_api_key) =
    get-refresh_item c k j now none (get c.items k) refl ∙ ground (arith, bytes_eqb_iff k j)
get-refresh_token c k j now (invalid e) = unfold looked_at in ground arith

get-refresh_tokens :
    (c : TokenCache) (ks : List Bytes) (now : ℕ) (verdict : Bytes → Verdict SignedInUser)
    (j : Bytes)
    → Distinct ks
    → get (refresh_tokens c ks now verdict).items j
      ≡ (if contains ks j then looked_at now (verdict j) (get c.items j) else get c.items j)
unfolding refresh_tokens contains
get-refresh_tokens c [] now verdict j d = refl
get-refresh_tokens c (k ∷ ks) now verdict j (fresh, d) =
    get-refresh_tokens (refresh_token c k now (verdict k)) ks now verdict j d
    ∙ ground (arith, get-refresh_token c k j now (verdict k), bytes_eqb_iff k j, fresh)

pub expired_item : ℕ → ℕ → Option TokenResp → Bool
expired_item now ttl none = false
expired_item now ttl (some i) = is_expired i.retrieved now ttl

contains-expired_keys :
    (m : Map Bytes TokenResp) (now ttl : ℕ) (j : Bytes)
    → Unique m
    → contains (expired_keys m now ttl) j ≡ expired_item now ttl (get m j)
unfolding expired_keys contains expired_item get
contains-expired_keys [] now ttl j u = refl
contains-expired_keys ((k, v) ∷ m) now ttl j (fresh, u) =
    ground (arith, contains-expired_keys m now ttl j u, bytes_eqb_iff k j, fresh)

Distinct-expired_keys :
    (m : Map Bytes TokenResp) (now ttl : ℕ) → Unique m → Distinct (expired_keys m now ttl)
unfolding expired_keys contains
Distinct-expired_keys [] now ttl u = tt
Distinct-expired_keys ((k, v) ∷ m) now ttl (fresh, u) =
    elim (Bool-cases (is_expired v.retrieved now ttl)) [
      | inl old ↦ rw old (
        contains-expired_keys m now ttl k u ∙ unfold expired_item in rw fresh,
        Distinct-expired_keys m now ttl u,
      )
      | inr new ↦ rw new (Distinct-expired_keys m now ttl u)
    ]

-- A round of validation over a map without double keys acts on each item by itself: an item that
-- is not past its time stays as it is; of those past it, one whose validation gives a user or
-- ErrInvalidApiKey is dropped if its last read lies before the second in which it was retrieved,
-- and otherwise takes the answer and the time of the round; after any other answer it stays as it
-- is.
pub get-validate_tokens :
    (c : TokenCache) (now : ℕ) (verdict : Bytes → Verdict SignedInUser) (j : Bytes)
    → Unique c.items
    → get (validate_tokens c now verdict).items j ≡ (
        if expired_item now c.cache_ttl (get c.items j)
        then looked_at now (verdict j) (get c.items j)
        else get c.items j)
unfolding validate_tokens
get-validate_tokens c now verdict j u =
    get-refresh_tokens c (expired_keys c.items now c.cache_ttl) now verdict j
      (Distinct-expired_keys c.items now c.cache_ttl u)
    ∙ rw (contains-expired_keys c.items now c.cache_ttl j u)

abbrev pub IsDefinite : Verdict SignedInUser → Type 0
IsDefinite (valid user) = Unit
IsDefinite (invalid invalid_api_key) = Unit
IsDefinite (invalid _) = ⊥

looked_at-fresh :
    (now ttl : ℕ) (v : Verdict SignedInUser) (o : Option TokenResp) {i : TokenResp}
    → IsDefinite v
    → looked_at now v o ≡ some i
    → is_expired i.retrieved now ttl ≡ false
unfolding looked_at
looked_at-fresh now ttl v none d e = cc
looked_at-fresh now ttl (valid user) (some i) d e = ground arith
looked_at-fresh now ttl (invalid invalid_api_key) (some i) d e = ground arith
looked_at-fresh now ttl (invalid v) (some i) d e = elim d [ ]

-- After a round of validation in which every key had a definite answer, no item of the token cache
-- is past its time.
pub validate_tokens_fresh :
    (c : TokenCache) (now : ℕ) (verdict : Bytes → Verdict SignedInUser) (j : Bytes) {i : TokenResp}
    → Unique c.items
    → ((k : Bytes) → IsDefinite (verdict k))
    → get (validate_tokens c now verdict).items j ≡ some i
    → is_expired i.retrieved now c.cache_ttl ≡ false
validate_tokens_fresh c now verdict j {i = i} u definite e =
    elim (Bool-cases (expired_item now c.cache_ttl (get c.items j))) [
      | inl old ↦
          looked_at-fresh now c.cache_ttl (verdict j) (get c.items j) (definite j)
            (rw old at (sym (get-validate_tokens c now verdict j u) ∙ e))
      | inr new ↦
          go (get c.items j) new (rw new at (sym (get-validate_tokens c now verdict j u) ∙ e))
    ]
  where
    go :
        (o : Option TokenResp)
        → expired_item now c.cache_ttl o ≡ false
        → o ≡ some i
        → is_expired i.retrieved now c.cache_ttl ≡ false
    go o new e = unfold expired_item in rw e at new

pub validate_rounds : TokenCache → List ℕ → (Bytes → Verdict SignedInUser) → TokenCache
validate_rounds c [] verdict = c
validate_rounds c (now ∷ later) verdict =
    validate_rounds (validate_tokens c now verdict) later verdict

Unique-refresh_item :
    (c : TokenCache) (k : Bytes) (now : ℕ) (user : Option SignedInUser) (o : Option TokenResp)
    → Unique c.items
    → Unique (refresh_item c k now user o).items
Unique-refresh_item c k now user none u = u
Unique-refresh_item c k now user (some i) u =
    elim (Bool-cases (ltb i.last_read (unix i.retrieved))) [
      | inl old ↦ rw old (Unique-delete c.items k u)
      | inr new ↦ rw new (Unique-put c.items k _ u)
    ]

Unique-refresh_token :
    (c : TokenCache) (k : Bytes) (now : ℕ) (v : Verdict SignedInUser)
    → Unique c.items
    → Unique (refresh_token c k now v).items
unfolding refresh_token
Unique-refresh_token c k now (valid user) u =
    Unique-refresh_item c k now (some user) (get c.items k) u
Unique-refresh_token c k now (invalid invalid_api_key) u =
    Unique-refresh_item c k now none (get c.items k) u
Unique-refresh_token c k now (invalid e) u = u

Unique-refresh_tokens :
    (c : TokenCache) (ks : List Bytes) (now : ℕ) (verdict : Bytes → Verdict SignedInUser)
    → Unique c.items
    → Unique (refresh_tokens c ks now verdict).items
unfolding refresh_tokens
Unique-refresh_tokens c [] now verdict u = u
Unique-refresh_tokens c (k ∷ ks) now verdict u =
    Unique-refresh_tokens (refresh_token c k now (verdict k)) ks now verdict
      (Unique-refresh_token c k now (verdict k) u)

-- The item of a token for which validation answers ErrInvalidOrgId is neither renewed nor dropped
-- by any series of rounds.
pub invalid_org_lingers :
    (c : TokenCache) (rounds : List ℕ) (verdict : Bytes → Verdict SignedInUser) (j : Bytes)
    → Unique c.items
    → verdict j ≡ invalid invalid_org_id
    → get (validate_rounds c rounds verdict).items j ≡ get c.items j
unfolding validate_rounds
invalid_org_lingers c [] verdict j u e = refl
invalid_org_lingers c (now ∷ later) verdict j u e =
    invalid_org_lingers (validate_tokens c now verdict) later verdict j
      (unfold validate_tokens in
        Unique-refresh_tokens c (expired_keys c.items now c.cache_ttl) now verdict u)
      e
    ∙ get-validate_tokens c now verdict j u
    ∙ rw e (go (get c.items j))
  where
    go :
        (o : Option TokenResp)
        → (if expired_item now c.cache_ttl o then looked_at now (invalid invalid_org_id) o else o)
          ≡ o
    go o = unfold looked_at in ground arith
