-- ===== src/Gcom/Token/Trust.antt =====
-- Whom the gateway takes for authenticated.
use tsdb_gw.Base.{
  [], some, ℕ, ◌≡◌, Bool-cases, List, Option, arith, inl, inr, ltb, none, refl, subst, ◌∙◌, ◌∷◌,
  ◌≢◌,
}
use tsdb_gw.Base.Eq.{bytes_eq, int_eq, nat_eq, bytes_eqb_iff, ◌==◌}
use tsdb_gw.Base.Map.{get, delete, get-delete, get-put, put}
use tsdb_gw.Base.Text.{Bytes}
use tsdb_gw.Gcom.{Verdict, valid, invalid, invalid_api_key, invalid_org_id, unix}
use tsdb_gw.Gcom.Token.{
  SignedInUser, TokenCache, TokenResp, auth, clear_tokens, validate_tokens, Found, answer,
  expired_keys, read_item, refresh_item, refresh_token, refresh_tokens, set_token, store_verdict,
}

-- `Vouched key user`: grafana.com has at some time answered the key with that user.
module _ (Vouched : Bytes → SignedInUser → Type 0) where
  abbrev pub IsHonest : Bytes → Verdict SignedInUser → Type 0
  IsHonest key v = (user : SignedInUser) → v ≡ valid user → Vouched key user

  -- Whatever the program does with its cache; in `authenticate` and `validate` the answers of
  -- grafana.com are those that it gave.
  pub data Step (c : TokenCache) : TokenCache → Type 0 where
    authenticate :
        (admin_key key : Bytes) (now : ℕ) (v : Verdict SignedInUser)
        → IsHonest key v
        → Step c (auth c admin_key key now v).1
    validate :
        (now : ℕ) (verdict : Bytes → Verdict SignedInUser)
        → ((key : Bytes) → IsHonest key (verdict key))
        → Step c (validate_tokens c now verdict)
    clear : Step c (clear_tokens c)

  pub data Reach (ttl : ℕ) : TokenCache → Type 0 where
    start : Reach ttl (record { items = []; cache_ttl = ttl })
    next : {c d : TokenCache} → Reach ttl c → Step c d → Reach ttl d

  IsTrusted : TokenCache → Type 0
  IsTrusted c =
      (key : Bytes) (user : SignedInUser) (i : TokenResp)
      → get c.items key ≡ some i
      → i.user ≡ some user
      → Vouched key user

  put-IsTrusted :
      (c : TokenCache) (k : Bytes) (i : TokenResp)
      → IsTrusted c
      → ((user : SignedInUser) → i.user ≡ some user → Vouched k user)
      → IsTrusted (record c { items = put c.items k i })
  unfolding IsTrusted
  put-IsTrusted c k i t h key user j e f = elim (Bool-cases (k == key)) [
    | inl same ↦
        subst (λ x. Vouched x user) ((bytes_eqb_iff k key).0 same)
          (h user (ground (arith, get-put c.items k key i)))
    | inr differs ↦ t key user j (ground (arith, get-put c.items k key i)) f
  ]

  delete-IsTrusted :
      (c : TokenCache) (k : Bytes) → IsTrusted c → IsTrusted (record c { items = delete c.items k })
  unfolding IsTrusted
  delete-IsTrusted c k t key user i e f = t key user i (ground (arith, get-delete c.items k key)) f

  get_token-IsTrusted :
      (c : TokenCache) (k : Bytes) (now : ℕ) (o : Option TokenResp)
      → get c.items k ≡ o
      → IsTrusted c
      → IsTrusted (read_item c k now o).1
  get_token-IsTrusted c k now none e t = t
  get_token-IsTrusted c k now (some i) e t =
      put-IsTrusted c k (record i { last_read = unix now }) t
        (λ user f. unfold IsTrusted in t k user i e f)

  set_token-IsTrusted :
      (c : TokenCache) (k : Bytes) (u : Option SignedInUser) (now : ℕ)
      → IsTrusted c
      → ((user : SignedInUser) → u ≡ some user → Vouched k user)
      → IsTrusted (set_token c k u now)
  unfolding set_token
  set_token-IsTrusted c k u now t h = put-IsTrusted c k _ t h

  refresh_item-IsTrusted :
      (c : TokenCache) (k : Bytes) (now : ℕ) (u : Option SignedInUser) (o : Option TokenResp)
      → IsTrusted c
      → ((user : SignedInUser) → u ≡ some user → Vouched k user)
      → IsTrusted (refresh_item c k now u o)
  refresh_item-IsTrusted c k now u none t h = t
  refresh_item-IsTrusted c k now u (some i) t h =
      elim (Bool-cases (ltb i.last_read (unix i.retrieved))) [
        | inl old ↦ rw old (delete-IsTrusted c k t)
        | inr new ↦ rw new (put-IsTrusted c k (record i { user = u; retrieved = now }) t h)
      ]

  vouched_some :
      (k : Bytes) (u : SignedInUser)
      → IsHonest k (valid u)
      → (user : SignedInUser) → some u ≡ some user
      → Vouched k user
  vouched_some k u h user e = h user (ground arith)

  refresh_token-IsTrusted :
      (c : TokenCache) (k : Bytes) (now : ℕ) (v : Verdict SignedInUser)
      → IsTrusted c
      → IsHonest k v
      → IsTrusted (refresh_token c k now v)
  unfolding refresh_token
  refresh_token-IsTrusted c k now (valid u) t h =
      refresh_item-IsTrusted c k now (some u) (get c.items k) t (vouched_some k u h)
  refresh_token-IsTrusted c k now (invalid invalid_api_key) t h =
      refresh_item-IsTrusted c k now none (get c.items k) t (λ user e. cc)
  refresh_token-IsTrusted c k now (invalid e) t h = t

  refresh_tokens-IsTrusted :
      (c : TokenCache) (ks : List Bytes) (now : ℕ) (verdict : Bytes → Verdict SignedInUser)
      → IsTrusted c
      → ((key : Bytes) → IsHonest key (verdict key))
      → IsTrusted (refresh_tokens c ks now verdict)
  unfolding refresh_tokens
  refresh_tokens-IsTrusted c [] now verdict t h = t
  refresh_tokens-IsTrusted c (k ∷ ks) now verdict t h =
      refresh_tokens-IsTrusted (refresh_token c k now (verdict k)) ks now verdict
        (refresh_token-IsTrusted c k now (verdict k) t (h k)) h

  store-IsTrusted :
      (c : TokenCache) (k : Bytes) (now : ℕ) (v : Verdict SignedInUser)
      → IsTrusted c
      → IsHonest k v
      → IsTrusted (store_verdict c k now v).1
  store-IsTrusted c k now (valid u) t h =
      set_token-IsTrusted c k (some u) now t (vouched_some k u h)
  store-IsTrusted c k now (invalid invalid_api_key) t h =
      set_token-IsTrusted c k none now t (λ user e. cc)
  store-IsTrusted c k now (invalid invalid_org_id) t h =
      set_token-IsTrusted c k none now t (λ user e. cc)
  store-IsTrusted c k now (invalid e) t h = t

  answer-IsTrusted :
      (k : Bytes) (now : ℕ) (v : Verdict SignedInUser) (r : Found) (c : TokenCache)
      → IsTrusted c
      → IsHonest k v
      → IsTrusted (answer k now v (r, c)).1
  answer-IsTrusted k now v none c t h = store-IsTrusted c k now v t h
  answer-IsTrusted k now v (some none) c t h = t
  answer-IsTrusted k now v (some (some u)) c t h = t

  Step-IsTrusted : {c d : TokenCache} → Step c d → IsTrusted c → IsTrusted d
  Step-IsTrusted {c = c} (authenticate admin_key key now v h) t =
      unfold auth in
      elim (Bool-cases (key == admin_key)) [
        | inl master ↦ rw master t
        | inr listed ↦ rw listed (
            answer-IsTrusted key now v (read_item c key now (get c.items key)).0
              (read_item c key now (get c.items key)).1
              (get_token-IsTrusted c key now (get c.items key) refl t) h)
      ]
  Step-IsTrusted {c = c} (validate now verdict h) t =
      unfold validate_tokens in
      refresh_tokens-IsTrusted c (expired_keys c.items now c.cache_ttl) now verdict t h
  Step-IsTrusted clear t = unfold IsTrusted clear_tokens get in λ key user i e f. cc

  Reach-IsTrusted : {ttl : ℕ} {c : TokenCache} → Reach ttl c → IsTrusted c
  Reach-IsTrusted start = unfold IsTrusted get in λ key user i e f. cc
  Reach-IsTrusted (next r s) = Step-IsTrusted s (Reach-IsTrusted r)

  store_valid :
      (c : TokenCache) (k : Bytes) (now : ℕ) (v : Verdict SignedInUser) (user : SignedInUser)
      → (store_verdict c k now v).0 ≡ valid user
      → v ≡ valid user
  store_valid c k now (valid u) user e = e
  store_valid c k now (invalid invalid_api_key) user e = cc
  store_valid c k now (invalid invalid_org_id) user e = cc
  store_valid c k now (invalid v) user e = cc

  answer_vouched :
      (c : TokenCache) (k : Bytes) (now : ℕ) (v : Verdict SignedInUser) (user : SignedInUser)
      (o : Option TokenResp)
      → get c.items k ≡ o
      → IsTrusted c
      → IsHonest k v
      → (answer k now v (read_item c k now o)).0 ≡ valid user
      → Vouched k user
  answer_vouched c k now v user none g t h e = h user (store_valid c k now v user e)
  answer_vouched c k now v user (some i) g t h e = go i.user refl e
    where
      go :
          (o : Option SignedInUser)
          → i.user ≡ o
          → (answer k now v (some o, (read_item c k now (some i)).1)).0 ≡ valid user
          → Vouched k user
      go none f e = cc
      go (some u) f e = unfold IsTrusted in t k user i g (f ∙ ground arith)

  -- After any series of requests, rounds of validation and clearings of the token cache, a key
  -- other than the administrator's authenticates as a user only if grafana.com has answered that
  -- key with that user, in this request or before.
  pub auth_vouched :
      {ttl : ℕ} {c : TokenCache} (admin_key key : Bytes) (now : ℕ) (v : Verdict SignedInUser)
      (user : SignedInUser)
      → Reach ttl c
      → IsHonest key v
      → key ≢ admin_key
      → (auth c admin_key key now v).0 ≡ valid user
      → Vouched key user
  unfolding auth
  auth_vouched {c = c} admin_key key now v user r h differs e =
      elim (Bool-cases (key == admin_key)) [
        | inl master ↦ absurd (differs ((bytes_eqb_iff key admin_key).0 master))
        | inr listed ↦
            answer_vouched c key now v user (get c.items key) refl (Reach-IsTrusted r) h
              (rw listed at e)
      ]
