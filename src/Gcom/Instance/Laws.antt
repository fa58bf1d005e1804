-- ===== src/Gcom/Instance/Laws.antt =====
-- What `CheckInstance` asks of grafana.com, and what it makes of the answer.
use tsdb_gw.Base.{
  Bool, Option, ap, false, if◌then◌else◌, none, refl, some, true, ℕ, ◌∙◌, ◌≡◌, ◌≤◌, arith,
}
use tsdb_gw.Base.Eq.{bytes_eq, int_eq, nat_eq, bytes_eqb, bytes_eqb_iff, ◌==◌}
use tsdb_gw.Base.Map.{get, put, get-put}
use tsdb_gw.Base.Text.{Bytes, Lacks, split_two-join}
use tsdb_gw.Gcom.{
  Response, Verdict, invalid, invalid_instance_id, response, unix, valid, failed, invalid_api_key,
  invalid_cluster, invalid_instance_type, invalid_org_id,
}
use tsdb_gw.Gcom.Instance.{
  Instance, InstanceCache, InstanceResp, Settings, cache_key, check_cached, check_instance,
  instance_url, remember, set_instance, validate_instance, validate_parts,
}

check_instance_fresh :
    (c : InstanceCache) (token instance_id : Bytes) (now : ℕ)
    (validate : Bytes → Bytes → Verdict (Unit {0}))
    → Lacks b':' instance_id
    → get c.items (cache_key instance_id token) ≡ none
    → check_instance c token instance_id now validate
      ≡ remember c (cache_key instance_id token) now (some (validate instance_id token))
unfolding check_instance
check_instance_fresh c token instance_id now validate h fresh = rw fresh (
    ap (λ ps. remember c (cache_key instance_id token) now (validate_parts validate ps))
      (split_two-join instance_id token b':' h))

-- The item of an instance after an answer; an error that is no verdict about the instance leaves none.
abbrev pub item_of : ℕ → Verdict (Unit {0}) → Option InstanceResp
item_of now (valid u) = some (record { is_valid = true; retrieved = now; last_read = unix now })
item_of now (invalid invalid_instance_id) =
    some (record { is_valid = false; retrieved = now; last_read = unix now })
item_of now (invalid invalid_api_key) = none
item_of now (invalid invalid_org_id) = none
item_of now (invalid invalid_instance_type) = none
item_of now (invalid invalid_cluster) = none
item_of now (invalid failed) = none

-- For an instance id without a colon that is not cached, CheckInstance makes one request about
-- exactly that instance with exactly that key, although both pass through the text of the cache
-- key, and answers what grafana.com answers. An instance that is accepted is cached as valid, and
-- one that is refused with ErrInvalidInstanceID as invalid, with the time of the check; after any
-- other error it is not cached. No other item changes.
pub check_instance_uncached :
    (c : InstanceCache) (token instance_id : Bytes) (now : ℕ)
    (validate : Bytes → Bytes → Verdict (Unit {0}))
    → Lacks b':' instance_id
    → get c.items (cache_key instance_id token) ≡ none
    → let r = check_instance c token instance_id now validate in
      (r.0 ≡ some (validate instance_id token))
      × ((j : Bytes)
          → get r.1.items j ≡ (
              if cache_key instance_id token == j
              then item_of now (validate instance_id token)
              else get c.items j))
unfolding set_instance
check_instance_uncached c token instance_id now validate h fresh =
    rw (check_instance_fresh c token instance_id now validate h fresh)
      (go (validate instance_id token))
  where
    key : Bytes
    key = cache_key instance_id token

    unchanged : (j : Bytes) → get c.items j ≡ (if bytes_eqb key j then none else get c.items j)
    unchanged j = ground (arith, bytes_eqb_iff key j, fresh)

    go :
        (v : Verdict (Unit {0}))
        → ((remember c key now (some v)).0 ≡ some v)
          × ((j : Bytes)
              → get (remember c key now (some v)).1.items j
                ≡ (if bytes_eqb key j then item_of now v else get c.items j))
    go (valid tt) = (refl, λ j. get-put c.items key j _)
    go (invalid invalid_instance_id) = (refl, λ j. get-put c.items key j _)
    go (invalid invalid_api_key) = (refl, unchanged)
    go (invalid invalid_org_id) = (refl, unchanged)
    go (invalid invalid_instance_type) = (refl, unchanged)
    go (invalid invalid_cluster) = (refl, unchanged)
    go (invalid failed) = (refl, unchanged)

-- A cached verdict is given again, without a request.
pub check_instance_cached :
    (c : InstanceCache) (token instance_id : Bytes) (now : ℕ)
    (validate : Bytes → Bytes → Verdict (Unit {0})) {i : InstanceResp}
    → get c.items (cache_key instance_id token) ≡ some i
    → (check_instance c token instance_id now validate).0
      ≡ some (if i.is_valid then valid tt else invalid invalid_instance_id)
unfolding check_instance
check_instance_cached c token instance_id now validate {i = i} found = rw found (go i.is_valid)
  where
    go :
        (b : Bool)
        → (check_cached (cache_key instance_id token) now validate (
          some b,
          record c {
            items = put c.items (cache_key instance_id token) (record i { last_read = unix now });
          },
        )).0
          ≡ some (if b then valid tt else invalid invalid_instance_id)
    go true = refl
    go false = refl

-- An answer of 500 or above from grafana.com whose body can be read makes the check of an instance
-- that is not cached pass, and caches the instance as valid.
pub server_error_passes :
    (unmarshal : Bytes → Option Instance) (s : Settings) (fetch : Bytes → Bytes → Option Response)
    (c : InstanceCache) (token instance_id : Bytes) (now status : ℕ) (body : Bytes)
    → Lacks b':' instance_id
    → get c.items (cache_key instance_id token) ≡ none
    → 500 ≤ status
    → fetch (instance_url s instance_id) token ≡ some (response status body)
    → check_instance c token instance_id now (validate_instance unmarshal s fetch)
      ≡ (some (valid tt), set_instance c (cache_key instance_id token) true now)
server_error_passes unmarshal s fetch c token instance_id now status body h fresh bad answered =
    check_instance_fresh c token instance_id now (validate_instance unmarshal s fetch) h fresh
    ∙ ap (λ v. remember c (cache_key instance_id token) now (some v)) passed
  where
    passed : validate_instance unmarshal s fetch instance_id token ≡ valid tt
    passed = unfold validate_instance in rw (answered, validate_instance) (ground arith)
