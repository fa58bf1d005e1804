-- ===== src/Gcom/Instance.antt =====
-- Instances: `validateInstance` and `CheckInstance` of auth/gcom/auth.go, and the instance cache of
-- auth/gcom/cache.go.
pub mod Laws
use tsdb_gw.Base.{
  Bool, List, Option, [], false, if◌then◌else◌, leb, ltb, none, not, some, true, ℕ, ◌&&◌, ◌++◌, ◌∷◌,
}
use tsdb_gw.Base.Eq.{bytes_eq, int_eq, nat_eq, ◌==◌}
use tsdb_gw.Base.Int.{pos, ℤ}
use tsdb_gw.Base.Map.{Map, delete, get, put}
use tsdb_gw.Base.Number.{itoa}
use tsdb_gw.Base.Text.{Bytes, codes, is_empty, split_two}
use tsdb_gw.Gcom.{
  Response, Verdict, broken_body, failed, invalid, invalid_cluster, invalid_instance_id,
  invalid_instance_type, is_expired, no_response, response, unix, valid,
}

-- The fields of `Instance` that are read.
pub record Instance : Type 0 where
  pub id : ℤ
  pub cluster_id : ℤ
  pub instance_type : Bytes

pub record Settings : Type 0 where
  pub auth_endpoint : Bytes
  pub valid_instance_type : Bytes
  pub valid_cluster_id : ℤ
  pub validation_dry_run : Bool

unfoldable pub instance_url : Settings → Bytes → Bytes
instance_url s instance_id =
    if s.valid_instance_type == codes "logs"
    then s.auth_endpoint ++ (codes "/api/hosted-logs/" ++ instance_id)
    else s.auth_endpoint ++ (codes "/api/hosted-metrics/" ++ instance_id)

unfoldable pub is_wrong_type : Settings → Instance → Bool
is_wrong_type s i =
    not (is_empty s.valid_instance_type) && not (s.valid_instance_type == i.instance_type)

unfoldable pub is_wrong_cluster : Settings → Instance → Bool
is_wrong_cluster s i = not (s.valid_cluster_id == pos 0) && not (s.valid_cluster_id == i.cluster_id)

abbrev pub check_settings : Settings → Bytes → Option Instance → Verdict (Unit {0})
check_settings s instance_id none = invalid failed
check_settings s instance_id (some i) =
    if not (itoa i.id == instance_id)
    then invalid invalid_instance_id
    else if is_wrong_type s i && not s.validation_dry_run
    then invalid invalid_instance_type
    else if is_wrong_cluster s i && not s.validation_dry_run
    then invalid invalid_cluster
    else valid tt

-- `read_error` is the error of ioutil.ReadAll, which only the first branch returns.
abbrev pub judge :
    (Bytes → Option Instance)
    → Settings
    → Bytes
    → ℕ
    → Bytes
    → Verdict (Unit {0})
    → Verdict (Unit {0})
judge unmarshal s instance_id status body read_error =
    if leb 500 status
    then read_error
    else if not (status == 200)
    then invalid invalid_instance_id
    else check_settings s instance_id (unmarshal body)

-- `fetch` is the HTTP request with the bearer token, `none` an address that is no URL.
unfoldable pub validate_instance :
    (Bytes → Option Instance)
    → Settings
    → (Bytes → Bytes → Option Response)
    → Bytes
    → Bytes
    → Verdict (Unit {0})
validate_instance unmarshal s fetch instance_id token =
    elim (fetch (instance_url s instance_id) token) [
      | none ↦ invalid failed
      | some no_response ↦ invalid failed
      | some (broken_body status part) ↦ judge unmarshal s instance_id status part (invalid failed)
      | some (response status body) ↦ judge unmarshal s instance_id status body (valid tt)
    ]

abbrev pub validate_parts :
    (Bytes → Bytes → Verdict (Unit {0})) → List Bytes → Option (Verdict (Unit {0}))
validate_parts validate (instance_id ∷ token ∷ []) = some (validate instance_id token)
validate_parts validate _ = none

-- ValidateInstance; `none` is the panic of idKey[1].
unfoldable pub validate_cache_key :
    (Bytes → Bytes → Verdict (Unit {0})) → Bytes → Option (Verdict (Unit {0}))
validate_cache_key validate cache_key = validate_parts validate (split_two cache_key b':')

pub record InstanceResp : Type 0 where
  pub is_valid : Bool
  pub retrieved : ℕ
  pub last_read : ℕ

pub record InstanceCache : Type 0 where
  pub items : Map Bytes InstanceResp
  pub cache_ttl : ℕ

abbrev pub read_instance :
    InstanceCache → Bytes → ℕ → Option InstanceResp → Option Bool × InstanceCache
read_instance c key now none = (none, c)
read_instance c key now (some i) =
    (some i.is_valid, record c { items = put c.items key (record i { last_read = unix now }) })

-- Get
unfoldable pub get_instance : InstanceCache → Bytes → ℕ → Option Bool × InstanceCache
get_instance c key now = read_instance c key now (get c.items key)

-- Set
unfoldable pub set_instance : InstanceCache → Bytes → Bool → ℕ → InstanceCache
set_instance c key is_valid now = record c {
  items = put c.items key (record { is_valid = is_valid; retrieved = now; last_read = unix now });
}

-- Clear
unfoldable pub clear_instances : InstanceCache → InstanceCache
clear_instances c = record c { items = [] }

unfoldable pub expired_instances : Map Bytes InstanceResp → ℕ → ℕ → List Bytes
expired_instances [] now ttl = []
expired_instances ((k, v) ∷ m) now ttl =
    let rest = expired_instances m now ttl in
    if is_expired v.retrieved now ttl then k ∷ rest else rest

abbrev pub refresh_resp : InstanceCache → Bytes → ℕ → Bool → Option InstanceResp → InstanceCache
refresh_resp c k now is_valid none = c
refresh_resp c k now is_valid (some v) =
    if ltb v.last_read (unix v.retrieved)
    then record c { items = delete c.items k }
    else record c { items = put c.items k (record v { is_valid = is_valid; retrieved = now }) }

unfoldable pub refresh_instance : InstanceCache → Bytes → ℕ → Verdict (Unit {0}) → InstanceCache
refresh_instance c k now (valid _) = refresh_resp c k now true (get c.items k)
refresh_instance c k now (invalid invalid_instance_id) = refresh_resp c k now false (get c.items k)
refresh_instance c k now (invalid _) = c

unfoldable pub refresh_instances :
    InstanceCache → List Bytes → ℕ → (Bytes → Verdict (Unit {0})) → InstanceCache
unfolding refresh_instance
refresh_instances c [] now verdict = c
refresh_instances c (k ∷ ks) now verdict =
    refresh_instances (refresh_instance c k now (verdict k)) ks now verdict

-- validate
unfoldable pub validate_instances : InstanceCache → ℕ → (Bytes → Verdict (Unit {0})) → InstanceCache
unfolding expired_instances refresh_instances
validate_instances c now verdict =
    refresh_instances c (expired_instances c.items now c.cache_ttl) now verdict

abbrev pub remember :
    InstanceCache
    → Bytes
    → ℕ
    → Option (Verdict (Unit {0}))
    → Option (Verdict (Unit {0})) × InstanceCache
remember c key now none = (none, c)
remember c key now (some (valid u)) = (some (valid u), set_instance c key true now)
remember c key now (some (invalid invalid_instance_id)) =
    (some (invalid invalid_instance_id), set_instance c key false now)
remember c key now (some (invalid e)) = (some (invalid e), c)

abbrev pub check_cached :
    Bytes
    → ℕ
    → (Bytes → Bytes → Verdict (Unit {0}))
    → Option Bool × InstanceCache
    → Option (Verdict (Unit {0})) × InstanceCache
check_cached key now validate (none, c) = remember c key now (validate_cache_key validate key)
check_cached key now validate (some true, c) = (some (valid tt), c)
check_cached key now validate (some false, c) = (some (invalid invalid_instance_id), c)

abbrev pub cache_key : Bytes → Bytes → Bytes
cache_key instance_id token = instance_id ++ b':' ∷ token

-- CheckInstance of a user with the key `token`
unfoldable pub check_instance :
    InstanceCache
    → (token instance_id : Bytes) → ℕ
    → (Bytes → Bytes → Verdict (Unit {0}))
    → Option (Verdict (Unit {0})) × InstanceCache
unfolding get_instance set_instance validate_cache_key
check_instance c token instance_id now validate =
    let key = cache_key instance_id token in check_cached key now validate (get_instance c key now)
