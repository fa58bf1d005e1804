-- ===== src/Gcom/Token.antt =====
-- API keys: `validateToken` and `Auth` of auth/gcom/auth.go, and the token cache of
-- auth/gcom/cache.go. Each method of the cache is one step under its lock.
pub mod Trust
pub mod Expiry
use tsdb_gw.Auth.{RoleType, role_admin}
use tsdb_gw.Base.{
  ℕ, ◌+◌, List, [], ◌∷◌, Bool, true, false, ◌||◌, not, Option, none, some, if◌then◌else◌, ltb, leb,
}
use tsdb_gw.Base.Eq.{◌==◌, int_eq, nat_eq, bytes_eq}
use tsdb_gw.Base.Int.{ℤ, pos}
use tsdb_gw.Base.Map.{Map, get, put, delete}
use tsdb_gw.Base.Text.{Bytes, is_empty, codes}
use tsdb_gw.Gcom.{
  Response, no_response, broken_body, response, GcomError, invalid_api_key, invalid_org_id, failed,
  Verdict, valid, invalid, unix, is_expired,
}

pub record SignedInUser : Type 0 where
  pub user_id : ℤ
  pub org_name : Bytes
  pub org_id : ℤ
  pub org_slug : Bytes
  pub name : Bytes
  pub role : RoleType
  pub created_at : ℕ
  pub is_admin : Bool
  pub key : Bytes

unfoldable pub contains_int : List ℤ → ℤ → Bool
contains_int [] id = false
contains_int (x ∷ xs) id = id == x || contains_int xs id

-- The listed organisations, or any if none is listed.
unfoldable pub is_valid_org : List ℤ → ℤ → Bool
unfolding contains_int
is_valid_org valid_org_ids id = is_empty valid_org_ids || contains_int valid_org_ids id

abbrev pub check_org : List ℤ → Option SignedInUser → Verdict SignedInUser
check_org valid_org_ids none = invalid failed
check_org valid_org_ids (some user) =
    if is_valid_org valid_org_ids user.org_id then valid user else invalid invalid_org_id

-- `unmarshal` is json.Unmarshal into a user that holds the key.
unfoldable pub validate_token :
    (unmarshal : Bytes → Bytes → Option SignedInUser) (valid_org_ids : List ℤ)
    → Bytes
    → Response
    → Verdict SignedInUser
validate_token unmarshal valid_org_ids key no_response = invalid failed
validate_token unmarshal valid_org_ids key (broken_body status part) = invalid failed
validate_token unmarshal valid_org_ids key (response status body) =
    if leb 500 status
    then invalid failed
    else if not (status == 200)
    then invalid invalid_api_key
    else check_org valid_org_ids (unmarshal key body)

-- `user` is none for a token that was found invalid.
pub record TokenResp : Type 0 where
  pub user : Option SignedInUser
  pub retrieved : ℕ
  pub last_read : ℕ

pub record TokenCache : Type 0 where
  pub items : Map Bytes TokenResp
  pub cache_ttl : ℕ

abbrev pub Found : Type 0
Found = Option (Option SignedInUser)

abbrev pub read_item : TokenCache → Bytes → ℕ → Option TokenResp → Found × TokenCache
read_item c key now none = (none, c)
read_item c key now (some i) =
    (some i.user, record c { items = put c.items key (record i { last_read = unix now }) })

-- Get
unfoldable pub get_token : TokenCache → Bytes → ℕ → Found × TokenCache
get_token c key now = read_item c key now (get c.items key)

-- Set
unfoldable pub set_token : TokenCache → Bytes → Option SignedInUser → ℕ → TokenCache
set_token c key user now = record c {
  items = put c.items key (record { user = user; retrieved = now; last_read = unix now });
}

-- Clear
unfoldable pub clear_tokens : TokenCache → TokenCache
clear_tokens c = record c { items = [] }

unfoldable pub expired_keys : Map Bytes TokenResp → ℕ → ℕ → List Bytes
expired_keys [] now ttl = []
expired_keys ((k, v) ∷ m) now ttl =
    let rest = expired_keys m now ttl in if is_expired v.retrieved now ttl then k ∷ rest else rest

-- What `validate` does to an item under the write lock, once it has an answer. The answer is the
-- user, or none for ErrInvalidApiKey.
abbrev pub refresh_item :
    TokenCache → Bytes → ℕ → Option SignedInUser → Option TokenResp → TokenCache
refresh_item c k now user none = c
refresh_item c k now user (some v) =
    if ltb v.last_read (unix v.retrieved)
    then record c { items = delete c.items k }
    else record c { items = put c.items k (record v { user = user; retrieved = now }) }

unfoldable pub refresh_token : TokenCache → Bytes → ℕ → Verdict SignedInUser → TokenCache
refresh_token c k now (valid user) = refresh_item c k now (some user) (get c.items k)
refresh_token c k now (invalid invalid_api_key) = refresh_item c k now none (get c.items k)
refresh_token c k now (invalid _) = c

unfoldable pub refresh_tokens :
    TokenCache → List Bytes → ℕ → (Bytes → Verdict SignedInUser) → TokenCache
unfolding refresh_token
refresh_tokens c [] now verdict = c
refresh_tokens c (k ∷ ks) now verdict =
    refresh_tokens (refresh_token c k now (verdict k)) ks now verdict

-- validate: one tick of `backgroundValidation`. `verdict` is what ValidateToken returns.
unfoldable pub validate_tokens : TokenCache → ℕ → (Bytes → Verdict SignedInUser) → TokenCache
unfolding expired_keys refresh_tokens
validate_tokens c now verdict = refresh_tokens c (expired_keys c.items now c.cache_ttl) now verdict

abbrev pub admin_signed_in : Bytes → SignedInUser
admin_signed_in key = record {
  user_id = pos 0;
  org_name = codes "Admin";
  org_id = pos 1;
  org_slug = codes "admin";
  name = [];
  role = role_admin;
  created_at = 0;
  is_admin = true;
  key = key;
}

abbrev pub store_verdict :
    TokenCache → Bytes → ℕ → Verdict SignedInUser → Verdict SignedInUser × TokenCache
store_verdict c key now (valid user) = (valid user, set_token c key (some user) now)
store_verdict c key now (invalid invalid_api_key) =
    (invalid invalid_api_key, set_token c key none now)
store_verdict c key now (invalid invalid_org_id) =
    (invalid invalid_org_id, set_token c key none now)
store_verdict c key now (invalid e) = (invalid e, c)

abbrev pub answer :
    Bytes → ℕ → Verdict SignedInUser → Found × TokenCache → Verdict SignedInUser × TokenCache
answer key now verdict (some (some user), c) = (valid user, c)
answer key now verdict (some none, c) = (invalid invalid_api_key, c)
answer key now verdict (none, c) = store_verdict c key now verdict

-- Auth
unfoldable pub auth :
    TokenCache
    → (admin_key : Bytes) → Bytes
    → ℕ
    → Verdict SignedInUser
    → Verdict SignedInUser × TokenCache
unfolding get_token set_token
auth c admin_key key now verdict =
    if key == admin_key
    then (valid (admin_signed_in key), c)
    else answer key now verdict (get_token c key now)
