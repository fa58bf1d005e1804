-- ===== src/Examples/Access.antt =====
-- Users, keys and requests of the examples.
use tsdb_gw.Api.{pass, Request, auth_handler}
use tsdb_gw.Api.Impersonation.{
  Keeps, file_plugin, impersonation_persists, serve, serve-Keeps, datadog_login, auth_login,
}
use tsdb_gw.Auth.{Users, admin_user, ok, user_at}
use tsdb_gw.Auth.File.{FileAuth, file_auth}
use tsdb_gw.Auth.File.Laws.{MayUse, file_auth_iff}
use tsdb_gw.Base.{[], arith, false, refl, some, true, ◌*◌, ◌↔◌, ◌∷◌, ◌≡◌, ◌≢◌, ◌⊎◌}
use tsdb_gw.Base.Eq.{bytes_eq, int_eq, nat_eq, bytes_eqb}
use tsdb_gw.Base.Int.{pos}
use tsdb_gw.Base.Map.{get, put}
use tsdb_gw.Base.Number.{parse_int}
use tsdb_gw.Base.Text.{Bytes, codes}
use tsdb_gw.Gcom.{failed, invalid, second, valid}
use tsdb_gw.Gcom.Token.{auth, SignedInUser, TokenCache}
use tsdb_gw.Gcom.Token.Trust.{start, next, authenticate, auth_vouched}

abbrev pub org_key : Bytes
org_key = codes "abc"

abbrev pub master_key : Bytes
master_key = codes "xyz"

-- An administrator at 0 and a user of organisation 10, with a key, at 1.
abbrev two_users : Users
two_users = record {
  cells =
      (0, record { id = pos 1; is_admin = true; role = codes "Admin" })
      ∷ (1, record { id = pos 10; is_admin = false; role = codes "Admin" })
      ∷ [];
  next = 2;
}

abbrev key_file : FileAuth
key_file = record { keys = (org_key, 1) ∷ []; instance_map = (codes "7", pos 10) ∷ [] }

file_auth_iff_example : (file_auth key_file master_key two_users (codes "7") org_key ≡ ok 1) ↔ (
    (org_key ≡ master_key) × (1 ≡ admin_user)
    ⊎ (org_key ≢ master_key) × MayUse key_file two_users (codes "7") org_key 1)
file_auth_iff_example = file_auth_iff key_file master_key two_users (codes "7") org_key 1

abbrev admin_request : Request
admin_request = record {
  basic_auth = some (codes "api_key", master_key);
  authorization = [];
  dd_api_key = [];
  tsdb_org = codes "10";
}

serve-Keeps_example : Keeps (user_at two_users 1) (
    user_at
      (serve key_file master_key two_users
        (auth_login admin_request ∷ datadog_login admin_request ∷ []))
      1)
serve-Keeps_example =
    serve-Keeps key_file master_key two_users
      (auth_login admin_request ∷ datadog_login admin_request ∷ []) 1

admin_passes : (auth_handler (file_plugin key_file master_key) two_users admin_request).0 ≡ pass 0
unfolding auth_handler file_auth bytes_eqb
admin_passes = refl

admin_is_admin : (user_at two_users 0).is_admin ≡ true
unfolding user_at get
admin_is_admin = refl

ten : parse_int (codes "10") 63 ≡ some (pos 10)
unfolding parse_int
ten = refl

impersonation_persists_example :
    let h' = (auth_handler (file_plugin key_file master_key) two_users admin_request).1 in
    let again =
      auth_handler (file_plugin key_file master_key) h' (record admin_request { tsdb_org = [] }) in
    (again.0 ≡ pass 0) × ((user_at again.1 0).id ≡ pos 10)
impersonation_persists_example =
    impersonation_persists key_file master_key two_users admin_request 0 (pos 10) admin_passes
      admin_is_admin refl ten (λ e. ground arith)

abbrev pub editor : SignedInUser
editor = record {
  user_id = pos 5;
  org_name = codes "acme";
  org_id = pos 10;
  org_slug = codes "acme";
  name = codes "ann";
  role = codes "Editor";
  created_at = 0;
  is_admin = false;
  key = org_key;
}

-- What grafana.com has said of the key.
abbrev Said : Bytes → SignedInUser → Type 0
Said key user = (key ≡ org_key) × (editor ≡ user)

same_editor : (user : SignedInUser) → valid editor ≡ valid user → Said org_key user
same_editor user e = (refl, ground arith)

abbrev pub empty_tokens : TokenCache
empty_tokens = record { items = []; cache_ttl = 600 * second }

abbrev pub one_token : TokenCache
one_token = (auth empty_tokens master_key org_key (5 * second) (valid editor)).1

one_token_found : (auth one_token master_key org_key (9 * second) (invalid failed)).0 ≡ valid editor
unfolding auth get put bytes_eqb
one_token_found = refl

auth_vouched_example : Said org_key editor
auth_vouched_example =
    auth_vouched Said {ttl = 600 * second} {c = one_token} master_key org_key (9 * second)
      (invalid failed) editor
      (next start (authenticate master_key org_key (5 * second) (valid editor) same_editor))
      (λ user e. cc e) (λ e. ground arith) one_token_found
