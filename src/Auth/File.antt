-- ===== src/Auth/File.antt =====
-- The file plugin (auth/file.go). Of the ini library's section it takes the name and what reading
-- the three keys gives.
pub mod Laws
use tsdb_gw.Base.{ℕ, List, [], ◌∷◌, Bool, true, false, ◌||◌, not, Option, none, some, if◌then◌else◌}
use tsdb_gw.Base.Eq.{◌==◌, bytes_eq, int_eq}
use tsdb_gw.Base.Int.{ℤ}
use tsdb_gw.Base.Map.{Map, get, put}
use tsdb_gw.Base.Text.{Bytes, codes, is_empty}
use tsdb_gw.Auth.{
  User, Users, AuthResult, ok, err, invalid_credentials, invalid_instance_id, user_at, new_user,
  admin_user, role_admin,
}

-- `GetKey("orgId")` and its `Int()`; "isadmin" with `MustBool(false)`; "instances" with
-- `Strings(",")`. An optional key that cannot be read counts as absent.
pub record Section : Type 0 where
  pub name : Bytes
  pub org_id : Option ℤ
  pub is_admin : Option Bool
  pub instances : Option (List Bytes)

pub record FileAuth : Type 0 where
  pub keys : Map Bytes ℕ
  pub instance_map : Map Bytes ℤ

abbrev pub or_false : Option Bool → Bool
or_false none = false
or_false (some b) = b

unfoldable pub add_instances : Map Bytes ℤ → ℤ → List Bytes → Map Bytes ℤ
add_instances m org [] = m
add_instances m org (i ∷ is) = add_instances (put m i org) org is

unfoldable pub add_listed : Map Bytes ℤ → ℤ → Option (List Bytes) → Map Bytes ℤ
unfolding add_instances
add_listed m org none = m
add_listed m org (some is) = add_instances m org is

unfoldable pub add_section : FileAuth → Users → Section → FileAuth × Users
unfolding add_listed
add_section a h s = if is_empty s.name || s.name == codes "DEFAULT" then (a, h) else elim s.org_id [
  | none ↦ (a, h)
  | some org ↦
      let (h', p) =
        new_user h (record { id = org; is_admin = or_false s.is_admin; role = role_admin }) in
      (
        record {
          keys = put a.keys s.name p;
          instance_map = add_listed a.instance_map org s.instances;
        },
        h',
      )
]

unfoldable pub add_sections : FileAuth → Users → List Section → FileAuth × Users
unfolding add_section
add_sections a h [] = (a, h)
add_sections a h (s ∷ ss) = let (a', h') = add_section a h s in add_sections a' h' ss

-- `none` is log.Fatalf: no section gave a key.
unfoldable pub new_file_auth : List Section → Users → Option (FileAuth × Users)
unfolding add_sections
new_file_auth sections h =
    let (a, h') = add_sections (record { keys = []; instance_map = [] }) h sections in
    if is_empty a.keys then none else some (a, h')

abbrev pub check_owner : ℕ → ℤ → Option ℤ → AuthResult ℕ
check_owner p id none = err invalid_instance_id
check_owner p id (some owner) = if owner == id then ok p else err invalid_instance_id

abbrev pub check_key : FileAuth → Users → Bytes → Option ℕ → AuthResult ℕ
check_key a h instance_id none = err invalid_credentials
check_key a h instance_id (some p) =
    if (user_at h p).is_admin
    then ok p
    else if not (instance_id == codes "api_key")
    then check_owner p (user_at h p).id (get a.instance_map instance_id)
    else ok p

unfoldable pub file_auth : FileAuth → Bytes → Users → Bytes → Bytes → AuthResult ℕ
file_auth a admin_key h instance_id password =
    if password == admin_key then ok admin_user else check_key a h instance_id (get a.keys password)
