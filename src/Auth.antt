-- ===== src/Auth.antt =====
-- Users, roles and authentication errors (auth/auth.go, auth/gcom/roles.go), and the store of users
-- that the pointers of type *User lead to. `AdminUser` and the users of a file live as long as the
-- process, and a handler may write to them: so users stand in a store, and a plugin returns a pointer.
pub mod File
use tsdb_gw.Base.{
  ℕ, ◌+◌, List, [], ◌∷◌, Bool, true, false, ◌||◌, ◌≡◌, Option, none, some, if◌then◌else◌, arith,
}
use tsdb_gw.Base.Eq.{◌==◌, bytes_eq, bytes_eqb, bytes_eqb_iff, nat_eq}
use tsdb_gw.Base.Int.{ℤ, pos}
use tsdb_gw.Base.Map.{Map, get, put, get-put}
use tsdb_gw.Base.Text.{Bytes, codes}

-- type RoleType string
abbrev pub RoleType : Type 0
RoleType = Bytes

abbrev pub role_viewer : RoleType
role_viewer = codes "Viewer"

abbrev pub role_editor : RoleType
role_editor = codes "Editor"

abbrev pub role_metrics_publisher : RoleType
role_metrics_publisher = codes "MetricsPublisher"

abbrev pub role_admin : RoleType
role_admin = codes "Admin"

unfoldable pub is_valid : RoleType → Bool
is_valid r =
    r == role_viewer || (r == role_admin || (r == role_editor || r == role_metrics_publisher))

unfoldable pub is_publisher : RoleType → Bool
is_publisher r = r == role_metrics_publisher || (r == role_admin || r == role_editor)

unfoldable pub is_viewer : RoleType → Bool
is_viewer r = r == role_viewer || (r == role_admin || r == role_editor)

pub record User : Type 0 where
  pub id : ℤ
  pub is_admin : Bool
  pub role : RoleType

-- The errors that callers tell apart; `other` is any error that is none of these.
pub data AuthError : Type 0 where
  invalid_credentials invalid_org_id invalid_instance_id other : AuthError

pub data AuthResult {ℓ} (A : Type ℓ) : Type ℓ where
  ok : A → AuthResult A
  err : AuthError → AuthResult A

pub record Users : Type 0 where
  pub cells : Map ℕ User
  pub next : ℕ

abbrev pub zero_user : User
zero_user = record { id = pos 0; is_admin = false; role = [] }

abbrev pub or_zero_user : Option User → User
or_zero_user none = zero_user
or_zero_user (some u) = u

-- *p
unfoldable pub user_at : Users → ℕ → User
user_at h p = or_zero_user (get h.cells p)

-- &User{...}
unfoldable pub new_user : Users → User → Users × ℕ
new_user h u = (record { cells = put h.cells h.next u; next = h.next + 1 }, h.next)

-- p.ID = id
unfoldable pub set_id : Users → ℕ → ℤ → Users
set_id h p id = record h { cells = put h.cells p (record (user_at h p) { id = id }) }

-- The pointer `AdminUser`, and the store when the program starts.
abbrev pub admin_user : ℕ
admin_user = 0

abbrev pub initial_users : Users
initial_users = record {
  cells = (admin_user, record { id = pos 1; is_admin = true; role = role_admin }) ∷ [];
  next = 1;
}

pub user_at-set_id :
    (h : Users) (p q : ℕ) (id : ℤ)
    → user_at (set_id h p id) q ≡ (if p == q then record (user_at h p) { id = id } else user_at h q)
unfolding user_at set_id
user_at-set_id h p q id = rw get-put (ground arith)

pub user_at-new_user :
    (h : Users) (u : User) (q : ℕ)
    → user_at (new_user h u).0 q ≡ (if h.next == q then u else user_at h q)
unfolding user_at new_user
user_at-new_user h u q = rw get-put (ground arith)
