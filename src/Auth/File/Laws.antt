-- ===== src/Auth/File/Laws.antt =====
-- Who gets in through the file plugin, and as which user.
use tsdb_gw.Base.{ℕ, true, ◌≡◌, ◌≢◌, ◌↔◌, ◌⊎◌, some, arith}
use tsdb_gw.Base.Eq.{bytes_eq, int_eq, bytes_eqb_iff}
use tsdb_gw.Base.Int.{ℤ, int_eqb_iff}
use tsdb_gw.Base.Map.{get}
use tsdb_gw.Base.Text.{Bytes, codes}
use tsdb_gw.Auth.{Users, ok, user_at, admin_user}
use tsdb_gw.Auth.File.{FileAuth, check_key, file_auth}

-- The password is a key of the file, and the user of that key is an administrator, or asks for no
-- instance in particular, or for one that belongs to his organisation.
pub record MayUse (a : FileAuth) (h : Users) (instance_id password : Bytes) (p : ℕ) : Type 0 where
  pub listed : get a.keys password ≡ some p
  pub allowed :
      ((user_at h p).is_admin ≡ true)
      ⊎ (instance_id ≡ codes "api_key")
      ⊎ (get a.instance_map instance_id ≡ some (user_at h p).id)

module _ (a : FileAuth) (admin_key : Bytes) (h : Users) (instance_id password : Bytes) where
  check_key_sound :
      (p : ℕ)
      → check_key a h instance_id (get a.keys password) ≡ ok p
      → MayUse a h instance_id password p
  check_key_sound p e = record {
    listed = ground (arith, bytes_eqb_iff instance_id (codes "api_key"));
    allowed = ground (
      arith,
      bytes_eqb_iff instance_id (codes "api_key"),
      λ (q : ℕ) (o : ℤ). int_eqb_iff o (user_at h q).id,
    );
  }

  check_key_complete :
      (p : ℕ)
      → MayUse a h instance_id password p
      → check_key a h instance_id (get a.keys password) ≡ ok p
  check_key_complete p m = ground (
    arith,
    bytes_eqb_iff instance_id (codes "api_key"),
    int_eqb_iff (user_at h p).id (user_at h p).id,
  )

  -- The file plugin lets a request in exactly as the administrator with the administrator's key,
  -- or with a key of the file whose user is an administrator, asks for no instance in particular
  -- or for one of his organisation.
  pub file_auth_iff :
      (p : ℕ)
      → (file_auth a admin_key h instance_id password ≡ ok p) ↔ (
          (password ≡ admin_key) × (p ≡ admin_user)
          ⊎ (password ≢ admin_key) × MayUse a h instance_id password p)
  unfolding file_auth
  file_auth_iff p = (
    λ e. ground (arith, bytes_eqb_iff password admin_key, check_key_sound p),
    λ c. ground (arith, bytes_eqb_iff password admin_key, check_key_complete p),
  )
