-- ===== src/Api/Creds.antt =====
-- Which user name and key a request carries.
use tsdb_gw.Api.{Request, get_auth_creds, creds_of_key, creds_of_header}
use tsdb_gw.Base.{◌∷◌, ◌++◌, ◌≡◌, arith, none, ap, ◌∙◌}
use tsdb_gw.Base.Eq.{bytes_eqb}
use tsdb_gw.Base.Text.{Bytes, codes, Lacks, split_two-join, split_two-whole}

abbrev pub bearer : Bytes → Request → Request
bearer token req = record req { basic_auth = none; authorization = codes "Bearer " ++ token }

-- Without basic auth, a bearer token name:key whose name has no colon gives that name and that
-- key, whatever the key holds, and a token without a colon is the key of the user "api_key".
pub get_auth_creds-bearer :
    (req : Request) (name key : Bytes)
    → Lacks b':' name
    → (get_auth_creds (bearer (name ++ b':' ∷ key) req) ≡ (name, key))
      × (get_auth_creds (bearer name req) ≡ (codes "api_key", name))
unfolding get_auth_creds
get_auth_creds-bearer req name key h = (
  ap creds_of_header (split_two-join (codes "Bearer") (name ++ b':' ∷ key) b' ' (omega arith))
      ∙ unfold bytes_eqb in ap creds_of_key (split_two-join name key b':' h),
  ap creds_of_header (split_two-join (codes "Bearer") name b' ' (omega arith))
      ∙ unfold bytes_eqb in ap creds_of_key (split_two-whole name b':' h),
)
