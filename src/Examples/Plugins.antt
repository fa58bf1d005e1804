-- ===== src/Examples/Plugins.antt =====
-- The plugins over grafana.com in the examples.
use tsdb_gw.Auth.{User}
use tsdb_gw.Base.{[], arith, false, refl, ◌*◌, ◌≡◌}
use tsdb_gw.Base.Eq.{bytes_eq, bytes_eqb, int_eq, nat_eq}
use tsdb_gw.Base.Int.{pos}
use tsdb_gw.Base.Map.{get}
use tsdb_gw.Base.Number.{parse_int}
use tsdb_gw.Base.Text.{Bytes, codes, split_two}
use tsdb_gw.Examples.Access.{editor, empty_tokens, master_key, one_token, org_key}
use tsdb_gw.Gcom.{Verdict, second, valid}
use tsdb_gw.Gcom.Instance.{check_instance}
use tsdb_gw.Gcom.Plugins.{
  Caches, IsChecked, grafana_com_instance_auth, grafana_com_instance_auth-IsChecked, let_in,
}
use tsdb_gw.Gcom.Token.{auth}

abbrev instance_caches : Caches
instance_caches = record {
  tokens = empty_tokens;
  instances = record { items = []; cache_ttl = 600 * second };
}

abbrev accepts : Bytes → Bytes → Verdict (Unit {0})
accepts instance_id token = valid tt

abbrev instance_seven : User
instance_seven = record { id = pos 7; is_admin = false; role = codes "Editor" }

abbrev both_cached : Caches
both_cached = record {
  tokens = one_token;
  instances = (check_instance instance_caches.instances org_key (codes "7") (5 * second) accepts).1;
}

seven_let_in :
    grafana_com_instance_auth instance_caches master_key
      (codes "7")
      org_key
      (5 * second)
      (valid editor)
      accepts
    ≡ let_in instance_seven both_cached
unfolding grafana_com_instance_auth auth check_instance get bytes_eqb parse_int split_two
seven_let_in = refl

grafana_com_instance_auth-IsChecked_example :
    IsChecked instance_caches master_key
      (codes "7")
      org_key
      (5 * second)
      (valid editor)
      accepts
      instance_seven
grafana_com_instance_auth-IsChecked_example =
    grafana_com_instance_auth-IsChecked instance_caches both_cached master_key (codes "7") org_key
      (5 * second) (valid editor) accepts instance_seven (λ e. ground arith) seven_let_in
