-- ===== src/Kafka/Points.antt =====
-- When a metric is sent as a point.
use tsdb_gw.Base.{if◌then◌else◌, refl, some, true, ◌≡◌, ap, ◌∙◌}
use tsdb_gw.Base.Eq.{beq_refl, bytes_eq, int_eq, nat_eq}
use tsdb_gw.Kafka.Encode.{Options, Wire, data_from_metric_data, full_data, point_data, touched_data}
use tsdb_gw.Keycache.{KeyCache, MKey, touch}
use tsdb_gw.Keycache.Rounds.{seen-touch, touch-IsValid}
use tsdb_gw.Keycache.Seen.{IsKey, IsValid, seen}
use tsdb_gw.Metric.{Metric}

module _ {P : Type 0} (wire : Wire P) (options : Options) where
  keyed :
      (cache : KeyCache) (m : Metric) (mkey : MKey)
      → options.v2 ≡ true
      → wire.mkey_of m.id ≡ some mkey
      → data_from_metric_data wire options cache m
        ≡ touched_data wire options mkey m (touch cache mkey)
  unfolding data_from_metric_data
  keyed cache m mkey v2 e = rw (v2, e) refl

  -- With v2 and a valid key cache, a metric whose key was seen before is sent as a point and one
  -- whose key was not is sent whole; after either, a metric with the same id is sent as a point.
  pub data_twice :
      (cache : KeyCache) (m later : Metric) (mkey : MKey)
      → options.v2 ≡ true
      → IsValid cache
      → IsKey mkey.key
      → wire.mkey_of m.id ≡ some mkey
      → later.id ≡ m.id
      → let first_data = data_from_metric_data wire options cache m in
        (first_data.1
          ≡ (if seen cache mkey then point_data wire options mkey m else full_data wire options m))
        × ((data_from_metric_data wire options first_data.0 later).1
            ≡ point_data wire options mkey later)
  data_twice cache m later mkey v2 valid_cache is_key e same =
      let after : KeyCache = (touch cache mkey).0 in
      let (known, kept) = seen-touch cache mkey mkey valid_cache is_key is_key in
      let again : (touch after mkey).1 ≡ true =
        (seen-touch after mkey mkey (touch-IsValid cache mkey valid_cache) is_key is_key).0
        ∙ kept
        ∙ rw (beq_refl mkey.org, beq_refl mkey.key) refl in
      (
        ap (λ r. r.1) (keyed cache m mkey v2 e) ∙ rw known refl,
        ap (λ r. (data_from_metric_data wire options r.0 later).1) (keyed cache m mkey v2 e)
            ∙ ap (λ r. r.1) (keyed after later mkey v2 (ap wire.mkey_of same ∙ e))
            ∙ rw again refl,
      )
