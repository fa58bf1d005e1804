-- ===== src/Metric.antt =====
-- The metric that all parts pass on: `schema.MetricData` of the vendored metrictank library, with
-- what the gateway calls of it. A float64 is its 64 bits, since the gateway only copies values.
use tsdb_gw.Base.{List, Option, if◌then◌else◌, none, refl, some, ℕ, ◌≡◌}
use tsdb_gw.Base.Int.{ℤ}
use tsdb_gw.Base.Text.{Bytes, codes, is_empty}

pub record Metric : Type 0 where
  pub id : Bytes
  pub org_id : ℤ
  pub name : Bytes
  pub interval : ℤ
  pub value : ℕ
  pub unit : Bytes
  pub time : ℤ
  pub mtype : Bytes
  pub tags : List Bytes

-- The bits of 1.0.
abbrev pub float_one : ℕ
float_one = 0x3ff0000000000000

-- `SetId` hashes the metric into its id and sorts its tags; `Validate` returns the text of an error
-- and trims the name. `SetId` touches neither the
-- organisation, the name nor the time, and `Validate` not the organisation.
pub record Schema : Type 0 where
  pub set_id : Metric → Metric
  pub validate : Metric → Option Bytes × Metric
  pub org_id-set_id : (m : Metric) → (set_id m).org_id ≡ m.org_id
  pub name-set_id : (m : Metric) → (set_id m).name ≡ m.name
  pub time-set_id : (m : Metric) → (set_id m).time ≡ m.time
  pub org_id-validate : (m : Metric) → (validate m).1.org_id ≡ m.org_id

-- A library that does nothing meets these laws.
abbrev pub plain_schema : Schema
plain_schema = record {
  set_id = λ m. m;
  validate = λ m. (if is_empty m.name then some (codes "name cannot be empty") else none, m);
  org_id-set_id = λ m. refl;
  name-set_id = λ m. refl;
  time-set_id = λ m. refl;
  org_id-validate = λ m. refl;
}
