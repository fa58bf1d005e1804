-- ===== src/Ingest/Prepare.antt =====
-- prepareIngest (ingest/metrics.go).
pub mod Laws
use tsdb_gw.Base.{Bool, List, Option, [], if◌then◌else◌, none, not, some, ℕ, ◌++◌, ◌+◌, ◌∷◌}
use tsdb_gw.Base.Int.{ℤ}
use tsdb_gw.Base.Text.{Bytes, codes, is_empty}
use tsdb_gw.Ingest.Response.{
  Discards, MetricsResponse, add_discard, add_invalid, new_metrics_response,
}
use tsdb_gw.Metric.{Metric, Schema}

-- What the authenticated request says of its user.
pub record Context : Type 0 where
  pub id : ℤ
  pub is_admin : Bool

pub record Batch : Type 0 where
  pub to_publish : List Metric
  pub resp : MetricsResponse
  pub discards : Discards

module _ (schema : Schema) where
  -- A metric before it is validated: the user's organisation, and a default type.
  unfoldable pub fill_in : Context → Metric → Metric
  fill_in ctx m = record m {
    org_id = if not ctx.is_admin then ctx.id else m.org_id;
    mtype = if is_empty m.mtype then codes "gauge" else m.mtype;
  }

  abbrev pub take_metric : Context → ℕ → Option Bytes × Metric → Batch → Batch
  take_metric ctx i (some error, m) b = record b {
    resp = add_invalid b.resp error i;
    discards = add_discard b.discards m.org_id error;
  }
  take_metric ctx i (none, m) b = record b {
    to_publish = b.to_publish ++ (if ctx.is_admin then m else schema.set_id m) ∷ [];
  }

  unfoldable pub prepare_from : Context → ℕ → List Metric → Batch → Batch
  unfolding fill_in
  prepare_from ctx i [] b = b
  prepare_from ctx i (m ∷ ms) b =
      prepare_from ctx (i + 1) ms (take_metric ctx i (schema.validate (fill_in ctx m)) b)

  unfoldable pub prepare_ingest : Context → List Metric → Batch
  unfolding prepare_from
  prepare_ingest ctx metrics =
      prepare_from ctx 0 metrics
        (record { to_publish = []; resp = new_metrics_response; discards = [] })
