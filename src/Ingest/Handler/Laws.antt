-- ===== src/Ingest/Handler/Laws.antt =====
-- What a reply of the metrics handlers says of the batch.
use tsdb_gw.Base.{
  Bool, List, Option, arith, false, if◌then◌else◌, length, none, not, refl, some, true, ℕ, ◌+◌, ◌<◌,
  ◌≡◌, ◌≢◌, [], lt→ltb, ◌∷◌, inl, inr, ◌⊎◌,
}
use tsdb_gw.Base.Eq.{bytes_eq, int_eq, nat_eq}
use tsdb_gw.Base.Int.{pos, ℤ}
use tsdb_gw.Base.Map.{get}
use tsdb_gw.Ingest.Handler.{
  Reply, World, after_limit, finish_metrics, limit_status, refuse, reply_of,
}
use tsdb_gw.Ingest.Prepare.{Context, prepare_ingest}
use tsdb_gw.Ingest.Prepare.Laws.{prepare_ingest_total}
use tsdb_gw.Ingest.RateLimit.{
  Limiters, RateError, exceeds_burst, rate_limit, refused, use_rate_limit,
}
use tsdb_gw.Ingest.Response.{MetricsResponse}
use tsdb_gw.Metric.{Metric, Schema}
use tsdb_gw.Publish.{PublishResult, failed, nothing, published}

listed_limit : (m : Limiters) (org burst : ℤ) → get m org ≡ some burst → use_rate_limit m ≡ true
unfolding use_rate_limit get
listed_limit [] org burst e = cc
listed_limit (l ∷ ls) org burst e = refl

module _ (schema : Schema) (limiters : Limiters) (w : World) (ctx : Context)
    (ms : List Metric) where
  -- The publisher is given the prepared batch or nothing; what the reply counts is true.
  pub record IsHonest (r : Reply) : Type 0 where
    pub batch :
        (r.given_batch ≡ none) ⊎ (r.given_batch ≡ some (prepare_ingest schema ctx ms).to_publish)
    pub answer :
        (r.status ≢ 200) × (r.resp ≡ none)
        ⊎ (r.status ≡ 200)
          × (resp : MetricsResponse) × (r.resp ≡ some resp)
          × (resp.published + resp.invalid ≡ length ms)

  refuse-IsHonest : (status : ℕ) → status ≢ 200 → IsHonest (refuse status)
  refuse-IsHonest status h = record { batch = inl refl; answer = inl (h, refl) }

  reply_of-IsHonest : (p : PublishResult) → IsHonest (reply_of (prepare_ingest schema ctx ms) p)
  reply_of-IsHonest nothing = record {
    batch = inl refl;
    answer = inr (refl, _, refl, (prepare_ingest_total schema ctx ms).1);
  }
  reply_of-IsHonest failed = record { batch = inr refl; answer = inl (omega arith, refl) }
  reply_of-IsHonest (published counts) = record {
    batch = inr refl;
    answer = inr (refl, _, refl, (prepare_ingest_total schema ctx ms).1);
  }

  if-IsHonest : (b : Bool) (r s : Reply) → IsHonest r → IsHonest s → IsHonest (if b then r else s)
  if-IsHonest true r s h k = h
  if-IsHonest false r s h k = k

  limit_status-ne_ok : (e : RateError) → limit_status e ≢ 200
  limit_status-ne_ok exceeds_burst = omega arith
  limit_status-ne_ok refused = omega arith

  after_limit-IsHonest :
      (o : Option RateError) → IsHonest (after_limit w (prepare_ingest schema ctx ms) o)
  after_limit-IsHonest none =
      if-IsHonest w.gone _ _ (refuse-IsHonest 499 (omega arith)) (reply_of-IsHonest _)
  after_limit-IsHonest (some e) =
      if-IsHonest (not w.gone_limited) _ _ (refuse-IsHonest (limit_status e) (limit_status-ne_ok e))
        (if-IsHonest w.gone _ _ (refuse-IsHonest 499 (omega arith)) (reply_of-IsHonest _))

  -- Whatever the limiter, the client and the publisher do, the publisher is given the prepared
  -- batch or nothing, and a reply has status 200 exactly if it has a response, whose two counts
  -- add up to the number of metrics of the request.
  pub finish_metrics-IsHonest : IsHonest (finish_metrics schema limiters w ctx ms)
  unfolding finish_metrics
  finish_metrics-IsHonest = after_limit-IsHonest _

  -- A batch with more metrics than the burst size of the organisation's limiter is answered with
  -- 413 and is not published, unless the client has gone.
  pub oversized_batch :
      (burst : ℕ)
      → get limiters ctx.id ≡ some (pos burst)
      → burst < length (prepare_ingest schema ctx ms).to_publish
      → w.gone_limited ≡ false
      → finish_metrics schema limiters w ctx ms ≡ refuse 413
  unfolding finish_metrics rate_limit
  oversized_batch burst limited large here =
      rw (listed_limit limiters ctx.id (pos burst) limited, limited, lt→ltb _ _ large, here)
