-- ===== src/Ingest/Prepare/Laws.antt =====
-- What prepareIngest lets through, and what it reports of the rest.
use tsdb_gw.Base.{
  All, All-append, List, Option, [], ap, append-nil, append_assoc, arith, false, if◌then◌else◌,
  length, length-append, none, refl, some, sym, ℕ, ◌++◌, ◌+◌, ◌∙◌, ◌∷◌, ◌≡◌,
}
use tsdb_gw.Base.Eq.{bytes_eq, int_eq, nat_eq}
use tsdb_gw.Base.Map.{get}
use tsdb_gw.Base.Text.{Bytes}
use tsdb_gw.Ingest.Prepare.{Batch, Context, fill_in, prepare_from, prepare_ingest, take_metric}
use tsdb_gw.Ingest.Response.{MetricsResponse, new_metrics_response, or_no_error}
use tsdb_gw.Ingest.Response.Laws.{
  Errors, add_errors, add_errors-append, invalid-add_errors, positions, report, take,
}
use tsdb_gw.Metric.{Metric, Schema}

module _ (schema : Schema) where
  -- What one metric adds to the published metrics and to the errors.
  abbrev pub valid_one : Context → Option Bytes × Metric → List Metric
  valid_one ctx (some error, m) = []
  valid_one ctx (none, m) = (if ctx.is_admin then m else schema.set_id m) ∷ []

  abbrev pub error_one : ℕ → Option Bytes × Metric → Errors
  error_one i (some error, m) = (i, error) ∷ []
  error_one i (none, m) = []

  pub valid_metrics : Context → List Metric → List Metric
  valid_metrics ctx [] = []
  valid_metrics ctx (m ∷ ms) =
      valid_one ctx (schema.validate (fill_in schema ctx m)) ++ valid_metrics ctx ms

  pub errors_from : Context → ℕ → List Metric → Errors
  errors_from ctx i [] = []
  errors_from ctx i (m ∷ ms) =
      error_one i (schema.validate (fill_in schema ctx m)) ++ errors_from ctx (i + 1) ms

  one_of_both :
      (ctx : Context) (i : ℕ) (o : Option Bytes) (m : Metric)
      → length (valid_one ctx (o, m)) + length (error_one i (o, m)) ≡ 1
  one_of_both ctx i none m = refl
  one_of_both ctx i (some error) m = refl

  sizes :
      (ctx : Context) (i : ℕ) (ms : List Metric)
      → length (valid_metrics ctx ms) + length (errors_from ctx i ms) ≡ length ms
  unfolding valid_metrics errors_from
  sizes ctx i [] = omega arith
  sizes ctx i (m ∷ ms) =
      let (o, v) = schema.validate (fill_in schema ctx m) in
      omega (
        arith,
        sizes ctx (i + 1) ms,
        one_of_both ctx i o v,
        length-append (valid_one ctx (o, v)) (valid_metrics ctx ms),
        length-append (error_one i (o, v)) (errors_from ctx (i + 1) ms),
      )

  resp-take_metric :
      (ctx : Context) (i : ℕ) (o : Option Bytes) (m : Metric) (b : Batch)
      → (take_metric schema ctx i (o, m) b).resp ≡ add_errors (error_one i (o, m)) b.resp
  resp-take_metric ctx i none m b = unfold add_errors in refl
  resp-take_metric ctx i (some error) m b = unfold add_errors in refl

  to_publish-take_metric :
      (ctx : Context) (i : ℕ) (o : Option Bytes) (m : Metric) (b : Batch)
      → (take_metric schema ctx i (o, m) b).to_publish ≡ b.to_publish ++ valid_one ctx (o, m)
  to_publish-take_metric ctx i none m b = refl
  to_publish-take_metric ctx i (some error) m b = sym (append-nil b.to_publish)

  resp-prepare_from :
      (ctx : Context) (i : ℕ) (ms : List Metric) (b : Batch)
      → (prepare_from schema ctx i ms b).resp ≡ add_errors (errors_from ctx i ms) b.resp
  unfolding prepare_from errors_from
  resp-prepare_from ctx i [] b = unfold add_errors in refl
  resp-prepare_from ctx i (m ∷ ms) b =
      let (o, v) = schema.validate (fill_in schema ctx m) in
      resp-prepare_from ctx (i + 1) ms (take_metric schema ctx i (o, v) b)
      ∙ ap (add_errors (errors_from ctx (i + 1) ms)) (resp-take_metric ctx i o v b)
      ∙ sym (add_errors-append (error_one i (o, v)) (errors_from ctx (i + 1) ms) b.resp)

  to_publish-prepare_from :
      (ctx : Context) (i : ℕ) (ms : List Metric) (b : Batch)
      → (prepare_from schema ctx i ms b).to_publish ≡ b.to_publish ++ valid_metrics ctx ms
  unfolding prepare_from valid_metrics
  to_publish-prepare_from ctx i [] b = sym (append-nil b.to_publish)
  to_publish-prepare_from ctx i (m ∷ ms) b =
      let (o, v) = schema.validate (fill_in schema ctx m) in
      to_publish-prepare_from ctx (i + 1) ms (take_metric schema ctx i (o, v) b)
      ∙ ap (λ xs. xs ++ valid_metrics ctx ms) (to_publish-take_metric ctx i o v b)
      ∙ append_assoc b.to_publish (valid_one ctx (o, v)) (valid_metrics ctx ms)

  -- Every metric of a request is either published or counted as invalid: the published ones are
  -- the valid ones in their order, and the two numbers add up to the number of metrics.
  pub prepare_ingest_total :
      (ctx : Context) (ms : List Metric)
      → ((prepare_ingest schema ctx ms).to_publish ≡ valid_metrics ctx ms)
        × (length (prepare_ingest schema ctx ms).to_publish
              + (prepare_ingest schema ctx ms).resp.invalid
            ≡ length ms)
  unfolding prepare_ingest
  prepare_ingest_total ctx ms =
      let b : Batch = record { to_publish = []; resp = new_metrics_response; discards = [] } in
      let p = to_publish-prepare_from ctx 0 ms b in
      let r = ap (λ (x : MetricsResponse). x.invalid) (resp-prepare_from ctx 0 ms b) in
      (
        p,
        omega (
          arith,
          ap (length {A = Metric}) p,
          r,
          invalid-add_errors (errors_from ctx 0 ms) new_metrics_response,
          sizes ctx 0 ms,
        ),
      )

  -- For every error text the response has the number of metrics that were rejected with it, and
  -- the positions of the first nine of them.
  pub prepare_ingest_reports :
      (ctx : Context) (ms : List Metric) (key : Bytes)
      → or_no_error (get (prepare_ingest schema ctx ms).resp.validation_errors key) ≡ record {
        count = length (positions key (errors_from ctx 0 ms));
        example_ids = take 9 (positions key (errors_from ctx 0 ms));
      }
  unfolding prepare_ingest
  prepare_ingest_reports ctx ms key =
      ap (λ (x : MetricsResponse). or_no_error (get x.validation_errors key))
        (resp-prepare_from ctx 0 ms
          (record { to_publish = []; resp = new_metrics_response; discards = [] }))
      ∙ report (errors_from ctx 0 ms) key

  valid_one-org :
      (ctx : Context) (o : Option Bytes) (m : Metric)
      → ctx.is_admin ≡ false
      → m.org_id ≡ ctx.id
      → All (λ (x : Metric). x.org_id ≡ ctx.id) (valid_one ctx (o, m))
  valid_one-org ctx none m user own = (rw user (schema.org_id-set_id m ∙ own), tt)
  valid_one-org ctx (some error) m user own = tt

  valid_metrics-org :
      (ctx : Context) (ms : List Metric)
      → ctx.is_admin ≡ false
      → All (λ (x : Metric). x.org_id ≡ ctx.id) (valid_metrics ctx ms)
  unfolding valid_metrics
  valid_metrics-org ctx [] user = tt
  valid_metrics-org ctx (m ∷ ms) user =
      let (o, v) = schema.validate (fill_in schema ctx m) in
      All-append _ (valid_one ctx (o, v)) (valid_metrics ctx ms)
        (valid_one-org ctx o v user
          (schema.org_id-validate (fill_in schema ctx m) ∙ unfold fill_in in ground (arith, user)))
        (valid_metrics-org ctx ms user)

  -- Whatever organisation the metrics of a request claim, those of a user who is no administrator
  -- are published for the user's own organisation.
  pub prepare_ingest_isolates :
      (ctx : Context) (ms : List Metric)
      → ctx.is_admin ≡ false
      → All (λ (m : Metric). m.org_id ≡ ctx.id) (prepare_ingest schema ctx ms).to_publish
  prepare_ingest_isolates ctx ms user =
      rw (prepare_ingest_total ctx ms).0 (valid_metrics-org ctx ms user)
