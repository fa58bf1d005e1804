-- ===== src/MetricsClient/Laws.antt =====
-- A push of the client at the gateway's metrics handler.
use tsdb_gw.Api.{Request, get_auth_creds}
use tsdb_gw.Base.{
  Bool, List, Option, [], arith, false, if◌then◌else◌, inl, inr, none, not, refl, some, true, ℕ,
  ◌↔◌, ◌∷◌, ◌≡◌, ◌≤◌, ◌⊎◌, ap, subst, sym, ◌∙◌,
}
use tsdb_gw.Base.Eq.{bytes_eqb}
use tsdb_gw.Base.Number.{itoa}
use tsdb_gw.Base.Text.{Bytes, codes}
use tsdb_gw.Gateway.Serve.{Inbound, Server, handle_metrics, metrics_by}
use tsdb_gw.Ingest.Handler.{
  Reply, World, after_limit, finish_metrics, format_of, metrics_binary, readable, refuse, reply_of,
  binary_snappy,
}
use tsdb_gw.Ingest.Prepare.{Batch, Context, prepare_ingest}
use tsdb_gw.Ingest.RateLimit.{Limiters, RateError, exceeds_burst, refused}
use tsdb_gw.Metric.{Metric, Schema}
use tsdb_gw.MetricsClient.{
  Client, Post, client_push, finish_push, push, push_post, push_request, send_post,
}
use tsdb_gw.Publish.{PublishResult, failed, nothing, published}

-- The libraries at both ends undo each other on these metrics.
pub record IsReadable (create_msg : List Metric → Option Bytes) (snappy : Bytes → Bytes)
    (inb : Inbound) (ms : List Metric) (msg : Bytes) : Type 0 where
  pub created : create_msg ms ≡ some msg
  pub inflated_back : inb.unsnappy (snappy msg) ≡ some msg
  pub header :
      (payload : Bytes) × (inb.init_from_msg msg ≡ some payload) × (inb.decode payload ≡ some ms)

-- The gateway's side of the post: the headers and the body that the client sent.
abbrev pub arriving : Inbound → Post → Inbound
arriving inb post = record inb { content_type = post.content_type; body = readable post.body }

abbrev pub arriving_request : Post → Request
arriving_request post = record {
  basic_auth = post.basic_auth;
  authorization = [];
  dd_api_key = [];
  tsdb_org = [];
}

status_of_refusal :
    (b : Bool) (x y : ℕ) → 400 ≤ x → 400 ≤ y → 400 ≤ (refuse (if b then x else y)).status
status_of_refusal true x y h k = h
status_of_refusal false x y h k = k

-- A reply is 200 or an error.
abbrev IsDefinite : Reply → Type 0
IsDefinite r = (r.status ≡ 200) ⊎ (400 ≤ r.status)

reply_of-IsDefinite : (b : Batch) (p : PublishResult) → IsDefinite (reply_of b p)
reply_of-IsDefinite b failed = inr (omega arith)
reply_of-IsDefinite b nothing = inl refl
reply_of-IsDefinite b (published counts) = inl refl

if-IsDefinite :
    (b : Bool) (r s : Reply) → IsDefinite r → IsDefinite s → IsDefinite (if b then r else s)
if-IsDefinite true r s h k = h
if-IsDefinite false r s h k = k

after_limit-IsDefinite :
    (w : World) (b : Batch) (o : Option RateError) → IsDefinite (after_limit w b o)
after_limit-IsDefinite w b none =
    if-IsDefinite w.gone _ _ (inr (omega arith)) (reply_of-IsDefinite b _)
after_limit-IsDefinite w b (some exceeds_burst) =
    if-IsDefinite (not w.gone_limited) _ _ (inr (omega arith))
      (if-IsDefinite w.gone _ _ (inr (omega arith)) (reply_of-IsDefinite b _))
after_limit-IsDefinite w b (some refused) =
    if-IsDefinite (not w.gone_limited) _ _ (inr (omega arith))
      (if-IsDefinite w.gone _ _ (inr (omega arith)) (reply_of-IsDefinite b _))

finish_metrics-IsDefinite :
    (schema : Schema) (limiters : Limiters) (w : World) (ctx : Context) (ms : List Metric)
    → IsDefinite (finish_metrics schema limiters w ctx ms)
unfolding finish_metrics
finish_metrics-IsDefinite schema limiters w ctx ms =
    after_limit-IsDefinite w (prepare_ingest schema ctx ms) _

snappy_format : format_of (codes "rt-metric-binary-snappy") ≡ binary_snappy
unfolding format_of bytes_eqb
snappy_format = refl

reads_binary :
    (schema : Schema) (limiters : Limiters) (w : World) (unsnappy init : Bytes → Option Bytes)
    (decode : Bytes → Option (List Metric)) (ctx : Context) (body msg payload : Bytes)
    (ms : List Metric)
    → unsnappy body ≡ some msg
    → init msg ≡ some payload
    → decode payload ≡ some ms
    → metrics_binary schema limiters w unsnappy init decode ctx true (readable body)
      ≡ finish_metrics schema limiters w ctx ms
unfolding metrics_binary
reads_binary schema limiters w unsnappy init decode ctx body msg payload ms e f g =
    rw (e, f, g) refl

definite_push :
    (r : Reply) → IsDefinite r → ((finish_push (some r.status)).1 ≡ true) ↔ (r.status ≡ 200)
definite_push r h = ground (arith, h)

module _ (create_msg : List Metric → Option Bytes) (snappy : Bytes → Bytes)
    (is_valid_url : Bytes → Bool) where
  request_of :
      (c : Client) (m : Metric) (ms : List Metric) (msg : Bytes)
      → create_msg (m ∷ ms) ≡ some msg
      → is_valid_url c.url ≡ true
      → push_request create_msg snappy is_valid_url c (m ∷ ms)
        ≡ some (push_post create_msg snappy is_valid_url c m msg)
  unfolding push_request
  request_of c m ms msg e v = rw (e, v) refl

  handled :
      (server : Server) (inb : Inbound) (ctx : Context) (c : Client) (m : Metric) (ms : List Metric)
      (msg : Bytes)
      → IsReadable create_msg snappy inb (m ∷ ms) msg
      → handle_metrics server (arriving inb (push_post create_msg snappy is_valid_url c m msg)) ctx
        ≡ finish_metrics server.schema server.limiters inb.world ctx (m ∷ ms)
  unfolding handle_metrics
  handled server inb ctx c m ms msg h =
      let (payload, e, f) = h.header in
      ap
        (λ x.
          metrics_by server (arriving inb (push_post create_msg snappy is_valid_url c m msg)) x ctx)
        snappy_format
      ∙ reads_binary server.schema server.limiters inb.world inb.unsnappy inb.init_from_msg
          inb.decode ctx (snappy msg) msg payload (m ∷ ms) h.inflated_back e f

  sent_by :
      (c : Client) (respond : Post → Option ℕ) (m : Metric) (ms : List Metric) (post : Post)
      → push_request create_msg snappy is_valid_url c (m ∷ ms) ≡ some post
      → client_push create_msg snappy is_valid_url c respond (m ∷ ms)
        ≡ (finish_push (respond post)).1
  unfolding client_push push
  sent_by c respond m ms post e = ap (λ o. (send_post create_msg snappy is_valid_url respond o).1) e

  -- A push of the metrics client whose encodings the gateway can undo arrives as it was meant:
  -- with the organisation of the first metric and the client's key as credentials, and with
  -- exactly the pushed metrics for finish_metrics; the push succeeds exactly if the reply is 200.
  pub push_reaches_gateway :
      (server : Server) (inb : Inbound) (ctx : Context) (c : Client) (m : Metric) (ms : List Metric)
      (msg : Bytes)
      → IsReadable create_msg snappy inb (m ∷ ms) msg
      → is_valid_url c.url ≡ true
      → let respond : Post → Option ℕ =
          λ post. some (handle_metrics server (arriving inb post) ctx).status in
        let reply = finish_metrics server.schema server.limiters inb.world ctx (m ∷ ms) in
        let post = push_post create_msg snappy is_valid_url c m msg in
        (push_request create_msg snappy is_valid_url c (m ∷ ms) ≡ some post)
        × (get_auth_creds (arriving_request post) ≡ (itoa m.org_id, c.api_key))
        × (handle_metrics server (arriving inb post) ctx ≡ reply)
        × ((client_push create_msg snappy is_valid_url c respond (m ∷ ms) ≡ true)
            ↔ (reply.status ≡ 200))
  unfolding get_auth_creds
  push_reaches_gateway server inb ctx c m ms msg h v =
      let e = request_of c m ms msg h.created v in
      let f = handled server inb ctx c m ms msg h in
      let post = push_post create_msg snappy is_valid_url c m msg in
      let reply = finish_metrics server.schema server.limiters inb.world ctx (m ∷ ms) in
      (
        e,
        refl,
        f,
        subst (λ b. (b ≡ true) ↔ (reply.status ≡ 200))
            (sym (
              sent_by c (λ p. some (handle_metrics server (arriving inb p) ctx).status) m ms post e
              ∙ ap (λ (r : Reply). (finish_push (some r.status)).1) f))
            (definite_push reply
              (finish_metrics-IsDefinite server.schema server.limiters inb.world ctx (m ∷ ms))),
      )
