-- ===== src/Gateway/Routes.antt =====
-- What holds of every route of the gateway.
use tsdb_gw.Api.{pass, AuthPlugin, Request, auth_handler, generate_handlers, given_handler}
use tsdb_gw.Api.Chain.{Session, answered, get_context, refusal, run_handlers, session_user}
use tsdb_gw.Api.Chain.Generated.{generate_handlers-IsAuthorized, generated_refuses, login_of}
use tsdb_gw.Api.Chain.Laws.{IsAuthorized}
use tsdb_gw.Auth.{Users, is_publisher, user_at}
use tsdb_gw.Base.{
  All, Bool, List, [], ap, arith, false, get_elem?, if◌then◌else◌, map, refl, some, subst, suc, sym,
  true, zero, ℕ, ◌∙◌, ◌∷◌, ◌≡◌, ◌<◌,
}
use tsdb_gw.Base.Eq.{bytes_eq, int_eq, nat_eq, bytes_eqb}
use tsdb_gw.Base.Int.{ℤ}
use tsdb_gw.Base.Text.{Bytes, codes}
use tsdb_gw.Gateway.{
  Endpoint, RouteFlags, Route, Verb, generated, importer_endpoint, init_routes, post_verb, reading,
  writing, graphite_handlers, metrictank_endpoint, prometheus_endpoint, data_dog_series_endpoint,
  metrics_endpoint, open_tsdb_endpoint, prometheus_write_endpoint,
}
use tsdb_gw.Gateway.Isolation.{IsOwn, serve_endpoint-IsOwn, is_stripped}
use tsdb_gw.Gateway.Serve.{Answer, Inbound, Server, serve_endpoint, serve_route}
use tsdb_gw.Ingest.RateLimit.{is_rate_budget_available}

-- The handlers of the route come from generate_handlers.
pub record IsGenerated (flags : RouteFlags) (route : Route) : Type 0 where
  pub kind : Bytes
  pub datadog : Bool
  pub rate_limit : Bool
  pub endpoints : List Endpoint
  pub shape : route.handlers ≡ generated flags kind datadog rate_limit endpoints

module _ (flags : RouteFlags) where
  reading-IsGenerated :
      (verb : Verb) (text : Bytes) (es : List Endpoint)
      → IsGenerated flags (reading flags verb text es)
  reading-IsGenerated verb text es = record {
    kind = codes "read";
    datadog = false;
    rate_limit = false;
    endpoints = es;
    shape = refl;
  }

  writing-IsGenerated :
      (verb : Verb) (text : Bytes) (datadog rate_limit : Bool) (es : List Endpoint)
      → IsGenerated flags (writing flags verb text datadog rate_limit es)
  writing-IsGenerated verb text datadog rate_limit es = record {
    kind = codes "write";
    datadog = datadog;
    rate_limit = rate_limit;
    endpoints = es;
    shape = refl;
  }

  importer-IsGenerated :
      (b : Bool)
      → All (IsGenerated flags) (
          if b
          then writing flags post_verb
              (codes "/metrics/import")
              false
              false
              (importer_endpoint ∷ [])
            ∷ []
          else [])
  importer-IsGenerated true = (writing-IsGenerated _ _ _ _ (importer_endpoint ∷ []), tt)
  importer-IsGenerated false = tt

  init_routes-IsGenerated : All (IsGenerated flags) (init_routes flags)
  unfolding init_routes
  init_routes-IsGenerated = (
    reading-IsGenerated _ _ (metrictank_endpoint (codes "/metrics/index.json") ∷ []),
    (
      reading-IsGenerated _ _ (metrictank_endpoint (codes "/metrics/index.json") ∷ []),
      (
        reading-IsGenerated _ _ (prometheus_endpoint ∷ []),
        (
          reading-IsGenerated _ _ (graphite_handlers flags flags.timerange_limit),
          (
            writing-IsGenerated _ _ _ _ (metrics_endpoint ∷ []),
            (
              writing-IsGenerated _ _ _ _ (data_dog_series_endpoint ∷ []),
              (
                writing-IsGenerated _ _ _ _ (open_tsdb_endpoint ∷ []),
                (
                  writing-IsGenerated _ _ _ _ (prometheus_write_endpoint ∷ []),
                  (
                    writing-IsGenerated _ _ _ _
                        (metrictank_endpoint (codes "/metrics/delete") ∷ []),
                    (
                      writing-IsGenerated _ _ _ _
                          (metrictank_endpoint (codes "/tags/delSeries") ∷ []),
                      importer-IsGenerated flags.importer_url,
                    ),
                  ),
                ),
              ),
            ),
          ),
        ),
      ),
    ),
  )

  All-get_elem? :
      (routes : List Route) (n : ℕ) (route : Route)
      → All (IsGenerated flags) routes
      → get_elem? routes n ≡ some route
      → IsGenerated flags route
  All-get_elem? [] n route h e = cc e
  All-get_elem? (r ∷ routes) zero route (h, hs) e =
      subst (IsGenerated flags) (same_route r route e) h
    where
      same_route : (a b : Route) → some a ≡ some b → a ≡ b
      same_route a b f = ground arith
  All-get_elem? (r ∷ routes) (suc n) route (h, hs) e = All-get_elem? routes n route hs e

  module _ (server : Server) (inb : Inbound) (plugin : AuthPlugin) (allow : ℤ → Bool) (h : Users)
      (req : Request) (n : ℕ) (route : Route) where
    abbrev pub available : ℤ → Bool
    available org = is_rate_budget_available server.limiters org (allow org)

    abbrev pub IsAllowed : Session → Answer → Type 0
    IsAllowed s a =
        IsAuthorized plugin available (serve_endpoint server inb) req flags.enforce_roles h s a

    -- On every route of the gateway, whatever the request: a handler behind the middleware answers
    -- only if the auth plugin has accepted a key of the request that is not empty, and, when roles
    -- are enforced, only a user with the role of a publisher; the metrics that are published are
    -- of that user's own organisation unless he is an administrator, and a request that is passed
    -- on to metrictank, Graphite or the importer names his organisation in X-Org-Id, whatever the
    -- client sent there, or has no such header if it is one of those that the reverse proxy
    -- removes; it never names another organisation.
    pub gateway_isolates :
        (a : Answer) (s : Session)
        → get_elem? (init_routes flags) n ≡ some route
        → serve_route server inb plugin allow h req route ≡ (answered a, s)
        → IsAllowed s a × IsOwn (is_stripped server inb (session_user s).id) (session_user s) a
    unfolding serve_route
    gateway_isolates a s found e =
        let g = All-get_elem? (init_routes flags) n route init_routes-IsGenerated found in
        let i : IsAllowed s a =
          generate_handlers-IsAuthorized plugin available (serve_endpoint server inb) req g.kind
            flags.enforce_roles g.datadog g.rate_limit flags.rate_limits g.endpoints h s a
            (ap (run_handlers plugin available (serve_endpoint server inb) req (get_context h))
                (sym g.shape)
              ∙ e) in
        (i, serve_endpoint-IsOwn server inb (session_user s) i.endpoint a i.answer)

    same_reading :
        (verb : Verb) (text : Bytes) (es : List Endpoint)
        → some (reading flags verb text es) ≡ some route
        → (fs : List Endpoint) × (route.handlers ≡ generated flags (codes "read") false false fs)
    same_reading verb text es e = (es, ap (λ (r : Route). r.handlers) (sym (same_route _ _ e)))
      where
        same_route : (a b : Route) → some a ≡ some b → a ≡ b
        same_route a b f = ground arith

    -- The first four routes are those for reading.
    reading_at :
        (i : ℕ)
        → i < 4
        → get_elem? (init_routes flags) i ≡ some route
        → (fs : List Endpoint) × (route.handlers ≡ generated flags (codes "read") false false fs)
    unfolding init_routes
    reading_at zero l e =
        same_reading _ _ (metrictank_endpoint (codes "/metrics/index.json") ∷ []) e
    reading_at (suc zero) l e =
        same_reading _ _ (metrictank_endpoint (codes "/metrics/index.json") ∷ []) e
    reading_at (suc (suc zero)) l e = same_reading _ _ (prometheus_endpoint ∷ []) e
    reading_at (suc (suc (suc zero))) l e =
        same_reading _ _ (graphite_handlers flags flags.timerange_limit) e
    reading_at (suc (suc (suc (suc i)))) l e = absurd (omega arith)

    -- When roles are enforced, a user who is authenticated but lacks the role of a publisher, a
    -- viewer for one, is refused with 401 by the four routes for reading.
    pub readers_refused :
        (h' : Users) (p : ℕ)
        → n < 4
        → get_elem? (init_routes flags) n ≡ some route
        → flags.enforce_roles ≡ true
        → auth_handler plugin h req ≡ (pass p, h')
        → is_publisher (user_at h' p).role ≡ false
        → serve_route server inb plugin allow h req route
          ≡ (refusal 401, record { users = h'; user = some p })
    unfolding serve_route
    readers_refused h' p l found enforced login role =
        let (fs, shape) = reading_at n l found in
        ap (run_handlers plugin available (serve_endpoint server inb) req (get_context h)) shape
        ∙ ap
            (λ b. run_handlers plugin available (serve_endpoint server inb) req (get_context h) (
              generate_handlers (codes "read") b false false flags.rate_limits
                (map given_handler fs)))
            enforced
        ∙ generated_refuses plugin available (serve_endpoint server inb) req (codes "read") false
            false flags.rate_limits fs h h' p (read_login login) role
      where
        read_login :
            auth_handler plugin h req ≡ (pass p, h')
            → login_of plugin available (serve_endpoint server inb) req (codes "read") false h
              ≡ (pass p, h')
        read_login e = unfold bytes_eqb in e
