-- ===== src/Gateway/Isolation.antt =====
-- On whose behalf the gateway acts.
use tsdb_gw.Auth.{User}
use tsdb_gw.Base.{
  All, Bool, Bool-cases, List, Option, [], arith, false, if◌then◌else◌, inl, inr, map, none, refl,
  some, subst, sym, true, ℕ, ◌∷◌, ◌≡◌, ◌⊎◌, ◌++◌,
}
use tsdb_gw.Base.Eq.{bytes_eq, int_eq, nat_eq}
use tsdb_gw.Base.Int.{ℤ}
use tsdb_gw.Base.Map.{get}
use tsdb_gw.Base.Number.{itoa}
use tsdb_gw.Base.Text.{Bytes, codes}
use tsdb_gw.Datadog.{Series, data_dog_series}
use tsdb_gw.Datadog.Checks.{series-org}
use tsdb_gw.Gateway.{
  Endpoint, bind_range, capture_body, data_dog_series_endpoint, graphite_endpoint,
  importer_endpoint, metrics_endpoint, metrictank_endpoint, open_tsdb_endpoint, prom_stats,
  prometheus_endpoint, prometheus_write_endpoint,
}
use tsdb_gw.Gateway.Serve.{
  Answer, Inbound, Server, bind_answer, capture, context_of, handle_metrics, metrics_by,
  serve_endpoint,
}
use tsdb_gw.Ingest.Formats.{
  Decoded, OpenTsdbMetric, TimeSeries, bad_body, decoded, no_body, open_tsdb_metric,
  open_tsdb_write, prometheus_mt_write,
}
use tsdb_gw.Ingest.Formats.Laws.{prometheus_isolates}
use tsdb_gw.Ingest.Handler.{
  no_body as no_metrics, unreadable, readable, Body, Format, binary, binary_snappy, decode_json,
  finish_metrics, format_of, inflated, json, metrics_binary, metrics_json, refuse, unknown,
  decode_message, read_message, with_decoded,
}
use tsdb_gw.Ingest.Handler.Laws.{finish_metrics-IsHonest}
use tsdb_gw.Ingest.Prepare.{Context, prepare_ingest}
use tsdb_gw.Ingest.Prepare.Laws.{prepare_ingest_isolates}
use tsdb_gw.Metric.{Metric}
use tsdb_gw.Metrictank.{
  Outgoing, importer_proxy, org_header, prometheus_proxy, org-graphite_proxy, contains,
  org-reverse_proxy, set_org, org-metrictank_proxy,
}

-- The metrics that the publisher was given are of the organisation.
abbrev pub PublishedFor : ℤ → Option (List Metric) → Type 0
PublishedFor org none = Unit
PublishedFor org (some ms) = All (λ (m : Metric). m.org_id ≡ org) ms

-- The request that was passed on names the organisation, or no organisation if the reverse proxy has
-- `stripped` the header.
abbrev pub ForwardedFor : Bool → ℤ → Option Outgoing → Type 0
ForwardedFor stripped org none = Unit
ForwardedFor stripped org (some req) =
    get req.headers org_header ≡ (if stripped then none else some (itoa org))

-- Whether the reverse proxy removes X-Org-Id from a request of the organisation.
abbrev pub is_stripped : Server → Inbound → ℤ → Bool
is_stripped server inb org =
    contains (server.hop_by_hop (set_org org inb.outgoing.headers)) org_header

pub record IsOwn (stripped : Bool) (u : User) (a : Answer) : Type 0 where
  pub published_for : (u.is_admin ≡ true) ⊎ PublishedFor u.id a.batch
  pub forwarded_for : ForwardedFor stripped u.id a.upstream

same_answer : (a b : Answer) → some a ≡ some b → a ≡ b
same_answer a b h = ground arith

module _ (server : Server) (inb : Inbound) where
  finish_metrics-PublishedFor :
      (ctx : Context) (ms : List Metric)
      → ctx.is_admin ≡ false
      → PublishedFor ctx.id
          (finish_metrics server.schema server.limiters inb.world ctx ms).given_batch
  finish_metrics-PublishedFor ctx ms user =
      go (finish_metrics server.schema server.limiters inb.world ctx ms).given_batch
        (finish_metrics-IsHonest server.schema server.limiters inb.world ctx ms).batch
    where
      go :
          (o : Option (List Metric))
          → (o ≡ none) ⊎ (o ≡ some (prepare_ingest server.schema ctx ms).to_publish)
          → PublishedFor ctx.id o
      go none h = tt
      go (some xs) (inl e) = cc e
      go (some xs) (inr e) =
          subst (PublishedFor ctx.id) (sym e) (prepare_ingest_isolates server.schema ctx ms user)

  decode_json-PublishedFor :
      (decode : Bytes → Option (List Metric)) (bytes : Bytes) (ctx : Context)
      → ctx.is_admin ≡ false
      → PublishedFor ctx.id
          (decode_json decode
            (finish_metrics server.schema server.limiters inb.world ctx)
            bytes).given_batch
  decode_json-PublishedFor decode bytes ctx user = go (decode bytes)
    where
      go :
          (o : Option (List Metric))
          → PublishedFor ctx.id
              (with_decoded
                (finish_metrics server.schema server.limiters inb.world ctx)
                o).given_batch
      go none = tt
      go (some ms) = finish_metrics-PublishedFor ctx ms user

  refused-PublishedFor :
      (b : Bool) (x y : ℕ) (org : ℤ)
      → PublishedFor org (if b then refuse x else refuse y).given_batch
  refused-PublishedFor true x y org = tt
  refused-PublishedFor false x y org = tt

  metrics_binary-PublishedFor :
      (compressed : Bool) (ctx : Context)
      → ctx.is_admin ≡ false
      → PublishedFor ctx.id
          (metrics_binary server.schema server.limiters inb.world inb.unsnappy inb.init_from_msg
            inb.decode ctx compressed inb.body).given_batch
  unfolding metrics_binary
  metrics_binary-PublishedFor compressed ctx user = go (inflated compressed inb.unsnappy inb.body)
    where
      read :
          (o : Option Bytes)
          → PublishedFor ctx.id
              (decode_message inb.decode
                (finish_metrics server.schema server.limiters inb.world ctx)
                o).given_batch
      read none = tt
      read (some msg) = decode_json-PublishedFor inb.decode msg ctx user

      go :
          (b : Body)
          → PublishedFor ctx.id
              (read_message inb.world inb.init_from_msg inb.decode
                (finish_metrics server.schema server.limiters inb.world ctx)
                b).given_batch
      go no_metrics = tt
      go unreadable = refused-PublishedFor inb.world.gone_reading 499 500 ctx.id
      go (readable bytes) = read (inb.init_from_msg bytes)

  metrics_json-PublishedFor :
      (b : Body) (ctx : Context)
      → ctx.is_admin ≡ false
      → PublishedFor ctx.id
          (metrics_json server.schema server.limiters inb.world inb.unmarshal ctx b).given_batch
  unfolding metrics_json
  metrics_json-PublishedFor no_metrics ctx user = tt
  metrics_json-PublishedFor unreadable ctx user =
      refused-PublishedFor inb.world.gone_reading 499 500 ctx.id
  metrics_json-PublishedFor (readable bytes) ctx user =
      decode_json-PublishedFor inb.unmarshal bytes ctx user

  handle_metrics-PublishedFor :
      (ctx : Context)
      → ctx.is_admin ≡ false
      → PublishedFor ctx.id (handle_metrics server inb ctx).given_batch
  unfolding handle_metrics
  handle_metrics-PublishedFor ctx user = go (format_of inb.content_type)
    where
      go : (f : Format) → PublishedFor ctx.id (metrics_by server inb f ctx).given_batch
      go binary = metrics_binary-PublishedFor false ctx user
      go binary_snappy = metrics_binary-PublishedFor true ctx user
      go json = metrics_json-PublishedFor inb.body ctx user
      go unknown = tt

  series-PublishedFor :
      (org : ℤ) (publisher : List Metric → Bool) (d : Decoded (List Series))
      → PublishedFor org (data_dog_series server.schema inb.to_int64 org publisher d).batch
  unfolding data_dog_series
  series-PublishedFor org publisher no_body = tt
  series-PublishedFor org publisher bad_body = tt
  series-PublishedFor org publisher (decoded tss) = series-org server.schema inb.to_int64 org tss

  puts-org :
      (org : ℤ) (req : List OpenTsdbMetric)
      → All (λ (m : Metric). m.org_id ≡ org) (map (open_tsdb_metric server.schema org) req)
  unfolding open_tsdb_metric
  puts-org org [] = tt
  puts-org org (ts ∷ req) = (server.schema.org_id-set_id _, puts-org org req)

  puts-PublishedFor :
      (org : ℤ) (publisher : List Metric → Bool) (d : Decoded (List OpenTsdbMetric))
      → PublishedFor org (open_tsdb_write server.schema org publisher d).batch
  unfolding open_tsdb_write
  puts-PublishedFor org publisher no_body = tt
  puts-PublishedFor org publisher bad_body = tt
  puts-PublishedFor org publisher (decoded req) = puts-org org req

  writes-PublishedFor :
      (org : ℤ) (publisher : List Metric → Bool) (d : Decoded (List TimeSeries))
      → PublishedFor org (prometheus_mt_write server.schema org publisher d).batch
  writes-PublishedFor org publisher d =
      go (prometheus_mt_write server.schema org publisher d).batch
        (prometheus_isolates server.schema org publisher d)
    where
      go :
          (o : Option (List Metric))
          → ((ms : List Metric) → o ≡ some ms → All (λ (m : Metric). m.org_id ≡ org) ms)
          → PublishedFor org o
      go none h = tt
      go (some ms) h = h ms refl

  -- What a handler of any route publishes or passes on is for the organisation of its user.
  pub serve_endpoint-IsOwn :
      (u : User) (e : Endpoint) (a : Answer)
      → serve_endpoint server inb u e ≡ some a
      → IsOwn (is_stripped server inb u.id) u a
  unfolding serve_endpoint
  serve_endpoint-IsOwn u (metrictank_endpoint path) a e =
      subst (IsOwn (is_stripped server inb u.id) u) (same_answer _ a e) (record {
        published_for = inr tt;
        forwarded_for =
            org-metrictank_proxy server.hop_by_hop server.metrictank_url u.id path inb.outgoing;
      })
  serve_endpoint-IsOwn u prometheus_endpoint a e =
      subst (IsOwn (is_stripped server inb u.id) u) (same_answer _ a e) (record {
        published_for = inr tt;
        forwarded_for =
            unfold prometheus_proxy in
            org-metrictank_proxy server.hop_by_hop server.metrictank_url u.id
              (codes "/prometheus/" ++ inb.wildcard) inb.outgoing;
      })
  serve_endpoint-IsOwn u capture_body a e = go inb.body e
    where
      go : (b : Body) → capture server inb b ≡ some a → IsOwn (is_stripped server inb u.id) u a
      go no_metrics f = cc f
      go unreadable f =
          subst (IsOwn (is_stripped server inb u.id) u) (same_answer _ a f)
            (record { published_for = inr tt; forwarded_for = tt })
      go (readable bytes) f = cc f
  serve_endpoint-IsOwn u bind_range a e = go _ e
    where
      go : (o : Option ℕ) → bind_answer o ≡ some a → IsOwn (is_stripped server inb u.id) u a
      go none f = cc f
      go (some status) f =
          subst (IsOwn (is_stripped server inb u.id) u) (same_answer _ a f)
            (record { published_for = inr tt; forwarded_for = tt })
  serve_endpoint-IsOwn u (prom_stats handler) a e = cc e
  serve_endpoint-IsOwn u graphite_endpoint a e =
      subst (IsOwn (is_stripped server inb u.id) u) (same_answer _ a e) (record {
        published_for = inr tt;
        forwarded_for =
            org-graphite_proxy server.hop_by_hop server.graphite_url u.id inb.wildcard inb.outgoing;
      })
  serve_endpoint-IsOwn u metrics_endpoint a e =
      subst (IsOwn (is_stripped server inb u.id) u) (same_answer _ a e) (record {
        published_for = elim (Bool-cases u.is_admin) [
          | inl admin ↦ inl admin
          | inr user ↦ inr (handle_metrics-PublishedFor (context_of server inb u) user)
        ];
        forwarded_for = tt;
      })
  serve_endpoint-IsOwn u data_dog_series_endpoint a e =
      subst (IsOwn (is_stripped server inb u.id) u) (same_answer _ a e)
        (record { published_for = inr (series-PublishedFor u.id _ inb.series); forwarded_for = tt })
  serve_endpoint-IsOwn u open_tsdb_endpoint a e =
      subst (IsOwn (is_stripped server inb u.id) u) (same_answer _ a e)
        (record { published_for = inr (puts-PublishedFor u.id _ inb.puts); forwarded_for = tt })
  serve_endpoint-IsOwn u prometheus_write_endpoint a e =
      subst (IsOwn (is_stripped server inb u.id) u) (same_answer _ a e)
        (record { published_for = inr (writes-PublishedFor u.id _ inb.writes); forwarded_for = tt })
  serve_endpoint-IsOwn u importer_endpoint a e =
      subst (IsOwn (is_stripped server inb u.id) u) (same_answer _ a e) (record {
        published_for = inr tt;
        forwarded_for =
            unfold importer_proxy in
            org-reverse_proxy server.hop_by_hop server.importer_url u.id inb.outgoing.headers;
      })
