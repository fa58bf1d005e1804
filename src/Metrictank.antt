-- ===== src/Metrictank.antt =====
-- The reverse proxies to metrictank (query/metrictank/metrictank.go and prometheus.go), to Graphite
-- (query/graphite/graphite.go) and to the bulk importer (ingest/mt_bulk_importer.go): what the
-- upstream server receives. A header is known by its first value; `Del` and `Add` leave one.
use tsdb_gw.Base.{
  refl, some, ◌++◌, ◌∙◌, ◌≡◌, Bool, List, [], arith, false, if◌then◌else◌, none, ◌||◌, ◌∷◌,
}
use tsdb_gw.Base.Eq.{beq_refl, bytes_eq, int_eq, nat_eq, ◌==◌}
use tsdb_gw.Base.Int.{ℤ}
use tsdb_gw.Base.Map.{Map, delete, get, get-put, put, get-delete}
use tsdb_gw.Base.Number.{itoa}
use tsdb_gw.Base.Text.{Bytes, codes}
use tsdb_gw.Graphite.{join_url_fragments, proxy}

-- The parts of a URL that the directors set.
pub record Url : Type 0 where
  pub scheme : Bytes
  pub host : Bytes
  pub path : Bytes

-- A request that is passed on.
pub record Outgoing : Type 0 where
  pub url : Url
  pub headers : Map Bytes Bytes

abbrev pub org_header : Bytes
org_header = codes "X-Org-Id"

unfoldable pub set_org : ℤ → Map Bytes Bytes → Map Bytes Bytes
set_org org_id headers = put (delete headers org_header) org_header (itoa org_id)

abbrev pub without_all : Map Bytes Bytes → List Bytes → Map Bytes Bytes
without_all headers [] = headers
without_all headers (name ∷ names) = without_all (delete headers name) names

-- What httputil.ReverseProxy sends after the director: `hop_by_hop` are the names of the headers that
-- it removes from those that the director has left, among them all that the client's Connection
-- header names. The headers that it adds are left out.
unfoldable pub reverse_proxy : (Map Bytes Bytes → List Bytes) → Outgoing → Outgoing
reverse_proxy hop_by_hop req = record req {
  headers = without_all req.headers (hop_by_hop req.headers);
}

-- Proxy of package metrictank, for `target` = MetrictankUrl: what the upstream server receives.
unfoldable pub metrictank_proxy :
    (Map Bytes Bytes → List Bytes) → Url → ℤ → Bytes → Outgoing → Outgoing
unfolding set_org join_url_fragments reverse_proxy
metrictank_proxy hop_by_hop target org_id path req = reverse_proxy hop_by_hop (record {
  url = record target { path = join_url_fragments target.path path };
  headers = set_org org_id req.headers;
})

-- PrometheusProxy
unfoldable pub prometheus_proxy :
    (Map Bytes Bytes → List Bytes) → Url → ℤ → Bytes → Outgoing → Outgoing
unfolding metrictank_proxy
prometheus_proxy hop_by_hop target org_id proxy_path req =
    metrictank_proxy hop_by_hop target org_id (codes "/prometheus/" ++ proxy_path) req

-- Proxy of the bulk importer
unfoldable pub importer_proxy : (Map Bytes Bytes → List Bytes) → Url → ℤ → Outgoing → Outgoing
unfolding set_org reverse_proxy
importer_proxy hop_by_hop target org_id req =
    reverse_proxy hop_by_hop (record { url = target; headers = set_org org_id req.headers })

-- Proxy of package graphite, with the director that its Init installs
unfoldable pub graphite_proxy :
    (Map Bytes Bytes → List Bytes) → Url → ℤ → Bytes → Outgoing → Outgoing
unfolding proxy reverse_proxy
graphite_proxy hop_by_hop target org_id proxy_path req =
    let (headers, path) = proxy target.path org_id proxy_path req.headers in
    reverse_proxy hop_by_hop (record { url = record target { path = path }; headers = headers })

pub contains : List Bytes → Bytes → Bool
contains [] name = false
contains (n ∷ names) name = n == name || contains names name

get-without_all :
    (headers : Map Bytes Bytes) (names : List Bytes) (name : Bytes)
    → get (without_all headers names) name
      ≡ (if contains names name then none else get headers name)
unfolding contains
get-without_all headers [] name = refl
get-without_all headers (n ∷ names) name =
    get-without_all (delete headers n) names name ∙ ground (arith, get-delete headers n name)

get-set_org :
    (org_id : ℤ) (headers : Map Bytes Bytes)
    → get (set_org org_id headers) org_header ≡ some (itoa org_id)
unfolding set_org
get-set_org org_id headers =
    get-put (delete headers org_header) org_header org_header (itoa org_id)
    ∙ rw (beq_refl org_header) refl

-- A request whose director set the header.
pub org-reverse_proxy :
    (hop_by_hop : Map Bytes Bytes → List Bytes) (url : Url) (org_id : ℤ) (headers : Map Bytes Bytes)
    → get
        (reverse_proxy hop_by_hop (record { url = url; headers = set_org org_id headers })).headers
        org_header
      ≡ (if contains (hop_by_hop (set_org org_id headers)) org_header
          then none
          else some (itoa org_id))
unfolding reverse_proxy
org-reverse_proxy hop_by_hop url org_id headers =
    get-without_all (set_org org_id headers) (hop_by_hop (set_org org_id headers)) org_header
    ∙ rw (get-set_org org_id headers) refl

pub org-graphite_proxy :
    (hop_by_hop : Map Bytes Bytes → List Bytes) (target : Url) (org_id : ℤ) (proxy_path : Bytes)
    (req : Outgoing)
    → get (graphite_proxy hop_by_hop target org_id proxy_path req).headers org_header ≡ (
        if contains (hop_by_hop (set_org org_id req.headers)) org_header
        then none
        else some (itoa org_id))
unfolding graphite_proxy proxy set_org
org-graphite_proxy hop_by_hop target org_id proxy_path req =
    org-reverse_proxy hop_by_hop
      (record target { path = join_url_fragments target.path proxy_path }) org_id req.headers

pub org-metrictank_proxy :
    (hop_by_hop : Map Bytes Bytes → List Bytes) (target : Url) (org_id : ℤ) (path : Bytes)
    (req : Outgoing)
    → get (metrictank_proxy hop_by_hop target org_id path req).headers org_header ≡ (
        if contains (hop_by_hop (set_org org_id req.headers)) org_header
        then none
        else some (itoa org_id))
unfolding metrictank_proxy
org-metrictank_proxy hop_by_hop target org_id path req =
    org-reverse_proxy hop_by_hop (record target { path = join_url_fragments target.path path })
      org_id req.headers
