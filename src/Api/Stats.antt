-- ===== src/Api/Stats.antt =====
-- The statistics of requests (api/middleware.go): requestStats, RequestStats, pathSlug, the tags of
-- PromStats and of Tracer. A counter is its value, a histogram or meter the values it was given.
pub mod Laws
use tsdb_gw.Base.{
  Bool, List, Option, [], arith, false, if◌then◌else◌, leb, length, ltb, nat_eqb, none, refl, some,
  ℕ, ◌%◌, ◌&&◌, ◌++◌, ◌+◌, ◌<◌, ◌^◌, ◌∙◌, ◌∷◌, ◌≡◌, ◌≢◌, Bool-cases, ap, inl, inr, nat_eqb_iff,
}
use tsdb_gw.Base.Eq.{bytes_eq, int_eq, nat_eq, ◌==◌, bytes_eqb_iff}
use tsdb_gw.Base.Int.{pos}
use tsdb_gw.Base.Map.{Map, get, put, get-put}
use tsdb_gw.Base.Number.{itoa}
use tsdb_gw.Base.Text.{Bytes, Lacks, codes, is_empty}
use tsdb_gw.Publish.{or_zero}

-- strings.Replace(s, from, to, -1) for single bytes
unfoldable pub replace_byte : Bytes → ℕ → ℕ → Bytes
replace_byte [] old new = []
replace_byte (c ∷ s) old new =
    let rest = replace_byte s old new in if nat_eqb c old then new ∷ rest else c ∷ rest

-- strings.TrimPrefix(s, "/")
abbrev pub trim_slash : Bytes → Bytes
trim_slash [] = []
trim_slash (c ∷ s) = if nat_eqb c b'/' then s else c ∷ s

abbrev pub or_root : Bytes → Bytes
or_root [] = codes "root"
or_root (c ∷ s) = c ∷ s

-- pathSlug; `clean` is path.Clean.
unfoldable pub path_slug : (Bytes → Bytes) → Bytes → Bytes
unfolding replace_byte
path_slug clean p = replace_byte (replace_byte (or_root (trim_slash (clean p))) b'/' b'_') b'.' b'_'

pub record RequestStats : Type 0 where
  pub response_counts : Map Bytes (Map ℕ ℕ)
  pub latency_histograms : Map Bytes (List ℕ)
  pub size_meters : Map Bytes (List ℕ)

abbrev pub new_request_stats : RequestStats
new_request_stats = record { response_counts = []; latency_histograms = []; size_meters = [] }

abbrev pub or_empty {ℓ} : {A : Type ℓ} → Option (List A) → List A
or_empty none = []
or_empty (some xs) = xs

-- PathStatusCount; the counter is a uint32.
unfoldable pub path_status_count : RequestStats → Bytes → ℕ → RequestStats
path_status_count r path status =
    let p = or_empty (get r.response_counts path) in
    let c = or_zero (get p status) in
    record r { response_counts = put r.response_counts path (put p status ((c + 1) % 2 ^ 32)) }

-- PathLatency
unfoldable pub path_latency : RequestStats → Bytes → ℕ → RequestStats
path_latency r path dur =
    let p = or_empty (get r.latency_histograms path) in
    record r { latency_histograms = put r.latency_histograms path (p ++ dur ∷ []) }

-- PathSize
unfoldable pub path_size : RequestStats → Bytes → ℕ → RequestStats
path_size r path size =
    let p = or_empty (get r.size_meters path) in
    record r { size_meters = put r.size_meters path (p ++ size ∷ []) }

-- A request that was answered: its path, the status, the time it took and the size of the response.
pub record Served : Type 0 where
  pub path : Bytes
  pub status : ℕ
  pub took : ℕ
  pub size : ℕ

-- What the handler of RequestStats does when the others have returned.
unfoldable pub request_stats : (Bytes → Bytes) → RequestStats → Served → RequestStats
unfolding path_slug path_status_count path_latency path_size
request_stats clean r s =
    let path = path_slug clean s.path in
    let counted = path_latency (path_status_count r path s.status) path s.took in
    if ltb s.status 300 then path_size counted path s.size else counted

unfoldable pub request_stats_all : (Bytes → Bytes) → RequestStats → List Served → RequestStats
unfolding request_stats
request_stats_all clean r [] = r
request_stats_all clean r (s ∷ ss) = request_stats_all clean (request_stats clean r s) ss

-- PromStats: the labels of the histogram.
unfoldable pub prom_labels : Bytes → Bytes → ℕ → List Bytes
prom_labels handler method status = method ∷ handler ∷ itoa (pos status) ∷ []

-- TracingResponseWriter: the error body after the calls of Write, under the status at each call.
unfoldable pub error_body : Bytes → List (ℕ × Bytes) → Bytes
error_body err_body [] = err_body
error_body err_body ((status, b) ∷ writes) =
    error_body (if leb 400 status then b else err_body) writes

-- The tags that Tracer sets once the request is answered.
pub record SpanTags : Type 0 where
  pub http_status_code : ℕ
  pub http_size : Option ℕ
  pub logged_error : Option Bytes
  pub error : Bool

-- Tracer after c.Next(); the status is converted to a uint16.
unfoldable pub span_tags : ℕ → ℕ → Bytes → SpanTags
span_tags status size err_body = record {
  http_status_code = status % 2 ^ 16;
  http_size = if leb 200 status && ltb status 300 then some size else none;
  logged_error = if leb 400 status then some err_body else none;
  error = leb 500 status;
}
