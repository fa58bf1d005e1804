-- ===== src/Examples/Gateway.antt =====
-- Requests to the whole gateway, and pushes of the metrics client, in the examples.
use tsdb_gw.Api.{
  pass, Request, AuthPlugin, auth_handler, generate_handlers, get_auth_creds, impersonate,
  require_publisher,
}
use tsdb_gw.Api.Chain.{Handled, Session, answered, refusal, run_handlers, session_user, unanswered}
use tsdb_gw.Api.Impersonation.{file_plugin}
use tsdb_gw.Api.Stats.{Served, new_request_stats, request_stats_all}
use tsdb_gw.Api.Stats.Laws.{count_requests, counter_at, requests_counted}
use tsdb_gw.Auth.{Users, is_publisher, user_at}
use tsdb_gw.Auth.File.{FileAuth, file_auth}
use tsdb_gw.Base.{
  Bool, List, Option, [], arith, false, get_elem?, none, refl, some, true, ℕ, ◌+◌, ◌↔◌, ◌∷◌, ◌≡◌,
}
use tsdb_gw.Base.Eq.{bytes_eq, bytes_eqb, int_eq, nat_eq}
use tsdb_gw.Base.Int.{pos}
use tsdb_gw.Base.Map.{get}
use tsdb_gw.Base.Number.{itoa}
use tsdb_gw.Base.Text.{Bytes, codes}
use tsdb_gw.Examples.Intake.{cpu}
use tsdb_gw.Gateway.{
  Route, any_verb, init_routes, metrics_endpoint, post_verb, prometheus_endpoint, reading, writing,
  RouteFlags,
}
use tsdb_gw.Gateway.Isolation.{IsOwn, is_stripped}
use tsdb_gw.Gateway.Routes.{IsAllowed, gateway_isolates, readers_refused}
use tsdb_gw.Gateway.Serve.{
  Answer, Inbound, Server, handle_metrics, serve_endpoint, serve_route, status_answer,
}
use tsdb_gw.Ingest.Formats.{bad_body}
use tsdb_gw.Ingest.Handler.{readable, finish_metrics}
use tsdb_gw.Ingest.Prepare.{Context}
use tsdb_gw.Metric.{Metric, plain_schema}
use tsdb_gw.MetricsClient.{Client, Post, client_push, push_post, push_request}
use tsdb_gw.MetricsClient.Laws.{IsReadable, arriving, arriving_request, push_reaches_gateway}
use tsdb_gw.Metrictank.{Url}
use tsdb_gw.Publish.{null_publisher}

abbrev flags : RouteFlags
flags = record {
  enforce_roles = true;
  timerange_limit = true;
  importer_url = true;
  rate_limits = false;
}

-- A user of organisation 10 who may publish, and one who may only view.
abbrev users : Users
users = record {
  cells =
      (0, record { id = pos 1; is_admin = true; role = codes "Admin" })
      ∷ (1, record { id = pos 10; is_admin = false; role = codes "Editor" })
      ∷ (2, record { id = pos 11; is_admin = false; role = codes "Viewer" })
      ∷ [];
  next = 3;
}

abbrev keys : FileAuth
keys = record { keys = (codes "abc", 1) ∷ (codes "def", 2) ∷ []; instance_map = [] }

abbrev plugin : AuthPlugin
plugin = file_plugin keys (codes "xyz")

abbrev request_with : Bytes → Request
request_with key = record {
  basic_auth = some (codes "api_key", key);
  authorization = [];
  dd_api_key = [];
  tsdb_org = [];
}

abbrev url : Url
url = record { scheme = codes "http"; host = codes "mt"; path = [] }

abbrev server : Server
server = record {
  schema = plain_schema;
  limiters = [];
  metrictank_url = url;
  graphite_url = url;
  importer_url = url;
  max_range = 3600;
  hop_by_hop = λ headers. codes "Connection" ∷ [];
}

abbrev inbound : Inbound
inbound = record {
  outgoing = record { url = url; headers = (codes "X-Org-Id", codes "12") ∷ [] };
  wildcard = [];
  content_type = codes "application/json";
  body = readable (codes "m");
  world = record {
    gone_reading = false;
    gone_limited = false;
    gone = false;
    waited = true;
    publisher = null_publisher;
  };
  unmarshal = λ b. some (cpu ∷ []);
  unsnappy = λ b. some b;
  init_from_msg = λ b. some b;
  decode = λ b. some (cpu ∷ []);
  to_int64 = λ n. pos n;
  series = bad_body;
  puts = bad_body;
  writes = bad_body;
  from_to = record { from = []; until = []; to = [] };
  parse_date = λ s n d. some d;
  now = 1000000;
  bind_status = λ errs. none;
}

abbrev metrics_route : Route
metrics_route = writing flags post_verb (codes "/metrics") false true (metrics_endpoint ∷ [])

metrics_route_found : get_elem? (init_routes flags) 4 ≡ some metrics_route
unfolding init_routes
metrics_route_found = refl

abbrev result : Handled Answer × Session
result =
    serve_route server inbound plugin (λ org. true) users (request_with (codes "abc")) metrics_route

abbrev answer_of : Handled Answer → Answer
answer_of unanswered = status_answer 0
answer_of (refusal status) = status_answer status
answer_of (answered a) = a

result_answered : result ≡ (answered (answer_of result.0), result.1)
unfolding serve_route auth_handler file_auth get_auth_creds bytes_eqb generate_handlers get user_at
    require_publisher is_publisher impersonate run_handlers serve_endpoint
result_answered = refl

gateway_isolates_example :
    IsAllowed flags server inbound plugin
      (λ org. true)
      users
      (request_with (codes "abc"))
      4
      metrics_route
      result.1
      (answer_of result.0)
    × IsOwn
        (is_stripped server inbound (session_user result.1).id)
        (session_user result.1)
        (answer_of result.0)
gateway_isolates_example =
    gateway_isolates flags server inbound plugin (λ org. true) users (request_with (codes "abc")) 4
      metrics_route (answer_of result.0) result.1 metrics_route_found result_answered

abbrev prometheus_route : Route
prometheus_route = reading flags any_verb (codes "/prometheus/*") (prometheus_endpoint ∷ [])

prometheus_route_found : get_elem? (init_routes flags) 2 ≡ some prometheus_route
unfolding init_routes
prometheus_route_found = refl

viewer_passes : auth_handler plugin users (request_with (codes "def")) ≡ (pass 2, users)
unfolding auth_handler file_auth get_auth_creds bytes_eqb get user_at impersonate
viewer_passes = refl

viewer_role : is_publisher (user_at users 2).role ≡ false
unfolding user_at get is_publisher bytes_eqb
viewer_role = refl

readers_refused_example :
    serve_route server inbound plugin
      (λ org. true)
      users
      (request_with (codes "def"))
      prometheus_route
    ≡ (refusal 401, record { users = users; user = some 2 })
readers_refused_example =
    readers_refused flags server inbound plugin (λ org. true) users (request_with (codes "def")) 2
      prometheus_route users 2 (omega arith) prometheus_route_found refl viewer_passes viewer_role

abbrev pusher : Client
pusher = record { url = codes "http://gw/metrics"; api_key = codes "abc" }

abbrev create_one : List Metric → Option Bytes
create_one ms = some (codes "m")

abbrev identity : Bytes → Bytes
identity b = b

abbrev any_url : Bytes → Bool
any_url u = true

one-IsReadable : IsReadable create_one identity inbound (cpu ∷ []) (codes "m")
one-IsReadable = record { created = refl; inflated_back = refl; header = (codes "m", refl, refl) }

push_reaches_gateway_example :
    let ctx : Context = record { id = pos 10; is_admin = false } in
    let respond : Post → Option ℕ =
      λ post. some (handle_metrics server (arriving inbound post) ctx).status in
    let reply = finish_metrics plain_schema [] inbound.world ctx (cpu ∷ []) in
    let post = push_post create_one identity any_url pusher cpu (codes "m") in
    (push_request create_one identity any_url pusher (cpu ∷ []) ≡ some post)
    × (get_auth_creds (arriving_request post) ≡ (itoa (pos 7), codes "abc"))
    × (handle_metrics server (arriving inbound post) ctx ≡ reply)
    × ((client_push create_one identity any_url pusher respond (cpu ∷ []) ≡ true)
        ↔ (reply.status ≡ 200))
push_reaches_gateway_example =
    push_reaches_gateway create_one identity any_url server inbound
      (record { id = pos 10; is_admin = false }) pusher cpu [] (codes "m") one-IsReadable refl

abbrev served : List Served
served =
    record { path = codes "/metrics"; status = 200; took = 3; size = 2 }
    ∷ record { path = codes "/metrics"; status = 500; took = 4; size = 9 }
    ∷ record { path = codes "/"; status = 200; took = 1; size = 4 }
    ∷ []

nothing_counted : counter_at new_request_stats (codes "metrics") 200 ≡ 0
unfolding get
nothing_counted = refl

requests_counted_example :
    counter_at (request_stats_all identity new_request_stats served) (codes "metrics") 200
    ≡ counter_at new_request_stats (codes "metrics") 200
      + count_requests identity (codes "metrics") 200 served
requests_counted_example =
    requests_counted identity new_request_stats served (codes "metrics") 200
      (omega (arith, nothing_counted))
