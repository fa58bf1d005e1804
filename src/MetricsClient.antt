-- ===== src/MetricsClient.antt =====
-- The client with which the persister sends metrics to the gateway
-- (metrics_client/metrics_client.go). The library calls answer by arguments: `create_msg` is
-- msg.CreateMsg, `snappy` what the snappy writer leaves, and a response is its status, `none` for an
-- error of the HTTP client.
pub mod Laws
use tsdb_gw.Base.{
  Bool, List, Option, [], false, if◌then◌else◌, leb, ltb, none, some, true, ℕ, ◌&&◌, ◌∷◌,
}
use tsdb_gw.Base.Number.{itoa, ◌>>=◌}
use tsdb_gw.Base.Text.{Bytes, codes}
use tsdb_gw.Metric.{Metric}

pub record Client : Type 0 where
  pub url : Bytes
  pub api_key : Bytes

-- The POST that is sent.
pub record Post : Type 0 where
  pub url : Bytes
  pub basic_auth : Option (Bytes × Bytes)
  pub content_type : Bytes
  pub body : Bytes

abbrev pub finish_push : Option ℕ → ℕ × Bool
finish_push none = (0, false)
finish_push (some status) =
    if leb 200 status && ltb status 300 then (status, true) else (status, false)

module _ (create_msg : List Metric → Option Bytes) (snappy : Bytes → Bytes)
    (is_valid_url : Bytes → Bool) where
  abbrev pub push_post : Client → Metric → Bytes → Post
  push_post c m data_bytes = record {
    url = c.url;
    basic_auth = some (itoa m.org_id, c.api_key);
    content_type = codes "rt-metric-binary-snappy";
    body = snappy data_bytes;
  }

  -- The request of push, `none` for the errors before it is sent.
  unfoldable pub push_request : Client → List Metric → Option Post
  push_request c [] = none
  push_request c (m ∷ ms) = do
    data_bytes ← create_msg (m ∷ ms)
    if is_valid_url c.url then some (push_post c m data_bytes) else none

  abbrev pub send_post : (Post → Option ℕ) → Option Post → ℕ × Bool
  send_post respond none = (0, false)
  send_post respond (some req) = finish_push (respond req)

  -- push: the status, and whether the error is nil.
  unfoldable pub push : Client → (Post → Option ℕ) → List Metric → ℕ × Bool
  unfolding push_request
  push c respond metrics = send_post respond (push_request c metrics)

  -- Push
  unfoldable pub client_push : Client → (Post → Option ℕ) → List Metric → Bool
  unfolding push
  client_push c respond metrics = (push c respond metrics).1

  -- PushIntake
  unfoldable pub push_intake : Client → (Post → Option ℕ) → Bytes → ℕ × Bool
  push_intake c respond payload =
      if is_valid_url c.url
      then finish_push (
          respond (record {
            url = c.url;
            basic_auth = none;
            content_type = codes "application/json";
            body = payload;
          }))
      else (0, false)

-- New: the client, `none` for an address that url.Parse refuses.
unfoldable pub new_client : (Bytes → Option Bytes) → Bytes → Bytes → Option Client
new_client parse_url addr api_key = do
  url ← parse_url addr
  some (record { url = url; api_key = api_key })
