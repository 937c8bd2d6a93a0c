-- ===== src/Beacon/Requests.antt =====
-- internal/beacon/client.go: the client from its settings, and its GET and POST requests over
-- doRequest. JSON and the transport of a request with its body are given.
pub mod Chunked
use pauli.Common.{ℕ, Option, none, some}
use pauli.Common.Int.{ℤ, pos, negsuc}
use pauli.Text.{Text, text}
use pauli.Exec.{Result, ok, err, wrap}
use pauli.Config.{Config, timeout}
use pauli.Beacon.{Fetch}
use pauli.Beacon.Transport.{Transport, do_request}

-- The settings of http.Transport, http.Client and rate.Limiter that the client is made with.
pub record Client (Float : Type 0) : Type 0 where
  pub base_url : Text
  pub api_key : Text
  pub max_idle_conns : ℤ
  pub max_idle_conns_per_host : ℤ
  pub request_timeout : ℤ
  pub requests_per_second : Float
  pub burst : ℤ
  pub max_retries : ℤ

unfoldable pub new_client : {Float : Type 0} → Config Float → Client Float
new_client cfg = record {
  base_url = cfg.beacon_node_url;
  api_key = cfg.beacon_api_key;
  max_idle_conns = cfg.http.max_idle_conns;
  max_idle_conns_per_host = cfg.http.max_idle_conns;
  request_timeout = timeout cfg.http;
  requests_per_second = cfg.rate_limit.requests_per_second;
  burst = cfg.rate_limit.burst;
  max_retries = cfg.http.max_retries;
}

-- The transport of a request with this JSON body, if it has one.
module _ (t : Option Text → Transport) {A : Type 0} (decode : Text → Result A) where
  unfoldable pub get : ℕ → Text → Fetch A
  get max_retries path = do_request decode path (t none) max_retries

  abbrev with_json : ℕ → Text → Result Text → Fetch A
  with_json max_retries path (ok json) = do_request decode path (t (some json)) max_retries
  with_json max_retries path (err e) = λ n. (err (wrap (text "failed to encode request body") e), n)

  -- json.Marshal of the body is given.
  unfoldable pub post : {B : Type 0} → ℕ → (B → Result Text) → Text → B → Fetch A
  post max_retries encode path body = with_json max_retries path (encode body)
