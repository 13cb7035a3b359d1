-- ===== src/Client/Config.antt =====
-- The configuration behind `Client`, and `ClientBuilder` with its defaults (src/client.rs).
use smspool_sdk.Prelude.{ℕ, ◌*◌, ◌-◌, max, Bool, false, String, Option, none}
use smspool_sdk.Duration.{from_secs, saturating_add, saturating_mul, to_u32}
use smspool_sdk.Float.{Floats}
use smspool_sdk.Client.Retry.{RetryPolicy, default_retry}

-- How the inner `reqwest::Client` was configured.
pub record HttpClient : Type 0 where
  pub follows_redirects : Bool
  pub uses_proxy : Bool

-- `Inner`; `U` stands for `Url`. The semaphore, which `construct` (Build.antt) makes, holds
-- `max_concurrency` permits, and the QPS state is the admission's (Admission.antt).
pub record Client (F U : Type 0) : Type 0 where
  pub http : HttpClient
  pub api_key : String
  pub base_url : U
  pub request_timeout : ℕ
  pub concurrency_wait_timeout : ℕ
  pub max_response_bytes : ℕ
  pub max_concurrency : ℕ
  pub qps_interval : Option ℕ
  pub qps_wait_timeout : ℕ
  pub retry : RetryPolicy F
  pub tracing_enabled : Bool

-- `Client::max_in_flight_duration`.
unfoldable pub max_in_flight_duration : {F U : Type 0} → Client F U → ℕ
max_in_flight_duration inner =
    let per_attempt =
      saturating_add (saturating_add inner.qps_wait_timeout inner.concurrency_wait_timeout)
        inner.request_timeout in
    let attempts = max inner.retry.max_attempts 1 in
    let between = max inner.retry.max_delay inner.retry.max_retry_after in
    saturating_add (saturating_mul per_attempt (to_u32 attempts))
      (saturating_mul between (to_u32 (attempts - 1)))

pub record ClientBuilder (F : Type 0) : Type 0 where
  pub api_key : String
  pub base_url : String
  pub allow_insecure_http_for_mocking : Bool
  pub request_timeout : ℕ
  pub concurrency_wait_timeout : ℕ
  pub max_response_bytes : ℕ
  pub max_concurrency : ℕ
  pub max_requests_per_second : Option ℕ
  pub qps_wait_timeout : Option ℕ
  pub retry : RetryPolicy F
  pub tracing_enabled : Bool

abbrev pub default_base_url : String
default_base_url = "https://api.smspool.net/"

-- `ClientBuilder::new`.
abbrev pub client_builder : (R : Floats) → String → ClientBuilder (R.F)
client_builder R api_key = record {
  api_key = api_key;
  base_url = default_base_url;
  allow_insecure_http_for_mocking = false;
  request_timeout = from_secs 30;
  concurrency_wait_timeout = from_secs 5;
  max_response_bytes = 1024 * 1024;
  max_concurrency = 32;
  max_requests_per_second = none;
  qps_wait_timeout = none;
  retry = default_retry R;
  tracing_enabled = false;
}
