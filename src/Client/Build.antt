-- ===== src/Client/Build.antt =====
-- `ClientBuilder::build` (src/client.rs): the checks in the source's order, then the configuration.
use smspool_sdk.Prelude.{
  ℕ, Bool, false, not, ◌||◌, ◌&&◌, String, Option, none, some, Result, ok, err, ◌>>=◌, ◌>>◌,
  reject_if, ltb, ◌==◌, is_some, unwrap_or, is_blank, is_empty, same_text, if◌then◌else◌,
}
use mathlib.Core.Option
use smspool_sdk.Duration.{is_zero}
use smspool_sdk.Float.{Floats}
use smspool_sdk.Url.{Urls, has_loopback_ip_host, normalized_path}
use smspool_sdk.Error.{Error, invalid_request}
use smspool_sdk.Client.Retry.{validate_retry}
use smspool_sdk.Client.Config.{Client, ClientBuilder}

-- The test on `max_requests_per_second`.
unfoldable pub check_rate : {V : Type 0} → Option ℕ → Result (Unit {0}) (Error V)
check_rate none = ok tt
check_rate (some value) = do
  reject_if (value == 0) (invalid_request "max_requests_per_second" "must be greater than zero")
  reject_if (ltb 1_000_000_000 value)
      (invalid_request "max_requests_per_second" "must not exceed one billion")

module _ (R : Floats) where
  open R use {F}

  -- The checks on the builder's own fields, up to the retry policy.
  unfoldable pub check_limits : {V : Type 0} → ClientBuilder F → Result (Unit {0}) (Error V)
  check_limits b = do
    reject_if (is_blank b.api_key) (invalid_request "api_key" "must not be empty")
    reject_if (is_zero b.request_timeout)
        (invalid_request "request_timeout" "must be greater than zero")
    reject_if (is_zero b.concurrency_wait_timeout)
        (invalid_request "concurrency_wait_timeout" "must be greater than zero")
    reject_if (b.max_response_bytes == 0)
        (invalid_request "max_response_bytes" "must be greater than zero")
    reject_if (b.max_concurrency == 0)
        (invalid_request "max_concurrency" "must be greater than zero")
    check_rate b.max_requests_per_second
    reject_if (is_zero (unwrap_or b.qps_wait_timeout b.concurrency_wait_timeout))
        (invalid_request "qps_wait_timeout" "must be greater than zero")
    validate_retry R b.retry

-- The match on `base_url.scheme()`.
unfoldable pub check_scheme :
    {V : Type 0} → String → (allowed loopback : Bool) → Result (Unit {0}) (Error V)
check_scheme scheme allowed loopback =
    if same_text scheme "https"
    then ok tt
    else if same_text scheme "http" && allowed && loopback
    then ok tt
    else if same_text scheme "http"
    then err (invalid_request "base_url" "plain HTTP mocking requires an explicit loopback IP host")
    else err (invalid_request "base_url" "scheme must be HTTPS (or explicit HTTP mocking)")

module _ (U : Urls) where
  open U use {Url, parse, cannot_be_a_base, host, username, password, query, fragment, scheme}

  parsed : {V : Type 0} → Option Url → Result Url (Error V)
  parsed none = err (invalid_request "base_url" "must be an absolute URL")
  parsed (some u) = ok u

  -- The checks on the base URL; the result is the parsed URL.
  unfoldable pub check_base_url : {V : Type 0} → (allowed : Bool) → String → Result Url (Error V)
  unfolding parsed
  check_base_url allowed text = do
    base_url ← parsed (parse text)
    reject_if (cannot_be_a_base base_url || not (is_some (host base_url)))
        (invalid_request "base_url" "must be a hierarchical URL with a host")
    reject_if (not (is_empty (username base_url)) || is_some (password base_url))
        (invalid_request "base_url" "must not contain credentials")
    reject_if (is_some (query base_url) || is_some (fragment base_url))
        (invalid_request "base_url" "must not contain a query or fragment")
    check_scheme (scheme base_url) allowed (has_loopback_ip_host (host base_url))
    ok base_url

module _ (R : Floats) (U : Urls) where
  open R use {F, period}
  open U use {Url, scheme, path, set_path}

  -- The configuration of the accepted builder, at its normalized base URL.
  unfoldable pub configure : ClientBuilder F → Url → Client F Url
  configure b base_url = record {
    http = record {
      follows_redirects = false;
      uses_proxy = not (same_text (scheme base_url) "http");
    };
    api_key = b.api_key;
    base_url = base_url;
    request_timeout = b.request_timeout;
    concurrency_wait_timeout = b.concurrency_wait_timeout;
    max_response_bytes = b.max_response_bytes;
    max_concurrency = b.max_concurrency;
    qps_interval = Option.map period b.max_requests_per_second;
    qps_wait_timeout = unwrap_or b.qps_wait_timeout b.concurrency_wait_timeout;
    retry = b.retry;
    tracing_enabled = b.tracing_enabled;
  }

  -- The checks and the HTTP client; the result is the normalized base URL. `http_builder.build()` can
  -- fail in `reqwest`: `built` is its answer.
  unfoldable pub prepare : {V : Type 0} → (built : Bool) → ClientBuilder F → Result Url (Error V)
  prepare built b = do
    check_limits R b
    parsed_url ← check_base_url U b.allow_insecure_http_for_mocking b.base_url
    let base_url = set_path parsed_url (normalized_path (U.path parsed_url))
    reject_if (not built) (invalid_request "http_client" "could not build the HTTP client")
    ok base_url

  -- The `Ok` of the end, where `Semaphore::new(max_concurrency)` panics (`none`) above `max_permits`,
  -- the `Semaphore::MAX_PERMITS` of `tokio`.
  construct :
      {V : Type 0} (max_permits : ℕ)
      → ClientBuilder F
      → Result Url (Error V)
      → Option (Result (Client F Url) (Error V))
  construct max_permits b (err error) = some (err error)
  construct max_permits b (ok base_url) =
      if ltb max_permits b.max_concurrency then none else some (ok (configure b base_url))

  unfoldable pub build :
      {V : Type 0} (max_permits : ℕ)
      → (built : Bool) → ClientBuilder F
      → Option (Result (Client F Url) (Error V))
  unfolding construct
  build max_permits built b = construct max_permits b (prepare built b)
