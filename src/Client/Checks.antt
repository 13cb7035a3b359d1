-- ===== src/Client/Checks.antt =====
-- Each group of the checks of `ClientBuilder::build` passes exactly on the fields that meet its
-- demands (src/client.rs).
use smspool_sdk.Prelude.{
  ℕ, ◌<◌, ◌≤◌, ◌≡◌, refl, ◌⊎◌, inl, inr, Bool, true, false, Option, none, some, String, ok, arith,
  unwrap_or, is_empty, is_blank, eq_iff, Option-cases, is_some,
}
use smspool_sdk.Float.{Floats}
use smspool_sdk.Url.{Urls, has_loopback_ip_host}
use smspool_sdk.Client.Retry.{RetryPolicy, validate_retry}
use smspool_sdk.Client.Config.{ClientBuilder}
use smspool_sdk.Client.Build.{check_rate, check_limits, check_scheme, check_base_url}

module _ (R : Floats) where
  open R use {F, is_finite, in_unit}

  -- The demands on the retry policy.
  pub record IsSound (p : RetryPolicy F) : Type 0 where
    pub attempts : 0 < p.max_attempts
    pub finite : is_finite p.jitter_ratio ≡ true
    pub unit : in_unit p.jitter_ratio ≡ true
    pub delays : p.base_delay ≤ p.max_delay

  -- The demands on the builder's own fields.
  pub record IsBounded (b : ClientBuilder F) : Type 0 where
    pub key : is_blank b.api_key ≡ false
    pub request : 0 < b.request_timeout
    pub permit : 0 < b.concurrency_wait_timeout
    pub bytes : 0 < b.max_response_bytes
    pub concurrency : 0 < b.max_concurrency
    pub rate : (r : ℕ) → b.max_requests_per_second ≡ some r → (0 < r) × (r ≤ 1_000_000_000)
    pub qps : 0 < unwrap_or b.qps_wait_timeout b.concurrency_wait_timeout
    pub retry : IsSound b.retry

  validate_retry-IsSound :
      {V : Type 0} (p : RetryPolicy F) → validate_retry R {V = V} p ≡ ok tt → IsSound p
  unfolding validate_retry
  validate_retry-IsSound p h = ground arith

  check_rate_bounds :
      {V : Type 0} (o : Option ℕ)
      → check_rate {V = V} o ≡ ok tt
      → (r : ℕ) → o ≡ some r
      → (0 < r) × (r ≤ 1_000_000_000)
  unfolding check_rate
  check_rate_bounds o h r e = ground arith

  pub check_limits-IsBounded :
      {V : Type 0} (b : ClientBuilder F) → check_limits R {V = V} b ≡ ok tt → IsBounded b
  unfolding check_limits
  check_limits-IsBounded {V} b h = record {
    key = ground arith;
    request = ground arith;
    permit = ground arith;
    bytes = ground arith;
    concurrency = ground arith;
    rate = check_rate_bounds {V = V} b.max_requests_per_second (ground arith);
    qps = ground arith;
    retry = validate_retry-IsSound {V = V} b.retry (ground arith);
  }

  check_rate_complete :
      {V : Type 0} (o : Option ℕ)
      → ((r : ℕ) → o ≡ some r → (0 < r) × (r ≤ 1_000_000_000))
      → check_rate {V = V} o ≡ ok tt
  unfolding check_rate
  check_rate_complete none h = refl
  check_rate_complete (some r) h = ground (arith, h r refl)

  validate_retry_complete :
      {V : Type 0} (p : RetryPolicy F) → IsSound p → validate_retry R {V = V} p ≡ ok tt
  unfolding validate_retry
  validate_retry_complete p h = ground arith

  pub check_limits_complete :
      {V : Type 0} (b : ClientBuilder F) → IsBounded b → check_limits R {V = V} b ≡ ok tt
  unfolding check_limits
  check_limits_complete {V} b h = ground (
    arith,
    check_rate_complete {V = V} b.max_requests_per_second h.rate,
    validate_retry_complete {V = V} b.retry h.retry,
  )

module _ (U : Urls) where
  open U use {Url, parse, cannot_be_a_base, host, username, password, query, fragment, scheme}

  -- The demands on the base URL `u`, where `allowed` is `allow_insecure_http_for_mocking`.
  pub record IsSecure (allowed : Bool) (u : Url) : Type 0 where
    pub hierarchical : cannot_be_a_base u ≡ false
    pub has_host : is_some (host u) ≡ true
    pub no_username : is_empty (username u) ≡ true
    pub no_password : password u ≡ none
    pub no_query : query u ≡ none
    pub no_fragment : fragment u ≡ none
    pub encrypted :
        (scheme u ≡ "https")
        ⊎ ((scheme u ≡ "http") × (allowed ≡ true) × (has_loopback_ip_host (host u) ≡ true))

  check_scheme_sound :
      {V : Type 0} (s : String) (allowed loopback : Bool)
      → check_scheme {V = V} s allowed loopback ≡ ok tt
      → (s ≡ "https") ⊎ ((s ≡ "http") × (allowed ≡ true) × (loopback ≡ true))
  unfolding check_scheme
  check_scheme_sound s allowed loopback h = ground (arith, eq_iff s "https", eq_iff s "http")

  check_scheme_complete :
      {V : Type 0} (s : String) (allowed loopback : Bool)
      → (s ≡ "https") ⊎ ((s ≡ "http") × (allowed ≡ true) × (loopback ≡ true))
      → check_scheme {V = V} s allowed loopback ≡ ok tt
  unfolding check_scheme
  check_scheme_complete s allowed loopback h = ground (arith, eq_iff s "https", eq_iff s "http")

  pub check_base_url_sound :
      {V : Type 0} (allowed : Bool) (text : String) {u : Url}
      → check_base_url U {V = V} allowed text ≡ ok u
      → (parse text ≡ some u) × IsSecure allowed u
  unfolding check_base_url
  check_base_url_sound {V} allowed text {u} h = elim (Option-cases (parse text)) [
    | inl missing ↦ ground arith
    | inr (v, found) ↦
        let same : v ≡ u = ground arith in
        let passed : check_scheme {V = V} (scheme u) allowed (has_loopback_ip_host (host u))
            ≡ ok tt =
          ground arith in
        (
          ground arith,
          record {
            hierarchical = ground arith;
            has_host = ground arith;
            no_username = ground arith;
            no_password = ground arith;
            no_query = ground arith;
            no_fragment = ground arith;
            encrypted = check_scheme_sound {V = V} (scheme u) allowed _ passed;
          },
        )
  ]

  pub check_base_url_complete :
      {V : Type 0} (allowed : Bool) (text : String) (u : Url)
      → parse text ≡ some u
      → IsSecure allowed u
      → check_base_url U {V = V} allowed text ≡ ok u
  unfolding check_base_url
  check_base_url_complete {V} allowed text u found h = ground (
    arith,
    check_scheme_complete {V = V} (scheme u) allowed (has_loopback_ip_host (host u)) h.encrypted,
  )
