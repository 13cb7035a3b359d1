-- ===== src/Examples/Values.antt =====
-- The builder, the checks, the headers and the bodies at concrete values (src/client.rs,
-- src/transport.rs).
use smspool_sdk.Prelude.{
  ℕ, ◌*◌, ◌^◌, ◌≤◌, ◌-◌, min, ◌≡◌, refl, ◌↔◌, ◌⊎◌, inl, inr, true, false, none, some, List, [], ◌∷◌,
  String, ok, length, arith,
}
use smspool_sdk.Endpoint.{sms_purchase, sms_check, catalog_balance}
use smspool_sdk.Url.{has_loopback_ip_host, ipv4, normalized_path, trim_end_slashes}
use smspool_sdk.Client.{
  Client, ClientBuilder, build, prepare, check_limits, check_base_url, configure, check_rate,
  validate_retry, check_scheme,
}
use smspool_sdk.Client.Laws.{IsAcceptable, build_iff, build-confined}
use smspool_sdk.Transport.Validate.{validate}
use smspool_sdk.Transport.Validate.Laws.{IsWellFormed, validate_iff}
use smspool_sdk.Transport.Validate.Descriptors.{
  wire, descriptors_pass, IsAuthenticated, descriptors_authenticate, descriptors_differ,
}
use smspool_sdk.Transport.Request.{Request, multipart_form, build_request}
use smspool_sdk.Transport.Body.{Chunk, read_bounded}
use smspool_sdk.Transport.Body.Laws.{whole_body, read_bounded_iff}
use smspool_sdk.Transport.Header.{parse_u64, parse_retry_after, base_backoff}
use smspool_sdk.Transport.Header.Laws.{parse_retry_after-seconds, base_backoff-doubles}
use smspool_sdk.Examples.Crates.{
  json, floats, urls, no_dates, client, builder, empty_wire, Document, Address,
}

-- A semaphore of 64 bits.
abbrev permits : ℕ
permits = 2 ^ 61 - 1

-- `http://127.0.0.1:8080/mock`, with mocking allowed.
abbrev mock_builder : ClientBuilder ℕ
mock_builder =
    let b = builder in
    record b { base_url = "http://127.0.0.1:8080/mock"; allow_insecure_http_for_mocking = true }

abbrev mock_client : Client ℕ Address
mock_client = record {
  http = record { follows_redirects = false; uses_proxy = false };
  api_key = "secret";
  base_url = record { scheme = "http"; host = ipv4 0x7f000001; path = "/mock/" };
  request_timeout = 30_000_000_000;
  concurrency_wait_timeout = 5_000_000_000;
  max_response_bytes = 1_048_576;
  max_concurrency = 32;
  qps_interval = none;
  qps_wait_timeout = 5_000_000_000;
  retry = mock_builder.retry;
  tracing_enabled = false;
}

builds : build floats urls {V = Document} permits true mock_builder ≡ some (ok mock_client)
unfolding build prepare check_limits check_base_url configure check_rate validate_retry check_scheme
    normalized_path trim_end_slashes
builds = refl

build_iff_example :
    ((c : Client ℕ Address) × (build floats urls {V = Document} permits true mock_builder
        ≡ some (ok c)))
    ↔ ((mock_builder.max_concurrency ≤ permits) × IsAcceptable floats urls mock_builder)
build_iff_example = build_iff floats urls {V = Document} permits mock_builder

build-confined_example :
    (mock_client.http.follows_redirects ≡ false)
    × ((mock_client.base_url.scheme ≡ "https")
        ⊎ ((mock_client.base_url.scheme ≡ "http")
            × (mock_client.http.uses_proxy ≡ false)
            × (mock_builder.allow_insecure_http_for_mocking ≡ true)
            × (has_loopback_ip_host (some mock_client.base_url.host) ≡ true)))
build-confined_example =
    build-confined floats urls (λ u p. refl) (λ u p. refl) {V = Document} permits true mock_builder
      builds

validate_iff_example :
    (validate {V = Document} sms_check empty_wire ≡ ok tt) ↔ IsWellFormed sms_check empty_wire
validate_iff_example = validate_iff {V = Document} sms_check empty_wire

abbrev order_field : List (String × String)
order_field = ("orderid", "A1") ∷ []

descriptors_pass_example : validate {V = Document} sms_purchase (wire order_field) ≡ ok tt
descriptors_pass_example =
    descriptors_pass {V = Document} sms_purchase order_field
      (inr (inr (inr (inr (inr (inr (inr (inl refl)))))))) refl (λ q. cc)

abbrev purchase_request : Request Address
purchase_request = record {
  method = sms_purchase.method;
  url = client.base_url;
  query = [];
  bearer_token = some "secret";
  body = multipart_form order_field;
}

builds_purchase :
    build_request json "secret" sms_purchase (wire order_field) client.base_url true
    ≡ some (ok purchase_request)
unfolding build_request
builds_purchase = refl

descriptors_authenticate_example :
    IsAuthenticated "secret" sms_purchase order_field purchase_request
descriptors_authenticate_example =
    descriptors_authenticate json "secret" sms_purchase order_field client.base_url true
      purchase_request (inr (inr (inr (inr (inr (inr (inr (inl refl)))))))) (λ q. cc)
      builds_purchase

descriptors_differ_example : catalog_balance ≡ catalog_balance
descriptors_differ_example =
    descriptors_differ catalog_balance catalog_balance (inr (inl refl)) (inr (inl refl)) refl

abbrev two_chunks : List Chunk
two_chunks =
    record { takes = 1; bytes = some (1 ∷ 2 ∷ []) }
    ∷ record { takes = 3; bytes = some (3 ∷ []) }
    ∷ []

read_bounded_iff_example :
    ((read_bounded 8 two_chunks).answer ≡ ok (1 ∷ 2 ∷ 3 ∷ []))
    ↔ ((whole_body two_chunks ≡ some (1 ∷ 2 ∷ 3 ∷ [])) × (length {A = ℕ} (1 ∷ 2 ∷ 3 ∷ []) ≤ 8))
read_bounded_iff_example = read_bounded_iff 8 two_chunks (1 ∷ 2 ∷ 3 ∷ []) (omega arith)

-- The text " 15 ".
abbrev fifteen : List ℕ
fifteen = b' ' ∷ b'1' ∷ b'5' ∷ b' ' ∷ []

parse_retry_after-seconds_example :
    parse_retry_after floats no_dates 0 builder.retry (some fifteen)
    ≡ some (min 15_000_000_000 30_000_000_000)
unfolding smspool_sdk.Transport.Header.trim
parse_retry_after-seconds_example =
    parse_retry_after-seconds floats no_dates 0 builder.retry fifteen 15
      (((omega arith, omega arith), ((omega arith, omega arith), tt)), refl, omega arith)

base_backoff-doubles_example :
    base_backoff floats client.retry 2
    ≡ min (client.retry.base_delay * 2 ^ min (2 - 1) 31) client.retry.max_delay
base_backoff-doubles_example = base_backoff-doubles floats client.retry (omega arith) 2
