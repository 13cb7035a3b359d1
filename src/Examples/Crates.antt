-- ===== src/Examples/Crates.antt =====
-- Concrete stand-ins for the crates that the SDK calls (serde_json, url, f64 arithmetic): a JSON value
-- is a flag or an object whose only field is `success`.
use smspool_sdk.Prelude.{
  ℕ, ◌*◌, ◌/◌, Bool, true, false, String, Option, none, some, List, [], ◌∷◌, Result, ok, err, leb,
  ◌==◌, same_text, if◌then◌else◌,
}
use smspool_sdk.Json.{Json, Shape, boolean, object}
use smspool_sdk.Float.{Floats}
use smspool_sdk.Url.{Urls, Host, domain, ipv4}
use smspool_sdk.Client.{Client, ClientBuilder, client_builder}
use smspool_sdk.Endpoint.{WireRequest}
use smspool_sdk.Transport.Admission.{Round}
use smspool_sdk.Transport.Attempt.{World, responded}

pub data Document : Type 0 where
  flag report : Bool → Document

abbrev view_document : Document → Shape Document ℕ
view_document (flag b) = boolean b
view_document (report b) = object (λ key. if same_text key "success" then some (flag b) else none)

-- `1` is a report of success, any other byte one of failure.
abbrev read_document : List ℕ → Option Document
read_document [] = none
read_document (b ∷ bs) = some (report (b == 1))

abbrev pub json : Json
json = record {
  Value = Document;
  Number = ℕ;
  view = view_document;
  as_i64 = λ n. none;
  is_u64 = λ n. true;
  number_to_string = λ n. "";
  from_slice = read_document;
  to_vec = λ v. some [];
}

-- A ratio in percent, and the draw in the middle.
abbrev pub floats : Floats
floats = record {
  F = ℕ;
  is_zero = λ r. r == 0;
  is_finite = λ r. true;
  in_unit = λ r. leb r 100;
  default_ratio = 20;
  period = λ n. 1_000_000_000 / n;
  scaled = λ ratio draw base. if leb (2 * base) 1000 then some base else none;
  jittered = λ ratio draw nanos. nanos;
}

pub record Address : Type 0 where
  pub scheme : String
  pub host : Host
  pub path : String

abbrev parse_address : String → Option Address
parse_address s =
    if same_text s "https://api.smspool.net/"
    then some (record { scheme = "https"; host = domain "api.smspool.net"; path = "/" })
    else if same_text s "http://127.0.0.1:8080/mock"
    then some (record { scheme = "http"; host = ipv4 0x7f000001; path = "/mock" })
    else none

abbrev pub urls : Urls
urls = record {
  Url = Address;
  parse = parse_address;
  cannot_be_a_base = λ u. false;
  host = λ u. some u.host;
  username = λ u. "";
  password = λ u. none;
  query = λ u. none;
  fragment = λ u. none;
  scheme = λ u. u.scheme;
  path = λ u. u.path;
  set_path = λ u p. record u { path = p };
  join = λ u p. some (record u { path = p });
}

abbrev pub no_dates : List ℕ → Option ℕ
no_dates s = none

-- The model of a response is the number of its report.
abbrev pub deserialize : Document → Result ℕ String
deserialize (flag b) = err "flag"
deserialize (report b) = ok 7

abbrev pub builder : ClientBuilder ℕ
builder = client_builder floats "secret"

abbrev pub client : Client ℕ Address
client = record {
  http = record { follows_redirects = false; uses_proxy = true };
  api_key = "secret";
  base_url = record { scheme = "https"; host = domain "api.smspool.net"; path = "/" };
  request_timeout = 30;
  concurrency_wait_timeout = 5;
  max_response_bytes = 8;
  max_concurrency = 2;
  qps_interval = some 2;
  qps_wait_timeout = 4;
  retry = record {
    max_attempts = 2;
    base_delay = 3;
    max_delay = 10;
    max_retry_after = 20;
    jitter_ratio = 20;
  };
  tracing_enabled = false;
}

-- One attempt, no rate limit.
abbrev pub single_client : Client ℕ Address
single_client =
    let c = client in
    let r = c.retry in record c { qps_interval = none; retry = record r { max_attempts = 1 } }

abbrev pub open_round : Round
open_round = record {
  first_look = record { takes = 0; answer = none };
  permit = record { takes = 1; answer = true };
  second_look = record { takes = 0; answer = none };
}

-- An attempt that the server answers after 10 with the status and the bytes.
abbrev pub answering : (status : ℕ) (bytes : List ℕ) → World Address
answering status bytes = record {
  builds = true;
  permit = record { takes = 1; answer = true };
  rounds = λ k. open_round;
  fuel = 12;
  last_instant = 1000;
  send = λ r. record {
    takes = 10;
    answer = responded (record {
      status = status;
      retry_after = none;
      content_length = none;
      body = record { takes = 2; bytes = some bytes } ∷ [];
    });
  };
  wall_clock = 0;
  draw = 0;
}

abbrev pub empty_wire : WireRequest Document
empty_wire = record {
  body_mode = none;
  body_fields = ("orderid", "A1") ∷ [];
  query_fields = [];
  raw_json = none;
}
