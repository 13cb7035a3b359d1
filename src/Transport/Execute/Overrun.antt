-- ===== src/Transport/Execute/Overrun.antt =====
-- The documented budget of a call, `max_in_flight_duration` (src/client.rs), against the call
-- (src/transport.rs): the request timeout bounds the head of the response and its body each on its own.
use smspool_sdk.Prelude.{
  ℕ, suc, ◌+◌, ◌*◌, ◌≤◌, ◌<◌, ◌≡◌, Bool, true, false, String, Option, none, some, List, [], ◌∷◌,
  Result, ok, arith,
}
use smspool_sdk.Duration.{saturating_mul, saturating_add, to_u32}
use smspool_sdk.Json.{Json}
use smspool_sdk.Float.{Floats}
use smspool_sdk.Url.{Urls, trim_start_slashes}
use smspool_sdk.Endpoint.{Endpoint, WireRequest, multipart}
use smspool_sdk.Client.{Client, max_in_flight_duration}
use smspool_sdk.Transport.Body.{Response, read_bounded}
use smspool_sdk.Transport.Request.{build_request}
use smspool_sdk.Transport.Validate.{validate}
use smspool_sdk.Transport.Admission.{Round, acquire_admission}
use smspool_sdk.Transport.Attempt.{responded, World, send, collect, receive, execute_attempt}
use smspool_sdk.Transport.Execute.{attempts, attempts_of, joined, execute}

-- A response whose head comes just in time and whose body stalls.
abbrev stalled : (wait : ℕ) → Response
stalled wait = record {
  status = 200;
  retry_after = none;
  content_length = none;
  body = record { takes = suc wait; bytes = some [] } ∷ [];
}

abbrev no_round : Round
no_round = record {
  first_look = record { takes = 0; answer = none };
  permit = record { takes = 0; answer = true };
  second_look = record { takes = 0; answer = none };
}

abbrev pub slow_world : {F U : Type 0} → Client F U → World U
slow_world client = record {
  builds = true;
  permit = record { takes = 0; answer = true };
  rounds = λ _. no_round;
  fuel = 0;
  last_instant = 0;
  send = λ _. record {
    takes = client.request_timeout;
    answer = responded (stalled client.request_timeout);
  };
  wall_clock = 0;
  draw = 0;
}

module _ (J : Json) (R : Floats) (http_date : List ℕ → Option ℕ) {T : Type 0}
    (deserialize : J.Value → Result T String) (e : Endpoint) {U : Type 0}
    (client : Client (R.F) U) where
  slow_attempt :
      (wire : WireRequest J.Value) (url : U) (can_retry : Bool) (now : ℕ)
      → e.body_mode ≡ multipart
      → client.qps_interval ≡ none
      → (execute_attempt J R http_date deserialize client e wire url can_retry
          (slow_world client)
          now).now
        ≡ now + 2 * client.request_timeout
  unfolding execute_attempt build_request acquire_admission send receive collect read_bounded
  slow_attempt wire url can_retry now mode free = rw (mode, free) (ground arith)

  slow_call :
      (wire : WireRequest J.Value) (url : U) (now n : ℕ)
      → n ≡ 1
      → e.body_mode ≡ multipart
      → client.qps_interval ≡ none
      → (attempts J R http_date deserialize client e wire url
          (λ _. slow_world client)
          n
          n
          1
          now).now
        ≡ now + 2 * client.request_timeout
  unfolding attempts
  slow_call wire url now n one mode free =
      rw one (ground (arith, slow_attempt wire url false now mode free))

  budget_le :
      client.retry.max_attempts ≡ 1
      → max_in_flight_duration client
        ≤ client.qps_wait_timeout + client.concurrency_wait_timeout + client.request_timeout
  unfolding max_in_flight_duration saturating_add saturating_mul to_u32
  budget_le one = rw one (ground arith)

module _ (J : Json) (R : Floats) (http_date : List ℕ → Option ℕ) {T : Type 0}
    (deserialize : J.Value → Result T String) (e : Endpoint) (U : Urls)
    (client : Client (R.F) (U.Url)) where
  -- A client with one attempt, no rate limit and waits that are shorter than its request timeout can
  -- outlast `max_in_flight_duration`: a valid multipart call whose body stalls after a late head takes
  -- twice the request timeout.
  pub execute-overruns :
      (wire : WireRequest J.Value) (url : U.Url) (now : ℕ)
      → client.retry.max_attempts ≡ 1
      → client.qps_interval ≡ none
      → client.qps_wait_timeout + client.concurrency_wait_timeout < client.request_timeout
      → e.body_mode ≡ multipart
      → validate e wire ≡ ok tt
      → U.join client.base_url (trim_start_slashes e.path) ≡ some url
      → now + max_in_flight_duration client
        < (execute J R http_date deserialize U client e wire (λ _. slow_world client) now).now
  unfolding execute joined
  execute-overruns wire url now one free short mode valid found =
      let budget = budget_le J R http_date deserialize e client one in
      let slow =
        slow_call J R http_date deserialize e client wire url now (attempts_of client e)
          (ground arith) mode free in
      rw (valid, found) (omega (arith, budget, slow))
