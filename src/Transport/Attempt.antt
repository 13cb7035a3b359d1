-- ===== src/Transport/Attempt.antt =====
-- One attempt of a call, `execute_attempt` (src/transport.rs).
pub mod Failures
pub mod Sends
pub mod Time
pub mod Ending
use smspool_sdk.Prelude.{
  ℕ, Bool, true, false, not, ◌||◌, ◌&&◌, String, Option, none, some, List, Result, ok, err, leb,
  ltb, ◌==◌, if◌then◌else◌, is_some_and, is_empty,
}
use smspool_sdk.Json.{Json}
use smspool_sdk.Float.{Floats}
use smspool_sdk.Endpoint.{Endpoint, WireRequest, is_read_only}
use smspool_sdk.Error.{
  Error, OutcomeStage, TimeoutPhase, TransportErrorKind, api, rate_limited, timeout,
  response_too_large, decode, api_error, response_headers, json_decode, model_decode,
}
use smspool_sdk.Error
use smspool_sdk.Client.{Client}
use smspool_sdk.Transport.Io.{
  Exit, Io, Op, panicked, at_exit, return, fail, lift, await_within, ◌>>=◌, ◌>>◌, leave_if,
  hand_over,
}
use smspool_sdk.Transport.Request.{Request, build_request}
use smspool_sdk.Transport.Failure.{
  AttemptFailure, SendError, final_error, retryable_error, after_delivery_error, send_timeout,
  send_error,
}
use smspool_sdk.Transport.Header.{parse_retry_after}
use smspool_sdk.Transport.Decode.{top_level_failure, decode_api_error}
use smspool_sdk.Transport.Body.{Response, ReadBodyError, too_large, read_bounded}
use smspool_sdk.Transport.Body
use smspool_sdk.Transport.Admission.{Round, acquire_admission}

-- What `http.execute(request)` answers.
pub data SendAnswer : Type 0 where
  responded : Response → SendAnswer
  refused : SendError → SendAnswer

-- What the outside does during one attempt; `U` stands for `Url`.
pub record World (U : Type 0) : Type 0 where
  -- `builder.build()`.
  pub builds : Bool
  -- The semaphore without a rate limit, and the rounds of the admission with one.
  pub permit : Op Bool
  pub rounds : ℕ → Round
  pub fuel : ℕ
  -- The last `Instant` that can be represented.
  pub last_instant : ℕ
  pub send : Request U → Op SendAnswer
  -- `SystemTime::now()` and the draw of the backoff.
  pub wall_clock : ℕ
  pub draw : ℕ

-- `StatusCode::is_success`, and the statuses of a read that may be retried.
abbrev pub is_success : ℕ → Bool
is_success status = leb 200 status && ltb status 300

abbrev pub is_retryable_status : ℕ → Bool
is_retryable_status status = status == 500 || status == 502 || status == 503 || status == 504

-- What the attempt has of the crates: `http_date` parses a date, `deserialize` the model or answers
-- the path of the failure.
module _ (J : Json) (R : Floats) (http_date : List ℕ → Option ℕ) {T : Type 0}
    (deserialize : J.Value → Result T String) where
  open J use {Value, from_slice}
  open R use {F}

  abbrev Attempt : Type 0 → Type 0
  Attempt A = Io (AttemptFailure Value) A

  -- A failure once the response has begun.
  late : {A : Type 0} → Endpoint → OutcomeStage → ℕ → Error Value → Result A (AttemptFailure Value)
  late e stage status error = err (final_error (after_delivery_error e stage (some status) error))

  -- The request, its validation passed.
  built : {U : Type 0} → Option (Result (Request U) (Error Value)) → Attempt (Request U)
  built none = at_exit panicked
  built (some (ok r)) = return r
  built (some (err error)) = fail (final_error error)

  answered : Endpoint → SendAnswer → Attempt Response
  answered e (responded r) = return r
  answered e (refused x) = fail (send_error e x)

  unfoldable pub send : {U : Type 0} → Client F U → Endpoint → Op SendAnswer → Attempt Response
  unfolding answered
  send client e op = do
    hand_over
    answer ← await_within client.request_timeout op (send_timeout e)
    answered e answer

  -- The failure of a 429.
  abbrev pub rate_limit : Endpoint → Option ℕ → AttemptFailure Value
  rate_limit e retry_after =
      if is_read_only e.safety
      then retryable_error (rate_limited e.name retry_after) retry_after
      else final_error (rate_limited e.name retry_after)

  read_outcome :
      {U : Type 0}
      → Client F U
      → Endpoint
      → (status : ℕ) → Result (List ℕ) ReadBodyError
      → Result (List ℕ) (AttemptFailure Value)
  read_outcome client e status (ok body) = ok body
  read_outcome client e status (err too_large) =
      late e OutcomeStage.response_body status (response_too_large e.name client.max_response_bytes)
  read_outcome client e status (err Body.transport) =
      late e OutcomeStage.response_body status (Error.transport e.name TransportErrorKind.body)

  parsed : Endpoint → (status : ℕ) → Option Value → Result Value (AttemptFailure Value)
  parsed e status none = late e json_decode status (decode e.name none)
  parsed e status (some value) = ok value

  modelled : Endpoint → (status : ℕ) → Result T String → Result T (AttemptFailure Value)
  modelled e status (ok t) = ok t
  modelled e status (err path) =
      late e model_decode status (decode e.name (if is_empty path then none else some path))

  -- From the bytes of the body to the model.
  unfoldable pub interpret : Endpoint → (can_retry : Bool) (status : ℕ) → List ℕ → Attempt T
  unfolding late parsed modelled
  interpret e can_retry status body = do
    leave_if (is_retryable_status status && is_read_only e.safety && can_retry)
        (retryable_error (api (api_error status)) none)
    value ← lift (parsed e status (from_slice body))
    leave_if (not (is_success status) || top_level_failure J value)
        (final_error (api (decode_api_error J status value)))
    lift (modelled e status (deserialize value))

  -- From the head of the response to its body.
  unfoldable pub collect :
      {U : Type 0} → Client F U → Endpoint → (wall_clock : ℕ) → Response → Attempt (List ℕ)
  unfolding late read_outcome
  collect client e wall_clock r = do
    let retry_after = parse_retry_after R http_date wall_clock client.retry r.retry_after
    leave_if (r.status == 429) (rate_limit e retry_after)
    leave_if (is_some_and r.content_length (λ length. ltb client.max_response_bytes length)) (
        final_error (
          after_delivery_error e response_headers (some r.status)
            (response_too_large e.name client.max_response_bytes)))
    outcome ← await_within client.request_timeout (read_bounded client.max_response_bytes r.body) (
        final_error (
          after_delivery_error e OutcomeStage.response_body (some r.status)
            (timeout e.name TimeoutPhase.response_body)))
    lift (read_outcome client e r.status outcome)

  -- From the response on.
  unfoldable pub receive :
      {U : Type 0}
      → Client F U
      → Endpoint
      → (can_retry : Bool) (wall_clock : ℕ) → Response
      → Attempt T
  receive client e can_retry wall_clock r = do
    body ← collect client e wall_clock r
    interpret e can_retry r.status body

  unfoldable pub execute_attempt :
      {U : Type 0}
      → Client F U
      → Endpoint
      → WireRequest Value
      → U
      → (can_retry : Bool) → World U
      → Attempt T
  unfolding built
  execute_attempt client e wire url can_retry w = do
    request ← built (build_request J client.api_key e wire url w.builds)
    slot ← acquire_admission client e w.last_instant w.fuel w.permit w.rounds
    response ← send client e (w.send request)
    receive client e can_retry w.wall_clock response
