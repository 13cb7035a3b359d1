-- ===== src/Transport/Attempt/Failures.antt =====
-- How an attempt fails once its request is handed over (src/transport.rs), for a mutation and for a
-- read.
use smspool_sdk.Prelude.{
  ℕ, ◌+◌, ◌≡◌, ◌⊎◌, inl, inr, Bool, true, false, String, Option, List, Result, arith,
}
use smspool_sdk.Json.{Json}
use smspool_sdk.Float.{Floats}
use smspool_sdk.Endpoint.{Endpoint, WireRequest, is_read_only}
use smspool_sdk.Error.{
  Error, OutcomeUnknown, api, rate_limited, transport, timeout, response_too_large, decode,
  invalid_request, unsupported_operation, outcome_unknown, connect,
}
use smspool_sdk.Client.{Client}
use smspool_sdk.Transport.Io.{Op, ◌>>=◌}
use smspool_sdk.Transport.Rules.{Fails, Sends, bind-Fails, bind-Sends}
use smspool_sdk.Transport.Failure.{
  AttemptFailure, reconciliation_hint, send_timeout, send_error, after_delivery_error,
}
use smspool_sdk.Transport.Body.{Response}
use smspool_sdk.Transport.Attempt.{
  SendAnswer, send, interpret, collect, receive, built, execute_attempt, World,
}
use smspool_sdk.Transport.Request.{build_request}
use smspool_sdk.Transport.Admission.{acquire_admission}
use smspool_sdk.Transport.Admission.Laws.{IsUnsent, IsQuiet, acquire_admission-IsQuiet}

-- The outcome that is reported as unknown is that of the operation, which is no read.
pub record IsOutcomeOf (e : Endpoint) (u : OutcomeUnknown) : Type 0 where
  pub endpoint : u.endpoint ≡ e.name
  pub safety : u.safety ≡ e.safety
  pub mutating : is_read_only u.safety ≡ false
  pub hint : u.reconciliation_hint ≡ reconciliation_hint

-- The errors of a mutation that was handed to the HTTP client: the provider's own answers, a
-- connection that was never made, and the unknown outcome.
abbrev pub IsMutationError : {V : Type 0} → Endpoint → Error V → Type 0
IsMutationError e (api a) = Unit
IsMutationError e (rate_limited n d) = n ≡ e.name
IsMutationError e (transport n k) = (n ≡ e.name) × (k ≡ connect)
IsMutationError e (outcome_unknown u) = IsOutcomeOf e u
IsMutationError e (timeout n p) = ⊥
IsMutationError e (response_too_large n l) = ⊥
IsMutationError e (decode n p) = ⊥
IsMutationError e (invalid_request field reason) = ⊥
IsMutationError e (unsupported_operation n r) = ⊥

-- The errors of a read that was handed to the HTTP client.
abbrev pub IsReadError : {V : Type 0} → Endpoint → Error V → Type 0
IsReadError e (api a) = Unit
IsReadError e (rate_limited n d) = n ≡ e.name
IsReadError e (transport n k) = n ≡ e.name
IsReadError e (timeout n p) = n ≡ e.name
IsReadError e (response_too_large n l) = n ≡ e.name
IsReadError e (decode n p) = n ≡ e.name
IsReadError e (outcome_unknown u) = ⊥
IsReadError e (invalid_request field reason) = ⊥
IsReadError e (unsupported_operation n r) = ⊥

-- The failure of an attempt that has sent `sent` requests.
pub record IsDelivered {V : Type 0} (e : Endpoint) (sent n : ℕ) (x : AttemptFailure V)
    : Type 0 where
  pub one_sent : n ≡ sent
  pub as_mutation :
      is_read_only e.safety ≡ false → IsMutationError e x.error × (x.retryable ≡ false)
  pub as_read : is_read_only e.safety ≡ true → IsReadError e x.error

module _ (J : Json) (R : Floats) (http_date : List ℕ → Option ℕ) {T : Type 0}
    (deserialize : J.Value → Result T String) (e : Endpoint) where
  module _ {U : Type 0} (client : Client (R.F) U) where
    send-Fails :
        (op : Op SendAnswer) → Fails (IsDelivered e 1) (send J R http_date deserialize client e op)
    unfolding send send_timeout send_error
    send-Fails op now x h = ground arith

    send-Sends : (op : Op SendAnswer) → Sends 1 (send J R http_date deserialize client e op)
    unfolding send
    send-Sends op now a h = ground arith

  interpret-Fails :
      (can_retry : Bool) (status : ℕ) (body : List ℕ)
      → Fails (IsDelivered e 0) (interpret J R http_date deserialize e can_retry status body)
  unfolding interpret after_delivery_error
  interpret-Fails can_retry status body now x h = ground arith

  interpret-Sends :
      (can_retry : Bool) (status : ℕ) (body : List ℕ)
      → Sends 0 (interpret J R http_date deserialize e can_retry status body)
  unfolding interpret
  interpret-Sends can_retry status body now x h = ground arith

  module _ {U : Type 0} (client : Client (R.F) U) where
    collect-Fails :
        (wall_clock : ℕ) (r : Response)
        → Fails (IsDelivered e 0) (collect J R http_date deserialize client e wall_clock r)
    unfolding collect after_delivery_error
    collect-Fails wall_clock r now x h = ground arith

    collect-Sends :
        (wall_clock : ℕ) (r : Response)
        → Sends 0 (collect J R http_date deserialize client e wall_clock r)
    unfolding collect
    collect-Sends wall_clock r now a h = ground arith

    receive-Fails :
        (can_retry : Bool) (wall_clock : ℕ) (r : Response)
        → Fails
            (IsDelivered e 0)
            (receive J R http_date deserialize client e can_retry wall_clock r)
    unfolding receive
    receive-Fails can_retry wall_clock r =
        bind-Fails (collect J R http_date deserialize client e wall_clock r) _ (IsDelivered e 0) 0
          (collect-Fails wall_clock r) (collect-Sends wall_clock r)
          (λ body now x h. ground (arith, interpret-Fails can_retry r.status body now x h))

    receive-Sends :
        (can_retry : Bool) (wall_clock : ℕ) (r : Response)
        → Sends 0 (receive J R http_date deserialize client e can_retry wall_clock r)
    unfolding receive
    receive-Sends can_retry wall_clock r =
        bind-Sends (collect J R http_date deserialize client e wall_clock r) _ 0 0
          (collect-Sends wall_clock r) (interpret-Sends can_retry r.status)

  -- How many requests an attempt has sent, and what its failure is.
  abbrev pub IsAttemptFailure : {V : Type 0} → ℕ → AttemptFailure V → Type 0
  IsAttemptFailure n x = IsUnsent e n x ⊎ IsDelivered e 1 n x

  -- The whole attempt: a failure before the request is handed over is final and undelivered, one after
  -- it is a delivered one, and a success has sent one request.
  module _ {U : Type 0} (client : Client (R.F) U) where
    deliver-Fails :
        (can_retry : Bool) (wall_clock : ℕ) (op : Op SendAnswer)
        → Fails (IsDelivered e 1) (
            send J R http_date deserialize client e op
            >>= receive J R http_date deserialize client e can_retry wall_clock)
    deliver-Fails can_retry wall_clock op =
        bind-Fails (send J R http_date deserialize client e op) _ (IsDelivered e 1) 1
          (send-Fails client op) (send-Sends client op)
          (λ r now x h. ground (arith, receive-Fails client can_retry wall_clock r now x h))

    deliver-Sends :
        (can_retry : Bool) (wall_clock : ℕ) (op : Op SendAnswer)
        → Sends 1 (
            send J R http_date deserialize client e op
            >>= receive J R http_date deserialize client e can_retry wall_clock)
    deliver-Sends can_retry wall_clock op =
        bind-Sends (send J R http_date deserialize client e op) _ 1 0 (send-Sends client op)
          (receive-Sends client can_retry wall_clock)

    built-IsQuiet :
        (wire : WireRequest J.Value) (url : U) (builds : Bool)
        → IsQuiet e
            (built J R http_date deserialize (build_request J client.api_key e wire url builds))
    unfolding built build_request
    built-IsQuiet wire url builds = (λ now x h. ground arith, λ now a h. ground arith)

    pub execute_attempt-Fails :
        (wire : WireRequest J.Value) (url : U) (can_retry : Bool) (w : World U)
        → Fails IsAttemptFailure
            (execute_attempt J R http_date deserialize client e wire url can_retry w)
    unfolding execute_attempt
    execute_attempt-Fails wire url can_retry w =
        let (prepared, prepared') = built-IsQuiet wire url w.builds in
        let (admitted, admitted') =
          acquire_admission-IsQuiet {V = J.Value} e client w.last_instant w.fuel w.permit
            w.rounds in
        bind-Fails
          (built J R http_date deserialize (build_request J client.api_key e wire url w.builds)) _
          IsAttemptFailure 0 (λ now x h. inl (prepared now x h)) prepared'
          (λ request.
            bind-Fails (acquire_admission client e w.last_instant w.fuel w.permit w.rounds) _
              (λ n x. IsAttemptFailure (0 + n) x) 0
              (λ now x h. inl (ground (arith, admitted now x h))) admitted'
              (λ slot now x h.
                inr
                  (ground (arith, deliver-Fails can_retry w.wall_clock (w.send request) now x h))))

    pub execute_attempt-Sends :
        (wire : WireRequest J.Value) (url : U) (can_retry : Bool) (w : World U)
        → Sends 1 (execute_attempt J R http_date deserialize client e wire url can_retry w)
    unfolding execute_attempt
    execute_attempt-Sends wire url can_retry w =
        bind-Sends
          (built J R http_date deserialize (build_request J client.api_key e wire url w.builds)) _ 0
          1 (built-IsQuiet wire url w.builds).1
          (λ request.
            bind-Sends (acquire_admission client e w.last_instant w.fuel w.permit w.rounds) _ 0 1
              (acquire_admission-IsQuiet {V = J.Value} e client w.last_instant w.fuel w.permit
                w.rounds).1
              (λ slot. deliver-Sends can_retry w.wall_clock (w.send request)))
