-- ===== src/Transport/Attempt/Time.antt =====
-- How long one attempt lasts, and the longest delay that its failure asks for (src/transport.rs).
use smspool_sdk.Prelude.{
  ℕ, ◌+◌, ◌*◌, ◌≤◌, ◌≡◌, Bool, true, String, Option, some, List, Result, arith,
}
use smspool_sdk.Json.{Json}
use smspool_sdk.Float.{Floats}
use smspool_sdk.Endpoint.{Endpoint, WireRequest}
use smspool_sdk.Error.{Error}
use smspool_sdk.Client.{Client}
use smspool_sdk.Transport.Io.{Op, ◌>>=◌}
use smspool_sdk.Transport.Rules.{Lasts, Fails, bind-Lasts, bind-Errs}
use smspool_sdk.Transport.Request.{Request, build_request}
use smspool_sdk.Transport.Failure.{AttemptFailure, send_timeout, send_error}
use smspool_sdk.Transport.Header.{parse_retry_after}
use smspool_sdk.Transport.Body.{Response}
use smspool_sdk.Transport.Admission.{acquire_admission}
use smspool_sdk.Transport.Admission.Laws.{acquire_admission-IsQuiet}
use smspool_sdk.Transport.Admission.Progress.{acquire_admission-Lasts}
use smspool_sdk.Transport.Attempt.{
  SendAnswer, World, built, send, collect, interpret, receive, execute_attempt,
}

-- What one attempt may take: the two waits of the admission, and the request timeout once for the
-- head of the response and once more for its body.
abbrev pub attempt_bound : {F U : Type 0} → Client F U → ℕ
attempt_bound client =
    client.qps_wait_timeout + client.concurrency_wait_timeout + 2 * client.request_timeout

-- What a failure that may be retried asks for is at most `max_retry_after`.
abbrev pub IsPatient : {F U V : Type 0} → Client F U → AttemptFailure V → Type 0
IsPatient client x =
    x.retryable ≡ true → (d : ℕ) → x.retry_after ≡ some d → d ≤ client.retry.max_retry_after

module _ (J : Json) (R : Floats) (http_date : List ℕ → Option ℕ) {T : Type 0}
    (deserialize : J.Value → Result T String) (e : Endpoint) {U : Type 0}
    (client : Client (R.F) U) where
  built-Lasts :
      (o : Option (Result (Request U) (Error J.Value)))
      → Lasts 0 (built J R http_date deserialize o)
  unfolding built
  built-Lasts o now = ground arith

  send-Lasts :
      (op : Op SendAnswer)
      → Lasts client.request_timeout (send J R http_date deserialize client e op)
  unfolding send
  send-Lasts op now = ground arith

  collect-Lasts :
      (wall_clock : ℕ) (r : Response)
      → Lasts client.request_timeout (collect J R http_date deserialize client e wall_clock r)
  unfolding collect
  collect-Lasts wall_clock r now = ground arith

  interpret-Lasts :
      (can_retry : Bool) (status : ℕ) (body : List ℕ)
      → Lasts 0 (interpret J R http_date deserialize e can_retry status body)
  unfolding interpret
  interpret-Lasts can_retry status body now = ground arith

  receive-Lasts :
      (can_retry : Bool) (wall_clock : ℕ) (r : Response)
      → Lasts
          (client.request_timeout + 0)
          (receive J R http_date deserialize client e can_retry wall_clock r)
  unfolding receive
  receive-Lasts can_retry wall_clock r =
      bind-Lasts (collect J R http_date deserialize client e wall_clock r) _ client.request_timeout
        0 (collect-Lasts wall_clock r) (interpret-Lasts can_retry r.status)

  -- An attempt lasts at most the two waits of the admission and twice the request timeout.
  pub execute_attempt-Lasts :
      (wire : WireRequest J.Value) (url : U) (can_retry : Bool) (w : World U)
      → Lasts
          (attempt_bound client)
          (execute_attempt J R http_date deserialize client e wire url can_retry w)
  unfolding execute_attempt
  execute_attempt-Lasts wire url can_retry w now = omega (
    arith,
    bind-Lasts
        (built J R http_date deserialize (build_request J client.api_key e wire url w.builds))
        (λ request. acquire_admission client e w.last_instant w.fuel w.permit w.rounds >>= λ slot.
          send J R http_date deserialize client e (w.send request)
          >>= receive J R http_date deserialize client e can_retry w.wall_clock)
        0
        (client.qps_wait_timeout
          + client.concurrency_wait_timeout
          + (client.request_timeout + (client.request_timeout + 0)))
        (built-Lasts _)
        (λ request.
          bind-Lasts (acquire_admission client e w.last_instant w.fuel w.permit w.rounds) _
            (client.qps_wait_timeout + client.concurrency_wait_timeout)
            (client.request_timeout + (client.request_timeout + 0))
            (acquire_admission-Lasts J.Value e client w.last_instant w.fuel w.permit w.rounds)
            (λ slot.
              bind-Lasts (send J R http_date deserialize client e (w.send request)) _
                client.request_timeout (client.request_timeout + 0) (send-Lasts (w.send request))
                (receive-Lasts can_retry w.wall_clock)))
        now,
  )

  parse_retry_after_le :
      (now : ℕ) (header : Option (List ℕ)) (d : ℕ)
      → parse_retry_after R http_date now client.retry header ≡ some d
      → d ≤ client.retry.max_retry_after
  unfolding parse_retry_after
  parse_retry_after_le now header d h = ground arith

  send-IsPatient :
      (op : Op SendAnswer)
      → Fails (λ _. IsPatient client) (send J R http_date deserialize client e op)
  unfolding send send_timeout send_error
  send-IsPatient op now x h r d q = ground arith

  collect-IsPatient :
      (wall_clock : ℕ) (r : Response)
      → Fails (λ _. IsPatient client) (collect J R http_date deserialize client e wall_clock r)
  unfolding collect
  collect-IsPatient wall_clock r now x h k d q =
      ground (arith, parse_retry_after_le wall_clock r.retry_after d)

  interpret-IsPatient :
      (can_retry : Bool) (status : ℕ) (body : List ℕ)
      → Fails (λ _. IsPatient client) (interpret J R http_date deserialize e can_retry status body)
  unfolding interpret
  interpret-IsPatient can_retry status body now x h k d q = ground arith

  built-IsPatient :
      (o : Option (Result (Request U) (Error J.Value)))
      → Fails (λ _. IsPatient client) (built J R http_date deserialize o)
  unfolding built
  built-IsPatient o now x h k d q = ground arith

  receive-IsPatient :
      (can_retry : Bool) (wall_clock : ℕ) (r : Response)
      → Fails
          (λ _. IsPatient client)
          (receive J R http_date deserialize client e can_retry wall_clock r)
  unfolding receive
  receive-IsPatient can_retry wall_clock r =
      bind-Errs (collect J R http_date deserialize client e wall_clock r) _ (IsPatient client)
        (collect-IsPatient wall_clock r) (interpret-IsPatient can_retry r.status)

  admission-IsPatient :
      (w : World U)
      → Fails
          (λ _. IsPatient client)
          (acquire_admission {V = J.Value} client e w.last_instant w.fuel w.permit w.rounds)
  admission-IsPatient w now x h k d q =
      let quiet =
        acquire_admission-IsQuiet {V = J.Value} e client w.last_instant w.fuel w.permit w.rounds in
      ground (arith, quiet.0 now x h)

  -- A failure that may be retried asks for at most `max_retry_after`.
  pub execute_attempt-IsPatient :
      (wire : WireRequest J.Value) (url : U) (can_retry : Bool) (w : World U)
      → Fails
          (λ _. IsPatient client)
          (execute_attempt J R http_date deserialize client e wire url can_retry w)
  unfolding execute_attempt
  execute_attempt-IsPatient wire url can_retry w =
      bind-Errs
        (built J R http_date deserialize (build_request J client.api_key e wire url w.builds)) _
        (IsPatient client) (built-IsPatient _)
        (λ request.
          bind-Errs (acquire_admission client e w.last_instant w.fuel w.permit w.rounds) _
            (IsPatient client) (admission-IsPatient w)
            (λ slot.
              bind-Errs (send J R http_date deserialize client e (w.send request)) _
                (IsPatient client) (send-IsPatient (w.send request))
                (receive-IsPatient can_retry w.wall_clock)))
