-- ===== src/Transport/Attempt/Ending.antt =====
-- An attempt ends in a value or a failure (src/transport.rs): a validated request meets no panic, and a
-- schedule that never moves back lets the admission end.
use smspool_sdk.Prelude.{
  ℕ, zero, suc, ◌+◌, ◌≤◌, ◌<◌, unwrap_or, ◌≡◌, ◌≢◌, Bool, String, Option, none, List, Result, ok,
  arith,
}
use smspool_sdk.Json.{Json}
use smspool_sdk.Float.{Floats}
use smspool_sdk.Endpoint.{Endpoint, WireRequest}
use smspool_sdk.Error.{Error}
use smspool_sdk.Client.{Client}
use smspool_sdk.Transport.Io.{Op}
use smspool_sdk.Transport.Rules.{Ends, EndsBy, IsSettled, bind-Ends, follow-IsSettled}
use smspool_sdk.Transport.Timed.{EndsFrom, bind-EndsFrom}
use smspool_sdk.Transport.Request.{Request, build_request}
use smspool_sdk.Transport.Validate.{validate}
use smspool_sdk.Transport.Validate.Laws.{validate_iff}
use smspool_sdk.Transport.Body.{Response}
use smspool_sdk.Transport.Admission.{Round, acquire_admission}
use smspool_sdk.Transport.Admission.Progress.{IsForward, acquire_admission_settles}
use smspool_sdk.Transport.Attempt.{
  SendAnswer, World, built, send, collect, interpret, receive, execute_attempt,
}

-- The outside lets the admission end: the schedule never moves back, and the model's loop has a round
-- for each nanosecond of the wait and two more.
pub record IsFair {F U : Type 0} (client : Client F U) (w : World U) : Type 0 where
  pub forward : IsForward w.rounds
  pub fuel : suc client.qps_wait_timeout < w.fuel

module _ (J : Json) (R : Floats) (http_date : List ℕ → Option ℕ) {T : Type 0}
    (deserialize : J.Value → Result T String) (e : Endpoint) {U : Type 0}
    (client : Client (R.F) U) where
  -- `expect("validated raw JSON")` does not panic.
  pub build_request-validated :
      (wire : WireRequest J.Value) (url : U) (builds : Bool)
      → validate e wire ≡ ok tt
      → build_request J client.api_key e wire url builds ≢ none
  unfolding build_request
  build_request-validated wire url builds h q =
      let fits = ((validate_iff e wire).0 h).body in ground (arith, fits)

  built-Ends :
      (o : Option (Result (Request U) (Error J.Value)))
      → o ≢ none
      → Ends (built J R http_date deserialize o)
  unfolding built
  built-Ends o h now = (λ q. ground arith, λ q. ground arith)

  built-EndsBy :
      (o : Option (Result (Request U) (Error J.Value))) (start : ℕ)
      → EndsBy start start (built J R http_date deserialize o)
  unfolding built
  built-EndsBy o start now le = ground arith

  send-Ends : (op : Op SendAnswer) → Ends (send J R http_date deserialize client e op)
  unfolding send
  send-Ends op now = (λ q. ground arith, λ q. ground arith)

  collect-Ends :
      (wall_clock : ℕ) (r : Response)
      → Ends (collect J R http_date deserialize client e wall_clock r)
  unfolding collect
  collect-Ends wall_clock r now = (λ q. ground arith, λ q. ground arith)

  interpret-Ends :
      (can_retry : Bool) (status : ℕ) (body : List ℕ)
      → Ends (interpret J R http_date deserialize e can_retry status body)
  unfolding interpret
  interpret-Ends can_retry status body now = (λ q. ground arith, λ q. ground arith)

  receive-Ends :
      (can_retry : Bool) (wall_clock : ℕ) (r : Response)
      → Ends (receive J R http_date deserialize client e can_retry wall_clock r)
  unfolding receive
  receive-Ends can_retry wall_clock r =
      bind-Ends (collect J R http_date deserialize client e wall_clock r) _
        (collect-Ends wall_clock r) (interpret-Ends can_retry r.status)

  admission_settles :
      (last fuel : ℕ) (permit : Op Bool) (rounds : ℕ → Round) (now : ℕ)
      → IsForward rounds
      → suc client.qps_wait_timeout < fuel
      → now
          + client.qps_wait_timeout
          + client.concurrency_wait_timeout
          + unwrap_or client.qps_interval 0
        ≤ last
      → IsSettled (acquire_admission {V = J.Value} client e last fuel permit rounds now)
  admission_settles last zero permit rounds now forward enough room = absurd (omega arith)
  admission_settles last (suc fuel) permit rounds now forward enough room =
      acquire_admission_settles J.Value e client last fuel permit rounds now forward (omega arith)
        room

  -- An attempt with a validated request ends in a value or a failure, where its admission leads to no
  -- instant that cannot be represented.
  pub execute_attempt-EndsFrom :
      (wire : WireRequest J.Value) (url : U) (can_retry : Bool) (w : World U) (start : ℕ)
      → validate e wire ≡ ok tt
      → IsFair client w
      → start
          + client.qps_wait_timeout
          + client.concurrency_wait_timeout
          + unwrap_or client.qps_interval 0
        ≤ w.last_instant
      → EndsFrom start (execute_attempt J R http_date deserialize client e wire url can_retry w)
  unfolding execute_attempt
  execute_attempt-EndsFrom wire url can_retry w start h fair room =
      let o = build_request J client.api_key e wire url w.builds in
      bind-EndsFrom (built J R http_date deserialize o) _ start start
        (λ now le. built-Ends o (build_request-validated wire url w.builds h) now)
        (built-EndsBy o start)
        (λ request now le.
          follow-IsSettled
            (acquire_admission client e w.last_instant w.fuel w.permit w.rounds now).exit _ _ _
            (admission_settles w.last_instant w.fuel w.permit w.rounds now fair.forward fair.fuel
              (omega (arith, le, room)))
            (λ slot q.
              bind-Ends (send J R http_date deserialize client e (w.send request))
                (receive J R http_date deserialize client e can_retry w.wall_clock)
                (send-Ends (w.send request)) (receive-Ends can_retry w.wall_clock) _))
