-- ===== src/Transport/Attempt/Sends.antt =====
-- An attempt hands over at most one request, however it ends (src/transport.rs).
use smspool_sdk.Prelude.{ℕ, Bool, String, Option, List, Result, arith}
use smspool_sdk.Json.{Json}
use smspool_sdk.Float.{Floats}
use smspool_sdk.Endpoint.{Endpoint, WireRequest}
use smspool_sdk.Error.{Error}
use smspool_sdk.Client.{Client}
use smspool_sdk.Transport.Io.{Op}
use smspool_sdk.Transport.Rules.{SendsAtMost, bind-SendsAtMost}
use smspool_sdk.Transport.Request.{Request, build_request}
use smspool_sdk.Transport.Body.{Response}
use smspool_sdk.Transport.Admission.{acquire_admission}
use smspool_sdk.Transport.Admission.Laws.{acquire_admission-SendsAtMost}
use smspool_sdk.Transport.Attempt.{
  SendAnswer, World, built, send, collect, interpret, receive, execute_attempt,
}

module _ (J : Json) (R : Floats) (http_date : List ℕ → Option ℕ) {T : Type 0}
    (deserialize : J.Value → Result T String) (e : Endpoint) {U : Type 0}
    (client : Client (R.F) U) where
  built-SendsAtMost :
      (o : Option (Result (Request U) (Error J.Value)))
      → SendsAtMost 0 (built J R http_date deserialize o)
  unfolding built
  built-SendsAtMost o now = ground arith

  send-SendsAtMost :
      (op : Op SendAnswer) → SendsAtMost 1 (send J R http_date deserialize client e op)
  unfolding send
  send-SendsAtMost op now = ground arith

  collect-SendsAtMost :
      (wall_clock : ℕ) (r : Response)
      → SendsAtMost 0 (collect J R http_date deserialize client e wall_clock r)
  unfolding collect
  collect-SendsAtMost wall_clock r now = ground arith

  interpret-SendsAtMost :
      (can_retry : Bool) (status : ℕ) (body : List ℕ)
      → SendsAtMost 0 (interpret J R http_date deserialize e can_retry status body)
  unfolding interpret
  interpret-SendsAtMost can_retry status body now = ground arith

  receive-SendsAtMost :
      (can_retry : Bool) (wall_clock : ℕ) (r : Response)
      → SendsAtMost 0 (receive J R http_date deserialize client e can_retry wall_clock r)
  unfolding receive
  receive-SendsAtMost can_retry wall_clock r =
      bind-SendsAtMost (collect J R http_date deserialize client e wall_clock r) _ 0 0
        (collect-SendsAtMost wall_clock r) (interpret-SendsAtMost can_retry r.status)

  pub execute_attempt-SendsAtMost :
      (wire : WireRequest J.Value) (url : U) (can_retry : Bool) (w : World U)
      → SendsAtMost 1 (execute_attempt J R http_date deserialize client e wire url can_retry w)
  unfolding execute_attempt
  execute_attempt-SendsAtMost wire url can_retry w =
      bind-SendsAtMost
        (built J R http_date deserialize (build_request J client.api_key e wire url w.builds)) _ 0 1
        (built-SendsAtMost _)
        (λ request.
          bind-SendsAtMost (acquire_admission client e w.last_instant w.fuel w.permit w.rounds) _ 0
            1
            (acquire_admission-SendsAtMost J.Value e client w.last_instant w.fuel w.permit w.rounds)
            (λ slot.
              bind-SendsAtMost (send J R http_date deserialize client e (w.send request)) _ 1 0
                (send-SendsAtMost (w.send request)) (receive-SendsAtMost can_retry w.wall_clock)))
