-- ===== src/Transport/Execute/Ending.antt =====
-- A call ends in a value or an error (src/transport.rs): the `expect` and the `unreachable!` behind it
-- are never met, and neither are the panics of the clock and of the backoff in their ranges.
use smspool_sdk.Prelude.{
  ℕ, zero, suc, ◌+◌, ◌≤◌, ◌<◌, ◌≡◌, ◌≢◌, ◌&&◌, String, none, some, unwrap_or, Option-cases, Option,
  List, Result, ok, arith, ltb, Bool-cases, inl, inr,
}
use smspool_sdk.Json.{Json}
use smspool_sdk.Float.{Floats}
use smspool_sdk.Url.{Urls, trim_start_slashes}
use smspool_sdk.Endpoint.{Endpoint, WireRequest}
use smspool_sdk.Error.{Error}
use smspool_sdk.Client.{Client}
use smspool_sdk.Transport.Io.{Io}
use smspool_sdk.Transport.Rules.{IsSettled}
use smspool_sdk.Transport.Rescue.{rescue-IsSettled, check-IsSettled}
use smspool_sdk.Transport.Timed.{EndsFrom}
use smspool_sdk.Transport.Header.{base_backoff, backoff_delay}
use smspool_sdk.Transport.Validate.{validate}
use smspool_sdk.Transport.Failure.{AttemptFailure}
use smspool_sdk.Transport.Attempt.{World, execute_attempt}
use smspool_sdk.Transport.Attempt.Ending.{IsFair, execute_attempt-EndsFrom}
use smspool_sdk.Transport.Attempt.Time.{IsPatient, execute_attempt-Lasts, execute_attempt-IsPatient}
use smspool_sdk.Transport.Execute.Budget.{
  pause_bound, call_bound, call_bound_first, call_bound_next, base_backoff_le, retry_delay_le,
}
use smspool_sdk.Transport.Execute.{
  retry_delay, retry_or_fail, attempts, attempts_of, joined, execute,
}

module _ (J : Json) (R : Floats) (http_date : List ℕ → Option ℕ) {T : Type 0}
    (deserialize : J.Value → Result T String) (e : Endpoint) {U : Type 0} (client : Client (R.F) U)
    (longest : ℕ)
    (backoffs : (draw base : ℕ)
      → base ≤ client.retry.max_delay
      → (d : ℕ) × (R.scaled client.retry.jitter_ratio draw base ≡ some d) × (d ≤ longest)) where
  backoff_le :
      (draw base d : ℕ)
      → base ≤ client.retry.max_delay
      → R.scaled client.retry.jitter_ratio draw base ≡ some d
      → d ≤ longest
  backoff_le draw base d h q = ground (arith, backoffs draw base h)

  backoff_held : (draw attempt : ℕ) → backoff_delay R client.retry draw attempt ≢ none
  unfolding backoff_delay
  backoff_held draw attempt q =
      let base = base_backoff R client.retry attempt in
      ground (
        arith,
        backoffs draw base
            (base_backoff_le J R http_date deserialize e client longest backoff_le attempt),
      )

  retry_delay_held :
      (w : World U) (attempt : ℕ) (failure : AttemptFailure J.Value)
      → retry_delay J R http_date deserialize client w attempt failure ≢ none
  retry_delay_held w attempt failure q = ground (arith, backoff_held w.draw attempt)

  retry_or_fail_settles :
      (w : World U) (attempt max_attempts now : ℕ) (rest : Io (Error J.Value) T)
      (failure : AttemptFailure J.Value)
      → IsPatient client failure
      → (attempt < max_attempts → EndsFrom (now + pause_bound client longest) rest)
      → IsSettled
          (retry_or_fail J R http_date deserialize client w attempt max_attempts rest failure now)
  unfolding retry_or_fail
  retry_or_fail_settles w attempt max_attempts now rest failure patient h =
      elim (Bool-cases (failure.retryable && ltb attempt max_attempts)) [
        | inl again ↦
            elim (Option-cases (retry_delay J R http_date deserialize client w attempt failure)) [
              | inl overflow ↦ absurd (retry_delay_held w attempt failure overflow)
              | inr (delay, found) ↦
                  let short =
                    retry_delay_le J R http_date deserialize e client longest backoff_le w attempt
                      failure (ground arith) patient delay found in
                  let later = h (ground arith) (now + delay) (omega (arith, short)) in
                  (λ q. ground (arith, later), λ q. ground (arith, later))
            ]
        | inr over ↦ (λ q. ground arith, λ q. ground arith)
      ]

  module _ (until : ℕ) (worlds : ℕ → World U)
      (room : (k : ℕ) → until + unwrap_or client.qps_interval 0 ≤ (worlds k).last_instant)
      (fair : (k : ℕ) → IsFair client (worlds k)) where
    attempts-EndsFrom :
        (wire : WireRequest J.Value) (url : U) (max_attempts left attempt start : ℕ)
        → validate e wire ≡ ok tt
        → max_attempts < attempt + left
        → attempt ≤ max_attempts
        → start + call_bound client longest left ≤ until
        → EndsFrom start
            (attempts J R http_date deserialize client e wire url worlds max_attempts left attempt)
    unfolding attempts
    attempts-EndsFrom wire url max_attempts zero attempt start valid le some_left time now h =
        absurd (omega arith)
    attempts-EndsFrom wire url max_attempts (suc left) attempt start valid le some_left time now h =
        let w = worlds attempt in
        let more = ltb attempt max_attempts in
        let try = execute_attempt J R http_date deserialize client e wire url more w in
        let rest =
          attempts J R http_date deserialize client e wire url worlds max_attempts left
            (suc attempt) in
        let first = call_bound_first client longest left in
        let lasts = execute_attempt-Lasts J R http_date deserialize e client wire url more w now in
        rescue-IsSettled try
          (λ failure.
            retry_or_fail J R http_date deserialize client w attempt max_attempts rest failure)
          now
          (execute_attempt-EndsFrom J R http_date deserialize e client wire url more w now valid
            (fair attempt) (omega (arith, h, time, first, room attempt)) now (omega arith))
          (λ x q.
            retry_or_fail_settles w attempt max_attempts (try now).now rest x
              (execute_attempt-IsPatient J R http_date deserialize e client wire url more w now x q)
              (λ again.
                attempts-EndsFrom wire url max_attempts left (suc attempt)
                  ((try now).now + pause_bound client longest) valid (omega arith) (omega arith)
                  (omega
                    (arith, h, time, lasts, call_bound_next client longest left (omega arith)))))

module _ (J : Json) (R : Floats) (http_date : List ℕ → Option ℕ) {T : Type 0}
    (deserialize : J.Value → Result T String) (e : Endpoint) (U : Urls)
    (client : Client (R.F) (U.Url)) where
  -- A call ends in a value or an error: it neither panics nor goes round for ever. The retry policy
  -- allows at least one attempt, the schedule of start slots never moves back, and the model's loop has
  -- enough fuel; no jittered backoff leaves the range of a duration (`longest` bounds them); and the
  -- longest time that the call may take leads, with one more start slot, to no instant that cannot be
  -- represented.
  pub execute-Ends :
      (longest : ℕ)
      → ((draw base : ℕ)
          → base ≤ client.retry.max_delay
          → (d : ℕ) × (R.scaled client.retry.jitter_ratio draw base ≡ some d) × (d ≤ longest))
      → 0 < client.retry.max_attempts
      → (wire : WireRequest J.Value) (worlds : ℕ → World (U.Url))
      → ((k : ℕ) → IsFair client (worlds k))
      → (now : ℕ)
      → ((k : ℕ)
          → now + call_bound client longest (attempts_of client e) + unwrap_or client.qps_interval 0
            ≤ (worlds k).last_instant)
      → IsSettled (execute J R http_date deserialize U client e wire worlds now)
  unfolding execute
  execute-Ends longest backoffs enough wire worlds fair now room =
      let n = attempts_of client e in
      check-IsSettled (validate e wire) _ now (λ u valid.
        check-IsSettled
          (joined J R http_date deserialize (U.join client.base_url (trim_start_slashes e.path))) _
          now
          (λ url q.
            attempts-EndsFrom J R http_date deserialize e client longest backoffs
              (now + call_bound client longest n) worlds room fair wire url n n 1 now valid
              (omega arith) (ground arith) (omega arith) now (omega arith)))
