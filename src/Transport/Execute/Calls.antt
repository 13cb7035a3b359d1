-- ===== src/Transport/Execute/Calls.antt =====
-- How many requests a call hands over, and what a read can fail with (src/transport.rs).
use smspool_sdk.Prelude.{
  ℕ, zero, suc, ◌+◌, ◌≤◌, ◌≡◌, ◌⊎◌, inl, inr, true, String, Option, List, Result, ok, err, arith,
  ltb, Option-cases,
}
use smspool_sdk.Json.{Json}
use smspool_sdk.Float.{Floats}
use smspool_sdk.Url.{Urls, trim_start_slashes}
use smspool_sdk.Endpoint.{
  Endpoint, WireRequest, SafetyClass, read_only, mutation, paid_mutation, is_read_only,
}
use smspool_sdk.Error.{Error}
use smspool_sdk.Client.{Client}
use smspool_sdk.Transport.Io.{Io, failed, lift, ◌>>=◌, ◌>>◌}
use smspool_sdk.Transport.Rules.{SendsAtMost, Fails}
use smspool_sdk.Transport.Rescue.{check-SendsAtMost, check-Fails, rescue-SendsAtMost, rescue-Fails}
use smspool_sdk.Transport.Admission.Laws.{IsUndelivered}
use smspool_sdk.Transport.Validate.{validate}
use smspool_sdk.Transport.Validate.Laws.{validate-Errs}
use smspool_sdk.Transport.Failure.{AttemptFailure}
use smspool_sdk.Transport.Attempt.{World, execute_attempt}
use smspool_sdk.Transport.Attempt.Failures.{IsReadError, IsAttemptFailure, execute_attempt-Fails}
use smspool_sdk.Transport.Attempt.Sends.{execute_attempt-SendsAtMost}
use smspool_sdk.Transport.Execute.{
  retry_delay, retry_or_fail, attempts, attempts_of, joined, execute,
}

-- How many requests a call may hand over, after the answer of its validation.
abbrev pub request_limit :
    {V : Type 0} → Result (Unit {0}) (Error V) → SafetyClass → (max_attempts : ℕ) → ℕ
request_limit (err error) safety max_attempts = 0
request_limit (ok tt) read_only max_attempts = max_attempts
request_limit (ok tt) mutation max_attempts = 1
request_limit (ok tt) paid_mutation max_attempts = 1

validated-SendsAtMost :
    {V A : Type 0} (r : Result (Unit {0}) (Error V)) (m : Io (Error V) A) (safety : SafetyClass)
    (max_attempts now : ℕ)
    → (m now).sent ≤ request_limit {V = V} (ok tt) safety max_attempts
    → ((lift r >> m) now).sent ≤ request_limit r safety max_attempts
validated-SendsAtMost (ok tt) m safety max_attempts now h = omega (arith, h)
validated-SendsAtMost (err error) m safety max_attempts now h = omega arith

-- What a read can fail with: it was not delivered, or the failure of a read.
abbrev pub IsReadFailure : {V : Type 0} → Endpoint → Error V → Type 0
IsReadFailure e x = IsUndelivered e x ⊎ IsReadError e x

module _ (J : Json) (R : Floats) (http_date : List ℕ → Option ℕ) {T : Type 0}
    (deserialize : J.Value → Result T String) (e : Endpoint) {U : Type 0}
    (client : Client (R.F) U) where
  retry_or_fail-SendsAtMost :
      (w : World U) (attempt max_attempts n : ℕ) (rest : Io (Error J.Value) T)
      (failure : AttemptFailure J.Value)
      → SendsAtMost n rest
      → SendsAtMost n
          (retry_or_fail J R http_date deserialize client w attempt max_attempts rest failure)
  unfolding retry_or_fail
  retry_or_fail-SendsAtMost w attempt max_attempts n rest failure h now =
      elim (Option-cases (retry_delay J R http_date deserialize client w attempt failure)) [
        | inl q ↦ ground arith
        | inr (delay, q) ↦ ground (arith, h (now + delay))
      ]

  attempts-SendsAtMost :
      (wire : WireRequest J.Value) (url : U) (worlds : ℕ → World U) (max_attempts left attempt : ℕ)
      → SendsAtMost left
          (attempts J R http_date deserialize client e wire url worlds max_attempts left attempt)
  unfolding attempts
  attempts-SendsAtMost wire url worlds max_attempts zero attempt now = omega arith
  attempts-SendsAtMost wire url worlds max_attempts (suc left) attempt now = omega (
    arith,
    rescue-SendsAtMost
        (execute_attempt J R http_date deserialize client e wire url (ltb attempt max_attempts)
          (worlds attempt))
        (λ failure.
          retry_or_fail J R http_date deserialize client (worlds attempt) attempt max_attempts
            (attempts J R http_date deserialize client e wire url worlds max_attempts left
              (suc attempt))
            failure)
        1 left
        (execute_attempt-SendsAtMost J R http_date deserialize e client wire url
          (ltb attempt max_attempts) (worlds attempt))
        (λ failure.
          retry_or_fail-SendsAtMost (worlds attempt) attempt max_attempts left
            (attempts J R http_date deserialize client e wire url worlds max_attempts left
              (suc attempt))
            failure (attempts-SendsAtMost wire url worlds max_attempts left (suc attempt)))
        now,
  )

  module _ (reading : is_read_only e.safety ≡ true) where
    attempt_reads :
        (n : ℕ) (x : AttemptFailure J.Value)
        → IsAttemptFailure J R http_date deserialize e n x
        → IsReadFailure e x.error
    attempt_reads n x (inl h) = inl h.undelivered
    attempt_reads n x (inr h) = inr (h.as_read reading)

    retry_or_fail-Fails :
        (w : World U) (attempt max_attempts : ℕ) (rest : Io (Error J.Value) T)
        (failure : AttemptFailure J.Value)
        → IsReadFailure e failure.error
        → Fails (λ _. IsReadFailure e) rest
        → Fails
            (λ _. IsReadFailure e)
            (retry_or_fail J R http_date deserialize client w attempt max_attempts rest failure)
    unfolding retry_or_fail
    retry_or_fail-Fails w attempt max_attempts rest failure h k now x q =
        elim (Option-cases (retry_delay J R http_date deserialize client w attempt failure)) [
          | inl none_left ↦ ground arith
          | inr (delay, found) ↦ ground (arith, k (now + delay) x)
        ]

    attempts-Fails :
        (wire : WireRequest J.Value) (url : U) (worlds : ℕ → World U)
        (max_attempts left attempt : ℕ)
        → Fails
            (λ _. IsReadFailure e)
            (attempts J R http_date deserialize client e wire url worlds max_attempts left attempt)
    unfolding attempts
    attempts-Fails wire url worlds max_attempts zero attempt = λ now x h. cc
    attempts-Fails wire url worlds max_attempts (suc left) attempt =
        rescue-Fails
          (execute_attempt J R http_date deserialize client e wire url (ltb attempt max_attempts)
            (worlds attempt))
          _ (IsReadFailure e)
          (λ now x h.
            retry_or_fail-Fails (worlds attempt) attempt max_attempts
              (attempts J R http_date deserialize client e wire url worlds max_attempts left
                (suc attempt))
              x
              (attempt_reads _ x (
                execute_attempt-Fails J R http_date deserialize e client wire url
                  (ltb attempt max_attempts) (worlds attempt) now x h))
              (attempts-Fails wire url worlds max_attempts left (suc attempt)))

module _ (J : Json) (R : Floats) (http_date : List ℕ → Option ℕ) {T : Type 0}
    (deserialize : J.Value → Result T String) (e : Endpoint) (U : Urls)
    (client : Client (R.F) (U.Url)) where
  attempts_of_le :
      attempts_of client e ≤ request_limit {V = J.Value} (ok tt) e.safety client.retry.max_attempts
  attempts_of_le = ground arith

  -- A call that fails the validation hands over no request, and any other call at most `max_attempts`
  -- for a read, and one for a mutation, paid or not.
  pub execute-SendsAtMost :
      (wire : WireRequest J.Value) (worlds : ℕ → World (U.Url)) (now : ℕ)
      → (execute J R http_date deserialize U client e wire worlds now).sent
        ≤ request_limit (validate e wire) e.safety client.retry.max_attempts
  unfolding execute
  execute-SendsAtMost wire worlds now =
      let n = attempts_of client e in
      let target =
        joined J R http_date deserialize (U.join client.base_url (trim_start_slashes e.path)) in
      let call =
        λ (url : U.Url). attempts J R http_date deserialize client e wire url worlds n n 1 in
      let sent_le = check-SendsAtMost target call n now (λ url.
        attempts-SendsAtMost J R http_date deserialize e client wire url worlds n n 1 now) in
      validated-SendsAtMost (validate e wire) (lift target >>= call) e.safety
        client.retry.max_attempts now (omega (arith, sent_le, attempts_of_le))

  joined_fails :
      (o : Option (U.Url)) (x : Error J.Value)
      → joined J R http_date deserialize o ≡ err x
      → IsReadFailure e x
  unfolding joined
  joined_fails o x h = ground arith

  -- A read never fails with an unknown outcome: it was not delivered, or it fails as a read does.
  pub execute-IsReadFailure :
      is_read_only e.safety ≡ true
      → (wire : WireRequest J.Value) (worlds : ℕ → World (U.Url)) (now : ℕ) (x : Error J.Value)
      → (execute J R http_date deserialize U client e wire worlds now).exit ≡ failed x
      → IsReadFailure e x
  unfolding execute
  execute-IsReadFailure reading wire worlds now =
      check-Fails (IsReadFailure e) (validate e wire) _ now
        (λ x h. ground (arith, validate-Errs e wire x h))
        (λ _.
          check-Fails (IsReadFailure e)
            (joined J R http_date deserialize (U.join client.base_url (trim_start_slashes e.path)))
            _ now (joined_fails _)
            (λ url.
              attempts-Fails J R http_date deserialize e client reading wire url worlds
                (attempts_of client e) (attempts_of client e) 1 now))
