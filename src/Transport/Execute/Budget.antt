-- ===== src/Transport/Execute/Budget.antt =====
-- How long a call lasts (src/transport.rs), and the documented budget of src/client.rs.
use smspool_sdk.Prelude.{
  ℕ, zero, suc, ◌+◌, ◌*◌, ◌≤◌, ◌<◌, ◌≡◌, refl, max, inl, inr, true, String, Option, none, some,
  List, Result, arith, ltb, Bool-cases, Option-cases,
}
use smspool_sdk.Json.{Json}
use smspool_sdk.Float.{Floats}
use smspool_sdk.Url.{Urls, trim_start_slashes}
use smspool_sdk.Endpoint.{Endpoint, WireRequest}
use smspool_sdk.Error.{Error}
use smspool_sdk.Client.{Client}
use smspool_sdk.Transport.Io.{Io}
use smspool_sdk.Transport.Rules.{Lasts}
use smspool_sdk.Transport.Rescue.{rescue-Lasts, check-Lasts}
use smspool_sdk.Transport.Validate.{validate}
use smspool_sdk.Transport.Failure.{AttemptFailure}
use smspool_sdk.Transport.Header.{base_backoff, backoff_delay}
use smspool_sdk.Transport.Attempt.{World, execute_attempt}
use smspool_sdk.Transport.Attempt.Time.{
  attempt_bound, IsPatient, execute_attempt-Lasts, execute_attempt-IsPatient,
}
use smspool_sdk.Transport.Execute.{
  retry_delay, retry_or_fail, attempts, attempts_of, joined, execute,
}

-- The longest wait between two attempts, with `longest` the longest backoff after jitter.
abbrev pub pause_bound : {F U : Type 0} → Client F U → (longest : ℕ) → ℕ
pause_bound client longest = max longest (max client.retry.max_delay client.retry.max_retry_after)

-- What `attempts` attempts with the waits between them may take.
abbrev pub call_bound : {F U : Type 0} → Client F U → (longest attempts : ℕ) → ℕ
call_bound client longest zero = 0
call_bound client longest (suc n) = suc n * attempt_bound client + n * pause_bound client longest

bound_step : (a p n : ℕ) → a + (p + (suc n * a + n * p)) ≡ suc (suc n) * a + suc n * p
bound_step a p n = grind arith

-- Each attempt but the last leaves time for itself, a pause and the rest.
pub call_bound_first :
    {F U : Type 0} (client : Client F U) (longest n : ℕ)
    → attempt_bound client ≤ call_bound client longest (suc n)
call_bound_first client longest n = grind arith

pub call_bound_next :
    {F U : Type 0} (client : Client F U) (longest n : ℕ)
    → 0 < n
    → attempt_bound client + (pause_bound client longest + call_bound client longest n)
      ≤ call_bound client longest (suc n)
call_bound_next client longest zero h = absurd (omega arith)
call_bound_next client longest (suc n) h =
    omega (arith, bound_step (attempt_bound client) (pause_bound client longest) n)

delay_le :
    (o b : Option ℕ) (p longest q : ℕ)
    → ((d : ℕ) → o ≡ some d → d ≤ p)
    → ((d : ℕ) → b ≡ some d → d ≤ max longest q)
    → (d : ℕ) → (elim o [ some delay ↦ some delay | none ↦ b ]) ≡ some d
    → d ≤ max longest (max q p)
delay_le none b p longest q h k d e = ground (arith, k d e)
delay_le (some c) b p longest q h k d e = ground (arith, h c refl)

module _ (J : Json) (R : Floats) (http_date : List ℕ → Option ℕ) {T : Type 0}
    (deserialize : J.Value → Result T String) (e : Endpoint) {U : Type 0} (client : Client (R.F) U)
    (longest : ℕ)
    (jitter : (draw base d : ℕ)
      → base ≤ client.retry.max_delay
      → R.scaled client.retry.jitter_ratio draw base ≡ some d
      → d ≤ longest) where
  pub base_backoff_le : (attempt : ℕ) → base_backoff R client.retry attempt ≤ client.retry.max_delay
  unfolding base_backoff
  base_backoff_le attempt = ground arith

  backoff_delay_le :
      (draw attempt d : ℕ)
      → backoff_delay R client.retry draw attempt ≡ some d
      → d ≤ max longest client.retry.max_delay
  unfolding backoff_delay
  backoff_delay_le draw attempt d found = ground (
    arith,
    base_backoff_le attempt,
    jitter draw (base_backoff R client.retry attempt) d (base_backoff_le attempt),
  )

  pub retry_delay_le :
      (w : World U) (attempt : ℕ) (failure : AttemptFailure J.Value)
      → failure.retryable ≡ true
      → IsPatient client failure
      → (d : ℕ) → retry_delay J R http_date deserialize client w attempt failure ≡ some d
      → d ≤ pause_bound client longest
  retry_delay_le w attempt failure q h =
      delay_le failure.retry_after (backoff_delay R client.retry w.draw attempt)
        client.retry.max_retry_after longest client.retry.max_delay (h q)
        (backoff_delay_le w.draw attempt)

  retry_or_fail-Lasts :
      (w : World U) (attempt max_attempts d : ℕ) (rest : Io (Error J.Value) T)
      (failure : AttemptFailure J.Value)
      → IsPatient client failure
      → Lasts d rest
      → Lasts
          (pause_bound client longest + d)
          (retry_or_fail J R http_date deserialize client w attempt max_attempts rest failure)
  unfolding retry_or_fail
  retry_or_fail-Lasts w attempt max_attempts d rest failure patient h now =
      elim (Bool-cases failure.retryable) [
        | inl q ↦
            elim (Option-cases (retry_delay J R http_date deserialize client w attempt failure)) [
              | inl overflow ↦ ground arith
              | inr (delay, found) ↦
                  ground
                    (arith, h (now + delay), retry_delay_le w attempt failure q patient delay found)
            ]
        | inr q ↦ ground arith
      ]

  -- After the last attempt there is no pause.
  last-Lasts :
      (w : World U) (attempt max_attempts : ℕ) (rest : Io (Error J.Value) T)
      (failure : AttemptFailure J.Value)
      → max_attempts ≤ attempt
      → Lasts 0 (retry_or_fail J R http_date deserialize client w attempt max_attempts rest failure)
  unfolding retry_or_fail
  last-Lasts w attempt max_attempts rest failure h now = ground arith

  attempts-Lasts :
      (wire : WireRequest J.Value) (url : U) (worlds : ℕ → World U) (max_attempts left attempt : ℕ)
      → max_attempts ≤ attempt + left
      → Lasts (call_bound client longest (suc left)) (
          attempts J R http_date deserialize client e wire url worlds max_attempts
            (suc left)
            attempt)
  unfolding attempts
  attempts-Lasts wire url worlds max_attempts zero attempt le = λ now.
      let try =
        execute_attempt J R http_date deserialize client e wire url (ltb attempt max_attempts)
          (worlds attempt) in
      let rest =
        attempts J R http_date deserialize client e wire url worlds max_attempts 0 (suc attempt) in
      omega (
        arith,
        rescue-Lasts try
            (λ x.
              retry_or_fail J R http_date deserialize client (worlds attempt) attempt max_attempts
                rest x)
            (attempt_bound client) 0
            (execute_attempt-Lasts J R http_date deserialize e client wire url
              (ltb attempt max_attempts) (worlds attempt))
            (λ now x h. last-Lasts (worlds attempt) attempt max_attempts rest x (omega arith)) now,
      )
  attempts-Lasts wire url worlds max_attempts (suc left) attempt le = λ now.
      let try =
        execute_attempt J R http_date deserialize client e wire url (ltb attempt max_attempts)
          (worlds attempt) in
      let rest =
        attempts J R http_date deserialize client e wire url worlds max_attempts (suc left)
          (suc attempt) in
      omega (
        arith,
        bound_step (attempt_bound client) (pause_bound client longest) left,
        rescue-Lasts try
            (λ x.
              retry_or_fail J R http_date deserialize client (worlds attempt) attempt max_attempts
                rest x)
            (attempt_bound client)
            (pause_bound client longest + call_bound client longest (suc left))
            (execute_attempt-Lasts J R http_date deserialize e client wire url
              (ltb attempt max_attempts) (worlds attempt))
            (λ now x h.
              retry_or_fail-Lasts (worlds attempt) attempt max_attempts
                (call_bound client longest (suc left)) rest x
                (execute_attempt-IsPatient J R http_date deserialize e client wire url
                  (ltb attempt max_attempts) (worlds attempt) now x h)
                (attempts-Lasts wire url worlds max_attempts left (suc attempt) (omega arith)))
            now,
      )

  call-Lasts :
      (wire : WireRequest J.Value) (url : U) (worlds : ℕ → World U) (n : ℕ)
      → Lasts
          (call_bound client longest n)
          (attempts J R http_date deserialize client e wire url worlds n n 1)
  unfolding attempts
  call-Lasts wire url worlds zero = λ now. omega arith
  call-Lasts wire url worlds (suc n) = attempts-Lasts wire url worlds (suc n) n 1 (omega arith)

module _ (J : Json) (R : Floats) (http_date : List ℕ → Option ℕ) {T : Type 0}
    (deserialize : J.Value → Result T String) (e : Endpoint) (U : Urls)
    (client : Client (R.F) (U.Url)) where
  -- A call lasts at most what its attempts take, each the two waits of the admission and twice the
  -- request timeout, with a pause between two attempts, where no jittered backoff passes `longest`.
  pub execute-Lasts :
      (longest : ℕ)
      → ((draw base d : ℕ)
          → base ≤ client.retry.max_delay
          → R.scaled client.retry.jitter_ratio draw base ≡ some d
          → d ≤ longest)
      → (wire : WireRequest J.Value) (worlds : ℕ → World (U.Url)) (now : ℕ)
      → (execute J R http_date deserialize U client e wire worlds now).now
        ≤ now + call_bound client longest (attempts_of client e)
  unfolding execute
  execute-Lasts longest jitter wire worlds now =
      let d = call_bound client longest (attempts_of client e) in
      check-Lasts (validate e wire) _ d now (λ _.
        check-Lasts
          (joined J R http_date deserialize (U.join client.base_url (trim_start_slashes e.path))) _
          d now
          (λ url.
            call-Lasts J R http_date deserialize e client longest jitter wire url worlds
              (attempts_of client e) now))
