-- ===== src/Transport/Execute.antt =====
-- The retry loop, `execute` (src/transport.rs).
pub mod Mutation
pub mod Calls
pub mod Ending
pub mod Budget
pub mod Overrun
use smspool_sdk.Prelude.{
  ℕ, zero, suc, Bool, true, false, ◌&&◌, String, Option, none, some, List, Result, ok, err, ltb,
  if◌then◌else◌, unwrap_or,
}
use smspool_sdk.Json.{Json}
use smspool_sdk.Float.{Floats}
use smspool_sdk.Url.{Urls, trim_start_slashes}
use smspool_sdk.Endpoint.{Endpoint, WireRequest, is_read_only}
use smspool_sdk.Error.{Error, invalid_request}
use smspool_sdk.Client.{Client}
use smspool_sdk.Transport.Io.{
  Io, panicked, at_exit, or_panic, fail, lift, ◌>>=◌, ◌>>◌, rescue, sleep,
}
use smspool_sdk.Transport.Validate.{validate}
use smspool_sdk.Transport.Failure.{AttemptFailure}
use smspool_sdk.Transport.Header.{backoff_delay}
use smspool_sdk.Transport.Attempt.{World, execute_attempt}

-- `max_attempts` of the call.
abbrev pub attempts_of : {F U : Type 0} → Client F U → Endpoint → ℕ
attempts_of client e = if is_read_only e.safety then client.retry.max_attempts else 1

module _ (J : Json) (R : Floats) (http_date : List ℕ → Option ℕ) {T : Type 0}
    (deserialize : J.Value → Result T String) where
  open J use {Value}
  open R use {F}

  -- The wait before the next attempt, or the panic of the backoff.
  abbrev pub retry_delay :
      {U : Type 0} → Client F U → World U → (attempt : ℕ) → AttemptFailure Value → Option ℕ
  retry_delay client w attempt failure = elim failure.retry_after [
    | some delay ↦ some delay
    | none ↦ backoff_delay R client.retry w.draw attempt
  ]

  -- The arms of the match on a failed attempt; `rest` is the loop from the next one on.
  retry_or_fail :
      {U : Type 0}
      → Client F U
      → World U
      → (attempt max_attempts : ℕ) → Io (Error Value) T
      → AttemptFailure Value
      → Io (Error Value) T
  retry_or_fail client w attempt max_attempts rest failure =
      elim (failure.retryable && ltb attempt max_attempts) [
        | true ↦ or_panic (retry_delay client w attempt failure) >>= λ delay. sleep delay >> rest
        | false ↦ fail failure.error
      ]

  -- `for attempt in 1..=max_attempts`, with `left` rounds left; past the last one the code panics.
  unfoldable pub attempts :
      {U : Type 0}
      → Client F U
      → Endpoint
      → WireRequest Value
      → U
      → (ℕ → World U)
      → (max_attempts left attempt : ℕ) → Io (Error Value) T
  unfolding retry_or_fail
  attempts client e wire url worlds max_attempts zero attempt = at_exit panicked
  attempts client e wire url worlds max_attempts (suc left) attempt =
      rescue
        (execute_attempt J R http_date deserialize client e wire url (ltb attempt max_attempts)
          (worlds attempt))
        (λ failure.
          retry_or_fail client (worlds attempt) attempt max_attempts
            (attempts client e wire url worlds max_attempts left (suc attempt)) failure)

  joined : {U : Type 0} → Option U → Result U (Error Value)
  joined none = err (invalid_request "path" "could not join the relative endpoint path")
  joined (some url) = ok url

  unfoldable pub execute :
      (U : Urls)
      → Client F (U.Url)
      → Endpoint
      → WireRequest Value
      → (ℕ → World (U.Url))
      → Io (Error Value) T
  unfolding joined
  execute U client e wire worlds = do
    lift (validate e wire)
    url ← lift (joined (U.join client.base_url (trim_start_slashes e.path)))
    attempts client e wire url worlds (attempts_of client e) (attempts_of client e) 1
