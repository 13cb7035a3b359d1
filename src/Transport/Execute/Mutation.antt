-- ===== src/Transport/Execute/Mutation.antt =====
-- A call of a mutation is sent at most once, and how it fails (src/transport.rs).
use smspool_sdk.Prelude.{
  ℕ, ◌+◌, ◌≤◌, ◌≡◌, refl, ◌⊎◌, inl, false, String, Option, List, Result, ok, err, arith,
}
use smspool_sdk.Json.{Json}
use smspool_sdk.Float.{Floats}
use smspool_sdk.Url.{Urls, trim_start_slashes}
use smspool_sdk.Endpoint.{Endpoint, WireRequest, is_read_only}
use smspool_sdk.Error.{Error}
use smspool_sdk.Client.{Client}
use smspool_sdk.Transport.Io.{
  Exit, Io, lift, ◌>>=◌, at_exit, done, failed, panicked, out_of_fuel, handle,
}
use smspool_sdk.Transport.Admission.Laws.{IsUndelivered}
use smspool_sdk.Transport.Validate.{validate}
use smspool_sdk.Transport.Validate.Laws.{IsInvalidRequest, validate-Errs}
use smspool_sdk.Transport.Failure.{AttemptFailure}
use smspool_sdk.Transport.Attempt.{World, execute_attempt}
use smspool_sdk.Transport.Attempt.Failures.{
  IsMutationError, IsAttemptFailure, execute_attempt-Fails, execute_attempt-Sends,
}
use smspool_sdk.Transport.Attempt.Sends.{execute_attempt-SendsAtMost}
use smspool_sdk.Transport.Execute.{retry_or_fail, attempts, joined, execute}

nothing_before : (n : ℕ) → 0 + n ≡ n
nothing_before n = omega arith

module _ (J : Json) (R : Floats) (http_date : List ℕ → Option ℕ) {T : Type 0}
    (deserialize : J.Value → Result T String) (e : Endpoint)
    (mutating : is_read_only e.safety ≡ false) where
  -- The outcome of a mutation: at most one request, exactly one before a success, and an error that
  -- tells whether the request was handed over.
  abbrev pub IsMutationOutcome : (sent : ℕ) → Exit (Error J.Value) T → Type 0
  IsMutationOutcome sent (done t) = sent ≡ 1
  IsMutationOutcome sent (failed x) =
      ((sent ≡ 0) × IsUndelivered e x) ⊎ ((sent ≡ 1) × IsMutationError e x)
  IsMutationOutcome sent panicked = sent ≤ 1
  IsMutationOutcome sent out_of_fuel = sent ≤ 1

  -- A last attempt is not retried, so the call's outcome is its own.
  last_attempt :
      {U : Type 0} (client : Client (R.F) U) (w : World U) (rest : Io (Error J.Value) T)
      (exit : Exit (AttemptFailure J.Value) T) (now sent : ℕ)
      → sent ≤ 1
      → ((t : T) → exit ≡ done t → sent ≡ 1)
      → ((x : AttemptFailure J.Value)
          → exit ≡ failed x
          → IsAttemptFailure J R http_date deserialize e sent x)
      → let o = handle exit now sent (retry_or_fail J R http_date deserialize client w 1 1 rest) in
        IsMutationOutcome o.sent o.exit
  unfolding retry_or_fail
  last_attempt client w rest (done t) now sent most sends fails = sends t refl
  last_attempt client w rest (failed x) now sent most sends fails =
      let fact = fails x refl in ground (arith, mutating)
  last_attempt client w rest panicked now sent most sends fails = most
  last_attempt client w rest out_of_fuel now sent most sends fails = most

  one_attempt :
      {U : Type 0} (client : Client (R.F) U) (wire : WireRequest J.Value) (url : U)
      (worlds : ℕ → World U) (now : ℕ)
      → let o = attempts J R http_date deserialize client e wire url worlds 1 1 1 now in
        IsMutationOutcome o.sent o.exit
  unfolding attempts
  one_attempt client wire url worlds now =
      let o = execute_attempt J R http_date deserialize client e wire url false (worlds 1) now in
      last_attempt client (worlds 1) (at_exit panicked) o.exit o.now o.sent
        (execute_attempt-SendsAtMost J R http_date deserialize e client wire url false (worlds 1)
          now)
        (execute_attempt-Sends J R http_date deserialize e client wire url false (worlds 1) now)
        (execute_attempt-Fails J R http_date deserialize e client wire url false (worlds 1) now)

  -- A check that fails before anything is sent is an outcome of a mutation.
  check_first :
      {A : Type 0} (r : Result A (Error J.Value)) (f : A → Io (Error J.Value) T) (now : ℕ)
      → ((x : Error J.Value) → r ≡ err x → IsUndelivered e x)
      → ((a : A) → IsMutationOutcome (f a now).sent (f a now).exit)
      → IsMutationOutcome ((lift r >>= f) now).sent ((lift r >>= f) now).exit
  check_first (ok a) f now checks rest = rw (nothing_before (f a now).sent) (rest a)
  check_first (err y) f now checks rest = inl (refl, checks y refl)

  invalid_request-IsUndelivered : (x : Error J.Value) → IsInvalidRequest x → IsUndelivered e x
  invalid_request-IsUndelivered x h = ground arith

  validate-IsUndelivered :
      (wire : WireRequest J.Value) (x : Error J.Value) → validate e wire ≡ err x → IsUndelivered e x
  validate-IsUndelivered wire x h = invalid_request-IsUndelivered x (validate-Errs e wire x h)

  joined-IsUndelivered :
      {U : Type 0} (o : Option U) (x : Error J.Value)
      → joined J R http_date deserialize o ≡ err x
      → IsUndelivered e x
  unfolding joined
  joined-IsUndelivered o x h = ground arith

  -- A call of a mutation hands over at most one request. It succeeds only after that request. It fails
  -- before the request with an error that says so, or after it with the provider's answer, a refused
  -- connection, or the outcome reported as unknown for reconciliation.
  pub execute-IsMutationOutcome :
      (U : Urls) (client : Client (R.F) (U.Url)) (wire : WireRequest J.Value)
      (worlds : ℕ → World (U.Url)) (now : ℕ)
      → let o = execute J R http_date deserialize U client e wire worlds now in
        IsMutationOutcome o.sent o.exit
  unfolding execute
  execute-IsMutationOutcome U client wire worlds now =
      check_first (validate e wire) _ now (validate-IsUndelivered wire) (λ _.
        check_first
          (joined J R http_date deserialize (U.join client.base_url (trim_start_slashes e.path))) _
          now (joined-IsUndelivered _)
          (λ url. rw mutating (one_attempt client wire url worlds now)))
