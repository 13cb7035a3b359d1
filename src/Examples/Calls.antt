-- ===== src/Examples/Calls.antt =====
-- Calls at concrete servers (src/transport.rs).
use smspool_sdk.Prelude.{ℕ, ◌+◌, ◌≤◌, ◌<◌, ◌≡◌, refl, none, some, List, [], ◌∷◌, ok, arith}
use smspool_sdk.Endpoint.{sms_purchase, sms_check}
use smspool_sdk.Error.{Error, decode, json_decode}
use smspool_sdk.Client.{max_in_flight_duration}
use smspool_sdk.Transport.Io.{Exit, done, failed}
use smspool_sdk.Url.{domain, trim_start_slashes}
use smspool_sdk.Transport.Failure.{unknown}
use smspool_sdk.Transport.Validate.{validate}
use smspool_sdk.Transport.Rules.{IsSettled}
use smspool_sdk.Transport.Attempt.Ending.{IsFair}
use smspool_sdk.Transport.Execute.{execute, attempts_of}
use smspool_sdk.Transport.Execute.Calls.{
  request_limit, IsReadFailure, execute-SendsAtMost, execute-IsReadFailure,
}
use smspool_sdk.Transport.Execute.Mutation.{IsMutationOutcome, execute-IsMutationOutcome}
use smspool_sdk.Transport.Execute.Ending.{execute-Ends}
use smspool_sdk.Transport.Execute.Budget.{call_bound, execute-Lasts}
use smspool_sdk.Transport.Execute.Overrun.{slow_world, execute-overruns}
use smspool_sdk.Examples.Crates.{
  json, floats, urls, no_dates, deserialize, client, single_client, answering, empty_wire, Document,
}

abbrev run : (status : ℕ) (bytes : List ℕ) → Exit (Error Document) ℕ
run status bytes =
    (execute json floats no_dates deserialize urls client sms_check empty_wire
      (λ k. answering status bytes) 0).exit

-- A purchase whose answer cannot be parsed has an unknown outcome, a good one succeeds.
abbrev run_purchase : (bytes : List ℕ) → Exit (Error Document) ℕ
run_purchase bytes =
    (execute json floats no_dates deserialize urls client sms_purchase empty_wire
      (λ k. answering 200 bytes) 0).exit

run_purchase_ok : run_purchase (1 ∷ []) ≡ done 7
unfolding execute smspool_sdk.Transport.Validate.validate smspool_sdk.Transport.Validate.check_body
    smspool_sdk.Transport.Validate.check_auth smspool_sdk.Transport.Execute.attempts
    smspool_sdk.Transport.Attempt.execute_attempt smspool_sdk.Transport.Request.build_request
    smspool_sdk.Transport.Admission.acquire_admission smspool_sdk.Transport.Admission.admit_rounds
    smspool_sdk.Transport.Admission.admit_round smspool_sdk.Transport.Attempt.send
    smspool_sdk.Transport.Attempt.receive smspool_sdk.Transport.Attempt.collect
    smspool_sdk.Transport.Body.read_bounded smspool_sdk.Transport.Attempt.interpret
    smspool_sdk.Transport.Decode.top_level_failure
run_purchase_ok = refl

run_purchase-unknown : run_purchase [] ≡ failed (unknown sms_purchase json_decode (some 200))
unfolding execute smspool_sdk.Transport.Validate.validate smspool_sdk.Transport.Validate.check_body
    smspool_sdk.Transport.Validate.check_auth smspool_sdk.Transport.Execute.attempts
    smspool_sdk.Transport.Attempt.execute_attempt smspool_sdk.Transport.Request.build_request
    smspool_sdk.Transport.Admission.acquire_admission smspool_sdk.Transport.Admission.admit_rounds
    smspool_sdk.Transport.Admission.admit_round smspool_sdk.Transport.Attempt.send
    smspool_sdk.Transport.Attempt.receive smspool_sdk.Transport.Attempt.collect
    smspool_sdk.Transport.Body.read_bounded smspool_sdk.Transport.Attempt.interpret
    smspool_sdk.Transport.Decode.top_level_failure
    smspool_sdk.Transport.Failure.after_delivery_error
run_purchase-unknown = refl

run_empty : run 200 [] ≡ failed (decode "sms.check" none)
unfolding execute smspool_sdk.Transport.Validate.validate smspool_sdk.Transport.Validate.check_body
    smspool_sdk.Transport.Validate.check_auth smspool_sdk.Transport.Execute.attempts
    smspool_sdk.Transport.Attempt.execute_attempt smspool_sdk.Transport.Request.build_request
    smspool_sdk.Transport.Admission.acquire_admission smspool_sdk.Transport.Admission.admit_rounds
    smspool_sdk.Transport.Admission.admit_round smspool_sdk.Transport.Attempt.send
    smspool_sdk.Transport.Attempt.receive smspool_sdk.Transport.Attempt.collect
    smspool_sdk.Transport.Body.read_bounded smspool_sdk.Transport.Attempt.interpret
    smspool_sdk.Transport.Decode.top_level_failure
    smspool_sdk.Transport.Failure.after_delivery_error
run_empty = refl

fair : (k : ℕ) → IsFair client (answering 200 [])
fair k = record { forward = λ j n h. cc; fuel = omega arith }

execute-IsMutationOutcome_example :
    let o =
      execute json floats no_dates deserialize urls client sms_purchase empty_wire
        (λ k. answering 200 [])
        0 in
    IsMutationOutcome json floats no_dates deserialize sms_purchase refl o.sent o.exit
execute-IsMutationOutcome_example =
    execute-IsMutationOutcome json floats no_dates deserialize sms_purchase refl urls client
      empty_wire (λ k. answering 200 []) 0

execute-SendsAtMost_example :
    (execute json floats no_dates deserialize urls client sms_check empty_wire
      (λ k. answering 500 (1 ∷ []))
      0).sent
    ≤ request_limit (validate sms_check empty_wire) sms_check.safety 2
execute-SendsAtMost_example =
    execute-SendsAtMost json floats no_dates deserialize sms_check urls client empty_wire
      (λ k. answering 500 (1 ∷ [])) 0

execute-IsReadFailure_example : IsReadFailure {V = Document} sms_check (decode "sms.check" none)
execute-IsReadFailure_example =
    execute-IsReadFailure json floats no_dates deserialize sms_check urls client refl empty_wire
      (λ k. answering 200 []) 0 (decode "sms.check" none) run_empty

execute-Ends_example : IsSettled (
    execute json floats no_dates deserialize urls client sms_check empty_wire
      (λ k. answering 200 [])
      0)
execute-Ends_example =
    execute-Ends json floats no_dates deserialize sms_check urls client 10
      (λ draw base h. (base, ground arith, h)) (omega arith) empty_wire (λ k. answering 200 []) fair
      0 (λ k. omega arith)

execute-Lasts_example :
    (execute json floats no_dates deserialize urls client sms_check empty_wire
      (λ k. answering 500 (1 ∷ []))
      0).now
    ≤ call_bound client 10 2
execute-Lasts_example =
    execute-Lasts json floats no_dates deserialize sms_check urls client 10
      (λ draw base d h q. ground arith) empty_wire (λ k. answering 500 (1 ∷ [])) 0

empty_wire_passes : validate {V = Document} sms_purchase empty_wire ≡ ok tt
unfolding validate smspool_sdk.Transport.Validate.check_body
    smspool_sdk.Transport.Validate.check_auth
empty_wire_passes = refl

execute-overruns_example :
    0 + max_in_flight_duration single_client
    < (execute json floats no_dates deserialize urls single_client sms_purchase empty_wire
        (λ k. slow_world single_client)
        0).now
execute-overruns_example =
    execute-overruns json floats no_dates deserialize sms_purchase urls single_client empty_wire
      (record {
        scheme = "https";
        host = domain "api.smspool.net";
        path = trim_start_slashes "/purchase/sms";
      })
      0 refl refl (omega arith) refl empty_wire_passes refl
