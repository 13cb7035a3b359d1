-- ===== src/Transport/Failure.antt =====
-- How a failed attempt is classified (src/transport.rs): what may be retried, and when the outcome
-- of a mutation is unknown.
use smspool_sdk.Prelude.{ℕ, Bool, true, false, not, String, Option, none, if◌then◌else◌}
use smspool_sdk.Endpoint.{Endpoint, is_read_only}
use smspool_sdk.Error.{
  Error, OutcomeStage, TransportErrorKind, TimeoutPhase, sending, connect, connection,
  outcome_unknown, transport, timeout,
}

pub record AttemptFailure (V : Type 0) : Type 0 where
  pub error : Error V
  pub retryable : Bool
  pub retry_after : Option ℕ

abbrev pub reconciliation_hint : String
reconciliation_hint =
    "query the corresponding status or history endpoint before deciding whether to retry"

-- The predicates of a `reqwest::Error`.
pub record SendError : Type 0 where
  pub is_connect : Bool
  pub is_timeout : Bool
  pub is_request : Bool
  pub is_body : Bool

-- The failure of a read-only send which is no connect failure.
abbrev send_error_kind : SendError → TransportErrorKind
send_error_kind x =
    if x.is_request
    then TransportErrorKind.request
    else if x.is_body
    then TransportErrorKind.body
    else connection

module _ {V : Type 0} where
  -- `AttemptFailure::final_error`.
  abbrev pub final_error : Error V → AttemptFailure V
  final_error error = record { error = error; retryable = false; retry_after = none }

  -- `AttemptFailure::retryable`.
  abbrev pub retryable_error : Error V → Option ℕ → AttemptFailure V
  retryable_error error retry_after = record {
    error = error;
    retryable = true;
    retry_after = retry_after;
  }

  unfoldable pub unknown : Endpoint → OutcomeStage → Option ℕ → Error V
  unknown e stage status = outcome_unknown (record {
    endpoint = e.name;
    safety = e.safety;
    stage = stage;
    status = status;
    reconciliation_hint = reconciliation_hint;
  })

  unfoldable pub after_delivery_error : Endpoint → OutcomeStage → Option ℕ → Error V → Error V
  unfolding unknown
  after_delivery_error e stage status read_only_error =
      if is_read_only e.safety then read_only_error else unknown e stage status

  unfoldable pub send_timeout : Endpoint → AttemptFailure V
  unfolding unknown
  send_timeout e =
      if is_read_only e.safety
      then retryable_error (timeout e.name TimeoutPhase.request) none
      else final_error (unknown e sending none)

  unfoldable pub send_error : Endpoint → SendError → AttemptFailure V
  unfolding unknown
  send_error e x =
      if x.is_connect
      then if is_read_only e.safety
        then retryable_error (transport e.name connect) none
        else final_error (transport e.name connect)
      else if not (is_read_only e.safety)
      then final_error (unknown e sending none)
      else if x.is_timeout
      then retryable_error (timeout e.name TimeoutPhase.request) none
      else retryable_error (transport e.name (send_error_kind x)) none
