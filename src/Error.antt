-- ===== src/Error.antt =====
-- The SDK's errors (src/error.rs). `V` stands for `serde_json::Value`; a status is its number.
use smspool_sdk.Prelude.{ℕ, String, Option, none, some, List, []}
use smspool_sdk.Endpoint.{SafetyClass}

pub data UnsupportedReason : Type 0 where
  response_not_suitable_for_buffered_sdk : UnsupportedReason

pub data TransportErrorKind : Type 0 where
  connect connection request body other : TransportErrorKind

pub data TimeoutPhase : Type 0 where
  concurrency_permit qps_admission request response_body : TimeoutPhase

pub data OutcomeStage : Type 0 where
  sending response_headers response_body json_decode model_decode : OutcomeStage

pub record OutcomeUnknown : Type 0 where
  pub endpoint : String
  pub safety : SafetyClass
  pub stage : OutcomeStage
  pub status : Option ℕ
  pub reconciliation_hint : String

pub record ParameterError : Type 0 where
  pub parameter : Option String
  pub message : Option String
  pub description : Option String

pub record ApiError (V : Type 0) : Type 0 where
  pub status : ℕ
  pub machine_type : Option String
  pub message : Option String
  pub parameter_errors : List ParameterError
  pub provider_details : Option V
  pub raw : Option V

pub data Error (V : Type 0) : Type 0 where
  api : ApiError V → Error V
  rate_limited : (endpoint : String) (retry_after : Option ℕ) → Error V
  transport : (endpoint : String) → TransportErrorKind → Error V
  timeout : (endpoint : String) → TimeoutPhase → Error V
  response_too_large : (endpoint : String) (limit : ℕ) → Error V
  decode : (endpoint : String) (path : Option String) → Error V
  invalid_request : (field reason : String) → Error V
  unsupported_operation : (endpoint : String) → UnsupportedReason → Error V
  outcome_unknown : OutcomeUnknown → Error V

module _ {V : Type 0} where
  -- `ApiError::new`.
  abbrev pub api_error : ℕ → ApiError V
  api_error status = record {
    status = status;
    machine_type = none;
    message = none;
    parameter_errors = [];
    provider_details = none;
    raw = none;
  }

  abbrev pub with_machine_type : ApiError V → String → ApiError V
  with_machine_type e machine_type = record e { machine_type = some machine_type }

  abbrev pub with_message : ApiError V → String → ApiError V
  with_message e message = record e { message = some message }

  abbrev pub with_parameter_errors : ApiError V → List ParameterError → ApiError V
  with_parameter_errors e errors = record e { parameter_errors = errors }

  abbrev pub with_provider_details : ApiError V → V → ApiError V
  with_provider_details e details = record e { provider_details = some details }

  abbrev pub with_raw : ApiError V → V → ApiError V
  with_raw e raw = record e { raw = some raw }

  -- The arm `Err(Error::RateLimited { retry_after, .. })` of a match.
  abbrev pub rate_limit_of : Error V → Option (Option ℕ)
  rate_limit_of (rate_limited endpoint retry_after) = some retry_after
  rate_limit_of _ = none
