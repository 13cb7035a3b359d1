-- ===== src/Api/Call.antt =====
-- A call of the typed API (src/api/mod.rs, src/client.rs): the descriptor and the fields that
-- `execute_endpoint` is given.
use smspool_sdk.Prelude.{String, List, Result}
use smspool_sdk.Json.{Json}
use smspool_sdk.Float.{Floats}
use smspool_sdk.Url.{Urls}
use smspool_sdk.Endpoint.{Endpoint}
use smspool_sdk.Error.{Error, invalid_request}
use smspool_sdk.Client.{Client}
use smspool_sdk.Transport.Io.{Io}
use smspool_sdk.Transport.Attempt.{World}
use smspool_sdk.Transport.Execute.{execute}
use smspool_sdk.Transport.Validate.Descriptors.{wire}
use smspool_sdk.Prelude.{ℕ, Option}

pub record ApiCall : Type 0 where
  pub endpoint : Endpoint
  pub fields : List (String × String)

abbrev pub call : Endpoint → List (String × String) → ApiCall
call endpoint fields = record { endpoint = endpoint; fields = fields }

-- `invalid`.
abbrev pub invalid : {V : Type 0} → (field reason : String) → Error V
invalid field reason = invalid_request field reason

-- `self.client.execute_endpoint(endpoint, wire(fields)).await`.
module _ (J : Json) (R : Floats) (http_date : List ℕ → Option ℕ) {T : Type 0}
    (deserialize : J.Value → Result T String) (U : Urls) where
  unfoldable pub execute_endpoint :
      Client (R.F) (U.Url) → (ℕ → World (U.Url)) → ApiCall → Io (Error J.Value) T
  execute_endpoint client worlds c =
      execute J R http_date deserialize U client c.endpoint (wire c.fields) worlds
