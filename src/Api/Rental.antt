-- ===== src/Api/Rental.antt =====
-- The operations of `RentalApi` (src/api/rental.rs): the rentals, with their requests and the fields that they send.
use smspool_sdk.Prelude.{ℕ, Bool, false, String, List, [], ◌∷◌, Result, ok, ◌==◌, reject_if, ◌>>◌}
use smspool_sdk.Endpoint.{
  Endpoint, rental_active, rental_auto_extend, rental_catalog, rental_extend, rental_history,
  rental_info, rental_messages, rental_pricing, rental_purchase, rental_refund, rental_reset,
  rental_services, rental_status, rental_stock,
}
use smspool_sdk.Error.{Error}
use smspool_sdk.Types.{Identifier, IdentifierKind, RawFormValue, rental_id, rental_code}
use smspool_sdk.Api.Fields.{decimal, flag}
use smspool_sdk.Api.Call.{ApiCall, call, invalid}

pub record RentalPurchaseRequest : Type 0 where
  pub rental : Identifier rental_id
  pub days : ℕ
  pub service_id : Identifier IdentifierKind.service_id
  pub create_token : Bool

-- `RentalPurchaseRequest::new`.
unfoldable pub rental_purchase_request :
    {V : Type 0}
    → Identifier rental_id
    → (days : ℕ) → Identifier IdentifierKind.service_id
    → Result RentalPurchaseRequest (Error V)
rental_purchase_request rental days service =
    reject_if (days == 0) (invalid "days" "must be greater than zero")
    >> ok (record { rental = rental; days = days; service_id = service; create_token = false })

-- `RentalPurchaseRequest::fields`.
unfoldable pub encode_purchase : RentalPurchaseRequest → List (String × String)
encode_purchase request =
    ("id", request.rental.as_str)
    ∷ ("days", decimal request.days)
    ∷ ("service_id", request.service_id.as_str)
    ∷ ("create_token", flag request.create_token)
    ∷ []

-- `code_action`.
abbrev pub code_action : Endpoint → Identifier rental_code → ApiCall
code_action endpoint code = call endpoint (("rental_code", code.as_str) ∷ [])

abbrev pub catalog : RawFormValue → ApiCall
catalog rental_type = call rental_catalog (("type", rental_type.as_str) ∷ [])

abbrev pub purchase : RentalPurchaseRequest → ApiCall
purchase request = call rental_purchase (encode_purchase request)

abbrev pub refund : Identifier rental_code → ApiCall
refund code = code_action rental_refund code

abbrev pub set_auto_extend : Identifier rental_code → ApiCall
set_auto_extend code = call rental_auto_extend (("rental_code", code.as_str) ∷ [])

abbrev pub history : ApiCall
history = call rental_history []

abbrev pub messages : Identifier rental_code → ApiCall
messages code = call rental_messages (("rental_code", code.as_str) ∷ [])

abbrev pub status : Identifier rental_code → ApiCall
status code = call rental_status (("rental_code", code.as_str) ∷ [])

abbrev pub reset : Identifier rental_code → ApiCall
reset code = code_action rental_reset code

abbrev pub services : Identifier rental_id → ApiCall
services rental = call rental_services (("rental", rental.as_str) ∷ [])

abbrev pub active : ApiCall
active = call rental_active []

abbrev pub pricing : Identifier rental_id → ApiCall
pricing rental = call rental_pricing (("id", rental.as_str) ∷ [])

abbrev pub info : Identifier rental_code → ApiCall
info code = call rental_info (("rental_code", code.as_str) ∷ [])

-- `extend`.
unfoldable pub extend :
    {V : Type 0} → Identifier rental_code → (days : ℕ) → Result ApiCall (Error V)
extend code days =
    reject_if (days == 0) (invalid "days" "must be greater than zero")
    >> ok (call rental_extend (("days", decimal days) ∷ ("rental_code", code.as_str) ∷ []))

-- `stock`.
unfoldable pub stock : {V : Type 0} → Identifier rental_id → (days : ℕ) → Result ApiCall (Error V)
stock rental days =
    reject_if (days == 0) (invalid "days" "must be greater than zero")
    >> ok (call rental_stock (("id", rental.as_str) ∷ ("days", decimal days) ∷ []))
