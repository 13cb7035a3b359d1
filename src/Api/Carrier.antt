-- ===== src/Api/Carrier.antt =====
-- The operations of `CarrierApi` (src/api/carrier.rs): the carrier lookup, with their requests and the fields that they send.
use smspool_sdk.Prelude.{[], ◌∷◌}
use smspool_sdk.Endpoint.{carrier_lookup}
use smspool_sdk.Types.{Secret, phone_number}
use smspool_sdk.Api.Call.{ApiCall, call}

abbrev pub paid_lookup : Secret phone_number → ApiCall
paid_lookup phone = call carrier_lookup (("phonenumber", phone.expose) ∷ [])
