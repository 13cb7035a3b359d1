-- ===== src/Api/Sms/Calls.antt =====
-- The operations of `SmsApi` and `ExperimentalSmsApi` (src/api/sms.rs): what each hands to the
-- transport. `D` stands for `Money`, shown by `show`.
use smspool_sdk.Prelude.{String, List, [], ◌∷◌, Result, err, false}
use smspool_sdk.Endpoint.{
  Endpoint, sms_purchase, sms_check, sms_active, sms_cancel, sms_history, sms_cancel_all,
  sms_clear_cache, sms_activate, sms_reactivate, sms_archive, sms_check_resend, sms_resend,
  sms_stock, sms_all_stock, sms_area_codes,
}
use smspool_sdk.Error.{Error, unsupported_operation, response_not_suitable_for_buffered_sdk}
use smspool_sdk.Types.{Identifier, order_id, country_id, service_id, pool_id}
use smspool_sdk.Api.Call.{ApiCall, call}
use smspool_sdk.Api.Sms.Requests.{
  PurchaseFields, ExperimentalPurchaseRequest, HistoryRequest, AreaCodesRequest, encode_purchase,
  encode_history, encode_area_codes,
}

-- The body `[("orderid", order_id.to_string())]`.
abbrev order_field : Identifier order_id → List (String × String)
order_field order = ("orderid", order.as_str) ∷ []

module _ {D : Type 0} (show : D → String) where
  abbrev pub purchase : PurchaseFields D → ApiCall
  purchase request = call sms_purchase (encode_purchase show request 1 false)

  abbrev pub purchase_raw : ExperimentalPurchaseRequest D → ApiCall
  purchase_raw request =
      call sms_purchase (encode_purchase show request.base request.quantity request.create_token)

abbrev pub check : Identifier order_id → ApiCall
check order = call sms_check (order_field order)

abbrev pub active : ApiCall
active = call sms_active []

abbrev pub cancel : Identifier order_id → ApiCall
cancel order = call sms_cancel (order_field order)

abbrev pub history : HistoryRequest → ApiCall
history request = call sms_history (encode_history request)

abbrev pub cancel_all : ApiCall
cancel_all = call sms_cancel_all []

abbrev pub clear_cache : ApiCall
clear_cache = call sms_clear_cache []

-- `order_action`.
abbrev pub order_action : Endpoint → Identifier order_id → ApiCall
order_action endpoint order = call endpoint (order_field order)

abbrev pub activate : Identifier order_id → ApiCall
activate order = order_action sms_activate order

abbrev pub reactivate : Identifier order_id → ApiCall
reactivate order = order_action sms_reactivate order

abbrev pub archive : ApiCall
archive = call sms_archive []

abbrev pub check_resend : Identifier order_id → ApiCall
check_resend order = call sms_check_resend (order_field order)

abbrev pub resend : Identifier order_id → ApiCall
resend order = call sms_resend (order_field order)

abbrev pub stock : Identifier country_id → Identifier service_id → Identifier pool_id → ApiCall
stock country service pool =
    call sms_stock
      (("country", country.as_str) ∷ ("service", service.as_str) ∷ ("pool", pool.as_str) ∷ [])

abbrev pub area_codes : AreaCodesRequest → ApiCall
area_codes request = call sms_area_codes (encode_area_codes request)

-- `all_stock`, which calls nothing.
unfoldable pub all_stock : {V : Type 0} → Result ApiCall (Error V)
all_stock = err (unsupported_operation sms_all_stock.name response_not_suitable_for_buffered_sdk)
