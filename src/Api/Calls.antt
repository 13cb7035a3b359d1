-- ===== src/Api/Calls.antt =====
-- The calls that the typed API makes, operation by operation (src/api).
use smspool_sdk.Prelude.{ℕ, ◌≡◌, Bool, String, Option, ok}
use smspool_sdk.Types.{
  Identifier, RawFormValue, Secret, order_id, country_id, service_id, pool_id, preorder_id,
  rental_id, rental_code, plan_id, transaction_id, business_user_id, activation_token, phone_number,
}
use smspool_sdk.Api.Call.{ApiCall}
use smspool_sdk.Api.Sms.Requests.{
  PurchaseFields, ExperimentalPurchaseRequest, HistoryRequest, AreaCodesRequest,
}
use smspool_sdk.Api.Sms.Calls
use smspool_sdk.Api.Rental
use smspool_sdk.Api.Preorder
use smspool_sdk.Api.Esim
use smspool_sdk.Api.Catalog
use smspool_sdk.Api.Voucher
use smspool_sdk.Api.Business
use smspool_sdk.Api.Pricing
use smspool_sdk.Api.Carrier

-- A call that the typed API makes.
pub data IsApiCall (V : Type 0) : ApiCall → Type 1 where
  sms_purchase_call :
      {D : Type 0} (show : D → String) (request : PurchaseFields D)
      → IsApiCall V (Calls.purchase show request)
  sms_purchase_raw_call :
      {D : Type 0} (show : D → String) (request : ExperimentalPurchaseRequest D)
      → IsApiCall V (Calls.purchase_raw show request)
  sms_check_call : (order : Identifier order_id) → IsApiCall V (Calls.check order)
  sms_active_call : IsApiCall V (Calls.active)
  sms_cancel_call : (order : Identifier order_id) → IsApiCall V (Calls.cancel order)
  sms_history_call : (request : HistoryRequest) → IsApiCall V (Calls.history request)
  sms_cancel_all_call : IsApiCall V (Calls.cancel_all)
  sms_clear_cache_call : IsApiCall V (Calls.clear_cache)
  sms_activate_call : (order : Identifier order_id) → IsApiCall V (Calls.activate order)
  sms_reactivate_call : (order : Identifier order_id) → IsApiCall V (Calls.reactivate order)
  sms_archive_call : IsApiCall V (Calls.archive)
  sms_check_resend_call : (order : Identifier order_id) → IsApiCall V (Calls.check_resend order)
  sms_resend_call : (order : Identifier order_id) → IsApiCall V (Calls.resend order)
  sms_stock_call :
      (country : Identifier country_id) (service : Identifier service_id)
      (pool : Identifier pool_id)
      → IsApiCall V (Calls.stock country service pool)
  sms_area_codes_call : (request : AreaCodesRequest) → IsApiCall V (Calls.area_codes request)
  rental_catalog_call : (rental_type : RawFormValue) → IsApiCall V (Rental.catalog rental_type)
  rental_purchase_call :
      (request : Rental.RentalPurchaseRequest) → IsApiCall V (Rental.purchase request)
  rental_refund_call : (code : Identifier rental_code) → IsApiCall V (Rental.refund code)
  rental_set_auto_extend_call :
      (code : Identifier rental_code) → IsApiCall V (Rental.set_auto_extend code)
  rental_history_call : IsApiCall V (Rental.history)
  rental_messages_call : (code : Identifier rental_code) → IsApiCall V (Rental.messages code)
  rental_status_call : (code : Identifier rental_code) → IsApiCall V (Rental.status code)
  rental_reset_call : (code : Identifier rental_code) → IsApiCall V (Rental.reset code)
  rental_services_call : (rental : Identifier rental_id) → IsApiCall V (Rental.services rental)
  rental_active_call : IsApiCall V (Rental.active)
  rental_pricing_call : (rental : Identifier rental_id) → IsApiCall V (Rental.pricing rental)
  rental_info_call : (code : Identifier rental_code) → IsApiCall V (Rental.info code)
  rental_extend_call :
      {c : ApiCall} (code : Identifier rental_code) (days : ℕ)
      → Rental.extend {V = V} code days ≡ ok c
      → IsApiCall V c
  rental_stock_call :
      {c : ApiCall} (rental : Identifier rental_id) (days : ℕ)
      → Rental.stock {V = V} rental days ≡ ok c
      → IsApiCall V c
  preorder_retrieve_call : IsApiCall V (Preorder.retrieve)
  preorder_check_call : (order : Identifier preorder_id) → IsApiCall V (Preorder.check order)
  preorder_cancel_call : (order : Identifier preorder_id) → IsApiCall V (Preorder.cancel order)
  preorder_create_call :
      {D : Type 0} (show : D → String) (request : Preorder.CreatePreorderRequest D)
      → IsApiCall V (Preorder.create show request)
  preorder_price_call :
      (request : Preorder.PreorderPriceRequest) → IsApiCall V (Preorder.price request)
  esim_purchase_call : (plan : Identifier plan_id) → IsApiCall V (Esim.purchase plan)
  esim_pricing_call : (page : Esim.EsimPageRequest) → IsApiCall V (Esim.pricing page)
  esim_history_call : (page : Esim.EsimPageRequest) → IsApiCall V (Esim.history page)
  esim_plans_call : (country : Identifier country_id) → IsApiCall V (Esim.plans country)
  esim_profile_call :
      (transaction : Identifier transaction_id) → IsApiCall V (Esim.profile transaction)
  esim_delete_call :
      (transaction : Identifier transaction_id) → IsApiCall V (Esim.delete transaction)
  esim_top_up_call :
      (transaction : Identifier transaction_id) (plan : Identifier plan_id)
      → IsApiCall V (Esim.top_up transaction plan)
  esim_top_up_plans_call : (plan : Identifier plan_id) → IsApiCall V (Esim.top_up_plans plan)
  catalog_success_rates_call :
      (service : Identifier service_id) → IsApiCall V (Catalog.success_rates service)
  catalog_balance_call : IsApiCall V (Catalog.balance)
  catalog_suggested_countries_call :
      (service : Identifier service_id) → IsApiCall V (Catalog.suggested_countries service)
  catalog_suggested_pools_call :
      (service : Identifier service_id) (country : Identifier country_id) (web : Option Bool)
      → IsApiCall V (Catalog.suggested_pools service country web)
  catalog_countries_call : IsApiCall V (Catalog.countries)
  catalog_services_call :
      (country : Option (Identifier country_id)) → IsApiCall V (Catalog.services country)
  catalog_pools_call : IsApiCall V (Catalog.pools)
  voucher_generate_call :
      {D : Type 0} (show : D → String) (request : Voucher.GenerateVoucherRequest D)
      → IsApiCall V (Voucher.generate show request)
  voucher_retrieve_call : IsApiCall V (Voucher.retrieve)
  voucher_delete_call : (voucher : Secret activation_token) → IsApiCall V (Voucher.delete voucher)
  voucher_bulk_generate_call :
      {D : Type 0} (show : D → String) (request : Voucher.BulkGenerateVouchersRequest D)
      → IsApiCall V (Voucher.bulk_generate show request)
  business_user_history_call :
      (user : Identifier business_user_id) → IsApiCall V (Business.user_history user)
  business_users_call : IsApiCall V (Business.users)
  business_create_user_call :
      (request : Business.CreateBusinessUserRequest) → IsApiCall V (Business.create_user request)
  pricing_quote_call :
      (country : Identifier country_id) (service : Identifier service_id)
      (pool : Identifier pool_id)
      → IsApiCall V (Pricing.quote country service pool)
  carrier_paid_lookup_call : (phone : Secret phone_number) → IsApiCall V (Carrier.paid_lookup phone)
  business_update_user_call :
      {c : ApiCall} {D : Type 0} (show : D → String) (request : Business.BusinessUpdateRequest D)
      → Business.update_user {V = V} show request ≡ ok c
      → IsApiCall V c
  pricing_all_call :
      {c : ApiCall} {D : Type 0} (show : D → String) (request : Pricing.PricingFilters D)
      → Pricing.all_prices {V = V} show request ≡ ok c
      → IsApiCall V c
