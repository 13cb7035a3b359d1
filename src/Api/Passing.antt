-- ===== src/Api/Passing.antt =====
-- Every call of the typed API passes the checks of the transport (src/api, src/transport.rs).
use smspool_sdk.Prelude.{
  ◌≡◌, refl, subst, true, false, String, List, [], ◌∷◌, ok, is_nil, ◌==◌, reject_if-eq-ok,
  >>=-eq-ok,
}
use smspool_sdk.Endpoint.{
  Endpoint, no_body, rental_extend as extending, rental_stock as stocking,
  business_update_user as updating, pricing_all as listing,
}
use smspool_sdk.Transport.Validate.{validate}
use smspool_sdk.Transport.Validate.Descriptors.{wire, fits, fits-pass}
use smspool_sdk.Api.Fields.{decimal, flag}
use smspool_sdk.Api.Call.{ApiCall, call}
use smspool_sdk.Api.Sms.Requests.{encode_history, encode_area_codes}
use smspool_sdk.Api.Sms.Calls
use smspool_sdk.Api.Rental
use smspool_sdk.Api.Preorder
use smspool_sdk.Api.Esim
use smspool_sdk.Api.Catalog
use smspool_sdk.Api.Voucher
use smspool_sdk.Api.Business
use smspool_sdk.Api.Pricing
use smspool_sdk.Api.Carrier
use smspool_sdk.Api.Keyless.{
  IsKeyless, optional-Keyless, ok_inj, purchase-Keyless, filters-Keyless, update-Keyless,
}
use smspool_sdk.Api.Calls.{
  IsApiCall, sms_purchase_call, sms_purchase_raw_call, sms_check_call, sms_active_call,
  sms_cancel_call, sms_history_call, sms_cancel_all_call, sms_clear_cache_call, sms_activate_call,
  sms_reactivate_call, sms_archive_call, sms_check_resend_call, sms_resend_call, sms_stock_call,
  sms_area_codes_call, rental_catalog_call, rental_purchase_call, rental_refund_call,
  rental_set_auto_extend_call, rental_history_call, rental_messages_call, rental_status_call,
  rental_reset_call, rental_services_call, rental_active_call, rental_pricing_call,
  rental_info_call, rental_extend_call, rental_stock_call, preorder_retrieve_call,
  preorder_check_call, preorder_cancel_call, preorder_create_call, preorder_price_call,
  esim_purchase_call, esim_pricing_call, esim_history_call, esim_plans_call, esim_profile_call,
  esim_delete_call, esim_top_up_call, esim_top_up_plans_call, catalog_success_rates_call,
  catalog_balance_call, catalog_suggested_countries_call, catalog_suggested_pools_call,
  catalog_countries_call, catalog_services_call, catalog_pools_call, voucher_generate_call,
  voucher_retrieve_call, voucher_delete_call, voucher_bulk_generate_call,
  business_user_history_call, business_users_call, business_create_user_call, pricing_quote_call,
  carrier_paid_lookup_call, business_update_user_call, pricing_all_call,
}

-- A call passes the checks before anything is sent.
abbrev pub Passes : Type 0 → ApiCall → Type 0
Passes V c = validate {V = V} c.endpoint (wire c.fields) ≡ ok tt

passes :
    (V : Type 0) (e : Endpoint) (fields : List (String × String))
    → fits e ≡ true
    → IsKeyless fields
    → (e.body_mode ≡ no_body → fields ≡ [])
    → Passes V (call e fields)
passes V e fields h k l = fits-pass e fields h k l

-- Whatever its arguments, a call that the typed API makes passes every check of the transport: it
-- never sends a field named `key`, a body with a descriptor that has none, or the wrong kind of body.
pub api_call-Passes : (V : Type 0) (c : ApiCall) → IsApiCall V c → Passes V c
unfolding encode_history encode_area_codes Rental.extend Rental.stock Rental.encode_purchase
    Preorder.encode_create Preorder.encode_price Esim.encode_page Business.encode_create
    Business.update_user Pricing.all_prices
api_call-Passes V c (sms_purchase_call show request) =
    passes V (Calls.purchase show request).endpoint (Calls.purchase show request).fields refl
      (purchase-Keyless show request 1 false) (λ r. cc)
api_call-Passes V c (sms_purchase_raw_call show request) =
    passes V (Calls.purchase_raw show request).endpoint (Calls.purchase_raw show request).fields
      refl (purchase-Keyless show request.base request.quantity request.create_token) (λ r. cc)
api_call-Passes V c (sms_check_call order) =
    passes V (Calls.check order).endpoint (Calls.check order).fields refl refl (λ r. cc)
api_call-Passes V c sms_active_call =
    passes V (Calls.active).endpoint (Calls.active).fields refl refl (λ r. refl)
api_call-Passes V c (sms_cancel_call order) =
    passes V (Calls.cancel order).endpoint (Calls.cancel order).fields refl refl (λ r. cc)
api_call-Passes V c (sms_history_call request) =
    passes V (Calls.history request).endpoint (Calls.history request).fields refl refl (λ r. cc)
api_call-Passes V c sms_cancel_all_call =
    passes V (Calls.cancel_all).endpoint (Calls.cancel_all).fields refl refl (λ r. refl)
api_call-Passes V c sms_clear_cache_call =
    passes V (Calls.clear_cache).endpoint (Calls.clear_cache).fields refl refl (λ r. refl)
api_call-Passes V c (sms_activate_call order) =
    passes V (Calls.activate order).endpoint (Calls.activate order).fields refl refl (λ r. cc)
api_call-Passes V c (sms_reactivate_call order) =
    passes V (Calls.reactivate order).endpoint (Calls.reactivate order).fields refl refl (λ r. cc)
api_call-Passes V c sms_archive_call =
    passes V (Calls.archive).endpoint (Calls.archive).fields refl refl (λ r. refl)
api_call-Passes V c (sms_check_resend_call order) =
    passes V (Calls.check_resend order).endpoint (Calls.check_resend order).fields refl refl
      (λ r. cc)
api_call-Passes V c (sms_resend_call order) =
    passes V (Calls.resend order).endpoint (Calls.resend order).fields refl refl (λ r. cc)
api_call-Passes V c (sms_stock_call country service pool) =
    passes V (Calls.stock country service pool).endpoint (Calls.stock country service pool).fields
      refl refl (λ r. cc)
api_call-Passes V c (sms_area_codes_call request) =
    passes V (Calls.area_codes request).endpoint (Calls.area_codes request).fields refl refl
      (λ r. cc)
api_call-Passes V c (rental_catalog_call rental_type) =
    passes V (Rental.catalog rental_type).endpoint (Rental.catalog rental_type).fields refl refl
      (λ r. cc)
api_call-Passes V c (rental_purchase_call request) =
    passes V (Rental.purchase request).endpoint (Rental.purchase request).fields refl refl (λ r. cc)
api_call-Passes V c (rental_refund_call code) =
    passes V (Rental.refund code).endpoint (Rental.refund code).fields refl refl (λ r. cc)
api_call-Passes V c (rental_set_auto_extend_call code) =
    passes V (Rental.set_auto_extend code).endpoint (Rental.set_auto_extend code).fields refl refl
      (λ r. cc)
api_call-Passes V c rental_history_call =
    passes V (Rental.history).endpoint (Rental.history).fields refl refl (λ r. refl)
api_call-Passes V c (rental_messages_call code) =
    passes V (Rental.messages code).endpoint (Rental.messages code).fields refl refl (λ r. cc)
api_call-Passes V c (rental_status_call code) =
    passes V (Rental.status code).endpoint (Rental.status code).fields refl refl (λ r. cc)
api_call-Passes V c (rental_reset_call code) =
    passes V (Rental.reset code).endpoint (Rental.reset code).fields refl refl (λ r. cc)
api_call-Passes V c (rental_services_call rental) =
    passes V (Rental.services rental).endpoint (Rental.services rental).fields refl refl (λ r. cc)
api_call-Passes V c rental_active_call =
    passes V (Rental.active).endpoint (Rental.active).fields refl refl (λ r. refl)
api_call-Passes V c (rental_pricing_call rental) =
    passes V (Rental.pricing rental).endpoint (Rental.pricing rental).fields refl refl (λ r. cc)
api_call-Passes V c (rental_info_call code) =
    passes V (Rental.info code).endpoint (Rental.info code).fields refl refl (λ r. cc)
api_call-Passes V c (rental_extend_call code days q) =
    let made = call extending (("days", decimal days) ∷ ("rental_code", code.as_str) ∷ []) in
    let passed = reject_if-eq-ok (days == 0) _ (ok made) q in
    subst (Passes V) (ok_inj made c passed.1) (passes V extending made.fields refl refl (λ r. cc))
api_call-Passes V c (rental_stock_call rental days q) =
    let made = call stocking (("id", rental.as_str) ∷ ("days", decimal days) ∷ []) in
    let passed = reject_if-eq-ok (days == 0) _ (ok made) q in
    subst (Passes V) (ok_inj made c passed.1) (passes V stocking made.fields refl refl (λ r. cc))
api_call-Passes V c preorder_retrieve_call =
    passes V (Preorder.retrieve).endpoint (Preorder.retrieve).fields refl refl (λ r. refl)
api_call-Passes V c (preorder_check_call order) =
    passes V (Preorder.check order).endpoint (Preorder.check order).fields refl refl (λ r. cc)
api_call-Passes V c (preorder_cancel_call order) =
    passes V (Preorder.cancel order).endpoint (Preorder.cancel order).fields refl refl (λ r. cc)
api_call-Passes V c (preorder_create_call show request) =
    passes V (Preorder.create show request).endpoint (Preorder.create show request).fields refl refl
      (λ r. cc)
api_call-Passes V c (preorder_price_call request) =
    passes V (Preorder.price request).endpoint (Preorder.price request).fields refl refl (λ r. cc)
api_call-Passes V c (esim_purchase_call plan) =
    passes V (Esim.purchase plan).endpoint (Esim.purchase plan).fields refl refl (λ r. cc)
api_call-Passes V c (esim_pricing_call page) =
    passes V (Esim.pricing page).endpoint (Esim.pricing page).fields refl refl (λ r. cc)
api_call-Passes V c (esim_history_call page) =
    passes V (Esim.history page).endpoint (Esim.history page).fields refl refl (λ r. cc)
api_call-Passes V c (esim_plans_call country) =
    passes V (Esim.plans country).endpoint (Esim.plans country).fields refl refl (λ r. cc)
api_call-Passes V c (esim_profile_call transaction) =
    passes V (Esim.profile transaction).endpoint (Esim.profile transaction).fields refl refl
      (λ r. cc)
api_call-Passes V c (esim_delete_call transaction) =
    passes V (Esim.delete transaction).endpoint (Esim.delete transaction).fields refl refl (λ r. cc)
api_call-Passes V c (esim_top_up_call transaction plan) =
    passes V (Esim.top_up transaction plan).endpoint (Esim.top_up transaction plan).fields refl refl
      (λ r. cc)
api_call-Passes V c (esim_top_up_plans_call plan) =
    passes V (Esim.top_up_plans plan).endpoint (Esim.top_up_plans plan).fields refl refl (λ r. cc)
api_call-Passes V c (catalog_success_rates_call service) =
    passes V (Catalog.success_rates service).endpoint (Catalog.success_rates service).fields refl
      refl (λ r. cc)
api_call-Passes V c catalog_balance_call =
    passes V (Catalog.balance).endpoint (Catalog.balance).fields refl refl (λ r. refl)
api_call-Passes V c (catalog_suggested_countries_call service) =
    passes V (Catalog.suggested_countries service).endpoint
      (Catalog.suggested_countries service).fields refl refl (λ r. cc)
api_call-Passes V c (catalog_suggested_pools_call service country web) =
    passes V (Catalog.suggested_pools service country web).endpoint
      (Catalog.suggested_pools service country web).fields refl
      (optional-Keyless "web" flag web (λ v. refl)) (λ r. cc)
api_call-Passes V c catalog_countries_call =
    passes V (Catalog.countries).endpoint (Catalog.countries).fields refl refl (λ r. refl)
api_call-Passes V c (catalog_services_call country) =
    passes V (Catalog.services country).endpoint (Catalog.services country).fields refl
      (optional-Keyless "country" (λ x. x.as_str) country (λ v. refl)) (λ r. cc)
api_call-Passes V c catalog_pools_call =
    passes V (Catalog.pools).endpoint (Catalog.pools).fields refl refl (λ r. refl)
api_call-Passes V c (voucher_generate_call show request) =
    passes V (Voucher.generate show request).endpoint (Voucher.generate show request).fields refl
      refl (λ r. cc)
api_call-Passes V c voucher_retrieve_call =
    passes V (Voucher.retrieve).endpoint (Voucher.retrieve).fields refl refl (λ r. refl)
api_call-Passes V c (voucher_delete_call voucher) =
    passes V (Voucher.delete voucher).endpoint (Voucher.delete voucher).fields refl refl (λ r. cc)
api_call-Passes V c (voucher_bulk_generate_call show request) =
    passes V (Voucher.bulk_generate show request).endpoint
      (Voucher.bulk_generate show request).fields refl refl (λ r. cc)
api_call-Passes V c (business_user_history_call user) =
    passes V (Business.user_history user).endpoint (Business.user_history user).fields refl refl
      (λ r. cc)
api_call-Passes V c business_users_call =
    passes V (Business.users).endpoint (Business.users).fields refl refl (λ r. refl)
api_call-Passes V c (business_create_user_call request) =
    passes V (Business.create_user request).endpoint (Business.create_user request).fields refl refl
      (λ r. cc)
api_call-Passes V c (pricing_quote_call country service pool) =
    passes V (Pricing.quote country service pool).endpoint
      (Pricing.quote country service pool).fields refl refl (λ r. cc)
api_call-Passes V c (carrier_paid_lookup_call phone) =
    passes V (Carrier.paid_lookup phone).endpoint (Carrier.paid_lookup phone).fields refl refl
      (λ r. cc)
api_call-Passes V c (business_update_user_call show request q) =
    let (fields, sent, made) =
      >>=-eq-ok (λ fields. ok (call updating fields)) (Business.encode_update show request) q in
    subst (Passes V) (ok_inj (call updating fields) c made)
      (passes V updating fields refl (update-Keyless V show request fields sent) (λ r. cc))
api_call-Passes V c (pricing_all_call show request q) =
    let fields = Pricing.encode_filters show request in
    let passed = reject_if-eq-ok (is_nil fields) _ (ok (call listing fields)) q in
    subst (Passes V) (ok_inj (call listing fields) c passed.1)
      (passes V listing fields refl (filters-Keyless show request) (λ r. cc))
