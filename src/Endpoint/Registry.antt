-- ===== src/Endpoint/Registry.antt =====
-- `ALL`: every descriptor of the SDK, in the order of the generated contract (src/endpoint.rs).
use smspool_sdk.Prelude.{List, [], ◌∷◌}
use smspool_sdk.Endpoint.Defs.{Endpoint}
use smspool_sdk.Endpoint.Catalog.{
  catalog_success_rate, catalog_balance, catalog_suggested_countries, catalog_suggested_pools,
  catalog_countries, catalog_services, catalog_pools,
}
use smspool_sdk.Endpoint.Sms.{
  sms_purchase, sms_check, sms_active, sms_cancel, sms_cancel_all, sms_clear_cache, sms_activate,
  sms_reactivate, sms_archive, sms_check_resend, sms_resend, sms_stock, sms_all_stock, sms_history,
  sms_area_codes,
}
use smspool_sdk.Endpoint.Rental.{
  preorder_retrieve, preorder_check, preorder_cancel, preorder_create, preorder_price,
  rental_catalog, rental_purchase, rental_refund, rental_extend, rental_auto_extend, rental_history,
  rental_messages, rental_status, rental_reset, rental_services, rental_active, rental_pricing,
  rental_stock, rental_info,
}
use smspool_sdk.Endpoint.Account.{
  pricing_all, pricing_quote, carrier_lookup, business_update_user, business_user_history,
  business_users, business_create_user, voucher_generate, voucher_retrieve, voucher_delete,
  voucher_bulk_generate,
}
use smspool_sdk.Endpoint.Esim.{
  esim_purchase, esim_pricing, esim_history, esim_plans, esim_profile, esim_delete, esim_top_up,
  esim_top_up_plans,
}

abbrev pub all_endpoints : List Endpoint
all_endpoints =
    catalog_success_rate ∷ catalog_balance ∷ catalog_suggested_countries ∷ catalog_suggested_pools
    ∷ catalog_countries ∷ catalog_services ∷ catalog_pools ∷ sms_purchase ∷ sms_check ∷ sms_active
    ∷ sms_cancel ∷ sms_cancel_all ∷ sms_clear_cache ∷ sms_activate ∷ sms_reactivate ∷ sms_archive
    ∷ sms_check_resend ∷ sms_resend ∷ sms_stock ∷ sms_all_stock ∷ sms_history ∷ sms_area_codes
    ∷ preorder_retrieve ∷ preorder_check ∷ preorder_cancel ∷ preorder_create ∷ preorder_price
    ∷ rental_catalog ∷ rental_purchase ∷ rental_refund ∷ rental_extend ∷ rental_auto_extend
    ∷ rental_history ∷ rental_messages ∷ rental_status ∷ rental_reset ∷ rental_services
    ∷ rental_active ∷ rental_pricing ∷ rental_stock ∷ rental_info ∷ pricing_all ∷ pricing_quote
    ∷ carrier_lookup ∷ business_update_user ∷ business_user_history ∷ business_users
    ∷ business_create_user ∷ esim_purchase ∷ esim_pricing ∷ esim_history ∷ esim_plans ∷ esim_profile
    ∷ esim_delete ∷ esim_top_up ∷ esim_top_up_plans ∷ voucher_generate ∷ voucher_retrieve
    ∷ voucher_delete ∷ voucher_bulk_generate ∷ []
