-- ===== src/Endpoint/Account.antt =====
-- The descriptors of the pricing, carrier, business, voucher operations (src/endpoint.rs).
use smspool_sdk.Endpoint.Defs.{
  Endpoint, endpoint, bearer, bearer_and_form_key, form_url_encoded, get, multipart, mutation,
  no_body, paid_mutation, post, read_only,
}

abbrev pub pricing_all : Endpoint
pricing_all = endpoint "pricing.all" post "/request/pricing" multipart bearer_and_form_key read_only

abbrev pub pricing_quote : Endpoint
pricing_quote = endpoint "pricing.quote" post "/request/price" multipart bearer read_only

abbrev pub carrier_lookup : Endpoint
carrier_lookup =
    endpoint "carrier.lookup" post "/carrier/paid_lookup" multipart bearer paid_mutation

abbrev pub business_update_user : Endpoint
business_update_user =
    endpoint "business.update_user" post "/business/user/update" multipart bearer mutation

abbrev pub business_user_history : Endpoint
business_user_history =
    endpoint "business.user_history" post "/business/user/history" multipart bearer read_only

abbrev pub business_users : Endpoint
business_users = endpoint "business.users" get "/business/users" no_body bearer read_only

abbrev pub business_create_user : Endpoint
business_create_user =
    endpoint "business.create_user" post "/business/create" multipart bearer mutation

abbrev pub voucher_generate : Endpoint
voucher_generate =
    endpoint "voucher.generate" post "/voucher/generate" multipart bearer paid_mutation

abbrev pub voucher_retrieve : Endpoint
voucher_retrieve = endpoint "voucher.retrieve" post "/voucher/retrieve" multipart bearer read_only

abbrev pub voucher_delete : Endpoint
voucher_delete = endpoint "voucher.delete" post "/voucher/delete" form_url_encoded bearer mutation

abbrev pub voucher_bulk_generate : Endpoint
voucher_bulk_generate =
    endpoint "voucher.bulk_generate" post "/voucher/generate" multipart bearer paid_mutation
