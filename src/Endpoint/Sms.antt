-- ===== src/Endpoint/Sms.antt =====
-- The descriptors of the sms operations (src/endpoint.rs).
use smspool_sdk.Endpoint.Defs.{
  Endpoint, endpoint, bearer, bearer_and_form_key, form_url_encoded, multipart, mutation,
  paid_mutation, post, read_only,
}

abbrev pub sms_purchase : Endpoint
sms_purchase = endpoint "sms.purchase" post "/purchase/sms" multipart bearer paid_mutation

abbrev pub sms_check : Endpoint
sms_check = endpoint "sms.check" post "/sms/check" multipart bearer_and_form_key read_only

abbrev pub sms_active : Endpoint
sms_active = endpoint "sms.active" post "/request/active" multipart bearer read_only

abbrev pub sms_cancel : Endpoint
sms_cancel = endpoint "sms.cancel" post "/sms/cancel" multipart bearer_and_form_key mutation

abbrev pub sms_cancel_all : Endpoint
sms_cancel_all = endpoint "sms.cancel_all" post "/sms/cancel_all" multipart bearer mutation

abbrev pub sms_clear_cache : Endpoint
sms_clear_cache = endpoint "sms.clear_cache" post "/sms/clear_cache" multipart bearer mutation

abbrev pub sms_activate : Endpoint
sms_activate = endpoint "sms.activate" post "/sms/activate" multipart bearer_and_form_key mutation

abbrev pub sms_reactivate : Endpoint
sms_reactivate =
    endpoint "sms.reactivate" post "/sms/reactivate" multipart bearer_and_form_key mutation

abbrev pub sms_archive : Endpoint
sms_archive = endpoint "sms.archive" post "/request/archive" multipart bearer_and_form_key mutation

abbrev pub sms_check_resend : Endpoint
sms_check_resend = endpoint "sms.check_resend" post "/sms/check_resend" multipart bearer read_only

abbrev pub sms_resend : Endpoint
sms_resend = endpoint "sms.resend" post "/sms/resend" multipart bearer_and_form_key paid_mutation

abbrev pub sms_stock : Endpoint
sms_stock = endpoint "sms.stock" post "/sms/stock" multipart bearer_and_form_key read_only

abbrev pub sms_all_stock : Endpoint
sms_all_stock =
    endpoint "sms.all_stock" post "/sms/all_stock" multipart bearer_and_form_key read_only

abbrev pub sms_history : Endpoint
sms_history = endpoint "sms.history" post "/request/history" multipart bearer_and_form_key read_only

abbrev pub sms_area_codes : Endpoint
sms_area_codes =
    endpoint "sms.area_codes" post "/request/areacodes" form_url_encoded bearer_and_form_key
      read_only
