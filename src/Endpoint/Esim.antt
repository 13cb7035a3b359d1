-- ===== src/Endpoint/Esim.antt =====
-- The descriptors of the esim operations (src/endpoint.rs).
use smspool_sdk.Endpoint.Defs.{
  Endpoint, endpoint, bearer, bearer_and_form_key, multipart, mutation, paid_mutation, post,
  read_only,
}

abbrev pub esim_purchase : Endpoint
esim_purchase =
    endpoint "esim.purchase" post "/esim/purchase" multipart bearer_and_form_key paid_mutation

abbrev pub esim_pricing : Endpoint
esim_pricing = endpoint "esim.pricing" post "/esim/pricing" multipart bearer_and_form_key read_only

abbrev pub esim_history : Endpoint
esim_history = endpoint "esim.history" post "/esim/history" multipart bearer_and_form_key read_only

abbrev pub esim_plans : Endpoint
esim_plans = endpoint "esim.plans" post "/esim/plans" multipart bearer_and_form_key read_only

abbrev pub esim_profile : Endpoint
esim_profile = endpoint "esim.profile" post "/esim/profile" multipart bearer_and_form_key read_only

abbrev pub esim_delete : Endpoint
esim_delete = endpoint "esim.delete" post "/esim/delete" multipart bearer_and_form_key mutation

abbrev pub esim_top_up : Endpoint
esim_top_up = endpoint "esim.top_up" post "/esim/topup" multipart bearer paid_mutation

abbrev pub esim_top_up_plans : Endpoint
esim_top_up_plans = endpoint "esim.top_up_plans" post "/esim/topup_plans" multipart bearer read_only
