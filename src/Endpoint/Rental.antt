-- ===== src/Endpoint/Rental.antt =====
-- The descriptors of the preorder, rental operations (src/endpoint.rs).
use smspool_sdk.Endpoint.Defs.{
  Endpoint, endpoint, bearer, bearer_and_form_key, multipart, mutation, paid_mutation, post,
  read_only,
}

abbrev pub preorder_retrieve : Endpoint
preorder_retrieve =
    endpoint "preorder.retrieve" post "/preorder/retrieve" multipart bearer_and_form_key read_only

abbrev pub preorder_check : Endpoint
preorder_check =
    endpoint "preorder.check" post "/preorder/check" multipart bearer_and_form_key read_only

abbrev pub preorder_cancel : Endpoint
preorder_cancel =
    endpoint "preorder.cancel" post "/preorder/cancel" multipart bearer_and_form_key mutation

abbrev pub preorder_create : Endpoint
preorder_create =
    endpoint "preorder.create" post "/preorder/create" multipart bearer_and_form_key paid_mutation

abbrev pub preorder_price : Endpoint
preorder_price =
    endpoint "preorder.price" post "/preorder/price" multipart bearer_and_form_key read_only

abbrev pub rental_catalog : Endpoint
rental_catalog =
    endpoint "rental.catalog" post "/rental/retrieve_all" multipart bearer_and_form_key read_only

abbrev pub rental_purchase : Endpoint
rental_purchase =
    endpoint "rental.purchase" post "/purchase/rental" multipart bearer_and_form_key paid_mutation

abbrev pub rental_refund : Endpoint
rental_refund =
    endpoint "rental.refund" post "/rental/refund" multipart bearer_and_form_key mutation

abbrev pub rental_extend : Endpoint
rental_extend =
    endpoint "rental.extend" post "/rental/extend" multipart bearer_and_form_key paid_mutation

abbrev pub rental_auto_extend : Endpoint
rental_auto_extend =
    endpoint "rental.auto_extend" post "/rental/auto_extend" multipart bearer_and_form_key mutation

abbrev pub rental_history : Endpoint
rental_history = endpoint "rental.history" post "/rental/history" multipart bearer read_only

abbrev pub rental_messages : Endpoint
rental_messages =
    endpoint "rental.messages" post "/rental/retrieve_messages" multipart bearer read_only

abbrev pub rental_status : Endpoint
rental_status =
    endpoint "rental.status" post "/rental/retrieve_status" multipart bearer_and_form_key read_only

abbrev pub rental_reset : Endpoint
rental_reset = endpoint "rental.reset" post "/rental/reset" multipart bearer_and_form_key mutation

abbrev pub rental_services : Endpoint
rental_services =
    endpoint "rental.services" post "/rental/retrieve_services" multipart bearer_and_form_key
      read_only

abbrev pub rental_active : Endpoint
rental_active =
    endpoint "rental.active" post "/rental/retrieve" multipart bearer_and_form_key read_only

abbrev pub rental_pricing : Endpoint
rental_pricing =
    endpoint "rental.pricing" post "/rental/retrieve_pricing" multipart bearer_and_form_key
      read_only

abbrev pub rental_stock : Endpoint
rental_stock = endpoint "rental.stock" post "/rental/stock" multipart bearer_and_form_key read_only

abbrev pub rental_info : Endpoint
rental_info = endpoint "rental.info" post "/rental/info" multipart bearer_and_form_key read_only
