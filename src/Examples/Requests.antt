-- ===== src/Examples/Requests.antt =====
-- Calls of the typed API at concrete values (src/api).
use smspool_sdk.Prelude.{◌≡◌, some, arith}
use smspool_sdk.Api.Sms.Requests.{
  HistoryRequest, PurchaseFields, purchase_fields, highest_success_rate, encode_history,
}
use smspool_sdk.Api.Sms.Requests.Laws.{decode_history, decode_history-encode_history}
use smspool_sdk.Api.Sms.Calls
use smspool_sdk.Api.Calls.{sms_purchase_call}
use smspool_sdk.Api.Passing.{Passes, api_call-Passes}
use smspool_sdk.Examples.Crates.{Document}
use smspool_sdk.Prelude.{String}

abbrev request : HistoryRequest
request = record { start = 20; length = 10; search = "code" }

decode_history-encode_history_example : decode_history (encode_history request) ≡ some request
decode_history-encode_history_example =
    decode_history-encode_history request (omega arith) (omega arith)

abbrev order : PurchaseFields String
order =
    let base = purchase_fields (record { as_str = "US" }) (record { as_str = "1" }) in
    record base {
      pool = some (record { as_str = "3" });
      pricing_option = some highest_success_rate;
      max_price = some "0.24";
    }

api_call-Passes_example : Passes Document (Calls.purchase (λ price. price) order)
api_call-Passes_example =
    api_call-Passes Document (Calls.purchase (λ price. price) order)
      (sms_purchase_call (λ price. price) order)
