-- ===== src/Api/Esim.antt =====
-- The operations of `EsimApi` (src/api/esim.rs): the eSIMs, with their requests and the fields that they send.
use smspool_sdk.Prelude.{ℕ, String, List, [], ◌∷◌, Result, ok, ◌==◌, reject_if, ◌>>◌}
use smspool_sdk.Endpoint.{
  Endpoint, esim_delete, esim_history, esim_plans, esim_pricing, esim_profile, esim_purchase,
  esim_top_up, esim_top_up_plans,
}
use smspool_sdk.Error.{Error}
use smspool_sdk.Types.{Identifier, country_id, plan_id, transaction_id}
use smspool_sdk.Api.Fields.{decimal}
use smspool_sdk.Api.Call.{ApiCall, call, invalid}

pub record EsimPageRequest : Type 0 where
  pub start : ℕ
  pub length : ℕ
  pub search : String

-- `EsimPageRequest::new`.
unfoldable pub esim_page_request :
    {V : Type 0} → (start length : ℕ) → Result EsimPageRequest (Error V)
esim_page_request start length =
    reject_if (length == 0) (invalid "length" "must be greater than zero")
    >> ok (record { start = start; length = length; search = "" })

-- `EsimPageRequest::fields`.
unfoldable pub encode_page : (search_name : String) → EsimPageRequest → List (String × String)
encode_page search_name page =
    ("start", decimal page.start)
    ∷ ("length", decimal page.length)
    ∷ (search_name, page.search)
    ∷ []

abbrev pub transaction_call : Endpoint → Identifier transaction_id → ApiCall
transaction_call endpoint transaction = call endpoint (("transactionId", transaction.as_str) ∷ [])

abbrev pub purchase : Identifier plan_id → ApiCall
purchase plan = call esim_purchase (("plan", plan.as_str) ∷ [])

abbrev pub pricing : EsimPageRequest → ApiCall
pricing page = call esim_pricing (encode_page "Search" page)

abbrev pub history : EsimPageRequest → ApiCall
history page = call esim_history (encode_page "search" page)

abbrev pub plans : Identifier country_id → ApiCall
plans country = call esim_plans (("country", country.as_str) ∷ [])

abbrev pub profile : Identifier transaction_id → ApiCall
profile transaction = transaction_call esim_profile transaction

abbrev pub delete : Identifier transaction_id → ApiCall
delete transaction = transaction_call esim_delete transaction

abbrev pub top_up : Identifier transaction_id → Identifier plan_id → ApiCall
top_up transaction plan =
    call esim_top_up (("transactionId", transaction.as_str) ∷ ("plan", plan.as_str) ∷ [])

abbrev pub top_up_plans : Identifier plan_id → ApiCall
top_up_plans plan = call esim_top_up_plans (("plan", plan.as_str) ∷ [])
