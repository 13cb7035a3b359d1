-- ===== src/Api/Sms/Requests.antt =====
-- The requests of the SMS API and their fields (src/api/sms.rs). `D` stands for `Money`, shown by
-- `show`; `V` stands for `serde_json::Value`.
pub mod Laws
use smspool_sdk.Prelude.{
  ℕ, Bool, true, false, String, Option, none, some, List, [], ◌∷◌, ◌++◌, Result, ok, ◌==◌, is_empty,
  reject_if, ◌>>◌,
}
use smspool_sdk.Error.{Error}
use smspool_sdk.Types.{
  Identifier, country_id, service_id, pool_id, RawFormValue, Secret, phone_number,
}
use smspool_sdk.Api.Fields.{decimal, flag, optional}
use smspool_sdk.Api.Call.{invalid}

pub data PricingOption : Type 0 where
  cheapest highest_success_rate : PricingOption

-- `PricingOption::wire_value`.
abbrev pub pricing_value : PricingOption → String
pricing_value cheapest = "0"
pricing_value highest_success_rate = "1"

pub data ActivationType : Type 0 where
  sms voice flash : ActivationType

-- `ActivationType::wire_value`.
abbrev pub activation_value : ActivationType → String
activation_value sms = "SMS"
activation_value voice = "VOICE"
activation_value flash = "FLASH"

pub record PurchaseFields (D : Type 0) : Type 0 where
  pub country : Identifier country_id
  pub service : Identifier service_id
  pub pool : Option (Identifier pool_id)
  pub max_price : Option D
  pub pricing_option : Option PricingOption
  pub area_code : Option RawFormValue
  pub exclude : Option RawFormValue
  pub activation_type : ActivationType
  pub carrier : Option String
  pub phone_number : Option (Secret phone_number)

module _ {D : Type 0} where
  -- `PurchaseFields::new`, which is `PurchaseSmsRequest::new`.
  abbrev pub purchase_fields : Identifier country_id → Identifier service_id → PurchaseFields D
  purchase_fields country service = record {
    country = country;
    service = service;
    pool = none;
    max_price = none;
    pricing_option = none;
    area_code = none;
    exclude = none;
    activation_type = sms;
    carrier = none;
    phone_number = none;
  }

  -- `carrier` of `purchase_builders!`.
  unfoldable pub with_carrier :
      {V : Type 0} → PurchaseFields D → String → Result (PurchaseFields D) (Error V)
  with_carrier base value =
      reject_if (is_empty value) (invalid "carrier" "must not be empty")
      >> ok (record base { carrier = some value })

  -- `PurchaseFields::fields`.
  unfoldable pub encode_purchase :
      (show : D → String)
      → PurchaseFields D
      → (quantity : ℕ) (create_token : Bool) → List (String × String)
  encode_purchase show base quantity create_token =
      ("country", base.country.as_str)
        ∷ ("service", base.service.as_str)
        ∷ ("quantity", decimal quantity)
        ∷ ("create_token", flag create_token)
        ∷ ("activation_type", activation_value base.activation_type)
        ∷ optional "pool" (λ x. x.as_str) base.pool
      ++ optional "max_price" show base.max_price
      ++ optional "pricing_option" pricing_value base.pricing_option
      ++ optional "areacode" (λ x. x.as_str) base.area_code
      ++ optional "exclude" (λ x. x.as_str) base.exclude
      ++ optional "carrier" (λ x. x) base.carrier
      ++ optional "phonenumber" (λ x. x.expose) base.phone_number

pub record ExperimentalPurchaseRequest (D : Type 0) : Type 0 where
  pub base : PurchaseFields D
  pub quantity : ℕ
  pub create_token : Bool

-- `ExperimentalPurchaseRequest::new`.
unfoldable pub experimental_purchase :
    {D V : Type 0}
    → Identifier country_id
    → Identifier service_id
    → (quantity : ℕ) → Result (ExperimentalPurchaseRequest D) (Error V)
experimental_purchase country service quantity =
    reject_if (quantity == 0) (invalid "quantity" "must be greater than zero")
    >> ok (record {
      base = purchase_fields country service;
      quantity = quantity;
      create_token = false;
    })

pub record HistoryRequest : Type 0 where
  pub start : ℕ
  pub length : ℕ
  pub search : String

-- `HistoryRequest::new`.
unfoldable pub history_request : {V : Type 0} → (start length : ℕ) → Result HistoryRequest (Error V)
history_request start length =
    reject_if (length == 0) (invalid "length" "must be greater than zero")
    >> ok (record { start = start; length = length; search = "" })

-- `HistoryRequest::search`.
abbrev pub with_search : HistoryRequest → String → HistoryRequest
with_search request value = record request { search = value }

-- `HistoryRequest::fields`.
unfoldable pub encode_history : HistoryRequest → List (String × String)
encode_history request =
    ("start", decimal request.start)
    ∷ ("length", decimal request.length)
    ∷ ("search", request.search)
    ∷ []

pub record AreaCodesRequest : Type 0 where
  pub service : Identifier service_id
  pub country : Identifier country_id
  pub pool : Identifier pool_id

-- `AreaCodesRequest::fields`.
unfoldable pub encode_area_codes : AreaCodesRequest → List (String × String)
encode_area_codes request =
    ("service", request.service.as_str)
    ∷ ("country", request.country.as_str)
    ∷ ("pool", request.pool.as_str)
    ∷ []
