-- ===== src/Api/Preorder.antt =====
-- The operations of `PreorderApi` (src/api/preorder.rs): the preorders, with their requests and the fields that they send.
-- `D` stands for `Money`, shown by `show`.
use smspool_sdk.Prelude.{String, Option, none, some, List, [], ◌∷◌}
use smspool_sdk.Endpoint.{
  preorder_cancel, preorder_check, preorder_create, preorder_price, preorder_retrieve,
}
use smspool_sdk.Types.{
  Identifier, RawFormValue, Secret, StatusValue, order_id, country_id, service_id, pool_id,
  preorder_id, phone_number,
}
use smspool_sdk.Api.Call.{ApiCall, call}

pub record CreatePreorderRequest (D : Type 0) : Type 0 where
  pub service : Identifier service_id
  pub country : Identifier country_id
  pub pool : Identifier pool_id
  pub area_code : RawFormValue
  pub max_price : D

-- `CreatePreorderRequest::fields`; `show` is `Money::to_string`.
unfoldable pub encode_create :
    {D : Type 0} → (D → String) → CreatePreorderRequest D → List (String × String)
encode_create show request =
    ("service", request.service.as_str)
    ∷ ("country", request.country.as_str)
    ∷ ("pool", request.pool.as_str)
    ∷ ("areacode", request.area_code.as_str)
    ∷ ("max_price", show request.max_price)
    ∷ []

pub record PreorderPriceRequest : Type 0 where
  pub service : Identifier service_id
  pub country : Identifier country_id
  pub pool : Identifier pool_id

-- `PreorderPriceRequest::fields`.
unfoldable pub encode_price : PreorderPriceRequest → List (String × String)
encode_price request =
    ("service", request.service.as_str)
    ∷ ("country", request.country.as_str)
    ∷ ("pool", request.pool.as_str)
    ∷ []

-- The shapes of a status; `D` stands for `Money`, `V` for `serde_json::Value`.
pub record PreorderStatusWire (D V : Type 0) : Type 0 where
  pub cost : D
  pub country : Identifier country_id
  pub order_code : Option (Identifier order_id)
  pub phonenumber : Option (Secret phone_number)
  pub pool : Identifier pool_id
  pub preorder_code : Identifier preorder_id
  pub service : Identifier service_id
  pub status : StatusValue V

pub record PendingPreorder (D V : Type 0) : Type 0 where
  pub cost : D
  pub country : Identifier country_id
  pub pool : Identifier pool_id
  pub preorder_code : Identifier preorder_id
  pub service : Identifier service_id
  pub status : StatusValue V

pub record FinishedPreorder (D V : Type 0) : Type 0 where
  pub cost : D
  pub country : Identifier country_id
  pub order_code : Identifier order_id
  pub phonenumber : Secret phone_number
  pub pool : Identifier pool_id
  pub preorder_code : Identifier preorder_id
  pub service : Identifier service_id
  pub status : StatusValue V

pub data PreorderStatus (D V : Type 0) : Type 0 where
  pending : PendingPreorder D V → PreorderStatus D V
  finished : FinishedPreorder D V → PreorderStatus D V

abbrev as_pending : {D V : Type 0} → PreorderStatusWire D V → PreorderStatus D V
as_pending wire = pending (record {
  cost = wire.cost;
  country = wire.country;
  pool = wire.pool;
  preorder_code = wire.preorder_code;
  service = wire.service;
  status = wire.status;
})

-- The match of `PreorderStatus::deserialize`.
unfoldable pub status_from :
    {D V : Type 0}
    → PreorderStatusWire D V
    → (order_code : Option (Identifier order_id)) (phonenumber : Option (Secret phone_number))
    → PreorderStatus D V
status_from wire (some order_code) (some phonenumber) = finished (record {
  cost = wire.cost;
  country = wire.country;
  order_code = order_code;
  phonenumber = phonenumber;
  pool = wire.pool;
  preorder_code = wire.preorder_code;
  service = wire.service;
  status = wire.status;
})
status_from wire none phonenumber = as_pending wire
status_from wire (some order_code) none = as_pending wire

-- `PreorderStatus::deserialize`, after the wire struct is read.
abbrev pub preorder_status : {D V : Type 0} → PreorderStatusWire D V → PreorderStatus D V
preorder_status wire = status_from wire wire.order_code wire.phonenumber

abbrev pub retrieve : ApiCall
retrieve = call preorder_retrieve []

abbrev pub check : Identifier preorder_id → ApiCall
check order = call preorder_check (("orderid", order.as_str) ∷ [])

abbrev pub cancel : Identifier preorder_id → ApiCall
cancel order = call preorder_cancel (("orderid", order.as_str) ∷ [])

abbrev pub create : {D : Type 0} → (D → String) → CreatePreorderRequest D → ApiCall
create show request = call preorder_create (encode_create show request)

abbrev pub price : PreorderPriceRequest → ApiCall
price request = call preorder_price (encode_price request)
