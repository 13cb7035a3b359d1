-- ===== src/Api/Business.antt =====
-- The operations of `BusinessApi` (src/api/business.rs): the business accounts, with their requests and the fields that they send.
use smspool_sdk.Prelude.{
  Bool, not, ◌&&◌, String, Option, List, [], ◌∷◌, ◌++◌, Result, ok, is_empty, is_some, reject_if,
  ◌>>◌, ◌>>=◌,
}
use smspool_sdk.Endpoint.{
  business_create_user, business_update_user, business_user_history, business_users,
}
use smspool_sdk.Error.{Error}
use smspool_sdk.Types.{Identifier, Secret, business_user_id, password}
use smspool_sdk.Api.Fields.{flag, optional}
use smspool_sdk.Api.Call.{ApiCall, call, invalid}

pub record BusinessUpdateRequest (D : Type 0) : Type 0 where
  pub user : Identifier business_user_id
  pub new_password : Option (Secret password)
  pub balance : Option D
  pub is_active : Option Bool

-- `BusinessUpdateRequest::fields`; `show` is `Money::to_string`.
unfoldable pub encode_update :
    {D V : Type 0}
    → (D → String)
    → BusinessUpdateRequest D
    → Result (List (String × String)) (Error V)
encode_update show request =
    reject_if
      (not (is_some request.new_password)
        && not (is_some request.balance)
        && not (is_some request.is_active))
      (invalid "business_update" "at least one of password, balance, or active is required")
    >> ok (
        ("id", request.user.as_str) ∷ optional "password" (λ x. x.expose) request.new_password
        ++ optional "balance" show request.balance
        ++ optional "active" flag request.is_active)

pub record CreateBusinessUserRequest : Type 0 where
  pub username : String
  pub new_password : Secret password

-- `CreateBusinessUserRequest::new`.
unfoldable pub create_business_user_request :
    {V : Type 0} → String → Secret password → Result CreateBusinessUserRequest (Error V)
create_business_user_request username secret =
    reject_if (is_empty username) (invalid "username" "must not be empty")
    >> ok (record { username = username; new_password = secret })

-- `CreateBusinessUserRequest::fields`.
unfoldable pub encode_create : CreateBusinessUserRequest → List (String × String)
encode_create request =
    ("username", request.username) ∷ ("password", request.new_password.expose) ∷ []

-- `update_user`.
unfoldable pub update_user :
    {D V : Type 0} → (D → String) → BusinessUpdateRequest D → Result ApiCall (Error V)
update_user show request =
    encode_update show request >>= λ fields. ok (call business_update_user fields)

abbrev pub user_history : Identifier business_user_id → ApiCall
user_history user = call business_user_history (("id", user.as_str) ∷ [])

abbrev pub users : ApiCall
users = call business_users []

abbrev pub create_user : CreateBusinessUserRequest → ApiCall
create_user request = call business_create_user (encode_create request)
