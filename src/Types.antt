-- ===== src/Types.antt =====
-- The value types of the SDK (src/types.rs). The ten types of the macro `identifier!` are one type
-- over their kind, and so are the types of `sensitive_string!` and `PhoneNumber`.
pub mod De
use smspool_sdk.Prelude.{Bool, String, Result, ok, reject_if, ◌>>◌, is_empty}
use smspool_sdk.Json.{ℤ}

pub record InvalidValue : Type 0 where
  pub field : String
  pub reason : String

pub data IdentifierKind : Type 0 where
  order_id country_id service_id pool_id preorder_id rental_id rental_code plan_id transaction_id :
      IdentifierKind
  business_user_id : IdentifierKind

-- The `$field` of an `identifier!`.
unfoldable pub identifier_field : IdentifierKind → String
identifier_field order_id = "order_id"
identifier_field country_id = "country_id"
identifier_field service_id = "service_id"
identifier_field pool_id = "pool_id"
identifier_field preorder_id = "preorder_id"
identifier_field rental_id = "rental_id"
identifier_field rental_code = "rental_code"
identifier_field plan_id = "plan_id"
identifier_field transaction_id = "transaction_id"
identifier_field business_user_id = "business_user_id"

pub record Identifier (kind : IdentifierKind) : Type 0 where
  pub as_str : String

abbrev must_not_be_empty : String → InvalidValue
must_not_be_empty field = record { field = field; reason = "must not be empty" }

-- `new` of an `identifier!`.
unfoldable pub identifier : (kind : IdentifierKind) → String → Result (Identifier kind) InvalidValue
identifier kind value = do
  reject_if (is_empty value) (must_not_be_empty (identifier_field kind))
  ok (record { as_str = value })

pub data SecretKind : Type 0 where
  sms_text activation_token esim_credential password phone_number : SecretKind

-- The `$field` of a `sensitive_string!`, and that of `PhoneNumber`.
unfoldable pub secret_field : SecretKind → String
secret_field sms_text = "sms_text"
secret_field activation_token = "activation_token"
secret_field esim_credential = "esim_credential"
secret_field password = "password"
secret_field phone_number = "phone_number"

pub record Secret (kind : SecretKind) : Type 0 where
  pub expose : String

-- `new` of a `sensitive_string!` and of `PhoneNumber`.
unfoldable pub secret : (kind : SecretKind) → String → Result (Secret kind) InvalidValue
secret kind value = do
  reject_if (is_empty value) (must_not_be_empty (secret_field kind))
  ok (record { expose = value })

pub record VendorDateTime : Type 0 where
  pub as_str : String

-- `VendorDateTime::new`.
unfoldable pub vendor_date_time : String → Result VendorDateTime InvalidValue
vendor_date_time value = do
  reject_if (is_empty value) (must_not_be_empty "vendor_date_time")
  ok (record { as_str = value })

pub record RawFormValue : Type 0 where
  pub as_str : String

-- `RawFormValue::new`.
unfoldable pub raw_form_value : String → Result RawFormValue InvalidValue
raw_form_value value = do
  reject_if (is_empty value) (must_not_be_empty "raw_form_value")
  ok (record { as_str = value })

pub data StatusValue (V : Type 0) : Type 0 where
  integer : ℤ → StatusValue V
  string : String → StatusValue V
  boolean : Bool → StatusValue V
  null : StatusValue V
  other : V → StatusValue V
