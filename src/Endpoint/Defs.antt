-- ===== src/Endpoint/Defs.antt =====
-- The wire-level metadata of one vendor operation, and an encoded request (src/endpoint.rs).
use smspool_sdk.Prelude.{Bool, true, false, String, Option, List}

-- `http::Method`, as far as the SDK uses it.
pub data Method : Type 0 where
  get post : Method

pub data BodyMode : Type 0 where
  no_body multipart form_url_encoded raw_json : BodyMode

pub data AuthMode : Type 0 where
  bearer form_key bearer_and_form_key public : AuthMode

pub data SafetyClass : Type 0 where
  read_only mutation paid_mutation : SafetyClass

pub record Endpoint : Type 0 where
  pub name : String
  pub method : Method
  pub path : String
  pub body_mode : BodyMode
  pub auth : AuthMode
  pub safety : SafetyClass

-- The macro `endpoint!`.
abbrev pub endpoint : String → Method → String → BodyMode → AuthMode → SafetyClass → Endpoint
endpoint name method path body_mode auth safety = record {
  name = name;
  method = method;
  path = path;
  body_mode = body_mode;
  auth = auth;
  safety = safety;
}

-- An encoded request; `V` stands for `serde_json::Value`.
pub record WireRequest (V : Type 0) : Type 0 where
  pub body_mode : Option BodyMode
  pub body_fields : List (String × String)
  pub query_fields : List (String × String)
  pub raw_json : Option V

abbrev pub is_get : Method → Bool
is_get get = true
is_get post = false

-- `self.safety == SafetyClass::ReadOnly`.
abbrev pub is_read_only : SafetyClass → Bool
is_read_only read_only = true
is_read_only _ = false

abbrev pub is_paid : SafetyClass → Bool
is_paid paid_mutation = true
is_paid _ = false

-- `matches!(auth, AuthMode::FormKey | AuthMode::BearerAndFormKey)`.
abbrev pub uses_form_key : AuthMode → Bool
uses_form_key form_key = true
uses_form_key bearer_and_form_key = true
uses_form_key _ = false

-- `matches!(auth, AuthMode::Bearer | AuthMode::BearerAndFormKey)`.
abbrev pub uses_bearer : AuthMode → Bool
uses_bearer bearer = true
uses_bearer bearer_and_form_key = true
uses_bearer _ = false

-- `matches!(body_mode, BodyMode::Multipart | BodyMode::FormUrlEncoded)`.
abbrev pub is_form : BodyMode → Bool
is_form multipart = true
is_form form_url_encoded = true
is_form _ = false

abbrev pub same_body_mode : BodyMode → BodyMode → Bool
same_body_mode no_body no_body = true
same_body_mode multipart multipart = true
same_body_mode form_url_encoded form_url_encoded = true
same_body_mode raw_json raw_json = true
same_body_mode _ _ = false
