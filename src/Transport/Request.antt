-- ===== src/Transport/Request.antt =====
-- The low-level request of `TransportRequest`, and `build_request` (src/transport.rs).
use smspool_sdk.Prelude.{
  ℕ, Bool, true, false, String, Option, none, some, List, [], ◌∷◌, ◌++◌, Result, ok, err, ◌>>=◌,
  ◌>>◌, if◌then◌else◌,
}
use smspool_sdk.Json.{Json}
use smspool_sdk.Error.{Error, invalid_request}
use smspool_sdk.Endpoint.{
  Endpoint, WireRequest, Method, BodyMode, AuthMode, SafetyClass, no_body, multipart,
  form_url_encoded, raw_json, uses_form_key, uses_bearer,
}
use smspool_sdk.Transport.Validate.{validate}

pub record TransportRequest (V : Type 0) : Type 0 where
  pub endpoint : String
  pub method : Method
  pub path : String
  pub body_mode : BodyMode
  pub auth : AuthMode
  pub safety : SafetyClass
  pub body_fields : List (String × String)
  pub query_fields : List (String × String)
  pub raw_json : Option V

module _ {V : Type 0} where
  -- `TransportRequest::new`.
  abbrev pub transport_request :
      String → Method → String → BodyMode → AuthMode → SafetyClass → TransportRequest V
  transport_request endpoint method path body_mode auth safety = record {
    endpoint = endpoint;
    method = method;
    path = path;
    body_mode = body_mode;
    auth = auth;
    safety = safety;
    body_fields = [];
    query_fields = [];
    raw_json = none;
  }

  abbrev pub body_field : TransportRequest V → String → String → TransportRequest V
  body_field r name value = record r { body_fields = r.body_fields ++ (name, value) ∷ [] }

  abbrev pub query_field : TransportRequest V → String → String → TransportRequest V
  query_field r name value = record r { query_fields = r.query_fields ++ (name, value) ∷ [] }

  abbrev pub with_raw_json : TransportRequest V → V → TransportRequest V
  with_raw_json r value = record r { raw_json = some value }

  abbrev endpoint_of : TransportRequest V → Endpoint
  endpoint_of r = record {
    name = r.endpoint;
    method = r.method;
    path = r.path;
    body_mode = r.body_mode;
    auth = r.auth;
    safety = r.safety;
  }

  abbrev wire_of : TransportRequest V → WireRequest V
  wire_of r = record {
    body_mode = some r.body_mode;
    body_fields = r.body_fields;
    query_fields = r.query_fields;
    raw_json = r.raw_json;
  }

  unfoldable pub into_parts : TransportRequest V → Result (Endpoint × WireRequest V) (Error V)
  into_parts r = do validate (endpoint_of r) (wire_of r); ok (endpoint_of r, wire_of r)

-- The body of a request handed to `reqwest`.
pub data Body : Type 0 where
  empty : Body
  multipart_form : List (String × String) → Body
  url_encoded_form : List (String × String) → Body
  json_text : List ℕ → Body

pub record Request (U : Type 0) : Type 0 where
  pub method : Method
  pub url : U
  pub query : List (String × String)
  pub bearer_token : Option String
  pub body : Body

module _ (J : Json) where
  open J use {Value, to_vec}

  encoded : Option (List ℕ) → Result Body (Error Value)
  encoded none = err (invalid_request "body" "could not encode JSON")
  encoded (some text) = ok (json_text text)

  -- The match on the body mode; the outer `none` is the panic of `expect("validated raw JSON")`.
  request_body :
      BodyMode → List (String × String) → Option Value → Option (Result Body (Error Value))
  request_body no_body fields json = some (ok empty)
  request_body multipart fields json = some (ok (multipart_form fields))
  request_body form_url_encoded fields json = some (ok (url_encoded_form fields))
  request_body raw_json fields none = none
  request_body raw_json fields (some value) = some (encoded (to_vec value))

  finish : {U : Type 0} → Bool → Request U → Result (Request U) (Error Value)
  finish true r = ok r
  finish false r = err (invalid_request "request" "could not construct the HTTP request")

  -- `builds` is the answer of `builder.build()` in `reqwest`.
  unfoldable pub build_request :
      {U : Type 0} (api_key : String)
      → Endpoint
      → WireRequest Value
      → U
      → (builds : Bool) → Option (Result (Request U) (Error Value))
  unfolding encoded request_body finish
  build_request api_key e wire url builds =
      let key = ("key", api_key) ∷ [] in
      let fields = if uses_form_key e.auth then wire.body_fields ++ key else wire.body_fields in
      elim (request_body e.body_mode fields wire.raw_json) [
        | none ↦ none
        | some body ↦ some (
            body >>= λ body. finish builds (record {
              method = e.method;
              url = url;
              query = wire.query_fields;
              bearer_token = if uses_bearer e.auth then some api_key else none;
              body = body;
            }))
      ]
