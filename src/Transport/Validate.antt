-- ===== src/Transport/Validate.antt =====
-- The checks of a request against its descriptor, `validate` (src/transport.rs).
pub mod Laws
pub mod Descriptors
use smspool_sdk.Prelude.{
  ℕ, Bool, true, false, not, ◌||◌, ◌&&◌, String, Option, none, some, List, [], ◌∷◌, Result, ok, err,
  ◌>>=◌, ◌>>◌, reject_if, ◌==◌, any, is_some, is_some_and, is_nil, is_empty, codes,
  eq_ignore_ascii_case,
}
use smspool_sdk.Error.{Error, invalid_request}
use smspool_sdk.Endpoint.{
  Endpoint, WireRequest, BodyMode, AuthMode, no_body, multipart, form_url_encoded, raw_json,
  uses_form_key, is_form, same_body_mode,
}

-- `starts_with` for a prefix of one character, and of that character twice.
abbrev pub starts_with_code : ℕ → List ℕ → Bool
starts_with_code c [] = false
starts_with_code c (d ∷ s) = d == c

abbrev pub starts_with_twice : ℕ → List ℕ → Bool
starts_with_twice c [] = false
starts_with_twice c (d ∷ s) = (d == c) && starts_with_code c s

abbrev pub contains_code : ℕ → List ℕ → Bool
contains_code c = any (λ d. d == c)

-- `endpoint.path` is relative to the host and holds neither query nor fragment.
abbrev pub is_relative_path : String → Bool
is_relative_path path =
    starts_with_code b'/' (codes path)
    && not (starts_with_twice b'/' (codes path))
    && not (contains_code b'?' (codes path))
    && not (contains_code b'#' (codes path))

-- The test on the path.
abbrev pub path_fails : String → Bool
path_fails path =
    not (starts_with_code b'/' (codes path))
    || starts_with_twice b'/' (codes path)
    || contains_code b'?' (codes path)
    || contains_code b'#' (codes path)

-- `wire.body_mode.is_some_and(|mode| mode != endpoint.body_mode)`.
abbrev pub mode_differs : Option BodyMode → BodyMode → Bool
mode_differs o n = is_some_and o (λ mode. not (same_body_mode mode n))

abbrev pub is_key : String × String → Bool
is_key (name, _) = eq_ignore_ascii_case name "key"

abbrev pub is_credential : String × String → Bool
is_credential (name, _) =
    eq_ignore_ascii_case name "key" || eq_ignore_ascii_case name "authorization"

module _ {V : Type 0} where
  -- The match on the body mode.
  unfoldable pub check_body : BodyMode → (has_fields has_json : Bool) → Result (Unit {0}) (Error V)
  check_body no_body has_fields has_json =
      reject_if (has_fields || has_json)
        (invalid_request "body" "this endpoint does not accept a body")
  check_body multipart has_fields has_json =
      reject_if has_json (invalid_request "body" "raw JSON is incompatible with this body mode")
  check_body form_url_encoded has_fields has_json =
      reject_if has_json (invalid_request "body" "raw JSON is incompatible with this body mode")
  check_body raw_json has_fields has_json =
      reject_if (has_fields || not has_json)
        (invalid_request "body" "raw JSON mode requires exactly one JSON body")

  -- The test on the authentication.
  unfoldable pub check_auth : AuthMode → BodyMode → Result (Unit {0}) (Error V)
  check_auth auth body_mode =
      reject_if (uses_form_key auth && not (is_form body_mode))
        (invalid_request "auth" "form-key authentication requires a form body mode")

  unfoldable pub validate : Endpoint → WireRequest V → Result (Unit {0}) (Error V)
  validate e wire = do
    reject_if (is_empty e.name) (invalid_request "endpoint" "must not be empty")
    reject_if (path_fails e.path)
        (invalid_request "path" "must be a relative path without query or fragment")
    reject_if (mode_differs wire.body_mode e.body_mode)
        (invalid_request "body_mode" "does not match the endpoint descriptor")
    reject_if (any is_credential wire.query_fields)
        (invalid_request "query" "credentials must never be placed in the URL query")
    reject_if (any is_key wire.body_fields)
        (invalid_request "key" "the transport injects form authentication")
    check_body e.body_mode (not (is_nil wire.body_fields)) (is_some wire.raw_json)
    check_auth e.auth e.body_mode
