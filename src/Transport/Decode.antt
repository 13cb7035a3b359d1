-- ===== src/Transport/Decode.antt =====
-- The provider's own failure reports: the top-level `success` flag and the error body
-- (src/transport.rs).
use smspool_sdk.Prelude.{
  ℕ, Bool, true, false, String, Option, none, some, List, [], ◌∷◌, is_some_and, same_text, or_else,
}
use smspool_sdk.Json.{
  Json, Shape, null, boolean, number, string, array, object, is_int, field_of, as_str, as_array,
  as_object,
}
use smspool_sdk.Error.{
  ApiError, ParameterError, api_error, with_machine_type, with_message, with_parameter_errors,
  with_provider_details, with_raw,
}

module _ (J : Json) where
  open J use {Value, Number, view, as_i64}

  -- Whether a value of `success` reads as failure.
  unfoldable pub is_failure_flag : Shape Value Number → Bool
  is_failure_flag null = false
  is_failure_flag (boolean true) = false
  is_failure_flag (boolean false) = true
  is_failure_flag (number n) = is_int 0 (as_i64 n)
  is_failure_flag (string s) = same_text s "0"
  is_failure_flag (array vs) = false
  is_failure_flag (object get) = false

  unfoldable pub top_level_failure : Value → Bool
  unfolding is_failure_flag
  top_level_failure value =
      is_some_and (field_of (view value) "success") (λ success. is_failure_flag (view success))

  -- `object.get(key).and_then(Value::as_str)`.
  unfoldable pub text_at : (String → Option Value) → String → Option String
  text_at get key = elim (get key) [ none ↦ none | some v ↦ as_str (view v) ]

  -- `[a, b, c].into_iter().find_map(|key| …)`.
  unfoldable pub first_text : (String → Option Value) → List String → Option String
  first_text get [] = none
  first_text get (key ∷ keys) = or_else (text_at get key) (first_text get keys)

  parameter_error : (String → Option Value) → ParameterError
  parameter_error get = record {
    parameter = elim (or_else (get "parameter") (get "param")) [
      | none ↦ none
      | some v ↦ as_str (view v)
    ];
    message = text_at get "message";
    description = text_at get "description";
  }

  parameter_errors : List Value → List ParameterError
  parameter_errors [] = []
  parameter_errors (v ∷ vs) = elim (as_object (view v)) [
    | none ↦ parameter_errors vs
    | some get ↦ parameter_error get ∷ parameter_errors vs
  ]

  -- `if let Some(value) = found { error = set(error, value) }`.
  abbrev when_found :
      {A : Type 0}
      → Option A
      → (ApiError Value → A → ApiError Value)
      → ApiError Value
      → ApiError Value
  when_found none set error = error
  when_found (some a) set error = set error a

  -- `object.get("errors").and_then(Value::as_array)`.
  array_at : (String → Option Value) → String → Option (List Value)
  array_at get key = elim (get key) [ none ↦ none | some v ↦ as_array (view v) ]

  -- The fields that the error takes from an object.
  describe : (String → Option Value) → ApiError Value → ApiError Value
  describe get error =
      let typed =
        when_found (first_text get ("type" ∷ "error_type" ∷ "code" ∷ [])) with_machine_type error in
      let told =
        when_found (first_text get ("message" ∷ "error" ∷ "description" ∷ [])) with_message typed in
      let listed =
        when_found (array_at get "errors") (λ e vs. with_parameter_errors e (parameter_errors vs))
          told in
      when_found (or_else (get "details") (get "data")) with_provider_details listed

  unfoldable pub decode_api_error : ℕ → Value → ApiError Value
  unfolding describe array_at parameter_errors parameter_error
  decode_api_error status value = elim (as_object (view value)) [
    | none ↦ with_raw (api_error status) value
    | some get ↦ with_raw (describe get (api_error status)) value
  ]
