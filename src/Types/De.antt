-- ===== src/Types/De.antt =====
-- The lenient readers of JSON values (src/de.rs) and `StatusValue::from_value` (src/types.rs).
pub mod Laws
use smspool_sdk.Prelude.{
  Bool, true, false, String, Option, none, some, Result, ok, err, ◌||◌, ◌>>=◌, is_empty, is_some,
  same_text, if◌then◌else◌,
}
use smspool_sdk.Json.{Json, Shape, ℤ, is_int}
use smspool_sdk.Types.{
  InvalidValue, IdentifierKind, Identifier, identifier, SecretKind, Secret, secret, phone_number,
  StatusValue, sms_text,
}

-- `D::Error::custom`: the message, and the value that it quotes.
pub record DeError (V : Type 0) : Type 0 where
  pub message : String
  pub got : Option V

-- What the SDK uses of `rust_decimal`.
pub record Decimals : Type 1 where
  pub Decimal : Type 0
  pub from_str : String → Option Decimal
  pub from_scientific : String → Option Decimal
  pub to_string : Decimal → String

abbrev not_boolean : String
not_boolean = "expected 0/1, boolean, or lowercase string boolean"

module _ (J : Json) where
  open J use {Value, Number}

  abbrev pub custom : {A : Type 0} → String → Result A (DeError Value)
  custom message = err (record { message = message; got = none })

  abbrev quoting : {A : Type 0} → String → Value → Result A (DeError Value)
  quoting message value = err (record { message = message; got = some value })

  abbrev invalid_value : {A : Type 0} → Result A InvalidValue → Result A (DeError Value)
  invalid_value (ok a) = ok a
  invalid_value (err e) = custom e.reason

  -- The match of `decimal_from_value`.
  decimal_text : Value → Shape Value Number → Result String (DeError Value)
  decimal_text value (Shape.string s) = ok s
  decimal_text value (Shape.number n) = ok (J.number_to_string n)
  decimal_text value _ = quoting "expected decimal string or number" value

  module _ (M : Decimals) where
    open M use {Decimal}

    -- `from_str(&text).or_else(|_| from_scientific(&text))`.
    parse_decimal : String → Option Decimal → Result Decimal (DeError Value)
    parse_decimal text (some d) = ok d
    parse_decimal text none = elim (M.from_scientific text) [
      | none ↦ custom "invalid decimal value"
      | some d ↦ ok d
    ]

    unfoldable pub decimal_from_value : Value → Result Decimal (DeError Value)
    unfolding decimal_text parse_decimal
    decimal_from_value value = do
      text ← decimal_text value (J.view value)
      parse_decimal text (M.from_str text)

  text_or_integer : Value → Shape Value Number → Result String (DeError Value)
  text_or_integer value (Shape.string s) =
      if is_empty s then custom "value must not be empty" else ok s
  text_or_integer value (Shape.number n) =
      if is_some (J.as_i64 n) || J.is_u64 n
      then ok (J.number_to_string n)
      else quoting "expected non-empty string or integer" value
  text_or_integer value _ = quoting "expected non-empty string or integer" value

  unfoldable pub string_or_integer_from_value : Value → Result String (DeError Value)
  unfolding text_or_integer
  string_or_integer_from_value value = text_or_integer value (J.view value)

  -- `Deserialize` of an `identifier!` and of `PhoneNumber`.
  unfoldable pub decode_identifier :
      (kind : IdentifierKind) → Value → Result (Identifier kind) (DeError Value)
  decode_identifier kind value = do
    text ← string_or_integer_from_value value
    invalid_value (identifier kind text)

  unfoldable pub decode_phone_number : Value → Result (Secret phone_number) (DeError Value)
  decode_phone_number value = do
    text ← string_or_integer_from_value value
    invalid_value (secret phone_number text)

  bool_of_text : String → Result Bool (DeError Value)
  bool_of_text s =
      if same_text s "0" || same_text s "false"
      then ok false
      else if same_text s "1" || same_text s "true"
      then ok true
      else custom not_boolean

  bool_of_number : Option ℤ → Result Bool (DeError Value)
  bool_of_number i =
      if is_int 0 i then ok false else if is_int 1 i then ok true else custom not_boolean

  bool_of_shape : Shape Value Number → Result Bool (DeError Value)
  unfolding bool_of_text bool_of_number
  bool_of_shape (Shape.boolean b) = ok b
  bool_of_shape (Shape.number n) = bool_of_number (J.as_i64 n)
  bool_of_shape (Shape.string s) = bool_of_text s
  bool_of_shape _ = custom not_boolean

  unfoldable pub bool_from_value : Value → Result Bool (DeError Value)
  unfolding bool_of_shape
  bool_from_value value = bool_of_shape (J.view value)

  status_of_number : Value → Option ℤ → StatusValue Value
  status_of_number value none = StatusValue.other value
  status_of_number value (some i) = StatusValue.integer i

  status_of_shape : Value → Shape Value Number → StatusValue Value
  unfolding status_of_number
  status_of_shape value Shape.null = StatusValue.null
  status_of_shape value (Shape.boolean b) = StatusValue.boolean b
  status_of_shape value (Shape.string s) = StatusValue.string s
  status_of_shape value (Shape.number n) = status_of_number value (J.as_i64 n)
  status_of_shape value (Shape.array vs) = StatusValue.other value
  status_of_shape value (Shape.object get) = StatusValue.other value

  -- `StatusValue::from_value`.
  unfoldable pub from_value : Value → StatusValue Value
  unfolding status_of_shape
  from_value value = status_of_shape value (J.view value)

  -- `optional_sms` (src/api/sms.rs), after the string is read.
  unfoldable pub optional_sms : String → Result (Option (Secret sms_text)) (DeError Value)
  optional_sms value =
      if is_empty value
      then ok none
      else (invalid_value (secret sms_text value) >>= λ s. ok (some s))
