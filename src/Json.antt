-- ===== src/Json.antt =====
-- What the SDK uses of `serde_json` and of `serde`, as a parameter: these crates are not part of the
-- repository. A value is seen through `view`, which is the match on the public enum
-- `serde_json::Value` with `Map::get` for an object.
use smspool_sdk.Prelude.{ℕ, Bool, false, String, Option, none, some, List, ◌==◌}

-- An `i64`; `negsuc n` is -(n + 1).
pub data ℤ : Type 0 where
  pos : ℕ → ℤ
  negsuc : ℕ → ℤ

pub data Shape (V N : Type 0) : Type 0 where
  null : Shape V N
  boolean : Bool → Shape V N
  number : N → Shape V N
  string : String → Shape V N
  array : List V → Shape V N
  object : (String → Option V) → Shape V N

pub record Json : Type 1 where
  -- `serde_json::Value` and `serde_json::Number`.
  pub Value : Type 0
  pub Number : Type 0
  pub view : Value → Shape Value Number
  -- `Number::as_i64`, `Number::is_u64` and `Number::to_string`.
  pub as_i64 : Number → Option ℤ
  pub is_u64 : Number → Bool
  pub number_to_string : Number → String
  -- `serde_json::from_slice`.
  pub from_slice : List ℕ → Option Value
  -- `serde_json::to_vec`.
  pub to_vec : Value → Option (List ℕ)

-- `o.as_i64() == Some(n)`, at `n` not negative.
abbrev pub is_int : ℕ → Option ℤ → Bool
is_int n none = false
is_int n (some (pos m)) = m == n
is_int n (some (negsuc m)) = false

module _ {V N : Type 0} where
  -- `value.as_object().and_then(|object| object.get(key))`.
  abbrev pub field_of : Shape V N → String → Option V
  field_of (object get) key = get key
  field_of null key = none
  field_of (boolean b) key = none
  field_of (number n) key = none
  field_of (string s) key = none
  field_of (array vs) key = none

  -- `Value::as_str`.
  abbrev pub as_str : Shape V N → Option String
  as_str (string s) = some s
  as_str null = none
  as_str (boolean b) = none
  as_str (number n) = none
  as_str (array vs) = none
  as_str (object get) = none

  -- `Value::as_array`.
  abbrev pub as_array : Shape V N → Option (List V)
  as_array (array vs) = some vs
  as_array null = none
  as_array (boolean b) = none
  as_array (number n) = none
  as_array (string s) = none
  as_array (object get) = none

  -- `Value::as_object`.
  abbrev pub as_object : Shape V N → Option (String → Option V)
  as_object (object get) = some get
  as_object null = none
  as_object (boolean b) = none
  as_object (number n) = none
  as_object (string s) = none
  as_object (array vs) = none
