-- ===== src/Api/Fields.antt =====
-- How the API encodes the fields of a request (src/api): the texts of numbers and flags, and optional
-- fields.
pub mod Laws
use Prim.Native.Char.{Char}
use smspool_sdk.Prelude.{
  ℕ, zero, suc, ◌/◌, ◌%◌, Bool, true, false, String, Option, none, some, List, [], ◌∷◌, ltb,
}

abbrev digit_char : ℕ → Char
digit_char zero = "0"
digit_char (suc zero) = "1"
digit_char (suc (suc zero)) = "2"
digit_char (suc (suc (suc zero))) = "3"
digit_char (suc (suc (suc (suc zero)))) = "4"
digit_char (suc (suc (suc (suc (suc zero))))) = "5"
digit_char (suc (suc (suc (suc (suc (suc zero)))))) = "6"
digit_char (suc (suc (suc (suc (suc (suc (suc zero))))))) = "7"
digit_char (suc (suc (suc (suc (suc (suc (suc (suc zero)))))))) = "8"
digit_char (suc (suc (suc (suc (suc (suc (suc (suc (suc d))))))))) = "9"

-- The digits of a number before a text; one step for each digit.
push_digits : (fuel n : ℕ) → String → String
push_digits zero n rest = rest
push_digits (suc fuel) n rest = elim (ltb n 10) [
  | true ↦ String.◌∷◌ (digit_char n) rest
  | false ↦ push_digits fuel (n / 10) (String.◌∷◌ (digit_char (n % 10)) rest)
]

-- `u64::to_string`.
unfoldable pub decimal : ℕ → String
unfolding push_digits
decimal n = push_digits (suc n) n ""

-- `if value { "1" } else { "0" }`.
abbrev pub flag : Bool → String
flag true = "1"
flag false = "0"

-- `if let Some(value) = … { fields.push((name, show(value))); }`.
abbrev pub optional : {A : Type 0} → String → (A → String) → Option A → List (String × String)
optional name show none = []
optional name show (some value) = (name, show value) ∷ []
