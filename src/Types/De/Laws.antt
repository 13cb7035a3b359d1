-- ===== src/Types/De/Laws.antt =====
-- What the lenient readers accept (src/de.rs, src/types.rs), against descriptions of their own.
use smspool_sdk.Prelude.{
  ◌≡◌, refl, ◌↔◌, ◌⊎◌, inl, inr, Bool, true, false, ◌||◌, String, Option, none, some, ok, arith,
  ◌>>=◌, is_empty, is_some, eq_iff,
}
use smspool_sdk.Json.{Json, Shape, ℤ, pos, negsuc}
use smspool_sdk.Types.{IdentifierKind, Identifier, identifier, StatusValue}
use smspool_sdk.Types.De.{
  string_or_integer_from_value, decode_identifier, bool_from_value, from_value, text_or_integer,
  invalid_value, bool_of_shape, bool_of_text, bool_of_number, status_of_shape, status_of_number,
}

-- The number and the two texts of a flag.
abbrev pub bit : Bool → ℤ
bit true = pos 1
bit false = pos 0

abbrev pub digit : Bool → String
digit true = "1"
digit false = "0"

abbrev pub word : Bool → String
word true = "true"
word false = "false"

module _ (J : Json) where
  open J use {Value, Number}

  -- What a JSON value must look like to stand for a flag.
  abbrev pub StandsFor : Bool → Shape Value Number → Type 0
  StandsFor b (Shape.boolean c) = c ≡ b
  StandsFor b (Shape.number n) = J.as_i64 n ≡ some (bit b)
  StandsFor b (Shape.string s) = (s ≡ digit b) ⊎ (s ≡ word b)
  StandsFor b Shape.null = ⊥
  StandsFor b (Shape.array vs) = ⊥
  StandsFor b (Shape.object get) = ⊥

  bool_of_number_iff : (i : Option ℤ) (b : Bool) → (bool_of_number J i ≡ ok b) ↔ (i ≡ some (bit b))
  unfolding bool_of_number
  bool_of_number_iff none b = (λ h. cc, λ h. cc)
  bool_of_number_iff (some (pos n)) true = (λ h. ground arith, λ h. ground arith)
  bool_of_number_iff (some (pos n)) false = (λ h. ground arith, λ h. ground arith)
  bool_of_number_iff (some (negsuc n)) true = (λ h. cc, λ h. cc)
  bool_of_number_iff (some (negsuc n)) false = (λ h. cc, λ h. cc)

  bool_of_text_sound :
      (s : String) (b : Bool) → bool_of_text J s ≡ ok b → (s ≡ digit b) ⊎ (s ≡ word b)
  unfolding bool_of_text
  bool_of_text_sound s true h =
      ground (arith, eq_iff s "0", eq_iff s "1", eq_iff s "true", eq_iff s "false")
  bool_of_text_sound s false h =
      ground (arith, eq_iff s "0", eq_iff s "1", eq_iff s "true", eq_iff s "false")

  bool_of_text_complete :
      (s : String) (b : Bool) → (s ≡ digit b) ⊎ (s ≡ word b) → bool_of_text J s ≡ ok b
  unfolding bool_of_text
  bool_of_text_complete s true (inl q) = rw q refl
  bool_of_text_complete s true (inr q) = rw q refl
  bool_of_text_complete s false (inl q) = rw q refl
  bool_of_text_complete s false (inr q) = rw q refl

  bool_of_shape_iff :
      (shape : Shape Value Number) (b : Bool) → (bool_of_shape J shape ≡ ok b) ↔ StandsFor b shape
  unfolding bool_of_shape
  bool_of_shape_iff (Shape.boolean c) b = (λ h. cc, λ h. cc)
  bool_of_shape_iff (Shape.number n) b = bool_of_number_iff (J.as_i64 n) b
  bool_of_shape_iff (Shape.string s) b = (bool_of_text_sound s b, bool_of_text_complete s b)
  bool_of_shape_iff Shape.null b = (λ h. cc, λ h. absurd h)
  bool_of_shape_iff (Shape.array vs) b = (λ h. cc, λ h. absurd h)
  bool_of_shape_iff (Shape.object get) b = (λ h. cc, λ h. absurd h)

  -- A JSON value is read as a flag exactly when it is that Boolean, the number 0 or 1, or one of the
  -- texts "0", "1", "false" and "true" for it.
  pub bool_from_value_iff :
      (v : Value) (b : Bool) → (bool_from_value J v ≡ ok b) ↔ StandsFor b (J.view v)
  unfolding bool_from_value
  bool_from_value_iff v b = bool_of_shape_iff (J.view v) b

  -- What a JSON value must look like to name something: a text, or a number that is an integer.
  abbrev pub Names : String → Shape Value Number → Type 0
  Names s (Shape.string t) = t ≡ s
  Names s (Shape.number n) =
      (J.number_to_string n ≡ s) × ((is_some (J.as_i64 n) || J.is_u64 n) ≡ true)
  Names s Shape.null = ⊥
  Names s (Shape.boolean b) = ⊥
  Names s (Shape.array vs) = ⊥
  Names s (Shape.object get) = ⊥

  module _ (kind : IdentifierKind) (x : Identifier kind) where
    checked_iff :
        (value : Value) (shape : Shape Value Number)
        → ((text_or_integer J value shape >>= λ text. invalid_value J (identifier kind text))
            ≡ ok x)
          ↔ (Names x.as_str shape × (is_empty x.as_str ≡ false))
    unfolding text_or_integer identifier
    checked_iff value (Shape.string s) = (λ h. ground arith, λ h. ground arith)
    checked_iff value (Shape.number n) = (λ h. ground arith, λ h. ground arith)
    checked_iff value Shape.null = (λ h. cc, λ h. absurd h.0)
    checked_iff value (Shape.boolean b) = (λ h. cc, λ h. absurd h.0)
    checked_iff value (Shape.array vs) = (λ h. cc, λ h. absurd h.0)
    checked_iff value (Shape.object get) = (λ h. cc, λ h. absurd h.0)

  -- A JSON value is read as an identifier exactly when it is that text, or an integer written so, and the
  -- text is not empty.
  pub decode_identifier_iff :
      (kind : IdentifierKind) (v : Value) (x : Identifier kind)
      → (decode_identifier J kind v ≡ ok x)
        ↔ (Names x.as_str (J.view v) × (is_empty x.as_str ≡ false))
  unfolding decode_identifier string_or_integer_from_value
  decode_identifier_iff kind v x = checked_iff kind x v (J.view v)

  -- What a status says of the JSON value that it was read from.
  abbrev pub Shows : Value → Shape Value Number → StatusValue Value → Type 0
  Shows v shape (StatusValue.integer i) =
      (n : Number) × (shape ≡ Shape.number n) × (J.as_i64 n ≡ some i)
  Shows v shape (StatusValue.string s) = shape ≡ Shape.string s
  Shows v shape (StatusValue.boolean b) = shape ≡ Shape.boolean b
  Shows v shape StatusValue.null = shape ≡ Shape.null
  Shows v shape (StatusValue.other w) = w ≡ v

  number_Shows :
      (v : Value) (n : Number) (i : Option ℤ)
      → J.as_i64 n ≡ i
      → Shows v (Shape.number n) (status_of_number J v i)
  unfolding status_of_number
  number_Shows v n none q = refl
  number_Shows v n (some i) q = (n, refl, q)

  shape_Shows : (v : Value) (shape : Shape Value Number) → Shows v shape (status_of_shape J v shape)
  unfolding status_of_shape
  shape_Shows v Shape.null = refl
  shape_Shows v (Shape.boolean b) = refl
  shape_Shows v (Shape.number n) = number_Shows v n (J.as_i64 n) refl
  shape_Shows v (Shape.string s) = refl
  shape_Shows v (Shape.array vs) = refl
  shape_Shows v (Shape.object get) = refl

  -- No status is lost in reading: the value read shows the whole JSON value, whatever its shape.
  pub from_value-Shows : (v : Value) → Shows v (J.view v) (from_value J v)
  unfolding from_value
  from_value-Shows v = shape_Shows v (J.view v)
