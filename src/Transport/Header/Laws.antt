-- ===== src/Transport/Header/Laws.antt =====
-- The number in a `Retry-After` header, and the growth of the backoff (src/transport.rs).
use smspool_sdk.Prelude.{
  ℕ, ◌+◌, ◌*◌, ◌-◌, ◌^◌, ◌≤◌, min, ◌≡◌, refl, sym, ap, ◌∙◌, ◌↔◌, Option, some, List, [], ◌∷◌, All,
  arith, ◌==◌, if◌then◌else◌, Bool-cases, Option-cases, inl, inr,
}
use smspool_sdk.Duration.{u64_max, to_u32, pow2_u32, saturating_mul, duration_max, from_secs}
use smspool_sdk.Float.{Floats}
use smspool_sdk.Client.{RetryPolicy}
use smspool_sdk.Transport.Header.{
  push_digit, digits_from, digits, parse_u64, requested_delay, trim, parse_retry_after,
  base_backoff,
}

-- A decimal digit, and the number that digits after `acc` stand for.
abbrev pub IsDigit : ℕ → Type 0
IsDigit c = (b'0' ≤ c) × (c ≤ b'9')

abbrev pub value_from : ℕ → List ℕ → ℕ
value_from acc [] = acc
value_from acc (c ∷ s) = value_from (acc * 10 + (c - b'0')) s

value_from_le : (acc : ℕ) (s : List ℕ) → acc ≤ value_from acc s
value_from_le acc [] = omega arith
value_from_le acc (c ∷ s) = omega (arith, value_from_le (acc * 10 + (c - b'0')) s)

push_digit_iff :
    (acc c n : ℕ)
    → (push_digit acc c ≡ some n) ↔ (IsDigit c × (n ≡ acc * 10 + (c - b'0')) × (n ≤ u64_max))
unfolding push_digit
push_digit_iff acc c n = (λ h. ground arith, λ h. ground arith)

digits_from_sound :
    (acc : ℕ) (s : List ℕ) (n : ℕ)
    → acc ≤ u64_max
    → digits_from (some acc) s ≡ some n
    → All IsDigit s × (n ≡ value_from acc s) × (n ≤ u64_max)
unfolding digits_from
digits_from_sound acc [] n le h = (tt, ground arith, ground arith)
digits_from_sound acc (c ∷ s) n le h = elim (Option-cases (push_digit acc c)) [
  | inl q ↦ ground arith
  | inr (m, q) ↦
      let (digit, next, bound) = (push_digit_iff acc c m).0 q in
      let (rest, total, fits) = digits_from_sound m s n bound (ground arith) in
      ((digit, rest), total ∙ ap (λ k. value_from k s) next, fits)
]

digits_from_complete :
    (acc : ℕ) (s : List ℕ)
    → All IsDigit s
    → value_from acc s ≤ u64_max
    → digits_from (some acc) s ≡ some (value_from acc s)
unfolding digits_from
digits_from_complete acc [] all le = refl
digits_from_complete acc (c ∷ s) (digit, all) le =
    let next = acc * 10 + (c - b'0') in
    let pushed =
      (push_digit_iff acc c next).1 (digit, refl, omega (arith, le, value_from_le next s)) in
    ap (λ o. digits_from o s) pushed ∙ digits_from_complete next s all le

-- What `parse_u64` reads: at least one digit, after at most one plus sign, of a number in range.
abbrev pub IsNumeral : List ℕ → ℕ → Type 0
IsNumeral [] n = ⊥
IsNumeral (c ∷ s) n = All IsDigit (c ∷ s) × (n ≡ value_from 0 (c ∷ s)) × (n ≤ u64_max)

abbrev pub unsigned : List ℕ → List ℕ
unsigned [] = []
unsigned (c ∷ s) = if c == b'+' then s else c ∷ s

digits_iff : (s : List ℕ) (n : ℕ) → (digits s ≡ some n) ↔ IsNumeral s n
unfolding digits
digits_iff [] n = (λ h. cc, λ h. absurd h)
digits_iff (c ∷ s) n = (
  λ h. digits_from_sound 0 (c ∷ s) n (omega arith) h,
  λ h.
      let (all, total, fits) = h in
      digits_from_complete 0 (c ∷ s) all (omega (arith, total, fits)) ∙ ap some (sym total),
)

-- `text.parse::<u64>()` answers exactly the number that the decimal digits stand for, with an optional
-- plus sign before them, and nothing where it passes `u64::MAX`.
pub parse_u64_iff : (s : List ℕ) (n : ℕ) → (parse_u64 s ≡ some n) ↔ IsNumeral (unsigned s) n
unfolding parse_u64
parse_u64_iff [] n = (λ h. cc, λ h. absurd h)
parse_u64_iff (c ∷ s) n = elim (Bool-cases (c == b'+')) [
  | inl q ↦ rw q (digits_iff s n)
  | inr q ↦ rw q (digits_iff (c ∷ s) n)
]

-- `Retry-After` in seconds, with spaces around it, is obeyed up to `max_retry_after`.
pub parse_retry_after-seconds :
    (R : Floats) (http_date : List ℕ → Option ℕ) (now : ℕ) (retry : RetryPolicy (R.F))
    (text : List ℕ) (n : ℕ)
    → IsNumeral (unsigned (trim text)) n
    → parse_retry_after R http_date now retry (some text)
      ≡ some (min (from_secs n) retry.max_retry_after)
unfolding parse_retry_after requested_delay
parse_retry_after-seconds R http_date now retry text n h =
    ground (arith, (parse_u64_iff (trim text) n).1 h)

module _ (R : Floats) (retry : RetryPolicy (R.F)) (valid : retry.max_delay ≤ duration_max) where
  pow2_u32_le31 : (e : ℕ) → pow2_u32 (min e 31) ≡ 2 ^ min e 31
  unfolding pow2_u32
  pow2_u32_le31 e = ground arith

  exponent : (attempt : ℕ) → min (to_u32 (attempt - 1)) 31 ≡ min (attempt - 1) 31
  unfolding to_u32
  exponent attempt = ground arith

  -- The delay doubles with each attempt, at most 31 times and at most to `max_delay`.
  pub base_backoff-doubles :
      (attempt : ℕ)
      → base_backoff R retry attempt
        ≡ min (retry.base_delay * 2 ^ min (attempt - 1) 31) retry.max_delay
  unfolding base_backoff saturating_mul
  base_backoff-doubles attempt = rw (exponent attempt, pow2_u32_le31 (attempt - 1)) (ground arith)
