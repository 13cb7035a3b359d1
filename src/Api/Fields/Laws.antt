-- ===== src/Api/Fields/Laws.antt =====
-- The text of a number is read back as the number (src/api).
use Prim.Native.Char.{code}
use smspool_sdk.Prelude.{
  ℕ, zero, suc, ◌+◌, ◌/◌, ◌%◌, ◌≤◌, ◌<◌, ◌≡◌, refl, sym, ◌∙◌, ap, Bool, true, false, String, some,
  List, [], ◌∷◌, All, is_nil, codes, ltb, arith, Bool-cases, inl, inr, ◌==◌,
}
use smspool_sdk.Duration.{u64_max}
use smspool_sdk.Transport.Header.{parse_u64}
use smspool_sdk.Transport.Header.Laws.{IsDigit, value_from, IsNumeral, unsigned, parse_u64_iff}
use smspool_sdk.Api.Fields.{digit_char, push_digits, decimal}

code-digit_char : (d : ℕ) → d < 10 → code (digit_char d) ≡ b'0' + d
code-digit_char zero h = refl
code-digit_char (suc zero) h = refl
code-digit_char (suc (suc zero)) h = refl
code-digit_char (suc (suc (suc zero))) h = refl
code-digit_char (suc (suc (suc (suc zero)))) h = refl
code-digit_char (suc (suc (suc (suc (suc zero))))) h = refl
code-digit_char (suc (suc (suc (suc (suc (suc zero)))))) h = refl
code-digit_char (suc (suc (suc (suc (suc (suc (suc zero))))))) h = refl
code-digit_char (suc (suc (suc (suc (suc (suc (suc (suc zero)))))))) h = refl
code-digit_char (suc (suc (suc (suc (suc (suc (suc (suc (suc d))))))))) h = omega (arith, h)

-- A fact of both branches.
branch :
    (P : String → Type 0) (b : Bool) (x y : String)
    → (b ≡ true → P x)
    → (b ≡ false → P y)
    → P (elim b [ true ↦ x | false ↦ y ])
branch P true x y h k = h refl
branch P false x y h k = k refl

is_digit : (d : ℕ) → d < 10 → IsDigit (code (digit_char d))
is_digit d h = (omega (arith, code-digit_char d h), omega (arith, code-digit_char d h, h))

push_digits-IsDigit :
    (fuel n : ℕ) (rest : String)
    → All IsDigit (codes rest)
    → All IsDigit (codes (push_digits fuel n rest))
unfolding push_digits
push_digits-IsDigit zero n rest h = h
push_digits-IsDigit (suc fuel) n rest h =
    let last = String.◌∷◌ (digit_char n) rest in
    let more = String.◌∷◌ (digit_char (n % 10)) rest in
    branch (λ s. All IsDigit (codes s)) (ltb n 10) last (push_digits fuel (n / 10) more)
      (λ q. (is_digit n (ground arith), h))
      (λ q. push_digits-IsDigit fuel (n / 10) more (is_digit (n % 10) (omega arith), h))

value-push_digits :
    (fuel n : ℕ) (rest : String)
    → n < fuel
    → value_from 0 (codes (push_digits fuel n rest)) ≡ value_from n (codes rest)
unfolding push_digits
value-push_digits zero n rest h = absurd (omega arith)
value-push_digits (suc fuel) n rest h =
    let last = String.◌∷◌ (digit_char n) rest in
    let more = String.◌∷◌ (digit_char (n % 10)) rest in
    branch (λ s. value_from 0 (codes s) ≡ value_from n (codes rest)) (ltb n 10) last
      (push_digits fuel (n / 10) more)
      (λ q. ap (λ m. value_from m (codes rest)) (omega (arith, code-digit_char n (ground arith))))
      (λ q.
        value-push_digits fuel (n / 10) more (ground arith)
        ∙ ap (λ m. value_from m (codes rest))
            (omega (arith, code-digit_char (n % 10) (omega arith))))

push_digits-some :
    (fuel n : ℕ) (rest : String) → n < fuel → is_nil (codes (push_digits fuel n rest)) ≡ false
unfolding push_digits
push_digits-some zero n rest h = absurd (omega arith)
push_digits-some (suc fuel) n rest h =
    let last = String.◌∷◌ (digit_char n) rest in
    let more = String.◌∷◌ (digit_char (n % 10)) rest in
    branch (λ s. is_nil (codes s) ≡ false) (ltb n 10) last (push_digits fuel (n / 10) more)
      (λ q. refl) (λ q. push_digits-some fuel (n / 10) more (ground arith))

numeral :
    (s : List ℕ) (n : ℕ)
    → is_nil s ≡ false
    → All IsDigit s
    → n ≡ value_from 0 s
    → n ≤ u64_max
    → IsNumeral (unsigned s) n
numeral [] n h k q le = cc
numeral (c ∷ s) n h k q le = elim (Bool-cases (c == b'+')) [
  | inl r ↦ absurd (ground (arith, k.0))
  | inr r ↦ rw r (k, q, le)
]

-- A number that a `u64` holds is read back from its text.
pub parse_u64-decimal : (n : ℕ) → n ≤ u64_max → parse_u64 (codes (decimal n)) ≡ some n
unfolding decimal
parse_u64-decimal n le = (parse_u64_iff (codes (push_digits (suc n) n "")) n).1 (
    numeral (codes (push_digits (suc n) n "")) n (push_digits-some (suc n) n "" (omega arith))
      (push_digits-IsDigit (suc n) n "" tt) (sym (value-push_digits (suc n) n "" (omega arith))) le)
