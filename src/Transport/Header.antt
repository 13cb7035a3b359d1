-- ===== src/Transport/Header.antt =====
-- The `Retry-After` header and the backoff between attempts (src/transport.rs). A header is the text
-- that `HeaderValue::to_str` answers, by its code points. `http_date` stands for
-- `httpdate::parse_http_date`, in nanoseconds since the epoch, as `now` is.
pub mod Laws
use smspool_sdk.Prelude.{
  ℕ, ◌+◌, ◌*◌, ◌-◌, ◌≤◌, min, Bool, true, false, ◌||◌, ◌&&◌, Option, none, some, List, [], ◌∷◌, leb,
  ◌==◌, is_nil, if◌then◌else◌, is_whitespace,
}
use smspool_sdk.Duration
use smspool_sdk.Duration.{u64_max, from_secs, pow2_u32, saturating_mul}
use smspool_sdk.Float.{Floats}
use smspool_sdk.Client.{RetryPolicy}

-- `str::trim`.
trim_start : List ℕ → List ℕ
trim_start [] = []
trim_start (c ∷ s) = if is_whitespace c then trim_start s else c ∷ s

trim_end : List ℕ → List ℕ
trim_end [] = []
trim_end (c ∷ s) = let rest = trim_end s in if is_nil rest && is_whitespace c then [] else c ∷ rest

unfoldable pub trim : List ℕ → List ℕ
unfolding trim_start trim_end
trim s = trim_end (trim_start s)

-- The value of one more decimal digit, if it is one and the number stays a `u64`.
push_digit : ℕ → ℕ → Option ℕ
push_digit acc c =
    if leb b'0' c && leb c b'9' && leb (acc * 10 + (c - b'0')) u64_max
    then some (acc * 10 + (c - b'0'))
    else none

digits_from : Option ℕ → List ℕ → Option ℕ
digits_from none s = none
digits_from (some acc) [] = some acc
digits_from (some acc) (c ∷ s) = digits_from (push_digit acc c) s

digits : List ℕ → Option ℕ
digits [] = none
digits (c ∷ s) = digits_from (some 0) (c ∷ s)

-- `text.parse::<u64>()`.
unfoldable pub parse_u64 : List ℕ → Option ℕ
unfolding push_digit digits_from digits
parse_u64 [] = none
parse_u64 (c ∷ s) = if c == b'+' then digits s else digits (c ∷ s)

-- The delay that the trimmed text asks for: seconds, or the time left until a date.
unfoldable pub requested_delay : (http_date : List ℕ → Option ℕ) (now : ℕ) → List ℕ → Option ℕ
requested_delay http_date now text = elim (parse_u64 text) [
  | some seconds ↦ some (from_secs seconds)
  | none ↦ elim (http_date text) [ none ↦ none | some deadline ↦ some (deadline - now) ]
]

module _ (R : Floats) where
  open R use {F, scaled}

  capped : RetryPolicy F → Option ℕ → Option ℕ
  capped retry none = none
  capped retry (some parsed) = some (min parsed retry.max_retry_after)

  unfoldable pub parse_retry_after :
      (http_date : List ℕ → Option ℕ) (now : ℕ) → RetryPolicy F → Option (List ℕ) → Option ℕ
  unfolding capped
  parse_retry_after http_date now retry none = none
  parse_retry_after http_date now retry (some text) =
      capped retry (requested_delay http_date now (trim text))

  -- The backoff before jitter.
  unfoldable pub base_backoff : RetryPolicy F → (attempt : ℕ) → ℕ
  base_backoff retry attempt =
      let exponent = Duration.to_u32 (attempt - 1) in
      min (saturating_mul retry.base_delay (pow2_u32 (min exponent 31))) retry.max_delay

  -- `none` is the panic of `mul_f64`.
  unfoldable pub backoff_delay : RetryPolicy F → (draw attempt : ℕ) → Option ℕ
  unfolding base_backoff
  backoff_delay retry draw attempt =
      let base = base_backoff retry attempt in
      if R.is_zero retry.jitter_ratio || Duration.is_zero base
      then some base
      else scaled retry.jitter_ratio draw base
