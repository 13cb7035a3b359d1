-- ===== src/Duration.antt =====
-- `std::time::Duration` as a number of nanoseconds, with the operations that the SDK calls on it.
-- A duration of the program is at most `duration_max`; sums and products that leave that range
-- saturate or answer `none`, as the standard library's do.
use smspool_sdk.Prelude.{
  ℕ, ◌+◌, ◌*◌, ◌-◌, ◌^◌, ◌≡◌, Bool, Option, none, some, min, arith, leb, ◌==◌, if◌then◌else◌,
}

abbrev pub nanos_per_second : ℕ
nanos_per_second = 1_000_000_000

abbrev pub u64_max : ℕ
u64_max = 2 ^ 64 - 1

abbrev pub u32_max : ℕ
u32_max = 2 ^ 32 - 1

-- `Duration::MAX`.
abbrev pub duration_max : ℕ
duration_max = u64_max * nanos_per_second + 999_999_999

abbrev pub from_secs : ℕ → ℕ
from_secs s = s * nanos_per_second

abbrev pub from_millis : ℕ → ℕ
from_millis ms = ms * 1_000_000

abbrev pub is_zero : ℕ → Bool
is_zero d = d == 0

unfoldable pub checked_mul : ℕ → ℕ → Option ℕ
checked_mul d k = if leb (d * k) duration_max then some (d * k) else none

unfoldable pub saturating_mul : ℕ → ℕ → ℕ
saturating_mul d k = if leb (d * k) duration_max then d * k else duration_max

unfoldable pub saturating_add : ℕ → ℕ → ℕ
saturating_add d e = if leb (d + e) duration_max then d + e else duration_max

-- `u32::try_from(n).unwrap_or(u32::MAX)`.
unfoldable pub to_u32 : ℕ → ℕ
to_u32 n = if leb n u32_max then n else u32_max

-- `2_u32.saturating_pow(e)` for `e ≤ 31`, where no saturation is met.
unfoldable pub pow2_u32 : ℕ → ℕ
pow2_u32 e = if leb e 31 then 2 ^ e else u32_max

pub saturating_mul-min : (d k : ℕ) → saturating_mul d k ≡ min (d * k) duration_max
unfolding saturating_mul
saturating_mul-min d k = ground arith

pub saturating_add-min : (d e : ℕ) → saturating_add d e ≡ min (d + e) duration_max
unfolding saturating_add
saturating_add-min d e = ground arith
