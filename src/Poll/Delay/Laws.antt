-- ===== src/Poll/Delay/Laws.antt =====
-- The pace of polling (src/poll.rs): the floor and the cap of a delay, and the doubling interval.
use smspool_sdk.Prelude.{ℕ, zero, suc, ◌*◌, ◌^◌, ◌≤◌, min, ◌≡◌, ◌∙◌, Option, none, some, arith}
use smspool_sdk.Duration.{checked_mul, duration_max}
use smspool_sdk.Float.{Floats}
use smspool_sdk.Poll.Delay.{PollOptions, advance_interval, polling_delay}

-- Without a `Retry-After` a delay is at most the maximum, with one it is at least that long.
abbrev pub IsPaced : (maximum : ℕ) → Option ℕ → (delay : ℕ) → Type 0
IsPaced maximum none delay = delay ≤ maximum
IsPaced maximum (some retry_after) delay = retry_after ≤ delay

-- Whatever the jitter draws, a polling delay is never shorter than the provider's `Retry-After`, and
-- without one never longer than the maximum interval.
pub polling_delay-IsPaced :
    (R : Floats) (options : PollOptions (R.F)) (draw normal_delay : ℕ) (retry_after : Option ℕ)
    → IsPaced options.max_interval retry_after
        (polling_delay R options draw normal_delay retry_after)
unfolding polling_delay
polling_delay-IsPaced R options draw normal_delay none = ground arith
polling_delay-IsPaced R options draw normal_delay (some d) = ground arith

-- The interval after some polls.
abbrev pub interval_after : (polls base maximum : ℕ) → ℕ
interval_after zero base maximum = base
interval_after (suc polls) base maximum =
    advance_interval (interval_after polls base maximum) maximum

advance_interval-min :
    (current maximum : ℕ)
    → maximum ≤ duration_max
    → advance_interval current maximum ≡ min (current * 2) maximum
unfolding advance_interval checked_mul
advance_interval-min current maximum h = ground arith

double : (b k : ℕ) → b * 2 ^ suc k ≡ b * 2 ^ k * 2
double b k = grind arith

-- From a base within the maximum, the interval doubles with each poll up to the maximum.
pub interval_after-doubles :
    (polls base maximum : ℕ)
    → base ≤ maximum
    → maximum ≤ duration_max
    → interval_after polls base maximum ≡ min (base * 2 ^ polls) maximum
interval_after-doubles zero base maximum le h = omega arith
interval_after-doubles (suc polls) base maximum le h =
    let before = interval_after-doubles polls base maximum le h in
    let next = advance_interval-min (interval_after polls base maximum) maximum h in
    next ∙ omega (arith, before, double base polls)
