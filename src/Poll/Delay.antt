-- ===== src/Poll/Delay.antt =====
-- `PollOptions` and the delays between polls (src/poll.rs). The cancellation token is the time at which
-- it is cancelled, if it ever is.
pub mod Laws
pub mod Stops
use smspool_sdk.Prelude.{
  ℕ, ◌+◌, ◌*◌, Bool, true, false, ◌||◌, Option, none, some, leb, ltb, min, max, is_some, unwrap_or,
  if◌then◌else◌,
}
use smspool_sdk.Duration.{checked_mul, duration_max, is_zero}
use smspool_sdk.Float.{Floats}
use smspool_sdk.Transport.Io.{Io, Op, return, fail, at_exit, done, failed}

pub record PollOptions (F : Type 0) : Type 0 where
  pub deadline : ℕ
  pub base_interval : ℕ
  pub max_interval : ℕ
  pub jitter_ratio : F
  pub cancelled_at : Option ℕ

-- `cancellation.is_cancelled()`.
abbrev pub is_cancelled : Option ℕ → (now : ℕ) → Bool
is_cancelled none now = false
is_cancelled (some at) now = leb at now

unfoldable pub advance_interval : (current maximum : ℕ) → ℕ
advance_interval current maximum = min (unwrap_or (checked_mul current 2) maximum) maximum

-- `duration_from_nanos`.
abbrev pub duration_from_nanos : ℕ → ℕ
duration_from_nanos nanos = if leb nanos duration_max then nanos else duration_max

module _ (R : Floats) where
  open R use {F}

  unfoldable pub jitter : (duration : ℕ) (ratio : F) (draw : ℕ) → ℕ
  jitter duration ratio draw =
      if R.is_zero ratio || is_zero duration
      then duration
      else duration_from_nanos (R.jittered ratio draw duration)

  unfoldable pub polling_delay :
      PollOptions F → (draw normal_delay : ℕ) (retry_after : Option ℕ) → ℕ
  polling_delay options draw normal_delay retry_after =
      let floor = unwrap_or retry_after 0 in
      let jittered = jitter (max normal_delay floor) options.jitter_ratio draw in
      if is_some retry_after then max jittered floor else min jittered options.max_interval

-- `capped_wake_at`; a sum that no `Instant` holds lies behind the deadline.
abbrev pub capped_wake_at : (delay deadline now : ℕ) → ℕ
capped_wake_at delay deadline now = min (now + delay) deadline

module _ {X : Type 0} {F : Type 0} (cancelled deadline : X) where
  -- `if is_cancelled { … } if Instant::now() >= deadline { … }`.
  abbrev pub stop_conditions : PollOptions F → Io X (Unit {0})
  stop_conditions options now =
      if is_cancelled options.cancelled_at now
      then fail cancelled now
      else if leb options.deadline now
      then fail deadline now
      else return tt now

  -- The biased `select!` of the token, the deadline and a sleep until a time.
  abbrev pub sleep_until_or_stop : PollOptions F → (at : ℕ) → Io X (Unit {0})
  sleep_until_or_stop options at now =
      let wake_at = max now (min at options.deadline) in
      if is_cancelled options.cancelled_at wake_at
      then record {
        exit = failed cancelled;
        now = max now (unwrap_or options.cancelled_at 0);
        sent = 0;
      }
      else if leb options.deadline wake_at
      then record { exit = failed deadline; now = max now options.deadline; sent = 0 }
      else record { exit = done tt; now = wake_at; sent = 0 }

  abbrev pub sleep_or_stop : PollOptions F → (delay : ℕ) → Io X (Unit {0})
  sleep_or_stop options delay now =
      sleep_until_or_stop options (capped_wake_at delay options.deadline now) now

  -- The biased `select!` of the token, the deadline and an operation: whichever ends first, and the
  -- earlier arm where two end at once.
  abbrev pub ask_or_stop : {A : Type 0} → PollOptions F → Op A → Io X A
  ask_or_stop options op now =
      let finish = now + op.takes in
      let stop = max now options.deadline in
      if is_cancelled options.cancelled_at (min finish stop)
      then record {
        exit = failed cancelled;
        now = max now (unwrap_or options.cancelled_at 0);
        sent = 0;
      }
      else if leb stop finish
      then record { exit = failed deadline; now = stop; sent = 0 }
      else record { exit = done op.answer; now = finish; sent = 0 }
