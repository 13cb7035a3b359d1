-- ===== src/Poll/Options.antt =====
-- The builders of the polling options and of the cancellation options, with their checks
-- (src/poll.rs).
pub mod Laws
use smspool_sdk.Prelude.{
  ℕ, ◌*◌, Bool, true, false, not, ◌||◌, ◌&&◌, String, Option, none, some, Result, ok, ltb, leb,
  ◌==◌, reject_if, ◌>>◌, is_blank,
}
use smspool_sdk.Duration.{is_zero, from_secs}
use smspool_sdk.Float.{Floats}
use smspool_sdk.Poll.Delay.{PollOptions}

pub record PollOptionsError : Type 0 where
  pub field : String
  pub reason : String

abbrev default_base_interval : ℕ
default_base_interval = from_secs 2

abbrev default_max_interval : ℕ
default_max_interval = from_secs 30

abbrev pub option_error : (field reason : String) → PollOptionsError
option_error field reason = record { field = field; reason = reason }

module _ (R : Floats) where
  open R use {F}

  -- `PollOptions::new`.
  unfoldable pub poll_options : (deadline : ℕ) (cancelled_at : Option ℕ) → PollOptions F
  poll_options deadline cancelled_at = record {
    deadline = deadline;
    base_interval = default_base_interval;
    max_interval = default_max_interval;
    jitter_ratio = R.default_ratio;
    cancelled_at = cancelled_at;
  }

  unfoldable pub with_intervals :
      PollOptions F → (base_interval max_interval : ℕ) → Result (PollOptions F) PollOptionsError
  with_intervals options base_interval max_interval = do
    reject_if (is_zero base_interval) (option_error "base_interval" "must be greater than zero")
    reject_if (ltb max_interval base_interval)
        (option_error "max_interval" "must be at least the base interval")
    ok (record options { base_interval = base_interval; max_interval = max_interval })

  unfoldable pub with_jitter_ratio : PollOptions F → F → Result (PollOptions F) PollOptionsError
  with_jitter_ratio options jitter_ratio = do
    reject_if (not (R.is_finite jitter_ratio) || not (R.in_unit jitter_ratio))
        (option_error "jitter_ratio" "must be finite and between zero and one")
    ok (record options { jitter_ratio = jitter_ratio })
