-- ===== src/Examples/Building.antt =====
-- The builders of the polling options at concrete values (src/poll.rs).
use smspool_sdk.Prelude.{ℕ, ◌≡◌, ◌↔◌, ◌<◌, refl, none, false, ok, is_blank}
use smspool_sdk.Transport.Attempt.{is_success}
use smspool_sdk.Poll.Delay.{PollOptions}
use smspool_sdk.Poll.Options.{poll_options, with_intervals}
use smspool_sdk.Poll.Options.Laws.{IsBuilt, IsSound, with_defaults, paced, built-IsSound}
use smspool_sdk.Poll.Cancel.{CancelTimeLockRule, machine_type}
use smspool_sdk.Poll.Cancel.Builders.{cancel_time_lock_rule, cancel_time_lock_rule_iff}
use smspool_sdk.Examples.Crates.{floats}

abbrev quick : PollOptions ℕ
quick = record {
  deadline = 1000;
  base_interval = 2;
  max_interval = 30;
  jitter_ratio = 20;
  cancelled_at = none;
}

quick-IsBuilt : IsBuilt floats quick
unfolding poll_options with_intervals
quick-IsBuilt = paced {options = poll_options floats 1000 none} 2 30 (with_defaults 1000 none) refl

built-IsSound_example : IsSound floats quick
built-IsSound_example = built-IsSound floats quick (refl, refl) quick-IsBuilt

abbrev rule : CancelTimeLockRule
rule = record { status = 400; signature = machine_type "TIME_LOCK"; retry_after = 5 }

cancel_time_lock_rule_iff_example :
    (cancel_time_lock_rule 400 (machine_type "TIME_LOCK") 5 ≡ ok rule) ↔ (
      (is_success 400 ≡ false)
      × (is_blank "TIME_LOCK" ≡ false)
      × (0 < 5)
      × (rule ≡ record { status = 400; signature = machine_type "TIME_LOCK"; retry_after = 5 }))
cancel_time_lock_rule_iff_example = cancel_time_lock_rule_iff 400 5 (machine_type "TIME_LOCK") rule
