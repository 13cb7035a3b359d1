-- ===== src/Poll/Cancel/Builders.antt =====
-- The builders of `CancelTimeLockRule` and `CancelOptions`, with their checks (src/poll.rs).
use smspool_sdk.Prelude.{
  ℕ, ◌<◌, ◌≡◌, ◌↔◌, true, false, String, none, some, Result, ok, reject_if, ◌>>◌, is_blank, arith,
}
use smspool_sdk.Duration.{is_zero}
use smspool_sdk.Transport.Attempt.{is_success}
use smspool_sdk.Poll.Delay.{PollOptions}
use smspool_sdk.Poll.Options.{PollOptionsError, option_error}
use smspool_sdk.Poll.Cancel.{
  TimeLockSignature, machine_type, message, CancelTimeLockRule, CancelOptions,
}

abbrev pub text_of : TimeLockSignature → String
text_of (machine_type value) = value
text_of (message value) = value

-- `CancelTimeLockRule::new`, and so its two callers.
unfoldable pub cancel_time_lock_rule :
    (status : ℕ)
    → TimeLockSignature
    → (retry_after : ℕ) → Result CancelTimeLockRule PollOptionsError
cancel_time_lock_rule status signature retry_after = do
  reject_if (is_success status)
      (option_error "time_lock_rule.status" "must be a non-success status")
  reject_if (is_blank (text_of signature))
      (option_error "time_lock_rule.signature" "must not be empty")
  reject_if (is_zero retry_after)
      (option_error "time_lock_rule.retry_after" "must be greater than zero")
  ok (record { status = status; signature = signature; retry_after = retry_after })

module _ {F D : Type 0} where
  -- `CancelOptions::new`.
  unfoldable pub cancel_options : PollOptions F → CancelOptions F D
  cancel_options poll = record {
    poll = poll;
    max_cancel_attempts = 1;
    max_outcome_unknown_reconciliation_checks = 1;
    observe_balance = false;
    expected_refund = none;
    time_lock_rule = none;
  }

  unfoldable pub with_expected_refund : CancelOptions F D → D → CancelOptions F D
  with_expected_refund options value = record options {
    expected_refund = some value;
    observe_balance = true;
  }

  abbrev pub with_time_lock_rule : CancelOptions F D → CancelTimeLockRule → CancelOptions F D
  with_time_lock_rule options value = record options { time_lock_rule = some value }

-- A time-lock rule is accepted exactly when its status reports no success, its text is not blank and its
-- delay is positive; it then holds what it was given.
pub cancel_time_lock_rule_iff :
    (status retry_after : ℕ) (signature : TimeLockSignature) (rule : CancelTimeLockRule)
    → (cancel_time_lock_rule status signature retry_after ≡ ok rule) ↔ (
        (is_success status ≡ false)
        × (is_blank (text_of signature) ≡ false)
        × (0 < retry_after)
        × (rule ≡ record { status = status; signature = signature; retry_after = retry_after }))
unfolding cancel_time_lock_rule
cancel_time_lock_rule_iff status retry_after signature rule = (λ h. ground arith, λ h. ground arith)
