-- ===== src/Examples/Polling.antt =====
-- A cancellation and the pace of polling at concrete values (src/poll.rs).
use smspool_sdk.Prelude.{
  ℕ, ◌*◌, ◌-◌, ◌^◌, ◌≤◌, min, ◌≡◌, refl, true, Option, none, some, leb, [], ok, err, arith, ◌==◌,
  if◌then◌else◌,
}
use smspool_sdk.Error.{rate_limited}
use smspool_sdk.Transport.Io.{done}
use smspool_sdk.Transport.Rules.{IsSettled}
use smspool_sdk.Poll.Delay.{PollOptions, polling_delay}
use smspool_sdk.Poll.Delay.Laws.{
  IsPaced, polling_delay-IsPaced, interval_after, interval_after-doubles,
}
use smspool_sdk.Poll.Orders.{SmsCheck}
use smspool_sdk.Poll.Observe.{
  CancellationResult, CheckObservation, BalanceObservation, not_configured, Answers, terminal_sms,
  absent,
}
use smspool_sdk.Poll.Cancel.{CancelOptions, Provider, cancel_with_reconciliation}
use smspool_sdk.Poll.Cancel.Sends.{cancel_with_reconciliation-SendsAtMost}
use smspool_sdk.Poll.Cancel.Conclusion.{IsConclusion, cancel_with_reconciliation-IsConclusion}
use smspool_sdk.Poll.Cancel.Ending.{cancel_with_reconciliation-Ends}
use smspool_sdk.Examples.Crates.{floats, Document}

abbrev pub test_options : PollOptions ℕ
test_options = record {
  deadline = 1000;
  base_interval = 2;
  max_interval = 30;
  jitter_ratio = 0;
  cancelled_at = none;
}

abbrev options : CancelOptions ℕ ℕ
options = record {
  poll = test_options;
  max_cancel_attempts = 2;
  max_outcome_unknown_reconciliation_checks = 1;
  observe_balance = true;
  expected_refund = none;
  time_lock_rule = none;
}

-- The first cancellation meets a 429, and the order is seen terminated at the second observation.
abbrev seen_at : ℕ → SmsCheck Unit Unit Unit
seen_at k = if k == 1 then SmsCheck.pending tt else SmsCheck.terminated tt

abbrev busy : Provider Unit Unit Unit Unit ℕ Document Unit
busy = record {
  before_balance = record { takes = 1; answer = ok 10 };
  cancel = λ k. record { takes = 1; answer = err (rate_limited "sms.cancel" (some 5)) };
  observe = λ k. record {
    check = record { takes = 1; answer = ok (seen_at k) };
    active = record { takes = 1; answer = ok [] };
    balance = record { takes = 1; answer = ok 10 };
  };
  draw = λ k. 0;
}

-- Amounts that hold no negative difference.
abbrev difference : ℕ → ℕ → Option ℕ
difference a b = if leb b a then some (a - b) else none

abbrev conclusion : CancellationResult ℕ
conclusion = record {
  disposition = terminal_sms;
  cancel_attempts = 2;
  reconciliation_checks = 2;
  check = CheckObservation.terminated;
  active = absent;
  balance = BalanceObservation.delta 0 not_configured;
}

concludes :
    (cancel_with_reconciliation floats difference (λ a b. a == b) "A1" options busy 2 0).exit
    ≡ done conclusion
unfolding cancel_with_reconciliation smspool_sdk.Poll.Cancel.cancel_loop
    smspool_sdk.Poll.Cancel.repeat_delay smspool_sdk.Poll.Cancel.reconcile_once
    smspool_sdk.Poll.Observe.settled_disposition smspool_sdk.Poll.Observe.observed_check
    smspool_sdk.Poll.Observe.observed_active smspool_sdk.Poll.Observe.observed_balance polling_delay
    smspool_sdk.Poll.Delay.jitter
concludes = refl

cancel_with_reconciliation-SendsAtMost_example :
    (cancel_with_reconciliation floats difference (λ a b. a == b) "A1" options busy 2 0).sent ≤ 2
cancel_with_reconciliation-SendsAtMost_example =
    cancel_with_reconciliation-SendsAtMost floats difference (λ a b. a == b) "A1" options busy 2 0

cancel_with_reconciliation-IsConclusion_example : IsConclusion options conclusion
cancel_with_reconciliation-IsConclusion_example =
    cancel_with_reconciliation-IsConclusion floats difference (λ a b. a == b) "A1" options busy 2 0
      conclusion concludes

cancel_with_reconciliation-Ends_example :
    IsSettled (cancel_with_reconciliation floats difference (λ a b. a == b) "A1" options busy 2 0)
cancel_with_reconciliation-Ends_example =
    cancel_with_reconciliation-Ends floats difference (λ a b. a == b) "A1" options busy
      (λ k b a observed asked answered q. ground arith) 2 0 (omega arith)

polling_delay-IsPaced_example :
    IsPaced 30 (some 40) (polling_delay floats test_options 0 4 (some 40))
polling_delay-IsPaced_example = polling_delay-IsPaced floats test_options 0 4 (some 40)

interval_after-doubles_example : interval_after 3 2 30 ≡ min (2 * 2 ^ 3) 30
interval_after-doubles_example = interval_after-doubles 3 2 30 (omega arith) (omega arith)
