-- ===== src/Poll/Cancel.antt =====
-- `cancel_with_reconciliation` and its time-lock rule (src/poll.rs).
pub mod Sends
pub mod Builders
pub mod Backing
pub mod Conclusion
pub mod Ending
use smspool_sdk.Prelude.{
  ℕ, zero, suc, ◌+◌, max, Bool, true, false, String, Option, none, some, List, Result, ok, err, ltb,
  leb, ◌==◌, ◌&&◌, if◌then◌else◌, is_some_and, unwrap_or, same_text,
}
use smspool_sdk.Float.{Floats}
use smspool_sdk.Error.{Error, ApiError, api, rate_limited, outcome_unknown}
use smspool_sdk.Transport.Io.{
  Exit, Io, Op, out_of_fuel, at_exit, done, return, or_panic, fail, ◌>>=◌, ◌>>◌, leave_if,
  hand_over,
}
use smspool_sdk.Poll.Delay.{
  PollOptions, polling_delay, capped_wake_at, stop_conditions, sleep_or_stop,
}
use smspool_sdk.Poll.Observe.{
  CancellationResult, CancellationDisposition, CheckObservation, ActiveObservation,
  BalanceObservation, Answers, observed_check, observed_active, observed_balance,
  settled_disposition, exhausted_disposition, disposition_from_observations,
}

pub data TimeLockSignature : Type 0 where
  machine_type message : String → TimeLockSignature

pub record CancelTimeLockRule : Type 0 where
  pub status : ℕ
  pub signature : TimeLockSignature
  pub retry_after : ℕ

abbrev is_text : Option String → String → Bool
is_text none value = false
is_text (some text) value = same_text text value

abbrev signed : {V : Type 0} → TimeLockSignature → ApiError V → Bool
signed (machine_type value) error = is_text error.machine_type value
signed (message value) error = is_text error.message value

-- `CancelTimeLockRule::matches`.
unfoldable pub rule_matches : {V : Type 0} → CancelTimeLockRule → ApiError V → Bool
rule_matches rule error = (error.status == rule.status) && signed rule.signature error

pub record CancelOptions (F D : Type 0) : Type 0 where
  pub poll : PollOptions F
  pub max_cancel_attempts : ℕ
  pub max_outcome_unknown_reconciliation_checks : ℕ
  pub observe_balance : Bool
  pub expected_refund : Option D
  pub time_lock_rule : Option CancelTimeLockRule

pub data CancelWorkflowError : Type 0 where
  invalid_options : (field reason : String) → CancelWorkflowError
  deadline cancelled : CancelWorkflowError

-- What the provider answers: to each cancellation and to each reconciliation, by their numbers, and
-- the draws of the jitter.
pub record Provider (P S T Rest D V A : Type 0) : Type 0 where
  pub before_balance : Op (Result D (Error V))
  pub cancel : ℕ → Op (Result A (Error V))
  pub observe : ℕ → Answers P S T Rest D V
  pub draw : ℕ → ℕ

-- A call that nothing interrupts.
abbrev call : {X A : Type 0} → Op A → Io X A
call op now = record { exit = done op.answer; now = now + op.takes; sent = 0 }

-- `.ok()`.
abbrev ok_of : {A E : Type 0} → Result A E → Option A
ok_of (ok a) = some a
ok_of (err e) = none

-- Why a failed cancellation may be repeated after a delay: a matching time lock, or a 429.
unfoldable pub repeat_delay : {F D V : Type 0} → CancelOptions F D → Error V → Option ℕ
repeat_delay options (api error) = elim options.time_lock_rule [
  | none ↦ none
  | some rule ↦ if rule_matches rule error then some rule.retry_after else none
]
repeat_delay options (rate_limited endpoint retry_after) =
    some (unwrap_or retry_after options.poll.base_interval)
repeat_delay options _ = none

abbrev Flow : Type 0 → Type 0
Flow B = Io CancelWorkflowError B

abbrev cancellation_preflight : {F : Type 0} → PollOptions F → Flow (Unit {0})
cancellation_preflight options = stop_conditions cancelled deadline options

-- `wait_cancel_retry`.
abbrev wait_cancel_retry :
    (R : Floats) → PollOptions (R.F) → (draw retry_after : ℕ) → Flow (Unit {0})
wait_cancel_retry R options draw retry_after =
    sleep_or_stop cancelled deadline options
      (polling_delay R options draw (max options.base_interval retry_after) (some retry_after))

-- `wait_reconciliation`.
abbrev wait_reconciliation : {F : Type 0} → PollOptions F → Flow (Unit {0})
wait_reconciliation options = sleep_or_stop cancelled deadline options options.base_interval

-- The balance is asked for only where it is to be observed.
observe_balance :
    {F D V : Type 0} (minus : D → D → Option D) (same : D → D → Bool)
    → CancelOptions F D
    → (before : Option D) → Op (Result D (Error V))
    → BalanceObservation D
    → Flow (BalanceObservation D)
observe_balance minus same options before op old =
    if options.observe_balance
    then (call op >>= λ after.
        or_panic (observed_balance minus same before options.expected_refund after))
    else return old

abbrev is_final : CheckObservation → Bool
is_final CheckObservation.received = true
is_final CheckObservation.terminated = true
is_final CheckObservation.not_found = true
is_final _ = false

abbrev concluded :
    {D : Type 0} → CancellationDisposition → CancellationResult D → CancellationResult D
concluded disposition result = record result { disposition = disposition }

ask_before : {F D V : Type 0} → CancelOptions F D → Op (Result D (Error V)) → Flow (Option D)
ask_before options op =
    if options.observe_balance then (call op >>= λ before. return (ok_of before)) else return none

abbrev fresh : {F D : Type 0} → CancelOptions F D → CancellationResult D
fresh options = record {
  disposition = CancellationDisposition.inconclusive;
  cancel_attempts = 0;
  reconciliation_checks = 0;
  check = CheckObservation.unavailable;
  active = ActiveObservation.unavailable;
  balance =
      if options.observe_balance
      then BalanceObservation.unavailable
      else BalanceObservation.not_requested;
}

module _ {D : Type 0} where
  -- `break` at a final observation, else a wait if another one may follow, and the rest.
  abbrev pub look_again :
      (final more : Bool)
      → CancellationResult D
      → Flow (Unit {0})
      → Flow (CancellationResult D)
      → Flow (CancellationResult D)
  look_again true more seen wait rest = return seen
  look_again false true seen wait rest = wait >> rest
  look_again false false seen wait rest = rest

  -- A settled disposition, an exhausted budget, or a wait and the rest.
  abbrev pub conclude_or_repeat :
      Option CancellationDisposition
      → (exhausted : Bool) → CancellationResult D
      → Flow (Unit {0})
      → Flow (CancellationResult D)
      → Flow (CancellationResult D)
  conclude_or_repeat (some disposition) exhausted seen wait rest =
      return (concluded disposition seen)
  conclude_or_repeat none true seen wait rest =
      return (concluded (exhausted_disposition seen.check seen.active) seen)
  conclude_or_repeat none false seen wait rest = wait >> rest

module _ (R : Floats) {P S T Rest D V A : Type 0} (minus : D → D → Option D) (same : D → D → Bool)
    (order_id : String) where
  open R use {F}

  unfoldable pub reconcile_once :
      CancelOptions F D
      → Provider P S T Rest D V A
      → (before : Option D) → CancellationResult D
      → Flow (CancellationResult D)
  unfolding observe_balance
  reconcile_once options provider before result = do
    let answers = provider.observe (suc result.reconciliation_checks)
    check ← call answers.check
    active ← call answers.active
    balance ← observe_balance minus same options before answers.balance result.balance
    return (record result {
      reconciliation_checks = suc result.reconciliation_checks;
      check = observed_check check;
      active = observed_active order_id active;
      balance = balance;
    })

  -- The loop after an unknown outcome, with `left` rounds left.
  unfoldable pub reconcile_unknown :
      CancelOptions F D
      → Provider P S T Rest D V A
      → (before : Option D) (left : ℕ) → CancellationResult D
      → Flow (CancellationResult D)
  reconcile_unknown options provider before zero result = return result
  reconcile_unknown options provider before (suc left) result =
      reconcile_once options provider before result >>= λ seen.
      look_again (is_final seen.check)
        (ltb seen.reconciliation_checks options.max_outcome_unknown_reconciliation_checks) seen
        (wait_reconciliation options.poll) (reconcile_unknown options provider before left seen)

  -- After a rejection that may be repeated: settled, exhausted, or `again` after the delay.
  repeat_cancel :
      CancelOptions F D
      → Provider P S T Rest D V A
      → (before : Option D) (delay : ℕ) (again : CancellationResult D → Flow (CancellationResult D))
      → CancellationResult D
      → Flow (CancellationResult D)
  repeat_cancel options provider before delay again result =
      reconcile_once options provider before result >>= λ seen.
      conclude_or_repeat (settled_disposition seen.check seen.active)
        (leb options.max_cancel_attempts seen.cancel_attempts) seen
        (wait_cancel_retry R options.poll (provider.draw seen.cancel_attempts) delay) (again seen)

  -- A failed cancellation whose outcome is known.
  after_rejection :
      CancelOptions F D
      → Provider P S T Rest D V A
      → (before : Option D) (again : CancellationResult D → Flow (CancellationResult D))
      → CancellationResult D
      → Option ℕ
      → Flow (CancellationResult D)
  after_rejection options provider before again result (some delay) =
      repeat_cancel options provider before delay again result
  after_rejection options provider before again result none =
      reconcile_once options provider before result >>= λ seen.
      return (concluded (disposition_from_observations seen.check seen.active) seen)

  -- The match on a failed cancellation.
  after_error :
      CancelOptions F D
      → Provider P S T Rest D V A
      → (before : Option D) (again : CancellationResult D → Flow (CancellationResult D))
      → CancellationResult D
      → Error V
      → Flow (CancellationResult D)
  unfolding after_rejection repeat_cancel
  after_error options provider before again result (outcome_unknown u) =
      reconcile_unknown options provider before options.max_outcome_unknown_reconciliation_checks
        (concluded (CancellationDisposition.outcome_unknown u) result)
  after_error options provider before again result error =
      after_rejection options provider before again result (repeat_delay options error)

  after_cancel :
      CancelOptions F D
      → Provider P S T Rest D V A
      → (before : Option D) (again : CancellationResult D → Flow (CancellationResult D))
      → CancellationResult D
      → Result A (Error V)
      → Flow (CancellationResult D)
  unfolding after_error
  after_cancel options provider before again result (ok a) =
      reconcile_once options provider before
        (concluded CancellationDisposition.cancellation_accepted result)
  after_cancel options provider before again result (err error) =
      after_error options provider before again result error

  -- The loop, which only its guard on `max_cancel_attempts` ends: `fuel` cuts off the model's.
  unfoldable pub cancel_loop :
      CancelOptions F D
      → Provider P S T Rest D V A
      → (before : Option D) (fuel : ℕ) → CancellationResult D
      → Flow (CancellationResult D)
  unfolding after_cancel
  cancel_loop options provider before zero result = at_exit out_of_fuel
  cancel_loop options provider before (suc fuel) result = do
    cancellation_preflight options.poll
    hand_over
    answer ← call (provider.cancel (suc result.cancel_attempts))
    after_cancel options provider before (λ seen. cancel_loop options provider before fuel seen)
        (record result { cancel_attempts = suc result.cancel_attempts }) answer

  unfoldable pub cancel_with_reconciliation :
      CancelOptions F D → Provider P S T Rest D V A → (fuel : ℕ) → Flow (CancellationResult D)
  unfolding ask_before
  cancel_with_reconciliation options provider fuel = do
    leave_if (options.max_cancel_attempts == 0)
        (invalid_options "max_cancel_attempts" "must be greater than zero")
    leave_if (options.max_outcome_unknown_reconciliation_checks == 0)
        (invalid_options "max_outcome_unknown_reconciliation_checks" "must be greater than zero")
    cancellation_preflight options.poll
    before ← ask_before options provider.before_balance
    cancel_loop options provider before fuel (fresh options)
