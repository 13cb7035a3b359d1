-- ===== src/Poll/Observe.antt =====
-- What a cancellation observes and concludes: `CancellationResult`, `reconcile_once` and the three
-- dispositions (src/poll.rs). `D` stands for `Decimal`.
use smspool_sdk.Prelude.{
  ℕ, Bool, true, false, ◌||◌, String, Option, none, some, List, Result, ok, err, any, if◌then◌else◌,
  same_text, ◌==◌,
}
use mathlib.Core.Option
use smspool_sdk.Error.{Error, OutcomeUnknown, api}
use smspool_sdk.Transport.Io.{Op}
use smspool_sdk.Poll.Orders.{SmsCheck, ActiveOrder}

pub data CheckObservation : Type 0 where
  pending received terminated not_found unavailable : CheckObservation

pub data ActiveObservation : Type 0 where
  present absent unavailable : ActiveObservation

pub data ExpectedRefundMatch : Type 0 where
  not_configured matches does_not_match : ExpectedRefundMatch

pub data BalanceObservation (D : Type 0) : Type 0 where
  not_requested unavailable : BalanceObservation D
  delta : (amount : D) → ExpectedRefundMatch → BalanceObservation D

pub data CancellationDisposition : Type 0 where
  cancellation_accepted terminal_sms still_active not_found inconclusive : CancellationDisposition
  outcome_unknown : OutcomeUnknown → CancellationDisposition

pub record CancellationResult (D : Type 0) : Type 0 where
  pub disposition : CancellationDisposition
  pub cancel_attempts : ℕ
  pub reconciliation_checks : ℕ
  pub check : CheckObservation
  pub active : ActiveObservation
  pub balance : BalanceObservation D

-- The answers that one reconciliation gets from the provider.
pub record Answers (P S T Rest D V : Type 0) : Type 0 where
  pub check : Op (Result (SmsCheck P S T) (Error V))
  pub active : Op (Result (List (ActiveOrder Rest)) (Error V))
  pub balance : Op (Result D (Error V))

-- The match on the check's error.
abbrev is_not_found : {V : Type 0} → Error V → Bool
is_not_found (api error) = error.status == 404
is_not_found _ = false

unfoldable pub observed_check :
    {P S T V : Type 0} → Result (SmsCheck P S T) (Error V) → CheckObservation
observed_check (ok (SmsCheck.pending p)) = CheckObservation.pending
observed_check (ok (SmsCheck.received s)) = CheckObservation.received
observed_check (ok (SmsCheck.terminated t)) = CheckObservation.terminated
observed_check (err error) =
    if is_not_found error then CheckObservation.not_found else CheckObservation.unavailable

unfoldable pub observed_active :
    {Rest V : Type 0} → String → Result (List (ActiveOrder Rest)) (Error V) → ActiveObservation
observed_active order_id (ok orders) =
    if any (λ order. same_text order.order_code order_id) orders then present else absent
observed_active order_id (err error) = ActiveObservation.unavailable

-- `after.value() - before.value()`, which panics where `Decimal` cannot hold the difference (`none`),
-- and equality of amounts.
module _ {D : Type 0} (minus : D → D → Option D) (same : D → D → Bool) where
  refund_match : (amount : D) → Option D → ExpectedRefundMatch
  refund_match amount none = not_configured
  refund_match amount (some expected) = if same amount expected then matches else does_not_match

  unfoldable pub observed_balance :
      {V : Type 0} (before expected_refund : Option D)
      → Result D (Error V)
      → Option (BalanceObservation D)
  unfolding refund_match
  observed_balance none expected_refund after = some BalanceObservation.unavailable
  observed_balance (some before) expected_refund (err error) = some BalanceObservation.unavailable
  observed_balance (some before) expected_refund (ok after) =
      Option.map (λ amount. delta amount (refund_match amount expected_refund)) (minus after before)

-- `settled_disposition`.
unfoldable pub settled_disposition :
    CheckObservation → ActiveObservation → Option CancellationDisposition
settled_disposition CheckObservation.received active = some terminal_sms
settled_disposition CheckObservation.terminated absent = some terminal_sms
settled_disposition CheckObservation.terminated present = none
settled_disposition CheckObservation.terminated ActiveObservation.unavailable = none
settled_disposition CheckObservation.not_found active = some CancellationDisposition.not_found
settled_disposition CheckObservation.pending active = none
settled_disposition CheckObservation.unavailable active = none

abbrev is_pending : CheckObservation → Bool
is_pending CheckObservation.pending = true
is_pending _ = false

abbrev is_present : ActiveObservation → Bool
is_present present = true
is_present _ = false

-- `exhausted_disposition`.
unfoldable pub exhausted_disposition :
    CheckObservation → ActiveObservation → CancellationDisposition
exhausted_disposition check active =
    if is_pending check || is_present active then still_active else inconclusive

-- `disposition_from_observations`.
unfoldable pub disposition_from_observations :
    CheckObservation → ActiveObservation → CancellationDisposition
disposition_from_observations CheckObservation.received active = terminal_sms
disposition_from_observations CheckObservation.terminated absent = terminal_sms
disposition_from_observations CheckObservation.terminated present = still_active
disposition_from_observations CheckObservation.terminated ActiveObservation.unavailable =
    inconclusive
disposition_from_observations CheckObservation.not_found active = CancellationDisposition.not_found
disposition_from_observations CheckObservation.pending present = still_active
disposition_from_observations CheckObservation.pending absent = inconclusive
disposition_from_observations CheckObservation.pending ActiveObservation.unavailable = inconclusive
disposition_from_observations CheckObservation.unavailable active = inconclusive
