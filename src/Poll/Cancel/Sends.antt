-- ===== src/Poll/Cancel/Sends.antt =====
-- How often a workflow sends a cancellation (src/poll.rs).
use smspool_sdk.Prelude.{
  ℕ, zero, suc, ◌+◌, ◌≤◌, ◌<◌, ◌≡◌, refl, Bool, true, false, String, Option, none, some, Result, ok,
  err, arith, leb, ltb, ◌==◌,
}
use smspool_sdk.Float.{Floats}
use smspool_sdk.Error.{
  Error, api, rate_limited, transport, timeout, response_too_large, decode, invalid_request,
  unsupported_operation, outcome_unknown,
}
use smspool_sdk.Transport.Io.{Io, Op, ◌>>=◌, ◌>>◌, hand_over, leave_if}
use smspool_sdk.Transport.Rules.{
  SendsAtMost, bind-SendsAtMost, quiet-SendsAtMost, quiet-SendsAtMost-Yields,
}
use smspool_sdk.Poll.Cancel.Conclusion.{Observes, reconcile_once-Observes}
use smspool_sdk.Poll.Observe.{
  CancellationResult, CancellationDisposition, cancellation_accepted, settled_disposition,
}
use smspool_sdk.Poll.Cancel.{
  CancelOptions, CancelWorkflowError, Provider, Flow, look_again, conclude_or_repeat, call,
  concluded, is_final, cancellation_preflight, wait_cancel_retry, wait_reconciliation, repeat_delay,
  reconcile_once, reconcile_unknown, repeat_cancel, after_rejection, after_error, after_cancel,
  cancel_loop, ask_before, fresh, cancel_with_reconciliation,
}

call-SendsAtMost : {B : Type 0} (op : Op B) → SendsAtMost {X = CancelWorkflowError} 0 (call op)
call-SendsAtMost op now = omega arith

ask_before-SendsAtMost :
    {F D V : Type 0} (options : CancelOptions F D) (op : Op (Result D (Error V)))
    → SendsAtMost 0 (ask_before options op)
unfolding ask_before
ask_before-SendsAtMost options op now = ground arith

spend-SendsAtMost :
    {X B : Type 0} (n : ℕ) (rest : Io X B)
    → SendsAtMost n rest
    → SendsAtMost (suc n) (hand_over >> rest)
spend-SendsAtMost n rest h now = omega (arith, h now)

module _ {D : Type 0} where
  look_again-SendsAtMost :
      (final more : Bool) (seen : CancellationResult D) (wait : Flow (Unit {0}))
      (rest : Flow (CancellationResult D)) (n : ℕ)
      → SendsAtMost 0 wait
      → SendsAtMost n rest
      → SendsAtMost n (look_again final more seen wait rest)
  look_again-SendsAtMost true more seen wait rest n h k = λ now. omega arith
  look_again-SendsAtMost false true seen wait rest n h k =
      λ now. omega (arith, bind-SendsAtMost wait (λ _. rest) 0 n h (λ _. k) now)
  look_again-SendsAtMost false false seen wait rest n h k = k

  conclude_or_repeat-SendsAtMost :
      (o : Option CancellationDisposition) (exhausted : Bool) (seen : CancellationResult D)
      (wait : Flow (Unit {0})) (rest : Flow (CancellationResult D)) (n : ℕ)
      → SendsAtMost 0 wait
      → (exhausted ≡ false → SendsAtMost n rest)
      → SendsAtMost n (conclude_or_repeat o exhausted seen wait rest)
  conclude_or_repeat-SendsAtMost (some d) exhausted seen wait rest n h k = λ now. omega arith
  conclude_or_repeat-SendsAtMost none true seen wait rest n h k = λ now. omega arith
  conclude_or_repeat-SendsAtMost none false seen wait rest n h k =
      λ now. omega (arith, bind-SendsAtMost wait (λ _. rest) 0 n h (λ _. k refl) now)

module _ (R : Floats) {P S T Rest D V A : Type 0} (minus : D → D → Option D) (same : D → D → Bool)
    (order_id : String) (options : CancelOptions (R.F) D) (provider : Provider P S T Rest D V A)
    (before : Option D) where
  reconcile_once-SendsAtMost :
      (result : CancellationResult D)
      → SendsAtMost 0 (reconcile_once R minus same order_id options provider before result)
  unfolding reconcile_once
  reconcile_once-SendsAtMost result now = ground arith

  wait-SendsAtMost : SendsAtMost 0 (wait_reconciliation options.poll)
  wait-SendsAtMost now = ground arith

  retry-SendsAtMost :
      (draw retry_after : ℕ) → SendsAtMost 0 (wait_cancel_retry R options.poll draw retry_after)
  retry-SendsAtMost draw retry_after now = ground arith

  reconcile_unknown-SendsAtMost :
      (left : ℕ) (result : CancellationResult D)
      → SendsAtMost 0 (reconcile_unknown R minus same order_id options provider before left result)
  unfolding reconcile_unknown
  reconcile_unknown-SendsAtMost zero result = λ now. omega arith
  reconcile_unknown-SendsAtMost (suc left) result =
      bind-SendsAtMost (reconcile_once R minus same order_id options provider before result) _ 0 0
        (reconcile_once-SendsAtMost result)
        (λ seen.
          look_again-SendsAtMost (is_final seen.check)
            (ltb seen.reconciliation_checks options.max_outcome_unknown_reconciliation_checks) seen
            (wait_reconciliation options.poll)
            (reconcile_unknown R minus same order_id options provider before left seen) 0
            wait-SendsAtMost (reconcile_unknown-SendsAtMost left seen))

  module _ (again : CancellationResult D → Flow (CancellationResult D)) (n : ℕ)
      (result : CancellationResult D)
      (later : (seen : CancellationResult D)
        → seen.cancel_attempts ≡ result.cancel_attempts
        → seen.cancel_attempts < options.max_cancel_attempts
        → SendsAtMost n (again seen)) where
    repeat_cancel-SendsAtMost :
        (delay : ℕ)
        → SendsAtMost n
            (repeat_cancel R minus same order_id options provider before delay again result)
    unfolding repeat_cancel
    repeat_cancel-SendsAtMost delay =
        quiet-SendsAtMost-Yields
          (reconcile_once R minus same order_id options provider before result) _
          (Observes R minus same order_id options provider before result) n
          (reconcile_once-SendsAtMost result)
          (reconcile_once-Observes R minus same order_id options provider before result)
          (λ seen fact.
            conclude_or_repeat-SendsAtMost (settled_disposition seen.check seen.active)
              (leb options.max_cancel_attempts seen.cancel_attempts) seen
              (wait_cancel_retry R options.poll (provider.draw seen.cancel_attempts) delay)
              (again seen) n (retry-SendsAtMost (provider.draw seen.cancel_attempts) delay)
              (λ more. later seen fact.1 (ground arith)))

    after_rejection-SendsAtMost :
        (o : Option ℕ)
        → SendsAtMost n
            (after_rejection R minus same order_id options provider before again result o)
    unfolding after_rejection
    after_rejection-SendsAtMost (some delay) = repeat_cancel-SendsAtMost delay
    after_rejection-SendsAtMost none =
        quiet-SendsAtMost (reconcile_once R minus same order_id options provider before result) _ n
          (reconcile_once-SendsAtMost result) (λ seen now. omega arith)

    after_error-SendsAtMost :
        (error : Error V)
        → SendsAtMost n
            (after_error R minus same order_id options provider before again result error)
    unfolding after_error
    after_error-SendsAtMost (outcome_unknown u) = λ now. omega (
      arith,
      reconcile_unknown-SendsAtMost options.max_outcome_unknown_reconciliation_checks
          (concluded (CancellationDisposition.outcome_unknown u) result) now,
    )
    after_error-SendsAtMost (api x) = after_rejection-SendsAtMost (repeat_delay options (api x))
    after_error-SendsAtMost (rate_limited x d) =
        after_rejection-SendsAtMost (repeat_delay options (rate_limited x d))
    after_error-SendsAtMost (transport x k) =
        after_rejection-SendsAtMost (repeat_delay options (transport x k))
    after_error-SendsAtMost (timeout x p) =
        after_rejection-SendsAtMost (repeat_delay options (timeout x p))
    after_error-SendsAtMost (response_too_large x l) =
        after_rejection-SendsAtMost (repeat_delay options (response_too_large x l))
    after_error-SendsAtMost (decode x p) =
        after_rejection-SendsAtMost (repeat_delay options (decode x p))
    after_error-SendsAtMost (invalid_request x y) =
        after_rejection-SendsAtMost (repeat_delay options (invalid_request x y))
    after_error-SendsAtMost (unsupported_operation x y) =
        after_rejection-SendsAtMost (repeat_delay options (unsupported_operation x y))

    after_cancel-SendsAtMost :
        (answer : Result A (Error V))
        → SendsAtMost n
            (after_cancel R minus same order_id options provider before again result answer)
    unfolding after_cancel
    after_cancel-SendsAtMost (ok a) = λ now.
        omega (arith, reconcile_once-SendsAtMost (concluded cancellation_accepted result) now)
    after_cancel-SendsAtMost (err error) = after_error-SendsAtMost error

  -- What is left of the budget, whatever the fuel.
  cancel_loop-SendsAtMost :
      (fuel n : ℕ) (result : CancellationResult D)
      → n + result.cancel_attempts ≡ options.max_cancel_attempts
      → result.cancel_attempts < options.max_cancel_attempts
      → SendsAtMost n (cancel_loop R minus same order_id options provider before fuel result)
  unfolding cancel_loop
  cancel_loop-SendsAtMost zero n result h more = λ now. omega arith
  cancel_loop-SendsAtMost (suc fuel) zero result h more = absurd (omega arith)
  cancel_loop-SendsAtMost (suc fuel) (suc n) result h more =
      let next = λ (answer : Result A (Error V)).
        after_cancel R minus same order_id options provider before
          (λ seen. cancel_loop R minus same order_id options provider before fuel seen)
          (record result { cancel_attempts = suc result.cancel_attempts }) answer in
      let op = provider.cancel (suc result.cancel_attempts) in
      quiet-SendsAtMost (cancellation_preflight options.poll) _ (suc n) (λ now. ground arith)
        (λ _. spend-SendsAtMost n (call op >>= next) (
          quiet-SendsAtMost (call op) next n (call-SendsAtMost op) (λ answer.
            after_cancel-SendsAtMost
              (λ seen. cancel_loop R minus same order_id options provider before fuel seen) n
              (record result { cancel_attempts = suc result.cancel_attempts })
              (λ seen q left. cancel_loop-SendsAtMost fuel n seen (omega (arith, q, h)) left)
              answer)))

module _ (R : Floats) {P S T Rest D V A : Type 0} (minus : D → D → Option D) (same : D → D → Bool)
    (order_id : String) where
  -- A workflow sends at most `max_cancel_attempts` cancellations, however it ends and however often the
  -- loop goes round.
  pub cancel_with_reconciliation-SendsAtMost :
      (options : CancelOptions (R.F) D) (provider : Provider P S T Rest D V A) (fuel now : ℕ)
      → (cancel_with_reconciliation R minus same order_id options provider fuel now).sent
        ≤ options.max_cancel_attempts
  unfolding cancel_with_reconciliation
  cancel_with_reconciliation-SendsAtMost options provider fuel now =
      let n = options.max_cancel_attempts in
      quiet-SendsAtMost-Yields (leave_if (n == 0) _) _ (λ _. 0 < n) n (λ now. ground arith)
        (λ now a q. ground arith)
        (λ _ some_left.
          quiet-SendsAtMost (leave_if (options.max_outcome_unknown_reconciliation_checks == 0) _) _
            n (λ now. ground arith)
            (λ _.
              quiet-SendsAtMost (cancellation_preflight options.poll) _ n (λ now. ground arith)
                (λ _.
                  quiet-SendsAtMost (ask_before options provider.before_balance) _ n
                    (ask_before-SendsAtMost options provider.before_balance)
                    (λ before.
                      cancel_loop-SendsAtMost R minus same order_id options provider before fuel n
                        (fresh options) (omega arith) some_left))))
        now
