-- ===== src/Poll/Cancel/Ending.antt =====
-- A cancellation workflow ends (src/poll.rs): the guard stops the loop before the model's fuel does.
use smspool_sdk.Prelude.{
  ℕ, zero, suc, ◌+◌, ◌≤◌, ◌<◌, ◌≡◌, ◌≢◌, refl, Bool, true, false, String, Option, none, some,
  Result, ok, err, arith, leb, ltb, ◌==◌,
}
use smspool_sdk.Float.{Floats}
use smspool_sdk.Error.{
  Error, api, rate_limited, transport, timeout, response_too_large, decode, invalid_request,
  unsupported_operation, outcome_unknown,
}
use smspool_sdk.Transport.Io.{Op, ◌>>=◌, ◌>>◌, hand_over, leave_if}
use smspool_sdk.Transport.Rules.{Ends, IsSettled, Yields, bind-Ends, bind-Ends-Yields}
use smspool_sdk.Poll.Delay.{PollOptions}
use smspool_sdk.Poll.Observe.{
  CancellationResult, CancellationDisposition, BalanceObservation, observed_balance,
  settled_disposition, cancellation_accepted,
}
use smspool_sdk.Poll.Cancel.Conclusion.{Observes, reconcile_once-Observes}
use smspool_sdk.Poll.Cancel.{
  CancelOptions, Provider, Flow, look_again, conclude_or_repeat, call, concluded, is_final,
  cancellation_preflight, wait_cancel_retry, wait_reconciliation, repeat_delay, reconcile_once,
  reconcile_unknown, repeat_cancel, after_rejection, after_error, after_cancel, cancel_loop,
  ask_before, observe_balance, fresh, cancel_with_reconciliation,
}

call-Ends : {X B : Type 0} (op : Op B) → Ends {X = X} (call op)
call-Ends op now = (λ q. cc, λ q. cc)

ask_before-Ends :
    {F D V : Type 0} (options : CancelOptions F D) (op : Op (Result D (Error V)))
    → Ends (ask_before options op)
unfolding ask_before
ask_before-Ends options op now = (λ q. ground arith, λ q. ground arith)

-- The balance before is one that the provider answered.
abbrev Asked : {F D V : Type 0} → CancelOptions F D → Op (Result D (Error V)) → Option D → Type 0
Asked {D = D} options op before = (b : D) → before ≡ some b → op.answer ≡ ok b

ask_before-Asked :
    {F D V : Type 0} (options : CancelOptions F D) (op : Op (Result D (Error V)))
    → Yields (Asked options op) (ask_before options op)
unfolding ask_before
ask_before-Asked options op now before q b h = ground arith

observed_balance_held :
    {D V : Type 0} (minus : D → D → Option D) (same : D → D → Bool) (before expected : Option D)
    (after : Result D (Error V))
    → ((b a : D) → before ≡ some b → after ≡ ok a → minus a b ≢ none)
    → observed_balance minus same before expected after ≢ none
unfolding observed_balance
observed_balance_held minus same none expected after h q = cc
observed_balance_held minus same (some b) expected (err e) h q = cc
observed_balance_held minus same (some b) expected (ok a) h q = ground (arith, h b a refl refl)

-- A balance is compared without a panic where `Decimal` can hold the difference.
observe_balance-Ends :
    {F D V : Type 0} (minus : D → D → Option D) (same : D → D → Bool) (options : CancelOptions F D)
    (before : Option D) (op : Op (Result D (Error V))) (old : BalanceObservation D)
    → ((b a : D)
        → options.observe_balance ≡ true
        → before ≡ some b
        → op.answer ≡ ok a
        → minus a b ≢ none)
    → Ends (observe_balance minus same options before op old)
unfolding observe_balance
observe_balance-Ends minus same options before op old fits now =
    let held = λ (observed : options.observe_balance ≡ true).
      observed_balance_held minus same before options.expected_refund op.answer
        (λ b a q h. fits b a observed q h) in
    (λ q. ground (arith, held), λ q. ground arith)

module _ {F : Type 0} (options : PollOptions F) where
  cancellation_preflight-Ends : Ends (cancellation_preflight options)
  cancellation_preflight-Ends now = (λ q. ground arith, λ q. ground arith)

  wait-Ends : Ends (wait_reconciliation options)
  wait-Ends now = (λ q. ground arith, λ q. ground arith)

module _ {D : Type 0} where
  look_again-Ends :
      (final more : Bool) (seen : CancellationResult D) (wait : Flow (Unit {0}))
      (rest : Flow (CancellationResult D))
      → Ends wait
      → Ends rest
      → Ends (look_again final more seen wait rest)
  look_again-Ends true more seen wait rest h k = λ now. (λ q. cc, λ q. cc)
  look_again-Ends false true seen wait rest h k = bind-Ends wait (λ _. rest) h (λ _. k)
  look_again-Ends false false seen wait rest h k = k

  conclude_or_repeat-Ends :
      (o : Option CancellationDisposition) (exhausted : Bool) (seen : CancellationResult D)
      (wait : Flow (Unit {0})) (rest : Flow (CancellationResult D))
      → Ends wait
      → (exhausted ≡ false → Ends rest)
      → Ends (conclude_or_repeat o exhausted seen wait rest)
  conclude_or_repeat-Ends (some d) exhausted seen wait rest h k = λ now. (λ q. cc, λ q. cc)
  conclude_or_repeat-Ends none true seen wait rest h k = λ now. (λ q. cc, λ q. cc)
  conclude_or_repeat-Ends none false seen wait rest h k = bind-Ends wait (λ _. rest) h (λ _. k refl)

module _ (R : Floats) {P S T Rest D V A : Type 0} (minus : D → D → Option D) (same : D → D → Bool)
    (order_id : String) (options : CancelOptions (R.F) D) (provider : Provider P S T Rest D V A)
    (before : Option D)
    (fits : (k : ℕ) (b a : D)
      → options.observe_balance ≡ true
      → before ≡ some b
      → (provider.observe k).balance.answer ≡ ok a
      → minus a b ≢ none) where
  retry-Ends : (draw delay : ℕ) → Ends (wait_cancel_retry R options.poll draw delay)
  retry-Ends draw delay now = (λ q. ground arith, λ q. ground arith)

  reconcile_once-Ends :
      (result : CancellationResult D)
      → Ends (reconcile_once R minus same order_id options provider before result)
  unfolding reconcile_once
  reconcile_once-Ends result now =
      let answers = provider.observe (suc result.reconciliation_checks) in
      let compared =
        observe_balance-Ends minus same options before answers.balance result.balance
          (fits (suc result.reconciliation_checks))
          (now + answers.check.takes + answers.active.takes) in
      (λ q. ground (arith, compared.0), λ q. ground (arith, compared.1))

  reconcile_unknown-Ends :
      (left : ℕ) (result : CancellationResult D)
      → Ends (reconcile_unknown R minus same order_id options provider before left result)
  unfolding reconcile_unknown
  reconcile_unknown-Ends zero result = λ now. (λ q. cc, λ q. cc)
  reconcile_unknown-Ends (suc left) result =
      bind-Ends (reconcile_once R minus same order_id options provider before result) _
        (reconcile_once-Ends result)
        (λ seen.
          look_again-Ends (is_final seen.check)
            (ltb seen.reconciliation_checks options.max_outcome_unknown_reconciliation_checks) seen
            (wait_reconciliation options.poll)
            (reconcile_unknown R minus same order_id options provider before left seen)
            (wait-Ends options.poll) (reconcile_unknown-Ends left seen))

  module _ (again : CancellationResult D → Flow (CancellationResult D))
      (result : CancellationResult D)
      (later : (seen : CancellationResult D)
        → seen.cancel_attempts ≡ result.cancel_attempts
        → seen.cancel_attempts < options.max_cancel_attempts
        → Ends (again seen)) where
    after_rejection-Ends :
        (o : Option ℕ)
        → Ends (after_rejection R minus same order_id options provider before again result o)
    unfolding after_rejection repeat_cancel
    after_rejection-Ends (some delay) =
        bind-Ends-Yields (reconcile_once R minus same order_id options provider before result) _
          (Observes R minus same order_id options provider before result)
          (reconcile_once-Ends result)
          (reconcile_once-Observes R minus same order_id options provider before result)
          (λ seen fact.
            conclude_or_repeat-Ends (settled_disposition seen.check seen.active)
              (leb options.max_cancel_attempts seen.cancel_attempts) seen
              (wait_cancel_retry R options.poll (provider.draw seen.cancel_attempts) delay)
              (again seen) (retry-Ends (provider.draw seen.cancel_attempts) delay)
              (λ q. later seen fact.1 (ground arith)))
    after_rejection-Ends none =
        bind-Ends (reconcile_once R minus same order_id options provider before result) _
          (reconcile_once-Ends result) (λ seen now. (λ q. cc, λ q. cc))

    after_error-Ends :
        (error : Error V)
        → Ends (after_error R minus same order_id options provider before again result error)
    unfolding after_error
    after_error-Ends (outcome_unknown u) =
        reconcile_unknown-Ends options.max_outcome_unknown_reconciliation_checks
          (concluded (CancellationDisposition.outcome_unknown u) result)
    after_error-Ends (api x) = after_rejection-Ends (repeat_delay options (api x))
    after_error-Ends (rate_limited x d) =
        after_rejection-Ends (repeat_delay options (rate_limited x d))
    after_error-Ends (transport x k) = after_rejection-Ends (repeat_delay options (transport x k))
    after_error-Ends (timeout x p) = after_rejection-Ends (repeat_delay options (timeout x p))
    after_error-Ends (response_too_large x l) =
        after_rejection-Ends (repeat_delay options (response_too_large x l))
    after_error-Ends (decode x p) = after_rejection-Ends (repeat_delay options (decode x p))
    after_error-Ends (invalid_request x y) =
        after_rejection-Ends (repeat_delay options (invalid_request x y))
    after_error-Ends (unsupported_operation x y) =
        after_rejection-Ends (repeat_delay options (unsupported_operation x y))

    after_cancel-Ends :
        (answer : Result A (Error V))
        → Ends (after_cancel R minus same order_id options provider before again result answer)
    unfolding after_cancel
    after_cancel-Ends (ok a) = reconcile_once-Ends (concluded cancellation_accepted result)
    after_cancel-Ends (err error) = after_error-Ends error

  cancel_loop-Ends :
      (fuel : ℕ) (result : CancellationResult D)
      → options.max_cancel_attempts ≤ result.cancel_attempts + fuel
      → 0 < fuel
      → Ends (cancel_loop R minus same order_id options provider before fuel result)
  unfolding cancel_loop
  cancel_loop-Ends zero result h pos = absurd (omega arith)
  cancel_loop-Ends (suc fuel) result h pos =
      let next = λ (answer : Result A (Error V)).
        after_cancel R minus same order_id options provider before
          (λ seen. cancel_loop R minus same order_id options provider before fuel seen)
          (record result { cancel_attempts = suc result.cancel_attempts }) answer in
      let op = provider.cancel (suc result.cancel_attempts) in
      bind-Ends (cancellation_preflight options.poll) (λ _. hand_over >> (call op >>= next))
        (cancellation_preflight-Ends options.poll)
        (λ _.
          bind-Ends hand_over (λ _. call op >>= next) (λ now. (λ q. cc, λ q. cc))
            (λ _. bind-Ends (call op) next (call-Ends op) (λ answer.
              after_cancel-Ends
                (λ seen. cancel_loop R minus same order_id options provider before fuel seen)
                (record result { cancel_attempts = suc result.cancel_attempts })
                (λ seen q more.
                  cancel_loop-Ends fuel seen (omega (arith, q, h)) (omega (arith, q, h, more)))
                answer)))

module _ (R : Floats) {P S T Rest D V A : Type 0} (minus : D → D → Option D) (same : D → D → Bool)
    (order_id : String) where
  -- With fuel for `max_cancel_attempts` rounds, every workflow ends in a result or an error, whatever
  -- the provider answers, so long as `Decimal` can hold the difference of every balance that is
  -- observed and the one before.
  pub cancel_with_reconciliation-Ends :
      (options : CancelOptions (R.F) D) (provider : Provider P S T Rest D V A)
      → ((k : ℕ) (b a : D)
          → options.observe_balance ≡ true
          → provider.before_balance.answer ≡ ok b
          → (provider.observe k).balance.answer ≡ ok a
          → minus a b ≢ none)
      → (fuel now : ℕ) → options.max_cancel_attempts ≤ fuel
      → IsSettled (cancel_with_reconciliation R minus same order_id options provider fuel now)
  unfolding cancel_with_reconciliation
  cancel_with_reconciliation-Ends options provider fits fuel now enough =
      let n = options.max_cancel_attempts in
      let loop = λ (before : Option D).
        cancel_loop R minus same order_id options provider before fuel (fresh options) in
      bind-Ends-Yields (leave_if (n == 0) _) _ (λ _. 0 < n)
        (λ now. (λ q. ground arith, λ q. ground arith)) (λ now a q. ground arith)
        (λ _ pos.
          bind-Ends (leave_if (options.max_outcome_unknown_reconciliation_checks == 0) _) _
            (λ now. (λ q. ground arith, λ q. ground arith))
            (λ _.
              bind-Ends (cancellation_preflight options.poll)
                (λ _. ask_before options provider.before_balance >>= loop)
                (cancellation_preflight-Ends options.poll)
                (λ _.
                  bind-Ends-Yields (ask_before options provider.before_balance) loop
                    (Asked options provider.before_balance)
                    (ask_before-Ends options provider.before_balance)
                    (ask_before-Asked options provider.before_balance)
                    (λ before asked.
                      cancel_loop-Ends R minus same order_id options provider before
                        (λ k b a observed same_before. fits k b a observed (asked b same_before))
                        fuel (fresh options) (omega arith) (omega arith)))))
        now
