-- ===== src/Poll/Cancel/Conclusion.antt =====
-- What the conclusion of a cancellation rests on, and how often it observes (src/poll.rs).
use smspool_sdk.Prelude.{
  ℕ, zero, suc, ◌+◌, ◌≤◌, ◌<◌, ◌≡◌, sym, ◌∙◌, subst, Bool, String, Option, none, some, Result, ok,
  err, arith, leb, ltb, ◌==◌,
}
use smspool_sdk.Float.{Floats}
use smspool_sdk.Error.{
  Error, api, rate_limited, transport, timeout, response_too_large, decode, invalid_request,
  unsupported_operation, outcome_unknown,
}
use smspool_sdk.Transport.Io.{done, ◌>>=◌, ◌>>◌, hand_over, leave_if}
use smspool_sdk.Transport.Rules.{Yields, bind-Yields, then-Yields}
use smspool_sdk.Poll.Observe.{
  CancellationResult, CancellationDisposition, cancellation_accepted, settled_disposition,
}
use smspool_sdk.Poll.Cancel.{
  CancelOptions, Provider, Flow, call, concluded, is_final, cancellation_preflight,
  wait_cancel_retry, wait_reconciliation, repeat_delay, reconcile_once, reconcile_unknown,
  repeat_cancel, after_rejection, after_error, after_cancel, cancel_loop, ask_before, fresh,
  cancel_with_reconciliation,
}
use smspool_sdk.Poll.Cancel.Backing.{
  IsBacked, settled-IsBacked, exhausted-IsBacked, observed-IsBacked, done_inj, look_again-Yields,
  conclude_or_repeat-Yields,
}

-- What a result of the workflow keeps to.
pub record IsConclusion {F D : Type 0} (options : CancelOptions F D) (result : CancellationResult D)
    : Type 0 where
  pub attempts : result.cancel_attempts ≤ options.max_cancel_attempts
  pub checks :
      result.reconciliation_checks
      ≤ options.max_cancel_attempts + options.max_outcome_unknown_reconciliation_checks
  pub backed : IsBacked result.disposition result.check result.active

module _ (R : Floats) {P S T Rest D V A : Type 0} (minus : D → D → Option D) (same : D → D → Bool)
    (order_id : String) (options : CancelOptions (R.F) D) (provider : Provider P S T Rest D V A)
    (before : Option D) where
  -- One more observation, and nothing else has changed.
  abbrev pub Observes : CancellationResult D → CancellationResult D → Type 0
  Observes result seen =
      (seen.reconciliation_checks ≡ suc result.reconciliation_checks)
      × (seen.cancel_attempts ≡ result.cancel_attempts)
      × (seen.disposition ≡ result.disposition)

  pub reconcile_once-Observes :
      (result : CancellationResult D)
      → Yields
          (Observes result)
          (reconcile_once R minus same order_id options provider before result)
  unfolding reconcile_once
  reconcile_once-Observes result now seen h = ground arith

  -- At most `left` more observations.
  abbrev Explores : ℕ → CancellationResult D → CancellationResult D → Type 0
  Explores left result seen =
      (seen.reconciliation_checks ≤ result.reconciliation_checks + left)
      × (seen.cancel_attempts ≡ result.cancel_attempts)
      × (seen.disposition ≡ result.disposition)

  Observes-Explores :
      (left : ℕ) (result seen last : CancellationResult D)
      → Observes result seen
      → Explores left seen last
      → Explores (suc left) result last
  Observes-Explores left result seen last h k = (omega (arith, h.0, k.0), k.1 ∙ h.1, k.2 ∙ h.2)

  reconcile_unknown-Explores :
      (left : ℕ) (result : CancellationResult D)
      → Yields
          (Explores left result)
          (reconcile_unknown R minus same order_id options provider before left result)
  unfolding reconcile_unknown
  reconcile_unknown-Explores zero result = λ now seen h. ground arith
  reconcile_unknown-Explores (suc left) result =
      bind-Yields (reconcile_once R minus same order_id options provider before result) _
        (Observes result) (Explores (suc left) result) (reconcile_once-Observes result)
        (λ seen fact.
          look_again-Yields (is_final seen.check)
            (ltb seen.reconciliation_checks options.max_outcome_unknown_reconciliation_checks) seen
            (wait_reconciliation options.poll)
            (reconcile_unknown R minus same order_id options provider before left seen)
            (Explores (suc left) result) (omega (arith, fact.0), fact.1, fact.2)
            (λ now last h.
              Observes-Explores left result seen last fact
                (reconcile_unknown-Explores left seen now last h)))

  -- Where the loop stands: one more cancellation is allowed.
  abbrev Stands : CancellationResult D → Type 0
  Stands result =
      (result.cancel_attempts < options.max_cancel_attempts)
      × (result.reconciliation_checks ≤ result.cancel_attempts)

  -- A cancellation was sent, and is not observed yet.
  abbrev Awaits : CancellationResult D → Type 0
  Awaits result =
      (result.cancel_attempts ≤ options.max_cancel_attempts)
      × (suc result.reconciliation_checks ≤ result.cancel_attempts)

  Concludes : Flow (CancellationResult D) → Type 0
  Concludes = Yields (IsConclusion options)

  conclude :
      (result seen : CancellationResult D) (d : CancellationDisposition)
      → Awaits result
      → Observes result seen
      → IsBacked d seen.check seen.active
      → IsConclusion options (concluded d seen)
  conclude result seen d h k b = record {
    attempts = omega (arith, h.0, k.1);
    checks = omega (arith, h.0, h.1, k.0);
    backed = b;
  }

  module _ (again : CancellationResult D → Flow (CancellationResult D))
      (later : (seen : CancellationResult D) → Stands seen → Concludes (again seen)) where
    repeat_cancel-Concludes :
        (delay : ℕ) (result : CancellationResult D)
        → Awaits result
        → Concludes (repeat_cancel R minus same order_id options provider before delay again result)
    unfolding repeat_cancel Concludes
    repeat_cancel-Concludes delay result h =
        bind-Yields (reconcile_once R minus same order_id options provider before result) _
          (Observes result) (IsConclusion options) (reconcile_once-Observes result)
          (λ seen k.
            conclude_or_repeat-Yields (settled_disposition seen.check seen.active)
              (leb options.max_cancel_attempts seen.cancel_attempts) seen
              (wait_cancel_retry R options.poll (provider.draw seen.cancel_attempts) delay)
              (again seen) (IsConclusion options)
              (λ d q. conclude result seen d h k (settled-IsBacked seen.check seen.active d q))
              (conclude result seen _ h k (exhausted-IsBacked seen.check seen.active))
              (λ more. later seen (ground arith, omega (arith, h.1, k.0, k.1))))

    after_rejection-Concludes :
        (result : CancellationResult D) (o : Option ℕ)
        → Awaits result
        → Concludes (after_rejection R minus same order_id options provider before again result o)
    unfolding after_rejection Concludes
    after_rejection-Concludes result (some delay) h = repeat_cancel-Concludes delay result h
    after_rejection-Concludes result none h =
        bind-Yields (reconcile_once R minus same order_id options provider before result) _
          (Observes result) (IsConclusion options) (reconcile_once-Observes result)
          (λ seen k now a q.
            subst (IsConclusion options) (done_inj q)
              (conclude result seen _ h k (observed-IsBacked seen.check seen.active)))

    after_error-Concludes :
        (result : CancellationResult D) (error : Error V)
        → Awaits result
        → Concludes (after_error R minus same order_id options provider before again result error)
    unfolding after_error Concludes
    after_error-Concludes result (outcome_unknown u) h =
        let start = concluded (CancellationDisposition.outcome_unknown u) result in
        λ now seen q.
          let k =
            reconcile_unknown-Explores options.max_outcome_unknown_reconciliation_checks start now
              seen q in
          record {
            attempts = omega (arith, h.0, k.1);
            checks = omega (arith, h.0, h.1, k.0);
            backed = subst (λ d. IsBacked d seen.check seen.active) (sym k.2) tt;
          }
    after_error-Concludes result (api x) h =
        after_rejection-Concludes result (repeat_delay options (api x)) h
    after_error-Concludes result (rate_limited x d) h =
        after_rejection-Concludes result (repeat_delay options (rate_limited x d)) h
    after_error-Concludes result (transport x k) h =
        after_rejection-Concludes result (repeat_delay options (transport x k)) h
    after_error-Concludes result (timeout x p) h =
        after_rejection-Concludes result (repeat_delay options (timeout x p)) h
    after_error-Concludes result (response_too_large x l) h =
        after_rejection-Concludes result (repeat_delay options (response_too_large x l)) h
    after_error-Concludes result (decode x p) h =
        after_rejection-Concludes result (repeat_delay options (decode x p)) h
    after_error-Concludes result (invalid_request x y) h =
        after_rejection-Concludes result (repeat_delay options (invalid_request x y)) h
    after_error-Concludes result (unsupported_operation x y) h =
        after_rejection-Concludes result (repeat_delay options (unsupported_operation x y)) h

    after_cancel-Concludes :
        (result : CancellationResult D) (answer : Result A (Error V))
        → Awaits result
        → Concludes (after_cancel R minus same order_id options provider before again result answer)
    unfolding after_cancel Concludes
    after_cancel-Concludes result (ok a) h = λ now seen q.
        let k = reconcile_once-Observes (concluded cancellation_accepted result) now seen q in
        record {
          attempts = omega (arith, h.0, k.1);
          checks = omega (arith, h.0, h.1, k.0);
          backed = subst (λ d. IsBacked d seen.check seen.active) (sym k.2) tt;
        }
    after_cancel-Concludes result (err error) h = after_error-Concludes result error h

  cancel_loop-Concludes :
      (fuel : ℕ) (result : CancellationResult D)
      → Stands result
      → Concludes (cancel_loop R minus same order_id options provider before fuel result)
  unfolding cancel_loop Concludes
  cancel_loop-Concludes zero result h = λ now seen q. cc
  cancel_loop-Concludes (suc fuel) result h =
      let next = λ (answer : Result A (Error V)).
        after_cancel R minus same order_id options provider before
          (λ seen. cancel_loop R minus same order_id options provider before fuel seen)
          (record result { cancel_attempts = suc result.cancel_attempts }) answer in
      let op = provider.cancel (suc result.cancel_attempts) in
      then-Yields (cancellation_preflight options.poll) (λ _. hand_over >> (call op >>= next))
        (IsConclusion options)
        (λ _.
          then-Yields hand_over (λ _. call op >>= next) (IsConclusion options)
            (λ _. then-Yields (call op) next (IsConclusion options) (λ answer.
              after_cancel-Concludes
                (λ seen. cancel_loop R minus same order_id options provider before fuel seen)
                (cancel_loop-Concludes fuel)
                (record result { cancel_attempts = suc result.cancel_attempts }) answer
                (omega (arith, h.0), omega (arith, h.1)))))

module _ (R : Floats) {P S T Rest D V A : Type 0} (minus : D → D → Option D) (same : D → D → Bool)
    (order_id : String) where
  -- A result of a workflow counts at most `max_cancel_attempts` cancellations and at most that and the
  -- limit for unknown outcomes in observations, and its disposition rests on its observations: a
  -- terminal SMS on a received one, or on a terminated check with the order absent from the active ones.
  pub cancel_with_reconciliation-IsConclusion :
      (options : CancelOptions (R.F) D) (provider : Provider P S T Rest D V A) (fuel now : ℕ)
      (result : CancellationResult D)
      → (cancel_with_reconciliation R minus same order_id options provider fuel now).exit
        ≡ done result
      → IsConclusion options result
  unfolding cancel_with_reconciliation Concludes
  cancel_with_reconciliation-IsConclusion options provider fuel =
      let n = options.max_cancel_attempts in
      let loop = λ (before : Option D).
        cancel_loop R minus same order_id options provider before fuel (fresh options) in
      bind-Yields (leave_if (n == 0) _) _ (λ _. 0 < n) (IsConclusion options)
        (λ now a q. ground arith)
        (λ _ some_left.
          then-Yields (leave_if (options.max_outcome_unknown_reconciliation_checks == 0) _) _
            (IsConclusion options)
            (λ _.
              then-Yields (cancellation_preflight options.poll)
                (λ _. ask_before options provider.before_balance >>= loop) (IsConclusion options)
                (λ _.
                  then-Yields (ask_before options provider.before_balance) loop
                    (IsConclusion options)
                    (λ before.
                      cancel_loop-Concludes R minus same order_id options provider before fuel
                        (fresh options) (some_left, omega arith)))))
