-- ===== src/Poll/Cancel/Backing.antt =====
-- The observations behind a disposition, and what the ends of a round yield (src/poll.rs).
use smspool_sdk.Prelude.{◌≡◌, refl, subst, ◌⊎◌, Bool, true, false, Option, none, some, arith}
use smspool_sdk.Transport.Io.{Exit, done}
use smspool_sdk.Transport.Rules.{Yields, bind-Yields}
use smspool_sdk.Poll.Observe.{
  CancellationResult, CancellationDisposition, CheckObservation, ActiveObservation, terminal_sms,
  still_active, cancellation_accepted, inconclusive, absent, present, settled_disposition,
  exhausted_disposition, disposition_from_observations,
}
use smspool_sdk.Poll.Cancel.{Flow, look_again, conclude_or_repeat, concluded}

-- What a disposition says of the observations behind it.
abbrev pub IsBacked : CancellationDisposition → CheckObservation → ActiveObservation → Type 0
IsBacked terminal_sms check active =
    (check ≡ CheckObservation.received)
    ⊎ ((check ≡ CheckObservation.terminated) × (active ≡ absent))
IsBacked CancellationDisposition.not_found check active = check ≡ CheckObservation.not_found
IsBacked still_active check active = (check ≡ CheckObservation.pending) ⊎ (active ≡ present)
IsBacked cancellation_accepted check active = Unit
IsBacked inconclusive check active = Unit
IsBacked (CancellationDisposition.outcome_unknown u) check active = Unit

pub settled-IsBacked :
    (check : CheckObservation) (active : ActiveObservation) (d : CancellationDisposition)
    → settled_disposition check active ≡ some d
    → IsBacked d check active
unfolding settled_disposition
settled-IsBacked check active d h = ground arith

pub exhausted-IsBacked :
    (check : CheckObservation) (active : ActiveObservation)
    → IsBacked (exhausted_disposition check active) check active
unfolding exhausted_disposition
exhausted-IsBacked check active = ground arith

pub observed-IsBacked :
    (check : CheckObservation) (active : ActiveObservation)
    → IsBacked (disposition_from_observations check active) check active
unfolding disposition_from_observations
observed-IsBacked check active = ground arith

pub done_inj : {X A : Type 0} {a b : A} → ◌≡◌ {A = Exit X A} (done a) (done b) → a ≡ b
done_inj q = cc

module _ {D : Type 0} where
  pub look_again-Yields :
      (final more : Bool) (seen : CancellationResult D) (wait : Flow (Unit {0}))
      (rest : Flow (CancellationResult D)) (Q : CancellationResult D → Type 0)
      → Q seen
      → Yields Q rest
      → Yields Q (look_again final more seen wait rest)
  look_again-Yields true more seen wait rest Q h k = λ now a q. subst Q (done_inj q) h
  look_again-Yields false true seen wait rest Q h k =
      bind-Yields wait (λ _. rest) (λ _. Unit) Q (λ now a q. tt) (λ _ _. k)
  look_again-Yields false false seen wait rest Q h k = k

  pub conclude_or_repeat-Yields :
      (o : Option CancellationDisposition) (exhausted : Bool) (seen : CancellationResult D)
      (wait : Flow (Unit {0})) (rest : Flow (CancellationResult D))
      (Q : CancellationResult D → Type 0)
      → ((d : CancellationDisposition) → o ≡ some d → Q (concluded d seen))
      → Q (concluded (exhausted_disposition seen.check seen.active) seen)
      → (exhausted ≡ false → Yields Q rest)
      → Yields Q (conclude_or_repeat o exhausted seen wait rest)
  conclude_or_repeat-Yields (some d) exhausted seen wait rest Q h x k =
      λ now a q. subst Q (done_inj q) (h d refl)
  conclude_or_repeat-Yields none true seen wait rest Q h x k = λ now a q. subst Q (done_inj q) x
  conclude_or_repeat-Yields none false seen wait rest Q h x k =
      bind-Yields wait (λ _. rest) (λ _. Unit) Q (λ now a q. tt) (λ _ _. k refl)
