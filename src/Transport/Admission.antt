-- ===== src/Transport/Admission.antt =====
-- Waiting for a start slot and a concurrency permit, `acquire_admission` (src/transport.rs). What the
-- other tasks do to the locks, the schedule and the semaphore enters as the answers of each round.
pub mod Laws
pub mod Progress
use smspool_sdk.Prelude.{
  ℕ, zero, suc, ◌+◌, ◌-◌, Bool, true, false, not, String, Option, none, some, leb, ltb,
  if◌then◌else◌, is_some_and,
}
use smspool_sdk.Endpoint.{Endpoint}
use smspool_sdk.Error.{
  TransportErrorKind, TimeoutPhase, concurrency_permit, qps_admission, transport, timeout, other,
}
use smspool_sdk.Client.{Client}
use smspool_sdk.Transport.Failure.{AttemptFailure, final_error}
use smspool_sdk.Transport.Io.{
  Exit, Io, Op, panicked, out_of_fuel, at_exit, return, fail, await_within, await_until, ◌>>=◌,
  ◌>>◌, leave_if, get_now,
}

-- One round of the loop: the schedule's `next_start` as the two locks show it, and whether the
-- semaphore is open when the permit comes.
pub record Round : Type 0 where
  pub first_look : Op (Option ℕ)
  pub permit : Op Bool
  pub second_look : Op (Option ℕ)

-- `next_start.is_some_and(|next_start| next_start > now)`.
abbrev pub is_future : (now : ℕ) → Option ℕ → Bool
is_future now next_start = is_some_and next_start (λ n. ltb now n)

module _ {V : Type 0} where
  abbrev pub qps_timeout : Endpoint → AttemptFailure V
  qps_timeout e = final_error (timeout e.name qps_admission)

  -- `timeout_at(qps_deadline, sleep_until(next_start))`, where `next_start` lies ahead.
  wait_for_slot : Endpoint → (deadline : ℕ) → Option ℕ → Io (AttemptFailure V) (Unit {0})
  wait_for_slot e deadline none now = return tt now
  wait_for_slot e deadline (some next_start) now =
      if ltb now next_start
      then await_until deadline (record { takes = next_start - now; answer = tt }) (qps_timeout e)
          now
      else return tt now

  -- The permit, with the deadline of its own.
  take_permit : Endpoint → (limit : ℕ) → Op Bool → Io (AttemptFailure V) (Unit {0})
  take_permit e limit permit = do
    is_open ← await_within limit permit (final_error (timeout e.name concurrency_permit))
    leave_if (not is_open) (final_error (transport e.name other))

  -- `Instant::now() + wait`, which panics past the last instant that can be represented.
  instant_after : (last wait : ℕ) → Io (AttemptFailure V) ℕ
  instant_after last wait now =
      if ltb last (now + wait) then at_exit panicked now else return (now + wait) now

  -- The recheck under the second lock: `some s` commits `s` as the next start, `none` goes round.
  commit_slot :
      Endpoint
      → (last interval deadline : ℕ) → Option ℕ
      → (now : ℕ) → Io (AttemptFailure V) (Option ℕ)
  commit_slot e last interval deadline next_start now =
      if is_future now next_start
      then if leb deadline now then fail (qps_timeout e) else return none
      else (instant_after last interval >>= λ slot. return (some slot))

  unfoldable pub admit_round :
      Endpoint → (last interval deadline limit : ℕ) → Round → Io (AttemptFailure V) (Option ℕ)
  unfolding wait_for_slot take_permit instant_after commit_slot
  admit_round e last interval deadline limit r = do
    next_start ← await_until deadline r.first_look (qps_timeout e)
    wait_for_slot e deadline next_start
    take_permit e limit r.permit
    next_start ← await_until deadline r.second_look (qps_timeout e)
    now ← get_now
    commit_slot e last interval deadline next_start now

  -- The loop, from round `k`.
  unfoldable pub admit_rounds :
      Endpoint
      → (last interval deadline limit : ℕ) → (ℕ → Round)
      → (fuel k : ℕ) → Io (AttemptFailure V) (Option ℕ)
  admit_rounds e last interval deadline limit rounds zero k = at_exit out_of_fuel
  admit_rounds e last interval deadline limit rounds (suc fuel) k =
      admit_round e last interval deadline limit (rounds k) >>= λ slot. elim slot [
        | some s ↦ return (some s)
        | none ↦ admit_rounds e last interval deadline limit rounds fuel (suc k)
      ]

  -- The two ways of the admission, by `qps_interval`.
  admit :
      Endpoint
      → (last qps_wait limit fuel : ℕ) → Op Bool
      → (ℕ → Round)
      → (interval : Option ℕ) → Io (AttemptFailure V) (Option ℕ)
  admit e last qps_wait limit fuel permit rounds none =
      take_permit e limit permit >>= λ _. return none
  admit e last qps_wait limit fuel permit rounds (some interval) =
      instant_after last qps_wait >>= λ deadline.
      admit_rounds e last interval deadline limit rounds fuel 0

  -- With a rate limit the answer is the start slot after the committed one.
  unfoldable pub acquire_admission :
      {F U : Type 0}
      → Client F U
      → Endpoint
      → (last fuel : ℕ) → Op Bool
      → (ℕ → Round)
      → Io (AttemptFailure V) (Option ℕ)
  unfolding instant_after admit take_permit
  acquire_admission client e last fuel permit rounds =
      admit e last client.qps_wait_timeout client.concurrency_wait_timeout fuel permit rounds
        client.qps_interval
