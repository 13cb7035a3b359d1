-- ===== src/Transport/Admission/Progress.antt =====
-- How long the admission takes (src/transport.rs), and that its loop ends where the shared schedule
-- never moves back.
use smspool_sdk.Prelude.{
  ℕ, zero, suc, ◌+◌, ◌≤◌, ◌<◌, ◌≡◌, Bool, false, Option, none, some, arith, ltb, unwrap_or,
}
use smspool_sdk.Endpoint.{Endpoint}
use smspool_sdk.Client.{Client}
use smspool_sdk.Transport.Io.{Io, Op, done, return, await_until}
use smspool_sdk.Transport.Rules.{Lasts, EndsBy, IsSettled, follow-IsSettled, bind-EndsBy}
use smspool_sdk.Transport.Timed.{EndsFrom, bind-EndsFrom}
use smspool_sdk.Transport.Failure.{AttemptFailure}
use smspool_sdk.Transport.Admission.{
  Round, qps_timeout, wait_for_slot, take_permit, instant_after, admit_round, admit_rounds, admit,
  acquire_admission,
}

-- The shared schedule never moves back: what a round's first look shows is at least what the second
-- look of the round before it showed.
abbrev pub IsForward : (ℕ → Round) → Type 0
IsForward rounds =
    (k n : ℕ)
    → (rounds k).second_look.answer ≡ some n
    → (m : ℕ) × ((rounds (suc k)).first_look.answer ≡ some m) × (n ≤ m)

module _ (V : Type 0) (e : Endpoint) where
  wait_for_slot-EndsBy :
      (deadline : ℕ) (next_start : Option ℕ)
      → EndsBy deadline deadline (wait_for_slot {V = V} e deadline next_start)
  unfolding wait_for_slot
  wait_for_slot-EndsBy deadline next_start now h = ground arith

  take_permit-EndsBy :
      (limit deadline : ℕ) (permit : Op Bool)
      → EndsBy deadline (deadline + limit) (take_permit {V = V} e limit permit)
  unfolding take_permit
  take_permit-EndsBy limit deadline permit now h = ground arith

  wait_for_slot-EndsFrom :
      (deadline : ℕ) (next_start : Option ℕ)
      → EndsFrom deadline (wait_for_slot {V = V} e deadline next_start)
  unfolding wait_for_slot
  wait_for_slot-EndsFrom deadline next_start now h = (λ q. ground arith, λ q. ground arith)

  take_permit-EndsFrom :
      (limit deadline : ℕ) (permit : Op Bool)
      → EndsFrom deadline (take_permit {V = V} e limit permit)
  unfolding take_permit
  take_permit-EndsFrom limit deadline permit now h = (λ q. ground arith, λ q. ground arith)

  -- A round that starts by the deadline ends by the deadline or within the permit's limit after it.
  admit_round-EndsBy :
      (last interval deadline limit : ℕ) (r : Round)
      → EndsBy deadline (deadline + limit) (admit_round {V = V} e last interval deadline limit r)
  unfolding admit_round
  admit_round-EndsBy last interval deadline limit r =
      bind-EndsBy (await_until deadline r.first_look (qps_timeout e)) _ deadline deadline
        (deadline + limit) (omega arith) (λ now h. ground arith)
        (λ next_start.
          bind-EndsBy (wait_for_slot e deadline next_start) _ deadline deadline (deadline + limit)
            (omega arith) (wait_for_slot-EndsBy deadline next_start)
            (λ _.
              bind-EndsBy (take_permit e limit r.permit) _ deadline (deadline + limit)
                (deadline + limit) (omega arith) (take_permit-EndsBy limit deadline r.permit)
                (λ _ now h. ground arith)))

  -- A round goes round again only before the deadline, with the slot still taken.
  admit_round_again :
      (last interval deadline limit : ℕ) (r : Round) (now : ℕ)
      → (admit_round {V = V} e last interval deadline limit r now).exit ≡ done none
      → ((admit_round {V = V} e last interval deadline limit r now).now < deadline)
        × ((n : ℕ) × (r.second_look.answer ≡ some n)
            × ((admit_round {V = V} e last interval deadline limit r now).now < n))
  unfolding admit_round
  admit_round_again last interval deadline limit r now h = ground arith

  admit_round_waits :
      (last interval deadline limit : ℕ) (r : Round) (now n : ℕ)
      → r.first_look.answer ≡ some n
      → (admit_round {V = V} e last interval deadline limit r now).exit ≡ done none
      → n ≤ (admit_round {V = V} e last interval deadline limit r now).now
  unfolding admit_round
  admit_round_waits last interval deadline limit r now n q h = ground arith

  admit_round_onward :
      (last interval deadline limit : ℕ) (r : Round) (now : ℕ)
      → now ≤ (admit_round {V = V} e last interval deadline limit r now).now
  unfolding admit_round
  admit_round_onward last interval deadline limit r now = ground arith

  -- A round that starts by the deadline meets no panic where the slot that it may commit can be
  -- represented.
  admit_round-EndsFrom :
      (last interval deadline limit : ℕ) (r : Round)
      → deadline + limit + interval ≤ last
      → EndsFrom deadline (admit_round {V = V} e last interval deadline limit r)
  unfolding admit_round
  admit_round-EndsFrom last interval deadline limit r room =
      bind-EndsFrom (await_until deadline r.first_look (qps_timeout e)) _ deadline deadline
        (λ now h. (λ q. ground arith, λ q. ground arith)) (λ now h. ground arith)
        (λ next_start.
          bind-EndsFrom (wait_for_slot e deadline next_start) _ deadline deadline
            (wait_for_slot-EndsFrom deadline next_start) (wait_for_slot-EndsBy deadline next_start)
            (λ _.
              bind-EndsFrom (take_permit e limit r.permit) _ deadline (deadline + limit)
                (take_permit-EndsFrom limit deadline r.permit)
                (take_permit-EndsBy limit deadline r.permit)
                (λ _ now h. (λ q. ground arith, λ q. ground arith))))

  admit_rounds-EndsBy :
      (last interval deadline limit : ℕ) (rounds : ℕ → Round) (fuel k : ℕ)
      → EndsBy deadline
          (deadline + limit)
          (admit_rounds {V = V} e last interval deadline limit rounds fuel k)
  unfolding admit_rounds
  admit_rounds-EndsBy last interval deadline limit rounds zero k now h = omega arith
  admit_rounds-EndsBy last interval deadline limit rounds (suc fuel) k now h = ground (
    arith,
    admit_round-EndsBy last interval deadline limit (rounds k) now h,
    admit_round_again last interval deadline limit (rounds k) now,
    admit_rounds-EndsBy last interval deadline limit rounds fuel (suc k)
        (admit_round {V = V} e last interval deadline limit (rounds k) now).now,
  )

  -- What the loop does after a round.
  abbrev next_round :
      (last interval deadline limit : ℕ) (rounds : ℕ → Round) (fuel k : ℕ)
      → Option ℕ
      → Io (AttemptFailure V) (Option ℕ)
  next_round last interval deadline limit rounds fuel k slot = elim slot [
    | some s ↦ return (some s)
    | none ↦ admit_rounds e last interval deadline limit rounds fuel (suc k)
  ]

  -- From a round whose slot lies ahead, the fuel falls with the time to the deadline.
  admit_rounds_steady :
      (last interval deadline limit : ℕ) (rounds : ℕ → Round) (fuel k now n : ℕ)
      → deadline + limit + interval ≤ last
      → IsForward rounds
      → (rounds k).first_look.answer ≡ some n
      → now < n
      → now ≤ deadline
      → deadline < now + fuel
      → IsSettled (admit_rounds {V = V} e last interval deadline limit rounds fuel k now)
  unfolding admit_rounds
  admit_rounds_steady last interval deadline limit rounds zero k now n room forward look ahead le
        enough =
      absurd (omega arith)
  admit_rounds_steady last interval deadline limit rounds (suc fuel) k now n room forward look ahead
        le enough =
      let o = admit_round {V = V} e last interval deadline limit (rounds k) now in
      follow-IsSettled o.exit o.now o.sent (next_round last interval deadline limit rounds fuel k)
        (admit_round-EndsFrom last interval deadline limit (rounds k) room now le)
        (elim [
          | some s ↦ λ q. (λ e. cc, λ e. cc)
          | none ↦ λ again.
              let (early, (m, taken, later)) =
                admit_round_again last interval deadline limit (rounds k) now again in
              let (m', look', le') = forward k m taken in
              let waited =
                admit_round_waits last interval deadline limit (rounds k) now n look again in
              admit_rounds_steady last interval deadline limit rounds fuel (suc k) o.now m' room
                forward look' (omega arith) (omega arith) (omega arith)
        ])

  admit_rounds_settle :
      (last interval deadline limit : ℕ) (rounds : ℕ → Round) (fuel now : ℕ)
      → deadline + limit + interval ≤ last
      → IsForward rounds
      → now ≤ deadline
      → deadline < now + fuel
      → IsSettled (admit_rounds {V = V} e last interval deadline limit rounds (suc fuel) 0 now)
  unfolding admit_rounds
  admit_rounds_settle last interval deadline limit rounds fuel now room forward le enough =
      let o = admit_round {V = V} e last interval deadline limit (rounds 0) now in
      follow-IsSettled o.exit o.now o.sent (next_round last interval deadline limit rounds fuel 0)
        (admit_round-EndsFrom last interval deadline limit (rounds 0) room now le)
        (elim [
          | some s ↦ λ q. (λ e. cc, λ e. cc)
          | none ↦ λ again.
              let (early, (m, taken, later)) =
                admit_round_again last interval deadline limit (rounds 0) now again in
              let (m', look', le') = forward 0 m taken in
              admit_rounds_steady last interval deadline limit rounds fuel 1 o.now m' room forward
                look' (omega arith) (omega arith)
                (omega (arith, admit_round_onward last interval deadline limit (rounds 0) now))
        ])

  admit-Lasts :
      (last qps_wait limit fuel : ℕ) (permit : Op Bool) (rounds : ℕ → Round) (interval : Option ℕ)
      → Lasts (qps_wait + limit) (admit {V = V} e last qps_wait limit fuel permit rounds interval)
  unfolding admit take_permit instant_after
  admit-Lasts last qps_wait limit fuel permit rounds none now = ground arith
  admit-Lasts last qps_wait limit fuel permit rounds (some interval) now = ground (
    arith,
    admit_rounds-EndsBy last interval (now + qps_wait) limit rounds fuel 0 now (omega arith),
  )

  admit_settles :
      (last qps_wait limit fuel : ℕ) (permit : Op Bool) (rounds : ℕ → Round) (interval : Option ℕ)
      (now : ℕ)
      → IsForward rounds
      → qps_wait < fuel
      → now + qps_wait + limit + unwrap_or interval 0 ≤ last
      → IsSettled (admit {V = V} e last qps_wait limit (suc fuel) permit rounds interval now)
  unfolding admit take_permit instant_after
  admit_settles last qps_wait limit fuel permit rounds none now forward enough room =
      (λ h. ground arith, λ h. ground arith)
  admit_settles last qps_wait limit fuel permit rounds (some interval) now forward enough room =
      let in_range : ltb last (now + qps_wait) ≡ false = ground arith in
      rw in_range (
        admit_rounds_settle last interval (now + qps_wait) limit rounds fuel now room forward
          (omega arith) (omega arith))

  module _ {F U : Type 0} (client : Client F U) where
    -- The admission lasts no longer than the two waits that the client is configured with.
    pub acquire_admission-Lasts :
        (last fuel : ℕ) (permit : Op Bool) (rounds : ℕ → Round)
        → Lasts
            (client.qps_wait_timeout + client.concurrency_wait_timeout)
            (acquire_admission {V = V} client e last fuel permit rounds)
    unfolding acquire_admission
    acquire_admission-Lasts last fuel permit rounds =
        admit-Lasts last client.qps_wait_timeout client.concurrency_wait_timeout fuel permit rounds
          client.qps_interval

    -- With a schedule that never moves back, `qps_wait_timeout` rounds and one more are enough, and
    -- nothing panics where the two waits and the interval lead to an instant that can be represented.
    pub acquire_admission_settles :
        (last fuel : ℕ) (permit : Op Bool) (rounds : ℕ → Round) (now : ℕ)
        → IsForward rounds
        → client.qps_wait_timeout < fuel
        → now
            + client.qps_wait_timeout
            + client.concurrency_wait_timeout
            + unwrap_or client.qps_interval 0
          ≤ last
        → IsSettled (acquire_admission {V = V} client e last (suc fuel) permit rounds now)
    unfolding acquire_admission
    acquire_admission_settles last fuel permit rounds =
        admit_settles last client.qps_wait_timeout client.concurrency_wait_timeout fuel permit
          rounds client.qps_interval
