-- ===== src/Poll/Wait/Answer.antt =====
-- What `wait_for_sms` answers, and why it fails (src/poll.rs).
use smspool_sdk.Prelude.{
  ℕ, zero, suc, ◌-◌, ◌≤◌, ◌≡◌, refl, inl, inr, true, Option, none, some, Result, ok, err, arith,
}
use smspool_sdk.Float.{Floats}
use smspool_sdk.Error.{Error, rate_limit_of}
use smspool_sdk.Transport.Io.{Io, done, failed, fail, ◌>>=◌}
use smspool_sdk.Transport.Rules.{Yields, bind-Yields, then-Yields}
use smspool_sdk.Transport.Timed.{return-Yields, fail-FailsAt, FailsAt, bind-FailsAt, then-FailsAt}
use smspool_sdk.Api.Sms.Check.{is_terminal}
use smspool_sdk.Poll.Orders.{SmsCheck, pending, received, terminated}
use smspool_sdk.Poll.Delay.{
  PollOptions, advance_interval, polling_delay, stop_conditions, sleep_or_stop, ask_or_stop,
}
use smspool_sdk.Poll.Delay.Stops.{
  WasCancelled, IsStop, stop_conditions-IsStop, sleep_or_stop-IsStop, ask_or_stop-IsStop,
}
use smspool_sdk.Poll.Wait.{
  PollError, client, deadline, cancelled, Checks, after_failure, after_check, after_round,
  wait_loop, wait_for_sms,
}

-- The errors and the answers of a wait.
module _ (R : Floats) {P S T V : Type 0} (options : PollOptions (R.F))
    (provider : Checks P S T V) where
  -- One of the provider's checks answered this.
  abbrev pub Said : Result (SmsCheck P S T) (Error V) → Type 0
  Said answer = (round : ℕ) × ((provider.check round).answer ≡ answer)

  -- Nothing, or a pending snapshot that the provider gave.
  abbrev pub IsLastPending : Option (SmsCheck P S T) → Type 0
  IsLastPending none = Unit
  IsLastPending (some (pending p)) = Said (ok (pending p))
  IsLastPending (some (received s)) = ⊥
  IsLastPending (some (terminated t)) = ⊥

  -- Why a wait fails at the time `now`.
  abbrev pub Explains : (now : ℕ) → PollError P S T V → Type 0
  Explains now (client e) = Said (err e) × (rate_limit_of e ≡ none)
  Explains now (deadline last_observed) = (options.deadline ≤ now) × IsLastPending last_observed
  Explains now (cancelled last_observed) =
      WasCancelled options.cancelled_at now × IsLastPending last_observed

  stop-Explains :
      (last : Option (SmsCheck P S T))
      → IsLastPending last
      → (now : ℕ) (x : PollError P S T V) → IsStop (cancelled last) (deadline last) options now x
      → Explains now x
  stop-Explains last known now x (inl h) = rw h.0 (h.1, known)
  stop-Explains last known now x (inr h) = rw h.0 (h.1, known)

  -- The rounds after one that was answered.
  module _ (rest : Option (SmsCheck P S T) → Io (PollError P S T V) (SmsCheck P S T))
      (later : (last : Option (SmsCheck P S T)) → IsLastPending last → FailsAt Explains (rest last))
      (round interval : ℕ) where
    after_round-FailsAt :
        (last : Option (SmsCheck P S T)) (retry_after : Option ℕ)
        → IsLastPending last
        → FailsAt Explains (after_round R options provider round interval rest last retry_after)
    unfolding after_round
    after_round-FailsAt last retry_after known =
        then-FailsAt
          (sleep_or_stop (cancelled last) (deadline last) options
            (polling_delay R options (provider.draw round) interval retry_after))
          (λ _. rest last) Explains
          (λ now x q. stop-Explains last known _ x (
            sleep_or_stop-IsStop (cancelled last) (deadline last) options
              (polling_delay R options (provider.draw round) interval retry_after) now x q))
          (λ _. later last known)

    after_failure-FailsAt :
        (e : Error V) (last : Option (SmsCheck P S T)) (limit : Option (Option ℕ))
        → IsLastPending last
        → Said (err e)
        → rate_limit_of e ≡ limit
        → FailsAt Explains (
            after_failure
              (fail (client e))
              (after_round R options provider round interval rest last)
              limit)
    unfolding after_failure
    after_failure-FailsAt e last none known said q =
        fail-FailsAt Explains (client e) (λ now. (said, q))
    after_failure-FailsAt e last (some retry_after) known said q =
        after_round-FailsAt last retry_after known

    after_check-FailsAt :
        (last : Option (SmsCheck P S T)) (answer : Result (SmsCheck P S T) (Error V))
        → IsLastPending last
        → Said answer
        → FailsAt Explains
            (after_check last (after_round R options provider round interval rest) answer)
    unfolding after_check
    after_check-FailsAt last (ok (pending p)) known said =
        after_round-FailsAt (some (pending p)) none said
    after_check-FailsAt last (ok (received s)) known said = λ now x q. cc
    after_check-FailsAt last (ok (terminated t)) known said = λ now x q. cc
    after_check-FailsAt last (err e) known said =
        after_failure-FailsAt e last (rate_limit_of e) known said refl

  -- What a read that went through answers.
  ask-Said :
      (last : Option (SmsCheck P S T)) (round : ℕ)
      → Yields {X = PollError P S T V} Said
          (ask_or_stop (cancelled last) (deadline last) options (provider.check round))
  ask-Said last round now a q = (round, ground arith)

  wait_loop-FailsAt :
      (left round interval : ℕ) (last : Option (SmsCheck P S T))
      → IsLastPending last
      → FailsAt Explains (wait_loop R options provider left round interval last)
  unfolding wait_loop
  wait_loop-FailsAt zero round interval last known = λ now x q. cc
  wait_loop-FailsAt (suc left) round interval last known =
      let rest =
        wait_loop R options provider left (suc round)
          (advance_interval interval options.max_interval) in
      let next = after_check last (after_round R options provider round interval rest) in
      let ask = ask_or_stop (cancelled last) (deadline last) options (provider.check round) in
      then-FailsAt (stop_conditions (cancelled last) (deadline last) options) (λ _. ask >>= next)
        Explains
        (λ now x q.
          stop-Explains last known _ x
            (stop_conditions-IsStop (cancelled last) (deadline last) options now x q))
        (λ _.
          bind-FailsAt ask next Explains Said
            (λ now x q. stop-Explains last known _ x (
              ask_or_stop-IsStop (cancelled last) (deadline last) options (provider.check round) now
                x q))
            (ask-Said last round)
            (λ answer said.
              after_check-FailsAt rest
                (wait_loop-FailsAt left (suc round)
                  (advance_interval interval options.max_interval))
                round interval last answer known said))

  -- Only the provider ends a wait well, with a terminal snapshot that it answered to a check.
  abbrev pub IsAnswer : SmsCheck P S T → Type 0
  IsAnswer snapshot = (is_terminal snapshot ≡ true) × Said (ok snapshot)

  module _ (rest : Option (SmsCheck P S T) → Io (PollError P S T V) (SmsCheck P S T))
      (later : (last : Option (SmsCheck P S T)) → Yields IsAnswer (rest last))
      (round interval : ℕ) where
    after_round-Yields :
        (last : Option (SmsCheck P S T)) (retry_after : Option ℕ)
        → Yields IsAnswer (after_round R options provider round interval rest last retry_after)
    unfolding after_round
    after_round-Yields last retry_after =
        then-Yields
          (sleep_or_stop (cancelled last) (deadline last) options
            (polling_delay R options (provider.draw round) interval retry_after))
          (λ _. rest last) IsAnswer (λ _. later last)

    after_failure-Yields :
        (e : Error V) (last : Option (SmsCheck P S T)) (limit : Option (Option ℕ))
        → Yields IsAnswer (
            after_failure
              (fail (client e))
              (after_round R options provider round interval rest last)
              limit)
    unfolding after_failure
    after_failure-Yields e last none = λ now a q. cc
    after_failure-Yields e last (some retry_after) = after_round-Yields last retry_after

    after_check-Yields :
        (last : Option (SmsCheck P S T)) (answer : Result (SmsCheck P S T) (Error V))
        → Said answer
        → Yields IsAnswer
            (after_check last (after_round R options provider round interval rest) answer)
    unfolding after_check is_terminal
    after_check-Yields last (ok (pending p)) said = after_round-Yields (some (pending p)) none
    after_check-Yields last (ok (received s)) said =
        return-Yields IsAnswer (received s) (refl, said)
    after_check-Yields last (ok (terminated t)) said =
        return-Yields IsAnswer (terminated t) (refl, said)
    after_check-Yields last (err e) said = after_failure-Yields e last (rate_limit_of e)

  wait_loop-Yields :
      (left round interval : ℕ) (last : Option (SmsCheck P S T))
      → Yields IsAnswer (wait_loop R options provider left round interval last)
  unfolding wait_loop
  wait_loop-Yields zero round interval last = λ now a q. cc
  wait_loop-Yields (suc left) round interval last =
      let rest =
        wait_loop R options provider left (suc round)
          (advance_interval interval options.max_interval) in
      let next = after_check last (after_round R options provider round interval rest) in
      let ask = ask_or_stop (cancelled last) (deadline last) options (provider.check round) in
      then-Yields (stop_conditions (cancelled last) (deadline last) options) (λ _. ask >>= next)
        IsAnswer
        (λ _. bind-Yields ask next Said IsAnswer (ask-Said last round) (λ answer said.
          after_check-Yields rest
            (wait_loop-Yields left (suc round) (advance_interval interval options.max_interval))
            round interval last answer said))

-- A wait that answers does so with a terminal snapshot, received or terminated, that the provider gave
-- to one of the checks; never with a guess.
pub wait_for_sms-IsAnswer :
    (R : Floats) {P S T V : Type 0} (options : PollOptions (R.F)) (provider : Checks P S T V)
    (now : ℕ) (snapshot : SmsCheck P S T)
    → (wait_for_sms R options provider now).exit ≡ done snapshot
    → IsAnswer R options provider snapshot
unfolding wait_for_sms
wait_for_sms-IsAnswer R options provider now =
    wait_loop-Yields R options provider (suc (options.deadline - now)) 0 options.base_interval none
      now

-- Every failure of a wait is explained: an error that the provider answered to a check and that is no rate
-- limit, the deadline when it has passed, or the cancellation when the token is cancelled; the last
-- observed snapshot, if any, is a pending one of the provider.
pub wait_for_sms-Explains :
    (R : Floats) {P S T V : Type 0} (options : PollOptions (R.F)) (provider : Checks P S T V)
    (now : ℕ) (x : PollError P S T V)
    → (wait_for_sms R options provider now).exit ≡ failed x
    → Explains R options provider (wait_for_sms R options provider now).now x
unfolding wait_for_sms
wait_for_sms-Explains R options provider now =
    wait_loop-FailsAt R options provider (suc (options.deadline - now)) 0 options.base_interval none
      tt now
