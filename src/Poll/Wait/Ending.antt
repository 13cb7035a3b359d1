-- ===== src/Poll/Wait/Ending.antt =====
-- A wait is over by the deadline, and it does end (src/poll.rs).
use smspool_sdk.Prelude.{
  ℕ, zero, suc, ◌+◌, ◌-◌, ◌≤◌, ◌<◌, max, Option, none, some, Result, ok, err, arith,
}
use smspool_sdk.Float.{Floats}
use smspool_sdk.Error.{Error, rate_limit_of}
use smspool_sdk.Transport.Io.{Io, fail, ◌>>=◌}
use smspool_sdk.Transport.Rules.{IsSettled, EndsBy, bind-EndsBy, follow-IsSettled}
use smspool_sdk.Poll.Orders.{SmsCheck, pending, received, terminated}
use smspool_sdk.Poll.Delay.{
  PollOptions, advance_interval, polling_delay, stop_conditions, sleep_or_stop, ask_or_stop,
}
use smspool_sdk.Poll.Delay.Stops.{
  stop_conditions-Ends, sleep_or_stop-Ends, ask_or_stop-Ends, stop_conditions-EndsBy,
  sleep_or_stop-EndsBy, ask_or_stop-EndsBy, stop_conditions_time, sleep_or_stop_time,
  ask_or_stop_time,
}
use smspool_sdk.Poll.Wait.{
  PollError, client, deadline, cancelled, Checks, after_failure, after_check, after_round,
  wait_loop, wait_for_sms,
}

-- Each check takes some time, a nanosecond at least.
abbrev pub TakesTime : {P S T V : Type 0} → Checks P S T V → Type 0
TakesTime provider = (round : ℕ) → 0 < (provider.check round).takes

module _ (R : Floats) {P S T V : Type 0} (options : PollOptions (R.F))
    (provider : Checks P S T V) where
  module _ (rest : Option (SmsCheck P S T) → Io (PollError P S T V) (SmsCheck P S T))
      (round interval start : ℕ)
      (later : (last : Option (SmsCheck P S T)) (now : ℕ)
        → start < now
        → IsSettled (rest last now)) where
    after_round-IsSettled :
        (last : Option (SmsCheck P S T)) (retry_after : Option ℕ) (now : ℕ)
        → start < now
        → IsSettled (after_round R options provider round interval rest last retry_after now)
    unfolding after_round
    after_round-IsSettled last retry_after now h =
        let delay = polling_delay R options (provider.draw round) interval retry_after in
        let o = sleep_or_stop (cancelled last) (deadline last) options delay now in
        follow-IsSettled o.exit o.now o.sent (λ _. rest last)
          (sleep_or_stop-Ends (cancelled last) (deadline last) options delay now)
          (λ a q. later last o.now (
            omega
              (arith, h, sleep_or_stop_time (cancelled last) (deadline last) options delay now)))

    after_failure-IsSettled :
        (e : Error V) (last : Option (SmsCheck P S T)) (limit : Option (Option ℕ)) (now : ℕ)
        → start < now
        → IsSettled (
            after_failure
              (fail (client e))
              (after_round R options provider round interval rest last)
              limit
              now)
    unfolding after_failure
    after_failure-IsSettled e last none now h = (λ q. cc, λ q. cc)
    after_failure-IsSettled e last (some retry_after) now h =
        after_round-IsSettled last retry_after now h

    after_check-IsSettled :
        (last : Option (SmsCheck P S T)) (answer : Result (SmsCheck P S T) (Error V)) (now : ℕ)
        → start < now
        → IsSettled
            (after_check last (after_round R options provider round interval rest) answer now)
    unfolding after_check
    after_check-IsSettled last (ok (pending p)) now h =
        after_round-IsSettled (some (pending p)) none now h
    after_check-IsSettled last (ok (received s)) now h = (λ q. cc, λ q. cc)
    after_check-IsSettled last (ok (terminated t)) now h = (λ q. cc, λ q. cc)
    after_check-IsSettled last (err e) now h =
        after_failure-IsSettled e last (rate_limit_of e) now h

  module _ (time : TakesTime provider) where
    wait_loop-IsSettled :
        (left round interval : ℕ) (last : Option (SmsCheck P S T)) (now : ℕ)
        → options.deadline < now + left
        → 0 < left
        → IsSettled (wait_loop R options provider left round interval last now)
    unfolding wait_loop
    wait_loop-IsSettled zero round interval last now h pos = absurd (omega arith)
    wait_loop-IsSettled (suc left) round interval last now h pos =
        let rest =
          wait_loop R options provider left (suc round)
            (advance_interval interval options.max_interval) in
        let next = after_check last (after_round R options provider round interval rest) in
        let ask = ask_or_stop (cancelled last) (deadline last) options (provider.check round) in
        let stop = stop_conditions (cancelled last) (deadline last) options now in
        let before = stop_conditions_time (cancelled last) (deadline last) options now in
        let o = ask stop.now in
        follow-IsSettled stop.exit stop.now stop.sent (λ _. ask >>= next)
          (stop_conditions-Ends (cancelled last) (deadline last) options now)
          (λ _ passed.
            follow-IsSettled o.exit o.now o.sent next
              (ask_or_stop-Ends (cancelled last) (deadline last) options (provider.check round)
                stop.now)
              (λ answer q.
                after_check-IsSettled rest round interval now
                  (λ last' now' less.
                    wait_loop-IsSettled left (suc round)
                      (advance_interval interval options.max_interval) last' now'
                      (omega (arith, h, less)) (omega (arith, h, before.1 passed)))
                  last answer o.now
                  (omega (
                    arith,
                    before.0,
                    time round,
                    ask_or_stop_time (cancelled last) (deadline last) options (provider.check round)
                        stop.now answer q,
                  ))))

  module _ (b : ℕ) (late : options.deadline ≤ b) where
    module _ (rest : Option (SmsCheck P S T) → Io (PollError P S T V) (SmsCheck P S T))
        (later : (last : Option (SmsCheck P S T)) → EndsBy b b (rest last))
        (round interval : ℕ) where
      after_round-EndsBy :
          (last : Option (SmsCheck P S T)) (retry_after : Option ℕ)
          → EndsBy b b (after_round R options provider round interval rest last retry_after)
      unfolding after_round
      after_round-EndsBy last retry_after =
          let delay = polling_delay R options (provider.draw round) interval retry_after in
          bind-EndsBy (sleep_or_stop (cancelled last) (deadline last) options delay)
            (λ _. rest last) b b b (omega arith)
            (sleep_or_stop-EndsBy (cancelled last) (deadline last) options b late delay)
            (λ _. later last)

      after_failure-EndsBy :
          (e : Error V) (last : Option (SmsCheck P S T)) (limit : Option (Option ℕ))
          → EndsBy b b (
              after_failure
                (fail (client e))
                (after_round R options provider round interval rest last)
                limit)
      unfolding after_failure
      after_failure-EndsBy e last none = λ now h. h
      after_failure-EndsBy e last (some retry_after) = after_round-EndsBy last retry_after

      after_check-EndsBy :
          (last : Option (SmsCheck P S T)) (answer : Result (SmsCheck P S T) (Error V))
          → EndsBy b b
              (after_check last (after_round R options provider round interval rest) answer)
      unfolding after_check
      after_check-EndsBy last (ok (pending p)) = after_round-EndsBy (some (pending p)) none
      after_check-EndsBy last (ok (received s)) = λ now h. h
      after_check-EndsBy last (ok (terminated t)) = λ now h. h
      after_check-EndsBy last (err e) = after_failure-EndsBy e last (rate_limit_of e)

    wait_loop-EndsBy :
        (left round interval : ℕ) (last : Option (SmsCheck P S T))
        → EndsBy b b (wait_loop R options provider left round interval last)
    unfolding wait_loop
    wait_loop-EndsBy zero round interval last = λ now h. h
    wait_loop-EndsBy (suc left) round interval last =
        let rest =
          wait_loop R options provider left (suc round)
            (advance_interval interval options.max_interval) in
        let next = after_check last (after_round R options provider round interval rest) in
        let ask = ask_or_stop (cancelled last) (deadline last) options (provider.check round) in
        bind-EndsBy (stop_conditions (cancelled last) (deadline last) options) (λ _. ask >>= next) b
          b b (omega arith) (stop_conditions-EndsBy (cancelled last) (deadline last) options b late)
          (λ _.
            bind-EndsBy ask next b b b (omega arith)
              (ask_or_stop-EndsBy (cancelled last) (deadline last) options b late
                (provider.check round))
              (after_check-EndsBy rest
                (wait_loop-EndsBy left (suc round) (advance_interval interval options.max_interval))
                round interval last))

-- A wait is over by its deadline, or at once if it starts behind it, and when each check takes some
-- time it ends in a snapshot or an error.
pub wait_for_sms-IsSettled :
    (R : Floats) {P S T V : Type 0} (options : PollOptions (R.F)) (provider : Checks P S T V)
    (now : ℕ)
    → TakesTime provider
    → IsSettled (wait_for_sms R options provider now)
      × ((wait_for_sms R options provider now).now ≤ max now options.deadline)
unfolding wait_for_sms
wait_for_sms-IsSettled R options provider now time =
    let left = suc (options.deadline - now) in
    (
      wait_loop-IsSettled R options provider time left 0 options.base_interval none now
          (omega arith) (omega arith),
      wait_loop-EndsBy R options provider (max now options.deadline) (omega arith) left 0
          options.base_interval none now (omega arith),
    )
