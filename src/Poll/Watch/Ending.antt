-- ===== src/Poll/Watch/Ending.antt =====
-- A call of `next` is over by the deadline, and it does end (src/poll.rs).
use smspool_sdk.Prelude.{
  ℕ, zero, suc, ◌+◌, ◌-◌, ◌≤◌, ◌<◌, ◌≡◌, refl, max, Option, none, some, List, Result, ok, err,
  arith,
}
use smspool_sdk.Float.{Floats}
use smspool_sdk.Error.{Error, rate_limit_of}
use smspool_sdk.Transport.Io.{◌>>=◌}
use smspool_sdk.Transport.Rules.{IsSettled, bind-EndsBy, follow-IsSettled}
use smspool_sdk.Poll.Orders.{ActiveOrder}
use smspool_sdk.Poll.Delay.{ask_or_stop}
use smspool_sdk.Poll.Delay.Stops.{
  stop_conditions-Ends, ask_or_stop-Ends, stop_conditions-EndsBy, stop_conditions_time,
  ask_or_stop_time,
}
use smspool_sdk.Poll.Watcher.{WatchError, ActiveOrdersWatcher, record_snapshot}
use smspool_sdk.Poll.Watcher.Recording.{KeepsOptions, record_snapshot-KeepsOptions}
use smspool_sdk.Poll.Watch.{
  Reads, Next, is_cancelled_now, is_late, watcher_preflight, wait_until_next_poll, pop_or,
  schedule_next, after_failed_read, after_record, after_read, next_loop, next,
}
use smspool_sdk.Poll.Watch.Waits.{
  wait_until_next_poll-Ends, wait_until_next_poll_time, pop_or-EndsBy, pop_or-IsSettled,
}
use smspool_sdk.Poll.Watch.Deadline.{next_loop-EndsBy}

-- Each read takes some time, a nanosecond at least.
abbrev pub ReadsTakeTime : {Rest V : Type 0} → Reads Rest V → Type 0
ReadsTakeTime provider = (round : ℕ) → 0 < (provider.active round).takes

module _ (R : Floats) {Rest V : Type 0} where
  open R use {F}

  -- What follows a read, from a later start.
  module _ (draw start : ℕ) (again : ActiveOrdersWatcher F Rest → Next F Rest V)
      (w : ActiveOrdersWatcher F Rest)
      (later : (after : ActiveOrdersWatcher F Rest) (now : ℕ)
        → after.options ≡ w.options
        → start < now
        → IsSettled (again after now)) where
    after_failed_read-IsSettled :
        (error : Error V) (limit : Option (Option ℕ)) (now : ℕ)
        → start < now
        → IsSettled (after_failed_read R w draw again error limit now)
    unfolding after_failed_read schedule_next
    after_failed_read-IsSettled error none now h = (λ q. cc, λ q. cc)
    after_failed_read-IsSettled error (some retry_after) now h =
        later (schedule_next R draw retry_after now w) now refl h

    after_record-IsSettled :
        (r : Result (ActiveOrdersWatcher F Rest) (WatchError Rest V)) (now : ℕ)
        → KeepsOptions w r
        → start < now
        → IsSettled (after_record R w draw again r now)
    unfolding after_record schedule_next
    after_record-IsSettled (err x) now k h = (λ q. cc, λ q. cc)
    after_record-IsSettled (ok recorded) now k h =
        let after = schedule_next R draw none now recorded in
        pop_or-IsSettled after after.pending (again after) now (later after now k h)

    after_read-IsSettled :
        (answer : Result (List (ActiveOrder Rest)) (Error V)) (now : ℕ)
        → start < now
        → IsSettled (after_read R w draw again answer now)
    unfolding after_read
    after_read-IsSettled (ok orders) now =
        after_record-IsSettled (record_snapshot orders w) now
          (record_snapshot-KeepsOptions V orders w)
    after_read-IsSettled (err error) now =
        after_failed_read-IsSettled error (rate_limit_of error) now

  next_loop-IsSettled :
      (provider : Reads Rest V) (left round : ℕ) (w : ActiveOrdersWatcher F Rest) (now : ℕ)
      → ReadsTakeTime provider
      → w.options.deadline < now + left
      → 0 < left
      → IsSettled (next_loop R provider left round w now)
  unfolding next_loop
  next_loop-IsSettled provider zero round w now time h pos = absurd (omega arith)
  next_loop-IsSettled provider (suc left) round w now time h pos =
      let again = next_loop R provider left (suc round) in
      let op = provider.active round in
      let ask = ask_or_stop (is_cancelled_now w) (is_late w) w.options op in
      let read = after_read R w (provider.draw round) again in
      let woken = wait_until_next_poll w now in
      let before = wait_until_next_poll_time V w now in
      let o = ask woken.now in
      follow-IsSettled woken.exit woken.now woken.sent (λ _. ask >>= read)
        (wait_until_next_poll-Ends V w now)
        (λ _ passed.
          follow-IsSettled o.exit o.now o.sent read
            (ask_or_stop-Ends (is_cancelled_now w) (is_late w) w.options op woken.now)
            (λ answer q.
              after_read-IsSettled (provider.draw round) now again w
                (λ after now' same less.
                  next_loop-IsSettled provider left (suc round) after now' time
                    (rw same (omega (arith, h, less))) (omega (arith, h, before.1 passed)))
                answer o.now
                (omega (
                  arith,
                  before.0,
                  time round,
                  ask_or_stop_time (is_cancelled_now w) (is_late w) w.options op woken.now answer q,
                ))))

-- A call of `next` is over by the watcher's deadline, or at once if it starts behind it, and when each
-- read takes some time it ends in an order or an error.
pub next-IsSettled :
    (R : Floats) {Rest V : Type 0} (provider : Reads Rest V) (w : ActiveOrdersWatcher (R.F) Rest)
    (now : ℕ)
    → ReadsTakeTime provider
    → IsSettled (next R provider w now) × ((next R provider w now).now ≤ max now w.options.deadline)
unfolding next
next-IsSettled R {V = V} provider w now time =
    let b = max now w.options.deadline in
    let left = suc (w.options.deadline - now) in
    let loop = λ (start : ℕ). next_loop R provider (suc (w.options.deadline - start)) 0 w start in
    let stop = watcher_preflight {V = V} w now in
    let same = (stop_conditions_time (is_cancelled_now {V = V} w) (is_late w) w.options now).0 in
    (
      follow-IsSettled stop.exit stop.now stop.sent (λ _. pop_or w w.pending loop)
          (stop_conditions-Ends (is_cancelled_now w) (is_late w) w.options now)
          (λ _ passed. pop_or-IsSettled w w.pending loop stop.now (
            next_loop-IsSettled R provider (suc (w.options.deadline - stop.now)) 0 w stop.now time
              (omega arith) (omega arith))),
      bind-EndsBy (watcher_preflight w) (λ _. pop_or w w.pending loop) b b b (omega arith)
          (stop_conditions-EndsBy (is_cancelled_now w) (is_late w) w.options b (omega arith))
          (λ _. pop_or-EndsBy b w w.pending loop (λ start h.
            next_loop-EndsBy R provider b (suc (w.options.deadline - start)) 0 w (omega arith) start
              h))
          now (omega arith),
    )
