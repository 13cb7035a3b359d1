-- ===== src/Poll/Watch/Deadline.antt =====
-- The loop of `next` is over by the deadline (src/poll.rs).
use smspool_sdk.Prelude.{ℕ, zero, suc, ◌≤◌, Option, none, some, List, Result, ok, err, arith}
use smspool_sdk.Float.{Floats}
use smspool_sdk.Error.{Error, rate_limit_of}
use smspool_sdk.Transport.Io.{◌>>=◌}
use smspool_sdk.Transport.Rules.{EndsBy, bind-EndsBy}
use smspool_sdk.Poll.Orders.{ActiveOrder}
use smspool_sdk.Poll.Delay.{ask_or_stop}
use smspool_sdk.Poll.Delay.Stops.{ask_or_stop-EndsBy}
use smspool_sdk.Poll.Watcher.{WatchError, ActiveOrdersWatcher, record_snapshot}
use smspool_sdk.Poll.Watcher.Recording.{KeepsOptions, record_snapshot-KeepsOptions}
use smspool_sdk.Poll.Watch.{
  Reads, Next, is_cancelled_now, is_late, wait_until_next_poll, schedule_next, after_failed_read,
  after_record, after_read, next_loop,
}
use smspool_sdk.Poll.Watch.Waits.{wait_until_next_poll-EndsBy, pop_or-EndsBy}

module _ (R : Floats) {Rest V : Type 0} where
  open R use {F}

  module _ (draw b : ℕ) (again : ActiveOrdersWatcher F Rest → Next F Rest V)
      (later : (w : ActiveOrdersWatcher F Rest) → w.options.deadline ≤ b → EndsBy b b (again w))
      (w : ActiveOrdersWatcher F Rest) (late : w.options.deadline ≤ b) where
    after_failed_read-EndsBy :
        (error : Error V) (limit : Option (Option ℕ))
        → EndsBy b b (after_failed_read R w draw again error limit)
    unfolding after_failed_read schedule_next
    after_failed_read-EndsBy error none = λ now h. h
    after_failed_read-EndsBy error (some retry_after) =
        λ now h. later (schedule_next R draw retry_after now w) late now h

    after_record-EndsBy :
        (r : Result (ActiveOrdersWatcher F Rest) (WatchError Rest V))
        → KeepsOptions w r
        → EndsBy b b (after_record R w draw again r)
    unfolding after_record schedule_next
    after_record-EndsBy (err x) k = λ now h. h
    after_record-EndsBy (ok recorded) k = λ now h.
        let after = schedule_next R draw none now recorded in
        pop_or-EndsBy b after after.pending (again after) (later after (rw k late)) now h

    after_read-EndsBy :
        (answer : Result (List (ActiveOrder Rest)) (Error V))
        → EndsBy b b (after_read R w draw again answer)
    unfolding after_read
    after_read-EndsBy (ok orders) =
        after_record-EndsBy (record_snapshot orders w) (record_snapshot-KeepsOptions V orders w)
    after_read-EndsBy (err error) = after_failed_read-EndsBy error (rate_limit_of error)

  pub next_loop-EndsBy :
      (provider : Reads Rest V) (b left round : ℕ) (w : ActiveOrdersWatcher F Rest)
      → w.options.deadline ≤ b
      → EndsBy b b (next_loop R provider left round w)
  unfolding next_loop
  next_loop-EndsBy provider b zero round w late = λ now h. h
  next_loop-EndsBy provider b (suc left) round w late =
      let again = next_loop R provider left (suc round) in
      let ask = ask_or_stop (is_cancelled_now w) (is_late w) w.options (provider.active round) in
      let read = after_read R w (provider.draw round) again in
      bind-EndsBy (wait_until_next_poll w) (λ _. ask >>= read) b b b (omega arith)
        (wait_until_next_poll-EndsBy V w b late)
        (λ _.
          bind-EndsBy ask read b b b (omega arith)
            (ask_or_stop-EndsBy (is_cancelled_now w) (is_late w) w.options b late
              (provider.active round))
            (after_read-EndsBy (provider.draw round) b again
              (next_loop-EndsBy provider b left (suc round)) w late))
