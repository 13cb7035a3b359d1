-- ===== src/Poll/Watch.antt =====
-- `ActiveOrdersWatcher::next` (src/poll.rs). The watcher comes back with an error too, since `next`
-- changes it in place.
pub mod Waits
pub mod Deadline
pub mod Ending
pub mod Failures
pub mod Invariant
use smspool_sdk.Prelude.{
  ℕ, zero, suc, ◌+◌, ◌-◌, String, Option, none, some, List, [], ◌∷◌, Result, ok, err,
}
use smspool_sdk.Float.{Floats}
use smspool_sdk.Error.{Error, rate_limit_of}
use smspool_sdk.Transport.Io.{Io, Op, out_of_fuel, at_exit, return, fail, ◌>>=◌, ◌>>◌}
use smspool_sdk.Poll.Orders.{ActiveOrder}
use smspool_sdk.Poll.Delay.{
  PollOptions, advance_interval, polling_delay, capped_wake_at, stop_conditions,
  sleep_until_or_stop, ask_or_stop,
}
use smspool_sdk.Poll.Watcher.{
  WatchError, client, deadline, cancelled, ActiveOrdersWatcher, record_snapshot,
}

-- What the provider answers to each read of the active orders, by its number in one call of `next`,
-- and the draws of the jitter.
pub record Reads (Rest V : Type 0) : Type 0 where
  pub active : ℕ → Op (Result (List (ActiveOrder Rest)) (Error V))
  pub draw : ℕ → ℕ

-- The failure and the result of a method that changes the watcher.
abbrev pub Stopped : Type 0 → Type 0 → Type 0 → Type 0
Stopped F Rest V = ActiveOrdersWatcher F Rest × WatchError Rest V

abbrev pub Emitted : Type 0 → Type 0 → Type 0
Emitted F Rest = ActiveOrdersWatcher F Rest × ActiveOrder Rest

abbrev pub Next : Type 0 → Type 0 → Type 0 → Type 0
Next F Rest V = Io (Stopped F Rest V) (Emitted F Rest)

module _ {F Rest V : Type 0} where
  abbrev pub is_cancelled_now : ActiveOrdersWatcher F Rest → Stopped F Rest V
  is_cancelled_now w = (w, cancelled w.last_observed)

  abbrev pub is_late : ActiveOrdersWatcher F Rest → Stopped F Rest V
  is_late w = (w, deadline w.last_observed)

  -- `ActiveOrdersWatcher::preflight`.
  abbrev pub watcher_preflight : ActiveOrdersWatcher F Rest → Io (Stopped F Rest V) (Unit {0})
  watcher_preflight w = stop_conditions (is_cancelled_now w) (is_late w) w.options

  until_next_poll :
      ActiveOrdersWatcher F Rest → (next_poll_at : Option ℕ) → Io (Stopped F Rest V) (Unit {0})
  until_next_poll w none = return tt
  until_next_poll w (some at) = sleep_until_or_stop (is_cancelled_now w) (is_late w) w.options at

  unfoldable pub wait_until_next_poll :
      ActiveOrdersWatcher F Rest → Io (Stopped F Rest V) (Unit {0})
  unfolding until_next_poll
  wait_until_next_poll w = watcher_preflight w >> until_next_poll w w.next_poll_at

  -- `pop_front` of the queue, else `otherwise`.
  pub pop_or :
      ActiveOrdersWatcher F Rest
      → (pending : List (ActiveOrder Rest)) (otherwise : Next F Rest V) → Next F Rest V
  pop_or w [] otherwise = otherwise
  pop_or w (event ∷ pending) otherwise = return (record w { pending = pending }, event)

module _ (R : Floats) {Rest : Type 0} where
  open R use {F}

  -- `schedule_next`, at the time `now`.
  unfoldable pub schedule_next :
      (draw : ℕ) (retry_after : Option ℕ) (now : ℕ)
      → ActiveOrdersWatcher F Rest
      → ActiveOrdersWatcher F Rest
  schedule_next draw retry_after now w =
      let delay = polling_delay R w.options draw w.interval retry_after in
      record w {
        interval = advance_interval w.interval w.options.max_interval;
        next_poll_at = some (capped_wake_at delay w.options.deadline now);
      }

module _ (R : Floats) {Rest V : Type 0} where
  open R use {F}

  -- The rounds that follow a rate limit, and the match on a failed read.
  after_failed_read :
      ActiveOrdersWatcher F Rest
      → (draw : ℕ) (again : ActiveOrdersWatcher F Rest → Next F Rest V) → Error V
      → Option (Option ℕ)
      → Next F Rest V
  after_failed_read w draw again error none = fail (w, client error)
  after_failed_read w draw again error (some retry_after) =
      λ now. again (schedule_next R draw retry_after now w) now

  -- A recorded snapshot: the next poll is set, and an event leaves or the loop goes on.
  after_record :
      ActiveOrdersWatcher F Rest
      → (draw : ℕ) (again : ActiveOrdersWatcher F Rest → Next F Rest V)
      → Result (ActiveOrdersWatcher F Rest) (WatchError Rest V)
      → Next F Rest V
  unfolding pop_or
  after_record w draw again (err x) = fail (w, x)
  after_record w draw again (ok recorded) = λ now.
      let scheduled = schedule_next R draw none now recorded in
      pop_or scheduled scheduled.pending (again scheduled) now

  after_read :
      ActiveOrdersWatcher F Rest
      → (draw : ℕ) (again : ActiveOrdersWatcher F Rest → Next F Rest V)
      → Result (List (ActiveOrder Rest)) (Error V)
      → Next F Rest V
  unfolding after_record after_failed_read
  after_read w draw again (ok orders) = after_record w draw again (record_snapshot orders w)
  after_read w draw again (err error) = after_failed_read w draw again error (rate_limit_of error)

  -- The loop, cut off after `left` rounds.
  unfoldable pub next_loop :
      Reads Rest V → (left round : ℕ) → ActiveOrdersWatcher F Rest → Next F Rest V
  unfolding after_read
  next_loop provider zero round w = at_exit out_of_fuel
  next_loop provider (suc left) round w = do
    wait_until_next_poll w
    active ← ask_or_stop (is_cancelled_now w) (is_late w) w.options (provider.active round)
    after_read w (provider.draw round) (next_loop provider left (suc round)) active

  unfoldable pub next : Reads Rest V → ActiveOrdersWatcher F Rest → Next F Rest V
  unfolding pop_or
  next provider w =
      watcher_preflight w
      >> pop_or w w.pending (λ now. next_loop provider (suc (w.options.deadline - now)) 0 w now)
