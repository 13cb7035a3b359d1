-- ===== src/Poll/Watch/Waits.antt =====
-- The waits of a watcher and the front of its queue (src/poll.rs): that they end, and when.
use smspool_sdk.Prelude.{ℕ, ◌≤◌, ◌<◌, ◌≡◌, Option, none, some, List, [], ◌∷◌, arith}
use smspool_sdk.Transport.Io.{done}
use smspool_sdk.Transport.Rules.{IsSettled, Ends, EndsBy, bind-EndsBy, bind-Ends}
use smspool_sdk.Transport.Timed.{bind_first, bind_later}
use smspool_sdk.Poll.Orders.{ActiveOrder}
use smspool_sdk.Poll.Delay.Stops.{
  stop_conditions-Ends, sleep_until_or_stop-Ends, stop_conditions-EndsBy,
  sleep_until_or_stop-EndsBy, stop_conditions_time, sleep_until_or_stop_time,
}
use smspool_sdk.Poll.Watcher.{ActiveOrdersWatcher}
use smspool_sdk.Poll.Watch.{
  Next, is_cancelled_now, is_late, watcher_preflight, until_next_poll, wait_until_next_poll, pop_or,
}

module _ {F Rest : Type 0} (V : Type 0) (w : ActiveOrdersWatcher F Rest) where
  until_next_poll-Ends : (at : Option ℕ) → Ends (until_next_poll {V = V} w at)
  unfolding until_next_poll
  until_next_poll-Ends none = λ now. (λ q. cc, λ q. cc)
  until_next_poll-Ends (some at) =
      sleep_until_or_stop-Ends (is_cancelled_now w) (is_late w) w.options at

  pub wait_until_next_poll-Ends : Ends (wait_until_next_poll {V = V} w)
  unfolding wait_until_next_poll
  wait_until_next_poll-Ends =
      bind-Ends (watcher_preflight w) (λ _. until_next_poll w w.next_poll_at)
        (stop_conditions-Ends (is_cancelled_now w) (is_late w) w.options)
        (λ _. until_next_poll-Ends w.next_poll_at)

  until_next_poll_time : (at : Option ℕ) (now : ℕ) → now ≤ (until_next_poll {V = V} w at now).now
  unfolding until_next_poll
  until_next_poll_time none now = omega arith
  until_next_poll_time (some at) now =
      sleep_until_or_stop_time (is_cancelled_now w) (is_late w) w.options at now

  -- A wait that goes through started before the deadline.
  pub wait_until_next_poll_time :
      (now : ℕ)
      → (now ≤ (wait_until_next_poll {V = V} w now).now)
        × ((wait_until_next_poll {V = V} w now).exit ≡ done tt → now < w.options.deadline)
  unfolding wait_until_next_poll
  wait_until_next_poll_time now =
      let before = stop_conditions_time (is_cancelled_now w) (is_late w) w.options now in
      (
        bind_later (watcher_preflight w) (λ _. until_next_poll w w.next_poll_at) now
            (omega (arith, before.0)) (λ _. until_next_poll_time w.next_poll_at _),
        λ q.
            before.1
              (bind_first (watcher_preflight w) (λ _. until_next_poll w w.next_poll_at) now tt q).1,
      )

  module _ (b : ℕ) (late : w.options.deadline ≤ b) where
    until_next_poll-EndsBy : (at : Option ℕ) → EndsBy b b (until_next_poll {V = V} w at)
    unfolding until_next_poll
    until_next_poll-EndsBy none = λ now h. h
    until_next_poll-EndsBy (some at) =
        sleep_until_or_stop-EndsBy (is_cancelled_now w) (is_late w) w.options b late at

    pub wait_until_next_poll-EndsBy : EndsBy b b (wait_until_next_poll {V = V} w)
    unfolding wait_until_next_poll
    wait_until_next_poll-EndsBy =
        bind-EndsBy (watcher_preflight w) (λ _. until_next_poll w w.next_poll_at) b b b
          (omega arith) (stop_conditions-EndsBy (is_cancelled_now w) (is_late w) w.options b late)
          (λ _. until_next_poll-EndsBy w.next_poll_at)

module _ {F Rest V : Type 0} where
  pub pop_or-EndsBy :
      (b : ℕ) (w : ActiveOrdersWatcher F Rest) (pending : List (ActiveOrder Rest))
      (otherwise : Next F Rest V)
      → EndsBy b b otherwise
      → EndsBy b b (pop_or w pending otherwise)
  unfolding pop_or
  pop_or-EndsBy b w [] otherwise h = h
  pop_or-EndsBy b w (event ∷ pending) otherwise h = λ now q. q

  pub pop_or-IsSettled :
      (w : ActiveOrdersWatcher F Rest) (pending : List (ActiveOrder Rest))
      (otherwise : Next F Rest V) (now : ℕ)
      → IsSettled (otherwise now)
      → IsSettled (pop_or w pending otherwise now)
  unfolding pop_or
  pop_or-IsSettled w [] otherwise now h = h
  pop_or-IsSettled w (event ∷ pending) otherwise now h = (λ q. cc, λ q. cc)
