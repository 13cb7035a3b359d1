-- ===== src/Poll/Watch/Invariant.antt =====
-- What a watcher keeps through every call of `next`, whether it emits an order or fails (src/poll.rs).
use smspool_sdk.Prelude.{
  ℕ, zero, suc, ◌-◌, ◌≤◌, ◌≡◌, refl, ap, ◌∙◌, Option, none, some, List, [], ◌∷◌, ◌++◌, inl, inr,
  Result, ok, err, arith, length,
}
use smspool_sdk.Float.{Floats}
use smspool_sdk.Error.{Error, rate_limit_of}
use smspool_sdk.BTreeMap.{get}
use smspool_sdk.BTreeMap.Laws.{IsSorted}
use smspool_sdk.BTreeMap.Order.{text_order}
use smspool_sdk.Transport.Io.{Io, Exit, done, failed, panicked, out_of_fuel, ◌>>=◌}
use smspool_sdk.Transport.Rules.{Yields, then-Yields}
use smspool_sdk.Transport.Timed.{FailsAt, then-FailsAt, return-Yields, fail-FailsAt}
use smspool_sdk.Poll.Orders.{ActiveOrder}
use smspool_sdk.Poll.Watcher.{
  WatchError, client, ActiveOrdersWatcher, tracked_order_count, record_snapshot, unique_orders,
}
use smspool_sdk.Poll.Watcher.Recording.{changed_orders}
use smspool_sdk.Poll.Watcher.Refinement.{RecordsAs, IsRecorded, record_snapshot-RecordsAs}
use smspool_sdk.Poll.Delay.{ask_or_stop}
use smspool_sdk.Poll.Delay.Stops.{
  IsStop, stop_conditions-IsStop, sleep_until_or_stop-IsStop, ask_or_stop-IsStop,
}
use smspool_sdk.Poll.Watch.{
  Reads, Stopped, Emitted, Next, is_cancelled_now, is_late, watcher_preflight, until_next_poll,
  wait_until_next_poll, pop_or, schedule_next, after_failed_read, after_record, after_read,
  next_loop, next,
}

-- The fingerprints stand in order, and no more orders are tracked or queued than the limit.
pub record IsBounded {F Rest : Type 0} (w : ActiveOrdersWatcher F Rest) : Type 0 where
  pub sorted : IsSorted text_order w.fingerprints
  pub tracks : tracked_order_count w ≤ w.max_tracked_orders
  pub queues : length w.pending ≤ w.max_tracked_orders

-- The watcher that an exit gives back.
module _ {F Rest V : Type 0} where
  abbrev pub Leaves :
      (ActiveOrdersWatcher F Rest → Type 0) → Exit (Stopped F Rest V) (Emitted F Rest) → Type 0
  Leaves P (done emitted) = P emitted.0
  Leaves P (failed stopped) = P stopped.0
  Leaves P panicked = Unit
  Leaves P out_of_fuel = Unit

  -- Both ends of a run leave a bounded watcher.
  abbrev KeepsBounds : Next F Rest V → Type 0
  KeepsBounds m = FailsAt (λ _ x. IsBounded x.0) m × Yields (λ e. IsBounded e.0) m

  stop-IsBounded :
      (w : ActiveOrdersWatcher F Rest)
      → IsBounded w
      → (now : ℕ) (x : Stopped F Rest V) → IsStop (is_cancelled_now w) (is_late w) w.options now x
      → IsBounded x.0
  stop-IsBounded w h now x (inl q) = rw q.0 h
  stop-IsBounded w h now x (inr q) = rw q.0 h

  -- A step that only waits or reads, and the rest.
  step-KeepsBounds :
      {A : Type 0} (w : ActiveOrdersWatcher F Rest) (m : Io (Stopped F Rest V) A)
      (rest : A → Next F Rest V)
      → IsBounded w
      → FailsAt (IsStop (is_cancelled_now w) (is_late w) w.options) m
      → ((a : A) → KeepsBounds (rest a))
      → KeepsBounds (m >>= rest)
  step-KeepsBounds w m rest h k l = (
    then-FailsAt m rest (λ _ x. IsBounded x.0) (λ now x q. stop-IsBounded w h _ x (k now x q))
        (λ a. (l a).0),
    then-Yields m rest (λ e. IsBounded e.0) (λ a. (l a).1),
  )

  until_next_poll-IsStop :
      (w : ActiveOrdersWatcher F Rest) (at : Option ℕ)
      → FailsAt (IsStop (is_cancelled_now w) (is_late w) w.options) (until_next_poll {V = V} w at)
  unfolding until_next_poll
  until_next_poll-IsStop w none = λ now x q. cc
  until_next_poll-IsStop w (some at) =
      sleep_until_or_stop-IsStop (is_cancelled_now w) (is_late w) w.options at

  pub wait_until_next_poll-IsStop :
      (w : ActiveOrdersWatcher F Rest)
      → FailsAt (IsStop (is_cancelled_now w) (is_late w) w.options) (wait_until_next_poll {V = V} w)
  unfolding wait_until_next_poll
  wait_until_next_poll-IsStop w =
      then-FailsAt (watcher_preflight w) (λ _. until_next_poll w w.next_poll_at)
        (IsStop (is_cancelled_now w) (is_late w) w.options)
        (stop_conditions-IsStop (is_cancelled_now w) (is_late w) w.options)
        (λ _. until_next_poll-IsStop w w.next_poll_at)

  -- The queue, by its first event.
  pop_or-KeepsBounds :
      (w : ActiveOrdersWatcher F Rest) (pending : List (ActiveOrder Rest))
      (otherwise : Next F Rest V)
      → w.pending ≡ pending
      → IsBounded w
      → (w.pending ≡ [] → KeepsBounds otherwise)
      → KeepsBounds (pop_or w pending otherwise)
  unfolding pop_or
  pop_or-KeepsBounds w [] otherwise q h k = k q
  pop_or-KeepsBounds w (event ∷ pending) otherwise q h k = (
    λ now x r. cc,
    return-Yields (λ e. IsBounded e.0) (record w { pending = pending }, event)
        (record {
          sorted = h.sorted;
          tracks = h.tracks;
          queues = omega (arith, h.queues, ap length q);
        }),
  )

module _ {F Rest : Type 0} where
  recorded-IsBounded :
      (orders : List (ActiveOrder Rest)) (w after : ActiveOrdersWatcher F Rest)
      → w.pending ≡ []
      → IsRecorded orders w after
      → IsBounded after
  recorded-IsBounded orders w after q h = record {
    sorted = h.sorted;
    tracks = omega (arith, h.bounded, h.keeps);
    queues =
        let new = changed_orders (λ id. get text_order id w.fingerprints) (unique_orders orders) in
        omega (arith, h.few, h.keeps, ap length (h.queues ∙ ap (λ p. p ++ new) q));
  }

module _ (R : Floats) {Rest V : Type 0} where
  open R use {F}

  module _ (draw : ℕ) (again : ActiveOrdersWatcher F Rest → Next F Rest V)
      (later : (w : ActiveOrdersWatcher F Rest)
        → IsBounded w
        → w.pending ≡ []
        → KeepsBounds (again w))
      (w : ActiveOrdersWatcher F Rest) (h : IsBounded w) (idle : w.pending ≡ []) where
    bounded_again :
        (retry_after : Option ℕ) (now : ℕ)
        → KeepsBounds (again (schedule_next R draw retry_after now w))
    unfolding schedule_next
    bounded_again retry_after now =
        later (schedule_next R draw retry_after now w)
          (record { sorted = h.sorted; tracks = h.tracks; queues = h.queues }) idle

    after_failed_read-KeepsBounds :
        (error : Error V) (limit : Option (Option ℕ))
        → KeepsBounds (after_failed_read R w draw again error limit)
    unfolding after_failed_read
    after_failed_read-KeepsBounds error none =
        (fail-FailsAt (λ _ x. IsBounded x.0) (w, client error) (λ now. h), λ now a q. cc)
    after_failed_read-KeepsBounds error (some retry_after) =
        (λ now. (bounded_again retry_after now).0 now, λ now. (bounded_again retry_after now).1 now)

    after_record-KeepsBounds :
        (orders : List (ActiveOrder Rest))
        (r : Result (ActiveOrdersWatcher F Rest) (WatchError Rest V))
        → RecordsAs orders w r
        → KeepsBounds (after_record R w draw again r)
    unfolding after_record schedule_next
    after_record-KeepsBounds orders (err x) k =
        (fail-FailsAt (λ _ x. IsBounded x.0) (w, x) (λ now. h), λ now a q. cc)
    after_record-KeepsBounds orders (ok recorded) k =
        let both = λ (now : ℕ).
          let after = schedule_next R draw none now recorded in
          let bounded = recorded-IsBounded orders w recorded idle k in
          let kept : IsBounded after = record {
            sorted = bounded.sorted;
            tracks = bounded.tracks;
            queues = bounded.queues;
          } in
          pop_or-KeepsBounds after after.pending (again after) refl kept (later after kept) in
        (λ now. (both now).0 now, λ now. (both now).1 now)

    after_read-KeepsBounds :
        (answer : Result (List (ActiveOrder Rest)) (Error V))
        → KeepsBounds (after_read R w draw again answer)
    unfolding after_read
    after_read-KeepsBounds (ok orders) =
        after_record-KeepsBounds orders (record_snapshot orders w)
          (record_snapshot-RecordsAs V orders w h.sorted)
    after_read-KeepsBounds (err error) = after_failed_read-KeepsBounds error (rate_limit_of error)

  next_loop-KeepsBounds :
      (provider : Reads Rest V) (left round : ℕ) (w : ActiveOrdersWatcher F Rest)
      → IsBounded w
      → w.pending ≡ []
      → KeepsBounds (next_loop R provider left round w)
  unfolding next_loop
  next_loop-KeepsBounds provider zero round w h idle = (λ now x q. cc, λ now a q. cc)
  next_loop-KeepsBounds provider (suc left) round w h idle =
      let again = next_loop R provider left (suc round) in
      let ask = ask_or_stop (is_cancelled_now w) (is_late w) w.options (provider.active round) in
      let read = after_read R w (provider.draw round) again in
      step-KeepsBounds w (wait_until_next_poll w) (λ _. ask >>= read) h
        (wait_until_next_poll-IsStop w)
        (λ _.
          step-KeepsBounds w ask read h
            (ask_or_stop-IsStop (is_cancelled_now w) (is_late w) w.options (provider.active round))
            (after_read-KeepsBounds (provider.draw round) again
              (next_loop-KeepsBounds provider left (suc round)) w h idle))

  next-KeepsBounds :
      (provider : Reads Rest V) (w : ActiveOrdersWatcher F Rest)
      → IsBounded w
      → KeepsBounds (next R provider w)
  unfolding next
  next-KeepsBounds provider w h =
      let loop = λ (now : ℕ). next_loop R provider (suc (w.options.deadline - now)) 0 w now in
      step-KeepsBounds w (watcher_preflight w) (λ _. pop_or w w.pending loop) h
        (stop_conditions-IsStop (is_cancelled_now w) (is_late w) w.options)
        (λ _. pop_or-KeepsBounds w w.pending loop refl h (λ idle. (
          λ now. (next_loop-KeepsBounds provider (suc (w.options.deadline - now)) 0 w h idle).0 now,
          λ now. (next_loop-KeepsBounds provider (suc (w.options.deadline - now)) 0 w h idle).1 now,
        )))

  exit-Leaves :
      (e : Exit (Stopped F Rest V) (Emitted F Rest))
      → ((x : Stopped F Rest V) → e ≡ failed x → IsBounded x.0)
      → ((a : Emitted F Rest) → e ≡ done a → IsBounded a.0)
      → Leaves IsBounded e
  exit-Leaves (done a) h k = k a refl
  exit-Leaves (failed x) h k = h x refl
  exit-Leaves panicked h k = tt
  exit-Leaves out_of_fuel h k = tt

-- A call of `next` leaves a bounded watcher, whether it emits an order or fails: the fingerprints stand in
-- order, and no more orders are tracked or queued than the limit.
pub next-Leaves :
    (R : Floats) {Rest V : Type 0} (provider : Reads Rest V) (w : ActiveOrdersWatcher (R.F) Rest)
    (now : ℕ)
    → IsBounded w
    → Leaves IsBounded (next R provider w now).exit
next-Leaves R provider w now h =
    exit-Leaves R (next R provider w now).exit ((next-KeepsBounds R provider w h).0 now)
      ((next-KeepsBounds R provider w h).1 now)
