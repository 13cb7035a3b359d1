-- ===== src/Poll/Watch/Failures.antt =====
-- Why a call of `next` fails (src/poll.rs).
use smspool_sdk.Prelude.{
  ℕ, zero, suc, ◌-◌, ◌≤◌, ◌<◌, ◌≡◌, refl, inl, inr, Option, none, some, List, [], ◌∷◌, Result, ok,
  err, arith, length,
}
use smspool_sdk.Float.{Floats}
use smspool_sdk.Error.{Error, rate_limit_of}
use smspool_sdk.Transport.Io.{failed, ◌>>=◌}
use smspool_sdk.Transport.Timed.{FailsAt, then-FailsAt, bind-FailsAt, fail-FailsAt}
use smspool_sdk.Poll.Orders.{ActiveOrder}
use smspool_sdk.Poll.Delay.{ask_or_stop}
use smspool_sdk.Poll.Delay.Stops.{WasCancelled, IsStop, stop_conditions-IsStop, ask_or_stop-IsStop}
use smspool_sdk.Poll.Watcher.{
  WatchError, client, deadline, cancelled, tracking_limit_exceeded, ActiveOrdersWatcher,
  record_snapshot, unique_orders,
}
use smspool_sdk.BTreeMap.Laws.{IsSorted}
use smspool_sdk.BTreeMap.Order.{text_order}
use smspool_sdk.Poll.Watcher.Refinement.{RecordsAs, record_snapshot-RecordsAs}
use smspool_sdk.Poll.Watch.{
  Reads, Stopped, Next, is_cancelled_now, is_late, watcher_preflight, wait_until_next_poll, pop_or,
  schedule_next, after_failed_read, after_record, after_read, next_loop, next,
}
use smspool_sdk.Poll.Watch.Invariant.{wait_until_next_poll-IsStop}

module _ {Rest V : Type 0} (provider : Reads Rest V) where
  -- One of the provider's reads answered this.
  abbrev pub Answered : Result (List (ActiveOrder Rest)) (Error V) → Type 0
  Answered answer = (round : ℕ) × ((provider.active round).answer ≡ answer)

module _ {F Rest V : Type 0} (provider : Reads Rest V) where
  -- Why a call fails at the time `now`, with the watcher that it leaves.
  abbrev pub IsReason : (now : ℕ) → ActiveOrdersWatcher F Rest → WatchError Rest V → Type 0
  IsReason now w (client e) = Answered provider (err e) × (rate_limit_of e ≡ none)
  IsReason now w (deadline last) = (w.options.deadline ≤ now) × (last ≡ w.last_observed)
  IsReason now w (cancelled last) =
      WasCancelled w.options.cancelled_at now × (last ≡ w.last_observed)
  IsReason now w (tracking_limit_exceeded limit observed) =
      (limit ≡ w.max_tracked_orders)
      × (limit < observed)
      × ((orders : List (ActiveOrder Rest)) × Answered provider (ok orders)
          × (observed ≡ length (unique_orders orders)))

  abbrev HasReason : ℕ → Stopped F Rest V → Type 0
  HasReason now x = IsReason now x.0 x.1

  stop-HasReason :
      (w : ActiveOrdersWatcher F Rest) (now : ℕ) (x : Stopped F Rest V)
      → IsStop (is_cancelled_now w) (is_late w) w.options now x
      → HasReason now x
  stop-HasReason w now x (inl q) = rw q.0 (q.1, refl)
  stop-HasReason w now x (inr q) = rw q.0 (q.1, refl)

  pop_or-HasReason :
      (w : ActiveOrdersWatcher F Rest) (pending : List (ActiveOrder Rest))
      (otherwise : Next F Rest V)
      → FailsAt HasReason otherwise
      → FailsAt HasReason (pop_or w pending otherwise)
  unfolding pop_or
  pop_or-HasReason w [] otherwise h = h
  pop_or-HasReason w (event ∷ pending) otherwise h = λ now x q. cc

module _ (R : Floats) {Rest V : Type 0} (provider : Reads Rest V) where
  open R use {F}

  module _ (draw : ℕ) (again : ActiveOrdersWatcher F Rest → Next F Rest V)
      (later : (w : ActiveOrdersWatcher F Rest)
        → IsSorted text_order w.fingerprints
        → FailsAt (HasReason provider) (again w))
      (w : ActiveOrdersWatcher F Rest) (sorted : IsSorted text_order w.fingerprints) where
    after_failed_read-HasReason :
        (error : Error V) (limit : Option (Option ℕ))
        → Answered provider (err error)
        → rate_limit_of error ≡ limit
        → FailsAt (HasReason provider) (after_failed_read R w draw again error limit)
    unfolding after_failed_read schedule_next
    after_failed_read-HasReason error none said q =
        fail-FailsAt (HasReason provider) (w, client error) (λ now. (said, q))
    after_failed_read-HasReason error (some retry_after) said q =
        λ now. later (schedule_next R draw retry_after now w) sorted now

    after_record-HasReason :
        (orders : List (ActiveOrder Rest))
        (r : Result (ActiveOrdersWatcher F Rest) (WatchError Rest V))
        → Answered provider (ok orders)
        → RecordsAs orders w r
        → FailsAt (HasReason provider) (after_record R w draw again r)
    unfolding after_record schedule_next
    after_record-HasReason orders (err x) said k =
        fail-FailsAt (HasReason provider) (w, x) (λ now. rw k.1 (refl, k.0, (orders, said, refl)))
    after_record-HasReason orders (ok recorded) said k = λ now.
        let after = schedule_next R draw none now recorded in
        pop_or-HasReason provider after after.pending (again after) (later after k.sorted) now

    after_read-HasReason :
        (answer : Result (List (ActiveOrder Rest)) (Error V))
        → Answered provider answer
        → FailsAt (HasReason provider) (after_read R w draw again answer)
    unfolding after_read
    after_read-HasReason (ok orders) said =
        after_record-HasReason orders (record_snapshot orders w) said
          (record_snapshot-RecordsAs V orders w sorted)
    after_read-HasReason (err error) said =
        after_failed_read-HasReason error (rate_limit_of error) said refl

  next_loop-HasReason :
      (left round : ℕ) (w : ActiveOrdersWatcher F Rest)
      → IsSorted text_order w.fingerprints
      → FailsAt (HasReason provider) (next_loop R provider left round w)
  unfolding next_loop
  next_loop-HasReason zero round w sorted = λ now x q. cc
  next_loop-HasReason (suc left) round w sorted =
      let again = next_loop R provider left (suc round) in
      let ask = ask_or_stop (is_cancelled_now w) (is_late w) w.options (provider.active round) in
      let read = after_read R w (provider.draw round) again in
      then-FailsAt (wait_until_next_poll w) (λ _. ask >>= read) (HasReason provider)
        (λ now x q. stop-HasReason provider w _ x (wait_until_next_poll-IsStop w now x q))
        (λ _.
          bind-FailsAt ask read (HasReason provider) (Answered provider)
            (λ now x q. stop-HasReason provider w _ x (
              ask_or_stop-IsStop (is_cancelled_now w) (is_late w) w.options (provider.active round)
                now x q))
            (λ now a q. (round, ground arith))
            (λ answer said.
              after_read-HasReason (provider.draw round) again
                (next_loop-HasReason left (suc round)) w sorted answer said))

-- Every failure of `next` is explained at its time, by the watcher that it leaves: an error that the
-- provider answered to a read and that is no rate limit, a snapshot of the provider with more orders
-- than the limit, the deadline when it has passed, or the cancellation when the token is cancelled, the
-- last two with the last observed order; when the fingerprints stand in order before.
pub next-IsReason :
    (R : Floats) {Rest V : Type 0} (provider : Reads Rest V) (w : ActiveOrdersWatcher (R.F) Rest)
    (now : ℕ) (x : Stopped (R.F) Rest V)
    → IsSorted text_order w.fingerprints
    → (next R provider w now).exit ≡ failed x
    → IsReason provider (next R provider w now).now x.0 x.1
unfolding next
next-IsReason R provider w now x sorted =
    let loop = λ (start : ℕ). next_loop R provider (suc (w.options.deadline - start)) 0 w start in
    then-FailsAt (watcher_preflight w) (λ _. pop_or w w.pending loop) (HasReason provider)
      (λ now x q.
        stop-HasReason provider w _ x
          (stop_conditions-IsStop (is_cancelled_now w) (is_late w) w.options now x q))
      (λ _. pop_or-HasReason provider w w.pending loop (λ start.
        next_loop-HasReason R provider (suc (w.options.deadline - start)) 0 w sorted start))
      now x
