-- ===== src/Examples/Watching.antt =====
-- A watcher of active orders at concrete values (src/poll.rs).
use smspool_sdk.Prelude.{
  ℕ, ◌≤◌, max, ◌≡◌, refl, none, some, [], ◌∷◌, ok, err, arith, if◌then◌else◌, ◌==◌,
}
use smspool_sdk.BTreeMap.{from_entries}
use smspool_sdk.BTreeMap.Order.{text_order}
use smspool_sdk.Transport.Io.{done, failed}
use smspool_sdk.Error.{transport, connect}
use smspool_sdk.Transport.Rules.{IsSettled}
use smspool_sdk.Poll.Orders.{ActiveOrder}
use smspool_sdk.Poll.Delay.{polling_delay}
use smspool_sdk.Poll.Watcher.{ActiveOrdersWatcher, active_orders_watcher, client, record_snapshot}
use smspool_sdk.Poll.Watcher.Refinement.{RecordsAs, record_snapshot-RecordsAs}
use smspool_sdk.Poll.Watch.{Reads, Emitted, next}
use smspool_sdk.Poll.Watch.Ending.{next-IsSettled}
use smspool_sdk.Poll.Watch.Failures.{IsReason, next-IsReason}
use smspool_sdk.Poll.Watch.Invariant.{IsBounded, Leaves, next-Leaves}
use smspool_sdk.Examples.Crates.{floats, Document}
use smspool_sdk.Examples.Polling.{test_options}

abbrev waiting : ActiveOrder Unit
waiting = record { order_code = "A1"; status = "pending"; code = "0"; full_code = none; rest = tt }

abbrev completed : ActiveOrder Unit
completed = record {
  order_code = "A1";
  status = "completed";
  code = "123";
  full_code = some "code 123";
  rest = tt;
}

abbrev other_order : ActiveOrder Unit
other_order = record {
  order_code = "B2";
  status = "pending";
  code = "0";
  full_code = none;
  rest = tt;
}

-- A watcher that knows one order, and has emitted it.
abbrev watcher : ActiveOrdersWatcher ℕ Unit
watcher = record {
  options = test_options;
  max_tracked_orders = 2;
  fingerprints = ("A1", record { status = "pending"; code = "0"; full_code = none }) ∷ [];
  pending = [];
  next_poll_at = some 2;
  interval = 4;
  last_observed = some waiting;
}

-- The first read repeats what is known, the second lists the order twice, the last time completed.
abbrev reads : Reads Unit Document
reads = record {
  active = λ k. record {
    takes = 1;
    answer = ok (if k == 0 then waiting ∷ [] else other_order ∷ waiting ∷ completed ∷ []);
  };
  draw = λ k. 0;
}

abbrev after : ActiveOrdersWatcher ℕ Unit
after = record {
  options = test_options;
  max_tracked_orders = 2;
  fingerprints =
      ("A1", record { status = "completed"; code = "123"; full_code = some "code 123" })
      ∷ ("B2", record { status = "pending"; code = "0"; full_code = none })
      ∷ [];
  pending = other_order ∷ [];
  next_poll_at = some 16;
  interval = 16;
  last_observed = some other_order;
}

abbrev emitted : Emitted ℕ Unit
emitted = (after, completed)

emits : (next floats reads watcher 0).exit ≡ done emitted
unfolding next smspool_sdk.Poll.Watch.next_loop smspool_sdk.Poll.Watch.wait_until_next_poll
    smspool_sdk.Poll.Watch.schedule_next record_snapshot from_entries polling_delay
    smspool_sdk.Poll.Delay.jitter smspool_sdk.Poll.Delay.advance_interval
    smspool_sdk.Poll.Watcher.same_fingerprint text_order smspool_sdk.Duration.checked_mul
emits = refl

next-IsSettled_example :
    IsSettled (next floats reads watcher 0) × ((next floats reads watcher 0).now ≤ max 0 1000)
next-IsSettled_example = next-IsSettled floats reads watcher 0 (λ k. omega arith)

next-Leaves_example : Leaves IsBounded (next floats reads watcher 0).exit
next-Leaves_example =
    next-Leaves floats reads watcher 0
      (record { sorted = (tt, tt); tracks = omega arith; queues = omega arith })

record_snapshot-RecordsAs_example :
    RecordsAs {V = Document}
      (waiting ∷ other_order ∷ completed ∷ [])
      watcher
      (record_snapshot (waiting ∷ other_order ∷ completed ∷ []) watcher)
record_snapshot-RecordsAs_example =
    record_snapshot-RecordsAs Document (waiting ∷ other_order ∷ completed ∷ []) watcher (tt, tt)

-- A provider that cannot be reached.
abbrev unreachable_reads : Reads Unit Document
unreachable_reads = record {
  active = λ k. record { takes = 1; answer = err (transport "sms.active" connect) };
  draw = λ k. 0;
}

fails :
    (next floats unreachable_reads watcher 0).exit
    ≡ failed (watcher, client (transport "sms.active" connect))
unfolding next smspool_sdk.Poll.Watch.next_loop smspool_sdk.Poll.Watch.wait_until_next_poll
fails = refl

next-IsReason_example :
    IsReason unreachable_reads
      (next floats unreachable_reads watcher 0).now
      watcher
      (client (transport "sms.active" connect))
next-IsReason_example =
    next-IsReason floats unreachable_reads watcher 0
      (watcher, client (transport "sms.active" connect)) (tt, tt) fails
