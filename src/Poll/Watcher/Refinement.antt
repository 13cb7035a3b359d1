-- ===== src/Poll/Watcher/Refinement.antt =====
-- Recording a snapshot against its abstract description (src/poll.rs): the watcher remembers the last
-- fingerprint of every order that the snapshot lists, and queues those that are new or changed.
use smspool_sdk.Prelude.{
  ◌≤◌, ◌<◌, ◌≡◌, refl, sym, ap, ◌∙◌, subst, Bool, true, false, String, Option, List, ◌++◌, map,
  Result, ok, err, ltb, length, arith, reject_if, ◌>>◌,
}
use smspool_sdk.BTreeMap.{BTreeMap, get, contains_key, retain}
use smspool_sdk.BTreeMap.Order.{text_order, text-IsOrd}
use smspool_sdk.BTreeMap.Laws.{latest, IsSorted, get-from_entries, from_entries-IsSorted}
use smspool_sdk.BTreeMap.Laws.Replace.{retain-Within, insert_all-Within}
use smspool_sdk.Poll.Orders.{ActiveOrder}
use smspool_sdk.Poll.Watcher.{
  WatchError, ActiveOrdersWatcher, unique_orders, record_orders, record_snapshot,
  tracked_order_count, tracking_limit_exceeded,
}
use smspool_sdk.Poll.Watcher.Recording.{
  fingerprint_in, changed_orders, fingerprint, tracked, get-fingerprints, fingerprints-IsSorted,
  length-fingerprints, length-changed_orders, retain-Agrees, own-IsKept, record_orders-fingerprints,
  record_orders-pending, record_orders-max,
}

-- The last order of a snapshot with this code.
abbrev pub listed : {Rest : Type 0} → List (ActiveOrder Rest) → String → Option (ActiveOrder Rest)
listed orders id = latest text_order id (map (λ order. (order.order_code, order)) orders)

module _ {F Rest : Type 0} where
  -- The watcher `after` is what a snapshot makes of the watcher `before`.
  pub record IsRecorded (orders : List (ActiveOrder Rest))
      (before after : ActiveOrdersWatcher F Rest) : Type 0 where
    pub tracks :
        (id : String) → get text_order id after.fingerprints ≡ fingerprint_in (listed orders id)
    pub queues :
        after.pending
        ≡ before.pending
          ++ changed_orders (λ id. get text_order id before.fingerprints) (unique_orders orders)
    pub sorted : IsSorted text_order after.fingerprints
    pub bounded : tracked_order_count after ≤ before.max_tracked_orders
    pub few :
        length (changed_orders (λ id. get text_order id before.fingerprints) (unique_orders orders))
        ≤ before.max_tracked_orders
    pub keeps : after.max_tracked_orders ≡ before.max_tracked_orders

  module _ (orders : List (ActiveOrder Rest)) (w : ActiveOrdersWatcher F Rest)
      (sorted : IsSorted text_order w.fingerprints) where
    abbrev unique : BTreeMap String (ActiveOrder Rest)
    unique = unique_orders orders

    abbrev retained : ActiveOrdersWatcher F Rest
    retained = record w {
      fingerprints = retain text_order (λ id. contains_key text_order id unique) w.fingerprints;
    }

    unique-IsSorted : IsSorted text_order unique
    unique-IsSorted =
        from_entries-IsSorted text_order text-IsOrd
          (map (λ order. (order.order_code, order)) orders)

    -- The map holds the fingerprints of the snapshot, and no others.
    fingerprints_now : (record_orders unique retained).fingerprints ≡ tracked unique
    fingerprints_now =
        record_orders-fingerprints unique retained
        ∙ insert_all-Within text_order text-IsOrd fingerprint retained.fingerprints unique
            unique-IsSorted
            (retain-Within text_order text-IsOrd w.fingerprints unique sorted unique-IsSorted)

    recorded :
        length unique ≤ w.max_tracked_orders → IsRecorded orders w (record_orders unique retained)
    recorded h = record {
      tracks = λ id.
          ap (get text_order id) fingerprints_now
          ∙ get-fingerprints id unique
          ∙ ap fingerprint_in (
              get-from_entries text_order text-IsOrd id
                (map (λ order. (order.order_code, order)) orders));
      queues =
          record_orders-pending (λ id. get text_order id w.fingerprints) unique retained
            unique-IsSorted
            (retain-Agrees w.fingerprints (λ id. contains_key text_order id unique) unique
              (own-IsKept unique));
      sorted =
          subst (IsSorted text_order) (sym fingerprints_now)
            (fingerprints-IsSorted unique unique-IsSorted);
      bounded = omega (arith, h, ap length fingerprints_now, length-fingerprints unique);
      few = omega (arith, h, length-changed_orders (λ id. get text_order id w.fingerprints) unique);
      keeps = record_orders-max unique retained;
    }

-- What a snapshot is recorded as: the new state, or the error with the number of orders that do not fit.
abbrev pub RecordsAs :
    {F Rest V : Type 0}
    → List (ActiveOrder Rest)
    → ActiveOrdersWatcher F Rest
    → Result (ActiveOrdersWatcher F Rest) (WatchError Rest V)
    → Type 0
RecordsAs orders w (ok after) = IsRecorded orders w after
RecordsAs orders w (err x) =
    (w.max_tracked_orders < length (unique_orders orders))
    × (x ≡ tracking_limit_exceeded w.max_tracked_orders (length (unique_orders orders)))

limited-RecordsAs :
    {F Rest : Type 0} (V : Type 0) (orders : List (ActiveOrder Rest))
    (w : ActiveOrdersWatcher F Rest) (after : ActiveOrdersWatcher F Rest) (test : Bool)
    → ltb w.max_tracked_orders (length (unique_orders orders)) ≡ test
    → (test ≡ false → IsRecorded orders w after)
    → RecordsAs {V = V} orders w (
        reject_if test
          (tracking_limit_exceeded w.max_tracked_orders (length (unique_orders orders)))
        >> ok after)
limited-RecordsAs V orders w after true q h = (ground arith, refl)
limited-RecordsAs V orders w after false q h = h refl

-- A snapshot with more different orders than may be tracked is refused with their number. Any other one
-- becomes what the watcher knows: an order is tracked exactly when the snapshot lists it, with the
-- fingerprint of its last entry, the orders that are new or changed are queued behind the waiting
-- ones, and the numbers of tracked and of newly queued orders are within the limit; the fingerprints stand in order before
-- and after.
pub record_snapshot-RecordsAs :
    {F Rest : Type 0} (V : Type 0) (orders : List (ActiveOrder Rest))
    (w : ActiveOrdersWatcher F Rest)
    → IsSorted text_order w.fingerprints
    → RecordsAs {V = V} orders w (record_snapshot orders w)
unfolding record_snapshot
record_snapshot-RecordsAs V orders w sorted =
    limited-RecordsAs V orders w (record_orders (unique orders w sorted) (retained orders w sorted))
      (ltb w.max_tracked_orders (length (unique_orders orders))) refl
      (λ q. recorded orders w sorted (ground arith))
