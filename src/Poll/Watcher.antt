-- ===== src/Poll/Watcher.antt =====
-- The state of `ActiveOrdersWatcher` and how a snapshot is recorded in it (src/poll.rs).
pub mod Recording
pub mod Refinement
use smspool_sdk.Prelude.{
  ℕ, zero, suc, ◌+◌, ◌-◌, Bool, true, false, ◌&&◌, String, Option, none, some, List, [], ◌∷◌, ◌++◌,
  map, Result, ok, err, ltb, ◌==◌, length, same_text, if◌then◌else◌, reject_if, ◌>>◌,
}
use smspool_sdk.Float.{Floats}
use smspool_sdk.Error.{Error, rate_limit_of}
use smspool_sdk.BTreeMap.{BTreeMap, get, contains_key, insert, from_entries, retain}
use smspool_sdk.BTreeMap.Order.{text_order}
use smspool_sdk.Poll.Orders.{ActiveOrder}
use smspool_sdk.Poll.Options.{PollOptionsError}
use smspool_sdk.Poll.Delay.{PollOptions}

pub data WatchError (Rest V : Type 0) : Type 0 where
  client : Error V → WatchError Rest V
  deadline cancelled : (last_observed : Option (ActiveOrder Rest)) → WatchError Rest V
  tracking_limit_exceeded : (limit observed : ℕ) → WatchError Rest V

pub record ActiveFingerprint : Type 0 where
  pub status : String
  pub code : String
  pub full_code : Option String

-- The derived `PartialEq`.
abbrev same_full_code : Option String → Option String → Bool
same_full_code none none = true
same_full_code (some s) (some t) = same_text s t
same_full_code _ _ = false

unfoldable pub same_fingerprint : ActiveFingerprint → ActiveFingerprint → Bool
same_fingerprint a b =
    same_text a.status b.status && same_text a.code b.code && same_full_code a.full_code b.full_code

module _ {Rest : Type 0} where
  -- `ActiveFingerprint::from_order`.
  abbrev pub from_order : ActiveOrder Rest → ActiveFingerprint
  from_order order = record {
    status = order.status;
    code = order.code;
    full_code = order.full_code;
  }

-- `self.fingerprints.get(&order_id) != Some(&fingerprint)`.
abbrev pub is_changed : Option ActiveFingerprint → ActiveFingerprint → Bool
is_changed none fingerprint = true
is_changed (some old) fingerprint = if same_fingerprint old fingerprint then false else true

-- `orders.into_iter().map(|order| (order.order_code.clone(), order)).collect()`.
abbrev pub unique_orders :
    {Rest : Type 0} → List (ActiveOrder Rest) → BTreeMap String (ActiveOrder Rest)
unique_orders orders = from_entries text_order (map (λ order. (order.order_code, order)) orders)

pub record ActiveOrdersWatcher (F Rest : Type 0) : Type 0 where
  pub options : PollOptions F
  pub max_tracked_orders : ℕ
  pub fingerprints : BTreeMap String ActiveFingerprint
  pub pending : List (ActiveOrder Rest)
  pub next_poll_at : Option ℕ
  pub interval : ℕ
  pub last_observed : Option (ActiveOrder Rest)

module _ {F Rest : Type 0} where
  -- `ActiveOrdersWatcher::new`.
  unfoldable pub active_orders_watcher :
      PollOptions F
      → (max_tracked_orders : ℕ) → Result (ActiveOrdersWatcher F Rest) PollOptionsError
  active_orders_watcher options max_tracked_orders =
      reject_if (max_tracked_orders == 0)
        (record { field = "max_tracked_orders"; reason = "must be greater than zero" })
      >> ok (record {
        options = options;
        max_tracked_orders = max_tracked_orders;
        fingerprints = [];
        pending = [];
        next_poll_at = none;
        interval = options.base_interval;
        last_observed = none;
      })

  abbrev pub tracked_order_count : ActiveOrdersWatcher F Rest → ℕ
  tracked_order_count w = length w.fingerprints

  -- The body of the loop over the snapshot, and the loop.
  abbrev pub record_order :
      String → ActiveOrder Rest → ActiveOrdersWatcher F Rest → ActiveOrdersWatcher F Rest
  record_order order_id order w = record w {
    fingerprints = insert text_order order_id (from_order order) w.fingerprints;
    pending =
        if is_changed (get text_order order_id w.fingerprints) (from_order order)
        then w.pending ++ (order ∷ [])
        else w.pending;
    last_observed = some order;
  }

  abbrev pub record_orders :
      BTreeMap String (ActiveOrder Rest) → ActiveOrdersWatcher F Rest → ActiveOrdersWatcher F Rest
  record_orders [] w = w
  record_orders (entry ∷ unique) w = record_orders unique (record_order entry.0 entry.1 w)

  module _ {V : Type 0} where
    unfoldable pub record_snapshot :
        List (ActiveOrder Rest)
        → ActiveOrdersWatcher F Rest
        → Result (ActiveOrdersWatcher F Rest) (WatchError Rest V)
    record_snapshot orders w =
        let unique = unique_orders orders in
        reject_if (ltb w.max_tracked_orders (length unique))
          (tracking_limit_exceeded w.max_tracked_orders (length unique))
        >> ok (
            record_orders unique (record w {
              fingerprints =
                  retain text_order (λ id. contains_key text_order id unique) w.fingerprints;
            }))
