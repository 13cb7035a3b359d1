-- ===== src/Poll/Watcher/Recording.antt =====
-- The loop that records a snapshot (src/poll.rs): what it tracks at its end, and what it queues.
use mathlib.Core.List.{append-nil, append_assoc}
use smspool_sdk.Prelude.{
  suc, ◌≤◌, ◌≡◌, refl, sym, ap, ◌∙◌, Bool, true, false, String, Option, none, some, List, [], ◌∷◌,
  ◌++◌, map, Result, ok, err, ltb, length, arith, if◌then◌else◌, Bool-cases, inl, inr, reject_if,
  ◌>>◌,
}
use smspool_sdk.BTreeMap.{BTreeMap, get, contains_key, insert, retain}
use smspool_sdk.BTreeMap.Order.{text_order, text-IsOrd}
use smspool_sdk.BTreeMap.Laws.{
  Above, IsSorted, get-insert, get-retain, same_refl, same_sym, less-same,
}
use smspool_sdk.BTreeMap.Laws.Replace.{insert_all}
use smspool_sdk.Poll.Orders.{ActiveOrder}
use smspool_sdk.Poll.Watcher.{
  WatchError, ActiveFingerprint, from_order, ActiveOrdersWatcher, is_changed, unique_orders,
  record_order, record_orders, record_snapshot, tracking_limit_exceeded,
}

-- The fingerprint of an order, where there is one.
abbrev pub fingerprint_in : {Rest : Type 0} → Option (ActiveOrder Rest) → Option ActiveFingerprint
fingerprint_in none = none
fingerprint_in (some order) = some (from_order order)

module _ {Rest : Type 0} where
  -- The orders of a snapshot whose fingerprint differs from the old one, or has none.
  abbrev pub changed_orders :
      (old : String → Option ActiveFingerprint)
      → BTreeMap String (ActiveOrder Rest)
      → List (ActiveOrder Rest)
  changed_orders old [] = []
  changed_orders old (entry ∷ unique) =
      if is_changed (old entry.0) (from_order entry.1)
      then entry.1 ∷ changed_orders old unique
      else changed_orders old unique

  abbrev pub fingerprint : String × ActiveOrder Rest → ActiveFingerprint
  fingerprint entry = from_order entry.1

  abbrev pub tracked : BTreeMap String (ActiveOrder Rest) → BTreeMap String ActiveFingerprint
  tracked unique = map (λ entry. (entry.0, fingerprint entry)) unique

  pub get-fingerprints :
      (id : String) (unique : BTreeMap String (ActiveOrder Rest))
      → get text_order id (tracked unique) ≡ fingerprint_in (get text_order id unique)
  get-fingerprints id [] = refl
  get-fingerprints id (entry ∷ unique) = elim (Bool-cases (text_order.same id entry.0)) [
    | inl q ↦ rw q refl
    | inr q ↦ rw q (get-fingerprints id unique)
  ]

  Above-fingerprints :
      (id : String) (unique : BTreeMap String (ActiveOrder Rest))
      → Above text_order id unique
      → Above text_order id (tracked unique)
  Above-fingerprints id [] h = tt
  Above-fingerprints id (entry ∷ unique) h = (h.0, Above-fingerprints id unique h.1)

  pub fingerprints-IsSorted :
      (unique : BTreeMap String (ActiveOrder Rest))
      → IsSorted text_order unique
      → IsSorted text_order (tracked unique)
  fingerprints-IsSorted [] h = tt
  fingerprints-IsSorted (entry ∷ unique) h =
      (Above-fingerprints entry.0 unique h.0, fingerprints-IsSorted unique h.1)

  pub length-fingerprints :
      (unique : BTreeMap String (ActiveOrder Rest)) → length (tracked unique) ≡ length unique
  length-fingerprints [] = refl
  length-fingerprints (entry ∷ unique) = ap suc (length-fingerprints unique)

  pub length-changed_orders :
      (old : String → Option ActiveFingerprint) (unique : BTreeMap String (ActiveOrder Rest))
      → length (changed_orders old unique) ≤ length unique
  length-changed_orders old [] = omega arith
  length-changed_orders old (entry ∷ unique) = ground (arith, length-changed_orders old unique)

  -- The map answers as the old one did, for the keys of the snapshot.
  abbrev pub Agrees :
      (old : String → Option ActiveFingerprint)
      → BTreeMap String (ActiveOrder Rest)
      → BTreeMap String ActiveFingerprint
      → Type 0
  Agrees old [] m = Unit
  Agrees old (entry ∷ unique) m = (get text_order entry.0 m ≡ old entry.0) × Agrees old unique m

  insert-Agrees :
      (old : String → Option ActiveFingerprint) (unique : BTreeMap String (ActiveOrder Rest))
      (m : BTreeMap String ActiveFingerprint) (id : String) (f : ActiveFingerprint)
      → Above text_order id unique
      → Agrees old unique m
      → Agrees old unique (insert text_order id f m)
  insert-Agrees old [] m id f h k = tt
  insert-Agrees old (entry ∷ unique) m id f h k = (
    get-insert text_order text-IsOrd entry.0 id f m
        ∙ rw
            (same_sym text_order text-IsOrd id entry.0
              (less-same text_order text-IsOrd id entry.0 h.0))
            k.0,
    insert-Agrees old unique m id f h.1 k.1,
  )

  -- Every key of the snapshot passes the test.
  abbrev pub IsKept : (keeps : String → Bool) → BTreeMap String (ActiveOrder Rest) → Type 0
  IsKept keeps [] = Unit
  IsKept keeps (entry ∷ unique) = (keeps entry.0 ≡ true) × IsKept keeps unique

  pub retain-Agrees :
      (m : BTreeMap String ActiveFingerprint) (keeps : String → Bool)
      (unique : BTreeMap String (ActiveOrder Rest))
      → IsKept keeps unique
      → Agrees (λ id. get text_order id m) unique (retain text_order keeps m)
  retain-Agrees m keeps [] h = tt
  retain-Agrees m keeps (entry ∷ unique) h =
      (get-retain text_order text-IsOrd entry.0 keeps m h.0, retain-Agrees m keeps unique h.1)

  IsKept-weaken :
      (p q : String → Bool) (unique : BTreeMap String (ActiveOrder Rest))
      → ((id : String) → p id ≡ true → q id ≡ true)
      → IsKept p unique
      → IsKept q unique
  IsKept-weaken p q [] f h = tt
  IsKept-weaken p q (entry ∷ unique) f h = (f entry.0 h.0, IsKept-weaken p q unique f h.1)

  pub own-IsKept :
      (unique : BTreeMap String (ActiveOrder Rest))
      → IsKept (λ id. contains_key text_order id unique) unique
  own-IsKept [] = tt
  own-IsKept (entry ∷ unique) = (
    rw (same_refl text_order text-IsOrd entry.0) refl,
    IsKept-weaken (λ id. contains_key text_order id unique)
        (λ id. contains_key text_order id (entry ∷ unique)) unique (λ id h. ground arith)
        (own-IsKept unique),
  )

  queued :
      (test : Bool) (p : List (ActiveOrder Rest)) (x : ActiveOrder Rest)
      (rest : List (ActiveOrder Rest))
      → (if test then p ++ (x ∷ []) else p) ++ rest ≡ p ++ (if test then x ∷ rest else rest)
  queued true p x rest = append_assoc p (x ∷ []) rest
  queued false p x rest = refl

module _ {F Rest : Type 0} where
  pub record_orders-fingerprints :
      (unique : BTreeMap String (ActiveOrder Rest)) (w : ActiveOrdersWatcher F Rest)
      → (record_orders unique w).fingerprints
        ≡ insert_all text_order text-IsOrd fingerprint unique w.fingerprints
  record_orders-fingerprints [] w = refl
  record_orders-fingerprints (entry ∷ unique) w =
      record_orders-fingerprints unique (record_order entry.0 entry.1 w)

  pub record_orders-pending :
      (old : String → Option ActiveFingerprint) (unique : BTreeMap String (ActiveOrder Rest))
      (w : ActiveOrdersWatcher F Rest)
      → IsSorted text_order unique
      → Agrees old unique w.fingerprints
      → (record_orders unique w).pending ≡ w.pending ++ changed_orders old unique
  record_orders-pending old [] w h k = sym (append-nil w.pending)
  record_orders-pending old (entry ∷ unique) w h k =
      record_orders-pending old unique (record_order entry.0 entry.1 w) h.1
        (insert-Agrees old unique w.fingerprints entry.0 (from_order entry.1) h.0 k.1)
      ∙ rw (sym k.0) (
          queued (is_changed (get text_order entry.0 w.fingerprints) (from_order entry.1)) w.pending
            entry.1 (changed_orders old unique))

  -- The loop leaves the settings alone.
  pub record_orders-max :
      (unique : BTreeMap String (ActiveOrder Rest)) (w : ActiveOrdersWatcher F Rest)
      → (record_orders unique w).max_tracked_orders ≡ w.max_tracked_orders
  record_orders-max [] w = refl
  record_orders-max (entry ∷ unique) w = record_orders-max unique (record_order entry.0 entry.1 w)

  pub record_orders-options :
      (unique : BTreeMap String (ActiveOrder Rest)) (w : ActiveOrdersWatcher F Rest)
      → (record_orders unique w).options ≡ w.options
  record_orders-options [] w = refl
  record_orders-options (entry ∷ unique) w =
      record_orders-options unique (record_order entry.0 entry.1 w)

module _ {F Rest : Type 0} where
  -- A recorded snapshot leaves the options alone.
  abbrev pub KeepsOptions :
      {V : Type 0}
      → ActiveOrdersWatcher F Rest
      → Result (ActiveOrdersWatcher F Rest) (WatchError Rest V)
      → Type 0
  KeepsOptions w (ok after) = after.options ≡ w.options
  KeepsOptions w (err x) = Unit

  limited-KeepsOptions :
      {V : Type 0} (w after : ActiveOrdersWatcher F Rest) (test : Bool) (x : WatchError Rest V)
      → after.options ≡ w.options
      → KeepsOptions w (reject_if test x >> ok after)
  limited-KeepsOptions w after true x h = tt
  limited-KeepsOptions w after false x h = h

  pub record_snapshot-KeepsOptions :
      (V : Type 0) (orders : List (ActiveOrder Rest)) (w : ActiveOrdersWatcher F Rest)
      → KeepsOptions {V = V} w (record_snapshot orders w)
  unfolding record_snapshot
  record_snapshot-KeepsOptions V orders w =
      let unique = unique_orders orders in
      let retained = record w {
        fingerprints = retain text_order (λ id. contains_key text_order id unique) w.fingerprints;
      } in
      limited-KeepsOptions w (record_orders unique retained)
        (ltb w.max_tracked_orders (length unique))
        (tracking_limit_exceeded w.max_tracked_orders (length unique))
        (record_orders-options unique retained)
