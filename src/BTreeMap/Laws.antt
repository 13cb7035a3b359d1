-- ===== src/BTreeMap/Laws.antt =====
-- Laws of `BTreeMap` (Rust's standard library), for keys with the promises of `Ord`.
pub mod Replace
use smspool_sdk.Prelude.{
  ◌≡◌, refl, sym, ap, ◌∙◌, subst, Bool, true, false, Option, none, some, List, [], ◌∷◌, is_some,
  or_else, arith, if◌then◌else◌, Bool-cases, inl, inr, ℕ, ◌≤◌, suc, length,
}
use smspool_sdk.BTreeMap.{
  Ord, IsOrd, BTreeMap, get, contains_key, insert, insert_from, from_entries, retain,
}

-- The last entry of a key in a list.
module _ {K V : Type 0} (O : Ord K) where
  abbrev pub latest : K → List (K × V) → Option V
  latest key [] = none
  latest key (entry ∷ entries) =
      or_else (latest key entries) (if O.same key entry.0 then some entry.1 else none)

  -- Every key of a map lies above `key`.
  abbrev pub Above : K → BTreeMap K V → Type 0
  Above key [] = Unit
  Above key (entry ∷ map) = (O.less key entry.0 ≡ true) × Above key map

  abbrev pub IsSorted : BTreeMap K V → Type 0
  IsSorted [] = Unit
  IsSorted (entry ∷ map) = Above entry.0 map × IsSorted map

module _ {K : Type 0} (O : Ord K) (ord : IsOrd O) where
  pub same_refl : (a : K) → O.same a a ≡ true
  same_refl a = (ord.same_iff a a).1 refl

  pub less_asym : (a b : K) → O.less a b ≡ true → O.less b a ≡ false
  less_asym a b h = elim (Bool-cases (O.less b a)) [
    | inl q ↦ absurd (cc (ord.transitive a b a h q, ord.irreflexive a))
    | inr q ↦ q
  ]

  pub less-same : (a b : K) → O.less a b ≡ true → O.same a b ≡ false
  less-same a b h = elim (Bool-cases (O.same a b)) [
    | inl q ↦ absurd (cc (h, (ord.same_iff a b).0 q, ord.irreflexive a))
    | inr q ↦ q
  ]

  pub same_sym : (a b : K) → O.same a b ≡ false → O.same b a ≡ false
  same_sym a b h = elim (Bool-cases (O.same b a)) [
    | inl q ↦ absurd (cc (h, (ord.same_iff b a).0 q, same_refl b))
    | inr q ↦ q
  ]

  apart :
      (k key other : K) → O.same key other ≡ false → O.same k key ≡ true → O.same k other ≡ false
  apart k key other h q = subst (λ x. O.same x other ≡ false) (sym ((ord.same_iff k key).0 q)) h

module _ {K V : Type 0} (O : Ord K) (ord : IsOrd O) where
  either :
      (k key other : K) (o : Option V) (value v : V)
      → O.same key other ≡ false
      → (if O.same k other then some v else if O.same k key then some value else o)
        ≡ (if O.same k key then some value else if O.same k other then some v else o)
  either k key other o value v h = elim (Bool-cases (O.same k key)) [
    | inl q ↦ ground (arith, apart O ord k key other h q)
    | inr q ↦ ground arith
  ]

  or_else-if :
      (test : Bool) (x y : Option V) (value : V)
      → or_else x (if test then some value else y)
        ≡ or_else (or_else x (if test then some value else none)) y
  or_else-if true (some v) y value = refl
  or_else-if true none y value = refl
  or_else-if false (some v) y value = refl
  or_else-if false none y value = refl

  or_else-none : (x : Option V) → or_else x none ≡ x
  or_else-none none = refl
  or_else-none (some v) = refl

  -- What a lookup finds after an insertion.
  pub get-insert :
      (k key : K) (value : V) (map : BTreeMap K V)
      → get O k (insert O key value map) ≡ (if O.same k key then some value else get O k map)
  get-insert k key value [] = refl
  get-insert k key value (entry ∷ map) = elim (Bool-cases (O.less key entry.0)) [
    | inl q ↦ rw q refl
    | inr q ↦ elim (Bool-cases (O.same key entry.0)) [
      | inl r ↦ rw q (rw r (rw (sym ((ord.same_iff key entry.0).0 r)) (ground arith)))
      | inr r ↦ rw q (
          rw r
            (rw (get-insert k key value map) (either k key entry.0 (get O k map) value entry.1 r)))
    ]
  ]

  get-insert_from :
      (k : K) (entries : List (K × V)) (map : BTreeMap K V)
      → get O k (insert_from O entries map) ≡ or_else (latest O k entries) (get O k map)
  unfolding insert_from
  get-insert_from k [] map = refl
  get-insert_from k (entry ∷ entries) map =
      get-insert_from k entries (insert O entry.0 entry.1 map)
      ∙ rw (get-insert k entry.0 entry.1 map)
          (or_else-if (O.same k entry.0) (latest O k entries) (get O k map) entry.1)

  -- A collected map holds the last value of each key.
  pub get-from_entries :
      (k : K) (entries : List (K × V)) → get O k (from_entries O entries) ≡ latest O k entries
  unfolding from_entries
  get-from_entries k entries = get-insert_from k entries [] ∙ or_else-none (latest O k entries)

  Above-trans : (a b : K) (map : BTreeMap K V) → O.less a b ≡ true → Above O b map → Above O a map
  Above-trans a b [] h k = tt
  Above-trans a b (entry ∷ map) h k = (ord.transitive a b entry.0 h k.0, Above-trans a b map h k.1)

  insert-Above :
      (a key : K) (value : V) (map : BTreeMap K V)
      → O.less a key ≡ true
      → Above O a map
      → Above O a (insert O key value map)
  insert-Above a key value [] h k = (h, tt)
  insert-Above a key value (entry ∷ map) h k = elim (Bool-cases (O.less key entry.0)) [
    | inl q ↦ rw q (h, k)
    | inr q ↦ elim (Bool-cases (O.same key entry.0)) [
      | inl r ↦ rw q (rw r (h, k.1))
      | inr r ↦ rw q (rw r (k.0, insert-Above a key value map h k.1))
    ]
  ]

  insert-IsSorted :
      (key : K) (value : V) (map : BTreeMap K V)
      → IsSorted O map
      → IsSorted O (insert O key value map)
  insert-IsSorted key value [] h = (tt, tt)
  insert-IsSorted key value (entry ∷ map) h = elim (Bool-cases (O.less key entry.0)) [
    | inl q ↦ rw q ((q, Above-trans key entry.0 map q h.0), h)
    | inr q ↦ elim (Bool-cases (O.same key entry.0)) [
      | inl r ↦ rw q (rw r (rw ((ord.same_iff key entry.0).0 r) h))
      | inr r ↦ rw q (
          rw r (
            insert-Above entry.0 key value map (ord.total key entry.0 q r) h.0,
            insert-IsSorted key value map h.1,
          ))
    ]
  ]

  insert_from-IsSorted :
      (entries : List (K × V)) (map : BTreeMap K V)
      → IsSorted O map
      → IsSorted O (insert_from O entries map)
  unfolding insert_from
  insert_from-IsSorted [] map h = h
  insert_from-IsSorted (entry ∷ entries) map h =
      insert_from-IsSorted entries (insert O entry.0 entry.1 map)
        (insert-IsSorted entry.0 entry.1 map h)

  pub from_entries-IsSorted : (entries : List (K × V)) → IsSorted O (from_entries O entries)
  unfolding from_entries
  from_entries-IsSorted entries = insert_from-IsSorted entries [] tt

  -- What a lookup finds after a retention.
  pub get-retain :
      (k : K) (keeps : K → Bool) (map : BTreeMap K V)
      → keeps k ≡ true
      → get O k (retain O keeps map) ≡ get O k map
  get-retain k keeps [] h = refl
  get-retain k keeps (entry ∷ map) h = elim (Bool-cases (keeps entry.0)) [
    | inl q ↦ rw q (rw (get-retain k keeps map h) refl)
    | inr q ↦ rw q (get-retain k keeps map h ∙ sym (missed k entry.0 (get O k map) entry.1 q h))
  ]
    where
      missed :
          (a b : K) (o : Option V) (v : V)
          → keeps b ≡ false
          → keeps a ≡ true
          → (if O.same a b then some v else o) ≡ o
      missed a b o v q h = elim (Bool-cases (O.same a b)) [
        | inl s ↦ absurd (cc (q, h, (ord.same_iff a b).0 s))
        | inr s ↦ rw s refl
      ]
