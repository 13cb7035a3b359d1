-- ===== src/BTreeMap.antt =====
-- `BTreeMap` of Rust's standard library, as its entries in the order of their keys.
pub mod Order
pub mod Laws
use smspool_sdk.Prelude.{
  Bool, true, false, Option, none, some, List, [], ◌∷◌, is_some, if◌then◌else◌, ◌≡◌, ◌↔◌,
}

-- `Ord` and `Eq` of the keys.
pub record Ord (K : Type 0) : Type 0 where
  pub less : K → K → Bool
  pub same : K → K → Bool

-- What `Ord` promises.
pub record IsOrd {K : Type 0} (O : Ord K) : Type 0 where
  pub same_iff : (a b : K) → (O.same a b ≡ true) ↔ (a ≡ b)
  pub irreflexive : (a : K) → O.less a a ≡ false
  pub transitive : (a b c : K) → O.less a b ≡ true → O.less b c ≡ true → O.less a c ≡ true
  pub total : (a b : K) → O.less a b ≡ false → O.same a b ≡ false → O.less b a ≡ true

abbrev pub BTreeMap : (K V : Type 0) → Type 0
BTreeMap K V = List (K × V)

module _ {K V : Type 0} (O : Ord K) where
  -- `BTreeMap::get`.
  abbrev pub get : K → BTreeMap K V → Option V
  get key [] = none
  get key (entry ∷ map) = if O.same key entry.0 then some entry.1 else get key map

  -- `BTreeMap::contains_key`.
  abbrev pub contains_key : K → BTreeMap K V → Bool
  contains_key key map = is_some (get key map)

  -- `BTreeMap::insert`.
  abbrev pub insert : K → V → BTreeMap K V → BTreeMap K V
  insert key value [] = (key, value) ∷ []
  insert key value (entry ∷ map) =
      if O.less key entry.0
      then (key, value) ∷ entry ∷ map
      else if O.same key entry.0
      then (key, value) ∷ map
      else entry ∷ insert key value map

  insert_from : List (K × V) → BTreeMap K V → BTreeMap K V
  insert_from [] map = map
  insert_from (entry ∷ entries) map = insert_from entries (insert entry.0 entry.1 map)

  -- `collect::<BTreeMap<_, _>>()`.
  unfoldable pub from_entries : List (K × V) → BTreeMap K V
  unfolding insert_from
  from_entries entries = insert_from entries []

  -- `BTreeMap::retain`, by a test of the keys.
  abbrev pub retain : (K → Bool) → BTreeMap K V → BTreeMap K V
  retain keeps [] = []
  retain keeps (entry ∷ map) = if keeps entry.0 then entry ∷ retain keeps map else retain keeps map
