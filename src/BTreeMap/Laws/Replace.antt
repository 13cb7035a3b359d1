-- ===== src/BTreeMap/Laws/Replace.antt =====
-- A map whose keys outside another map are dropped, and which then takes all its keys, is that other
-- map with the values replaced (Rust's standard library).
use smspool_sdk.Prelude.{
  ◌≡◌, refl, sym, ap, ◌∙◌, subst, true, none, [], ◌∷◌, map, Bool-cases, inl, inr,
}
use smspool_sdk.BTreeMap.{Ord, IsOrd, BTreeMap, get, contains_key, insert, retain}
use smspool_sdk.BTreeMap.Laws.{
  Above, IsSorted, Above-trans, same_refl, same_sym, less_asym, less-same,
}

module _ {K V W : Type 0} where
  -- The keys of the first map are among those of the second, in one order.
  pub data Within : BTreeMap K W → BTreeMap K V → Type 0 where
    nil : Within [] []
    skip : {m : BTreeMap K W} {u : BTreeMap K V} {entry : K × V} → Within m u → Within m (entry ∷ u)
    keep :
        {m : BTreeMap K W} {u : BTreeMap K V} {e : K × W} {entry : K × V}
        → e.0 ≡ entry.0
        → Within m u
        → Within (e ∷ m) (entry ∷ u)

module _ {K V : Type 0} (O : Ord K) (ord : IsOrd O) where
  get-Above : (k : K) (u : BTreeMap K V) → Above O k u → get O k u ≡ none
  get-Above k [] h = refl
  get-Above k (entry ∷ u) h = rw (less-same O ord k entry.0 h.0) (get-Above k u h.1)

module _ {K W : Type 0} (O : Ord K) (ord : IsOrd O) where
  insert-below :
      (k : K) (value : W) (m : BTreeMap K W) → Above O k m → insert O k value m ≡ (k, value) ∷ m
  insert-below k value [] h = refl
  insert-below k value (e ∷ m) h = rw h.0 refl

  insert-here :
      (k : K) (value : W) (e : K × W) (m : BTreeMap K W)
      → e.0 ≡ k
      → insert O k value (e ∷ m) ≡ (k, value) ∷ m
  insert-here k value e m q = rw q (rw (ord.irreflexive k) (rw (same_refl O ord k) refl))

module _ {K V W : Type 0} (O : Ord K) (ord : IsOrd O) where
  -- A key below all of a map's does not matter to what is retained of it.
  retain-narrow :
      (entry : K × V) (u : BTreeMap K V) (m : BTreeMap K W)
      → Above O entry.0 m
      → retain O (λ k. contains_key O k (entry ∷ u)) m ≡ retain O (λ k. contains_key O k u) m
  retain-narrow entry u [] h = refl
  retain-narrow entry u (e ∷ m) h =
      rw (same_sym O ord entry.0 e.0 (less-same O ord entry.0 e.0 h.0))
        (rw (retain-narrow entry u m h.1) refl)

  pub retain-Within :
      (m : BTreeMap K W) (u : BTreeMap K V)
      → IsSorted O m
      → IsSorted O u
      → Within (retain O (λ k. contains_key O k u) m) u
  retain-Within [] [] h k = nil
  retain-Within [] (entry ∷ u) h k = skip (retain-Within [] u h k.1)
  retain-Within (e ∷ m) [] h k = retain-Within m [] h.1 k
  retain-Within (e ∷ m) (entry ∷ u) h k = elim (Bool-cases (O.same e.0 entry.0)) [
    | inl q ↦ rw q (
        rw (retain-narrow entry u m (subst (λ x. Above O x m) ((ord.same_iff e.0 entry.0).0 q) h.0))
          (keep ((ord.same_iff e.0 entry.0).0 q) (retain-Within m u h.1 k.1)))
    | inr q ↦ elim (Bool-cases (O.less e.0 entry.0)) [
      | inl r ↦ rw q (
          rw (get-Above O ord e.0 u (Above-trans O ord e.0 entry.0 u r k.0))
            (retain-Within m (entry ∷ u) h.1 k))
      | inr r ↦
          let above = ord.total e.0 entry.0 r q in
          subst (λ x. Within x (entry ∷ u))
            (sym (retain-narrow entry u (e ∷ m) (above, Above-trans O ord entry.0 e.0 m above h.0)))
            (skip (retain-Within (e ∷ m) u h k.1))
    ]
  ]

  -- The loop that inserts the entries one after the other, each with a value made of it.
  abbrev pub insert_all : (K × V → W) → BTreeMap K V → BTreeMap K W → BTreeMap K W
  insert_all f [] m = m
  insert_all f (entry ∷ u) m = insert_all f u (insert O entry.0 (f entry) m)

  insert_all-past :
      (f : K × V → W) (u : BTreeMap K V) (e : K × W) (m : BTreeMap K W)
      → Above O e.0 u
      → insert_all f u (e ∷ m) ≡ e ∷ insert_all f u m
  insert_all-past f [] e m h = refl
  insert_all-past f (entry ∷ u) e m h = rw (less_asym O ord e.0 entry.0 h.0) (
      rw (same_sym O ord e.0 entry.0 (less-same O ord e.0 entry.0 h.0))
        (insert_all-past f u e (insert O entry.0 (f entry) m) h.1))

  Within-Above :
      (k : K) (m : BTreeMap K W) (u : BTreeMap K V) → Within m u → Above O k u → Above O k m
  Within-Above k [] u w h = tt
  Within-Above k (e ∷ m) [] w h = elim w [ ]
  Within-Above k m (entry ∷ u) (skip w) h = Within-Above k m u w h.1
  Within-Above k (e ∷ m) (entry ∷ u) (keep q w) h =
      (subst (λ x. O.less k x ≡ true) (sym q) h.0, Within-Above k m u w h.1)

  pub insert_all-Within :
      (f : K × V → W) (m : BTreeMap K W) (u : BTreeMap K V)
      → IsSorted O u
      → Within m u
      → insert_all f u m ≡ map (λ entry. (entry.0, f entry)) u
  insert_all-Within f [] [] h nil = refl
  insert_all-Within f (e ∷ m) [] h w = elim w [ ]
  insert_all-Within f m (entry ∷ u) h (skip w) =
      ap (insert_all f u) (insert-below O ord entry.0 (f entry) m (Within-Above entry.0 m u w h.0))
      ∙ insert_all-past f u (entry.0, f entry) m h.0
      ∙ ap (λ x. (entry.0, f entry) ∷ x) (insert_all-Within f m u h.1 w)
  insert_all-Within f (e ∷ m) (entry ∷ u) h (keep q w) =
      ap (insert_all f u) (insert-here O ord entry.0 (f entry) e m q)
      ∙ insert_all-past f u (entry.0, f entry) m h.0
      ∙ ap (λ x. (entry.0, f entry) ∷ x) (insert_all-Within f m u h.1 w)
