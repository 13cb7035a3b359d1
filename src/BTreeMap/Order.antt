-- ===== src/BTreeMap/Order.antt =====
-- The order of Rust's `String`: by code points, which is the order of the UTF-8 bytes.
use Prim.Native.Nat.{Ordering, compare}
use Prim.Native.Char.{code}
use Prim.Native.String.{String}
use text.Mathlib.TextEquality.{eq_iff, codes_equal}
use smspool_sdk.Prelude.{◌≡◌, ◌≢◌, refl, Bool, true, false, same_text, arith}
use smspool_sdk.BTreeMap.{Ord, IsOrd}

abbrev is_less : Ordering → Bool
is_less Ordering.lt = true
is_less Ordering.eq = false
is_less Ordering.gt = false

then_with : Ordering → Ordering → Ordering
then_with Ordering.lt o = Ordering.lt
then_with Ordering.eq o = o
then_with Ordering.gt o = Ordering.gt

compare_text : String → String → Ordering
unfolding then_with
compare_text String.[] String.[] = Ordering.eq
compare_text String.[] (String.◌∷◌ d t) = Ordering.lt
compare_text (String.◌∷◌ c s) String.[] = Ordering.gt
compare_text (String.◌∷◌ c s) (String.◌∷◌ d t) =
    then_with (compare (code c) (code d)) (compare_text s t)

unfoldable pub text_order : Ord String
unfolding compare_text
text_order = record { less = λ s t. is_less (compare_text s t); same = same_text }

irreflexive : (s : String) → is_less (compare_text s s) ≡ false
unfolding compare_text then_with
irreflexive String.[] = refl
irreflexive (String.◌∷◌ c s) = ground (arith, irreflexive s)

transitive :
    (s t u : String)
    → is_less (compare_text s t) ≡ true
    → is_less (compare_text t u) ≡ true
    → is_less (compare_text s u) ≡ true
unfolding compare_text then_with
transitive String.[] String.[] u h k = k
transitive String.[] (String.◌∷◌ d t) String.[] h k = cc
transitive String.[] (String.◌∷◌ d t) (String.◌∷◌ e u) h k = refl
transitive (String.◌∷◌ c s) String.[] u h k = cc
transitive (String.◌∷◌ c s) (String.◌∷◌ d t) String.[] h k = cc
transitive (String.◌∷◌ c s) (String.◌∷◌ d t) (String.◌∷◌ e u) h k = ground (arith, transitive s t u)

flip : Ordering → Ordering
flip Ordering.lt = Ordering.gt
flip Ordering.eq = Ordering.eq
flip Ordering.gt = Ordering.lt

compare_text-flip : (s t : String) → compare_text t s ≡ flip (compare_text s t)
unfolding compare_text flip then_with
compare_text-flip String.[] String.[] = refl
compare_text-flip String.[] (String.◌∷◌ d t) = refl
compare_text-flip (String.◌∷◌ c s) String.[] = refl
compare_text-flip (String.◌∷◌ c s) (String.◌∷◌ d t) = ground (arith, compare_text-flip s t)

flip_less : (o : Ordering) → is_less o ≡ false → o ≢ Ordering.eq → is_less (flip o) ≡ true
unfolding flip
flip_less Ordering.lt h k = cc
flip_less Ordering.eq h k = absurd (k refl)
flip_less Ordering.gt h k = refl

then_with-eq :
    (o r : Ordering) → then_with o r ≡ Ordering.eq → (o ≡ Ordering.eq) × (r ≡ Ordering.eq)
unfolding then_with
then_with-eq Ordering.lt r h = cc
then_with-eq Ordering.eq r h = (refl, h)
then_with-eq Ordering.gt r h = cc

compare_text-eq : (s t : String) → compare_text s t ≡ Ordering.eq → s ≡ t
unfolding compare_text
compare_text-eq String.[] String.[] h = refl
compare_text-eq String.[] (String.◌∷◌ d t) h = cc
compare_text-eq (String.◌∷◌ c s) String.[] h = cc
compare_text-eq (String.◌∷◌ c s) (String.◌∷◌ d t) h =
    let both = then_with-eq (compare (code c) (code d)) (compare_text s t) h in
    rw (codes_equal c d both.0) (rw (compare_text-eq s t both.1) refl)

total :
    (s t : String)
    → is_less (compare_text s t) ≡ false
    → same_text s t ≡ false
    → is_less (compare_text t s) ≡ true
total s t h k =
    rw (compare_text-flip s t)
      (flip_less (compare_text s t) h (λ q. cc (k, (eq_iff s t).1 (compare_text-eq s t q))))

pub text-IsOrd : IsOrd text_order
unfolding text_order
text-IsOrd = record {
  same_iff = eq_iff;
  irreflexive = irreflexive;
  transitive = transitive;
  total = total;
}
