-- ===== src/Prelude/Results.antt =====
-- `Result`, with the `?` operator as bind.
use mathlib.Core.Path.{◌≡◌, refl}
use mathlib.Core.Logic.{◌⊎◌, inl, inr}
use mathlib.Core.Bool.{Bool, true, false}

pub data Result {a b} (Value : Type a) (Failure : Type b) : Type (a ⊔ b) where
  err : Failure → Result Value Failure
  ok : Value → Result Value Failure

module _ {a b c} {V : Type a} {W : Type b} {X : Type c} where
  infixl 5 ◌>>=◌
  -- `?` on the left result, with the rest of the function on the right.
  abbrev pub ◌>>=◌ : Result V X → (V → Result W X) → Result W X
  err x >>= rest = err x
  ok v >>= rest = rest v

module _ {a b c} {V : Type a} {W : Type b} {X : Type c} (rest : V → Result W X) {w : W} where
  -- What a `?` that went through has met: a value on its left, and `w` from the rest.
  pub >>=-eq-ok :
      (left : Result V X) → (left >>= rest) ≡ ok w → (v : V) × (left ≡ ok v) × (rest v ≡ ok w)
  >>=-eq-ok (err x) q = cc
  >>=-eq-ok (ok v) q = (v, refl, q)

infixl 5 ◌>>◌
abbrev pub ◌>>◌ {κ μ} : {B : Type κ} {E : Type μ} → Result (Unit {0}) E → Result B E → Result B E
m >> k = m >>= λ _. k

-- `if test { return Err(e); }`.
abbrev pub reject_if {μ} : {E : Type μ} → Bool → E → Result (Unit {0}) E
reject_if true e = err e
reject_if false e = ok tt

-- A passed guard: its test failed and the rest succeeded.
pub reject_if-eq-ok {κ μ} :
    {B : Type κ} {E : Type μ} (test : Bool) (e : E) (k : Result B E) {b : B}
    → (reject_if test e >> k) ≡ ok b
    → (test ≡ false) × (k ≡ ok b)
reject_if-eq-ok true e k h = cc
reject_if-eq-ok false e k h = (refl, h)

-- Every error of a result meets `P`.
abbrev pub Errs {ℓ κ μ} : {A : Type ℓ} {E : Type κ} → (E → Type μ) → Result A E → Type (ℓ ⊔ κ ⊔ μ)
Errs {E} P r = (e : E) → r ≡ err e → P e

-- An error behind a guard is the guard's or the rest's.
pub reject_if-eq-err {κ μ} :
    {B : Type κ} {E : Type μ} (test : Bool) (e : E) (k : Result B E) {x : E}
    → (reject_if test e >> k) ≡ err x
    → (x ≡ e) ⊎ (k ≡ err x)
reject_if-eq-err true e k q = inl (cc)
reject_if-eq-err false e k q = inr q

pub bind-Errs {ℓ κ μ ν} :
    {A : Type ℓ} {B : Type κ} {E : Type μ} (P : E → Type ν) (r : Result A E) (f : A → Result B E)
    → Errs P r
    → ((a : A) → Errs P (f a))
    → Errs P (r >>= f)
bind-Errs P (ok a) f h k x q = k a x q
bind-Errs P (err y) f h k x q = h x (cc)
