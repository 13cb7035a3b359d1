-- ===== src/Transport/Timed.antt =====
-- More rules for asynchronous code: failures at their time, and runs that are done.
use smspool_sdk.Prelude.{ℕ, ◌≤◌, ◌≡◌, refl, ap, subst, ◌∙◌, arith}
use smspool_sdk.Transport.Io.{
  Exit, Io, done, failed, panicked, out_of_fuel, return, fail, ◌>>=◌, follow,
}
use smspool_sdk.Transport.Rules.{Yields, EndsBy, IsSettled, follow-IsSettled}

-- Every failure, with the time at which the run ends, meets `P`.
abbrev pub FailsAt : {X A : Type 0} → (ℕ → X → Type 0) → Io X A → Type 0
FailsAt {X} P m = (now : ℕ) (x : X) → (m now).exit ≡ failed x → P (m now).now x

module _ {X A B : Type 0} where
  follow-FailsAt :
      (P : ℕ → X → Type 0) (e : Exit X A) (now s : ℕ) (f : A → Io X B)
      → ((x : X) → e ≡ failed x → P now x)
      → ((a : A) → e ≡ done a → FailsAt P (f a))
      → (x : X) → (follow e now s f).exit ≡ failed x
      → P (follow e now s f).now x
  follow-FailsAt P (done a) now s f h k x q = k a refl now x q
  follow-FailsAt P (failed y) now s f h k x q = h x (cc)
  follow-FailsAt P panicked now s f h k x q = cc
  follow-FailsAt P out_of_fuel now s f h k x q = cc

  -- The rest may use what the first part yields.
  pub bind-FailsAt :
      (m : Io X A) (f : A → Io X B) (P : ℕ → X → Type 0) (Q : A → Type 0)
      → FailsAt P m
      → Yields Q m
      → ((a : A) → Q a → FailsAt P (f a))
      → FailsAt P (m >>= f)
  bind-FailsAt m f P Q h y k now =
      follow-FailsAt P (m now).exit (m now).now (m now).sent f (h now) (λ a q. k a (y now a q))

  pub then-FailsAt :
      (m : Io X A) (f : A → Io X B) (P : ℕ → X → Type 0)
      → FailsAt P m
      → ((a : A) → FailsAt P (f a))
      → FailsAt P (m >>= f)
  then-FailsAt m f P h k = bind-FailsAt m f P (λ _. Unit) h (λ now a q. tt) (λ a _. k a)

module _ {X A B : Type 0} where
  follow-done :
      (e : Exit X A) (now s : ℕ) (f : A → Io X B) (a : A) (b : B)
      → e ≡ done a
      → (f a now).exit ≡ done b
      → (follow e now s f).exit ≡ done b
  follow-done (done c) now s f a b q k = ap (λ x. (f x now).exit) (cc) ∙ k
  follow-done (failed x) now s f a b q k = cc
  follow-done panicked now s f a b q k = cc
  follow-done out_of_fuel now s f a b q k = cc

  -- A first part that is done, and the rest done after it.
  pub bind-done :
      (m : Io X A) (f : A → Io X B) (now : ℕ) (a : A) (b : B)
      → (m now).exit ≡ done a
      → (f a (m now).now).exit ≡ done b
      → ((m >>= f) now).exit ≡ done b
  bind-done m f now a b = follow-done (m now).exit (m now).now (m now).sent f a b

-- The two plain ends.
module _ {X A : Type 0} where
  failed_inj : (x y : X) → Path (Exit X A) (failed x) (failed y) → x ≡ y
  failed_inj x y h = cc

  done_inj : (a b : A) → Path (Exit X A) (done a) (done b) → a ≡ b
  done_inj a b h = cc

  pub return-Yields : (P : A → Type 0) (a : A) → P a → Yields {X = X} P (return a)
  return-Yields P a h now b q = subst P (done_inj a b q) h

  pub fail-FailsAt :
      (P : ℕ → X → Type 0) (x : X) → ((now : ℕ) → P now x) → FailsAt {A = A} P (fail x)
  fail-FailsAt P x h now y q = subst (P now) (failed_inj x y q) (h now)

module _ {X A B : Type 0} where
  follow_first :
      (e : Exit X A) (now s : ℕ) (f : A → Io X B) (b : B)
      → (follow e now s f).exit ≡ done b
      → (a : A) × (e ≡ done a)
  follow_first (done a) now s f b h = (a, refl)
  follow_first (failed x) now s f b h = cc
  follow_first panicked now s f b h = cc
  follow_first out_of_fuel now s f b h = cc

  follow_later :
      (e : Exit X A) (start now s : ℕ) (f : A → Io X B)
      → start ≤ now
      → ((a : A) → now ≤ (f a now).now)
      → start ≤ (follow e now s f).now
  follow_later (done a) start now s f h k = omega (arith, k a)
  follow_later (failed x) start now s f h k = h
  follow_later panicked start now s f h k = h
  follow_later out_of_fuel start now s f h k = h

  -- Where the whole is done, its first part was.
  pub bind_first :
      (m : Io X A) (f : A → Io X B) (now : ℕ) (b : B)
      → ((m >>= f) now).exit ≡ done b
      → (a : A) × ((m now).exit ≡ done a)
  bind_first m f now = follow_first (m now).exit (m now).now (m now).sent f

  -- The clock does not move back.
  pub bind_later :
      (m : Io X A) (f : A → Io X B) (now : ℕ)
      → now ≤ (m now).now
      → ((a : A) → (m now).now ≤ (f a (m now).now).now)
      → now ≤ ((m >>= f) now).now
  bind_later m f now = follow_later (m now).exit now (m now).now (m now).sent f

-- Started by `b`, the run ends in a value or a failure.
module _ {X A : Type 0} where
  abbrev pub EndsFrom : ℕ → Io X A → Type 0
  EndsFrom b m = (now : ℕ) → now ≤ b → IsSettled (m now)

module _ {X A B : Type 0} (m : Io X A) (f : A → Io X B) where
  pub bind-EndsFrom :
      (b c : ℕ) → EndsFrom b m → EndsBy b c m → ((a : A) → EndsFrom c (f a)) → EndsFrom b (m >>= f)
  bind-EndsFrom b c h t k now le =
      follow-IsSettled (m now).exit (m now).now (m now).sent f (h now le)
        (λ a q. k a (m now).now (t now le))
