-- ===== src/Transport/Rescue.antt =====
-- More rules for asynchronous code: those of a rescued run from its attempt and its handler, and those of
-- a check that is lifted.
use smspool_sdk.Prelude.{ℕ, ◌+◌, ◌≤◌, ◌≡◌, refl, ◌≢◌, Result, ok, err, arith}
use smspool_sdk.Transport.Io.{
  Exit, Io, done, failed, panicked, out_of_fuel, lift, ◌>>=◌, rescue, handle,
}
use smspool_sdk.Transport.Rules.{SendsAtMost, Fails, Lasts, IsSettled, Ends}

-- The rules for `rescue`, whose handler runs only on a failure.
module _ {X Y A : Type 0} where
  handle-SendsAtMost :
      (x : Exit X A) (now s : ℕ) (f : X → Io Y A) (i j : ℕ)
      → s ≤ i
      → ((y : X) → x ≡ failed y → SendsAtMost j (f y))
      → (handle x now s f).sent ≤ i + j
  handle-SendsAtMost (done a) now s f i j h k = omega arith
  handle-SendsAtMost (failed y) now s f i j h k = omega (arith, k y refl now)
  handle-SendsAtMost panicked now s f i j h k = omega arith
  handle-SendsAtMost out_of_fuel now s f i j h k = omega arith

  handle-Lasts :
      (x : Exit X A) (start now s i j : ℕ) (f : X → Io Y A)
      → now ≤ start + i
      → ((y : X) → x ≡ failed y → Lasts j (f y))
      → (handle x now s f).now ≤ start + (i + j)
  handle-Lasts (done a) start now s i j f h k = omega arith
  handle-Lasts (failed y) start now s i j f h k = omega (arith, k y refl now)
  handle-Lasts panicked start now s i j f h k = omega arith
  handle-Lasts out_of_fuel start now s i j f h k = omega arith

  handle-Errs :
      (P : Y → Type 0) (x : Exit X A) (now s : ℕ) (f : X → Io Y A)
      → ((y : X) → x ≡ failed y → Fails (λ _. P) (f y))
      → (y : Y) → (handle x now s f).exit ≡ failed y
      → P y
  handle-Errs P (done a) now s f k y e = cc
  handle-Errs P (failed z) now s f k y e = k z refl now y e
  handle-Errs P panicked now s f k y e = cc
  handle-Errs P out_of_fuel now s f k y e = cc

  handle-IsSettled :
      (x : Exit X A) (now s : ℕ) (f : X → Io Y A)
      → (x ≢ panicked) × (x ≢ out_of_fuel)
      → ((y : X) → x ≡ failed y → IsSettled (f y now))
      → IsSettled (handle x now s f)
  handle-IsSettled (done a) now s f h k = (λ e. cc, λ e. cc)
  handle-IsSettled (failed y) now s f h k = k y refl
  handle-IsSettled panicked now s f h k = absurd (h.0 refl)
  handle-IsSettled out_of_fuel now s f h k = absurd (h.1 refl)

module _ {X Y A : Type 0} (m : Io X A) (f : X → Io Y A) where
  pub rescue-SendsAtMost :
      (i j : ℕ)
      → SendsAtMost i m
      → ((x : X) → SendsAtMost j (f x))
      → SendsAtMost (i + j) (rescue m f)
  rescue-SendsAtMost i j h k now =
      handle-SendsAtMost (m now).exit (m now).now (m now).sent f i j (h now) (λ x e. k x)

  -- The handler may use that the failure is one of `m`'s.
  pub rescue-Lasts :
      (i j : ℕ)
      → Lasts i m
      → ((now : ℕ) (x : X) → (m now).exit ≡ failed x → Lasts j (f x))
      → Lasts (i + j) (rescue m f)
  rescue-Lasts i j h k now =
      handle-Lasts (m now).exit now (m now).now (m now).sent i j f (h now) (k now)

  pub rescue-Fails :
      (P : Y → Type 0)
      → ((now : ℕ) (x : X) → (m now).exit ≡ failed x → Fails (λ _. P) (f x))
      → Fails (λ _. P) (rescue m f)
  rescue-Fails P k now = handle-Errs P (m now).exit (m now).now (m now).sent f (k now)

  pub rescue-Ends :
      Ends m → ((now : ℕ) (x : X) → (m now).exit ≡ failed x → Ends (f x)) → Ends (rescue m f)
  rescue-Ends h k now =
      handle-IsSettled (m now).exit (m now).now (m now).sent f (h now)
        (λ x q. k now x q (m now).now)

  -- The same for one start.
  pub rescue-IsSettled :
      (now : ℕ)
      → IsSettled (m now)
      → ((x : X) → (m now).exit ≡ failed x → IsSettled (f x (m now).now))
      → IsSettled (rescue m f now)
  rescue-IsSettled now h k = handle-IsSettled (m now).exit (m now).now (m now).sent f h k

-- The rules at a check that is lifted, for one start.
module _ {X A B : Type 0} where
  pub check-SendsAtMost :
      (r : Result A X) (f : A → Io X B) (n now : ℕ)
      → ((a : A) → (f a now).sent ≤ n)
      → ((lift r >>= f) now).sent ≤ n
  check-SendsAtMost (ok a) f n now h = omega (arith, h a)
  check-SendsAtMost (err x) f n now h = omega arith

  pub check-Fails :
      (P : X → Type 0) (r : Result A X) (f : A → Io X B) (now : ℕ)
      → ((x : X) → r ≡ err x → P x)
      → ((a : A) (x : X) → (f a now).exit ≡ failed x → P x)
      → (x : X) → ((lift r >>= f) now).exit ≡ failed x
      → P x
  check-Fails P (ok a) f now h k x q = k a x q
  check-Fails P (err y) f now h k x q = h x (cc)

  pub check-Lasts :
      (r : Result A X) (f : A → Io X B) (d now : ℕ)
      → ((a : A) → (f a now).now ≤ now + d)
      → ((lift r >>= f) now).now ≤ now + d
  check-Lasts (ok a) f d now h = h a
  check-Lasts (err x) f d now h = omega arith

  pub check-IsSettled :
      (r : Result A X) (f : A → Io X B) (now : ℕ)
      → ((a : A) → r ≡ ok a → IsSettled (f a now))
      → IsSettled ((lift r >>= f) now)
  check-IsSettled (ok a) f now h = h a refl
  check-IsSettled (err x) f now h = (λ q. cc, λ q. cc)
