-- ===== src/Transport/Rules.antt =====
-- Rules for asynchronous code: the requests sent, the failures, the time taken and the panics of a
-- `do` block from those of its steps.
use smspool_sdk.Prelude.{ℕ, ◌+◌, ◌≤◌, ◌≡◌, refl, ◌≢◌, arith}
use smspool_sdk.Transport.Io.{Exit, Outcome, Io, done, failed, panicked, out_of_fuel, ◌>>=◌, follow}

module _ {X A : Type 0} where
  -- At most `n` requests are sent.
  abbrev pub SendsAtMost : ℕ → Io X A → Type 0
  SendsAtMost n m = (now : ℕ) → (m now).sent ≤ n

  -- Every failure, with the number of requests sent before it, meets `P`.
  abbrev pub Fails : (ℕ → X → Type 0) → Io X A → Type 0
  Fails P m = (now : ℕ) (x : X) → (m now).exit ≡ failed x → P (m now).sent x

  -- A successful run sends exactly `n` requests.
  abbrev pub Sends : ℕ → Io X A → Type 0
  Sends n m = (now : ℕ) (a : A) → (m now).exit ≡ done a → (m now).sent ≡ n

  -- The run lasts at most `d` nanoseconds.
  abbrev pub Lasts : ℕ → Io X A → Type 0
  Lasts d m = (now : ℕ) → (m now).now ≤ now + d

  -- Started by `b`, the run is over by `d`.
  abbrev pub EndsBy : ℕ → ℕ → Io X A → Type 0
  EndsBy b d m = (now : ℕ) → now ≤ b → (m now).now ≤ d

  -- The run ends in a value or a failure.
  abbrev pub IsSettled : Outcome X A → Type 0
  IsSettled o = (o.exit ≢ panicked) × (o.exit ≢ out_of_fuel)

  abbrev pub Ends : Io X A → Type 0
  Ends m = (now : ℕ) → IsSettled (m now)

module _ {X A B : Type 0} where
  follow-SendsAtMost :
      (x : Exit X A) (now s : ℕ) (f : A → Io X B) (i j : ℕ)
      → s ≤ i
      → ((a : A) → x ≡ done a → SendsAtMost j (f a))
      → (follow x now s f).sent ≤ i + j
  follow-SendsAtMost (done a) now s f i j h k = omega (arith, k a refl now)
  follow-SendsAtMost (failed x) now s f i j h k = omega arith
  follow-SendsAtMost panicked now s f i j h k = omega arith
  follow-SendsAtMost out_of_fuel now s f i j h k = omega arith

  follow-Fails :
      (P : ℕ → X → Type 0) (e : Exit X A) (now s n : ℕ) (f : A → Io X B)
      → ((x : X) → e ≡ failed x → P s x)
      → ((a : A) → e ≡ done a → s ≡ n)
      → ((a : A) → Fails (λ k x. P (n + k) x) (f a))
      → (x : X) → (follow e now s f).exit ≡ failed x
      → P (follow e now s f).sent x
  follow-Fails P (done a) now s n f h k l x e = rw (k a refl) (l a now x e)
  follow-Fails P (failed y) now s n f h k l x e = h x (cc)
  follow-Fails P panicked now s n f h k l x e = cc
  follow-Fails P out_of_fuel now s n f h k l x e = cc

  follow-Errs :
      (P : X → Type 0) (e : Exit X A) (now s : ℕ) (f : A → Io X B)
      → ((x : X) → e ≡ failed x → P x)
      → ((a : A) → Fails (λ _. P) (f a))
      → (x : X) → (follow e now s f).exit ≡ failed x
      → P x
  follow-Errs P (done a) now s f h k x q = k a now x q
  follow-Errs P (failed y) now s f h k x q = h x (cc)
  follow-Errs P panicked now s f h k x q = cc
  follow-Errs P out_of_fuel now s f h k x q = cc

  follow-Sends :
      (e : Exit X A) (now s n k : ℕ) (f : A → Io X B)
      → ((a : A) → e ≡ done a → s ≡ n)
      → ((a : A) → Sends k (f a))
      → (b : B) → (follow e now s f).exit ≡ done b
      → (follow e now s f).sent ≡ n + k
  follow-Sends (done a) now s n k f h l b e = omega (arith, h a refl, l a now b e)
  follow-Sends (failed y) now s n k f h l b e = cc
  follow-Sends panicked now s n k f h l b e = cc
  follow-Sends out_of_fuel now s n k f h l b e = cc

  follow-Lasts :
      (e : Exit X A) (start now s i j : ℕ) (f : A → Io X B)
      → now ≤ start + i
      → ((a : A) → Lasts j (f a))
      → (follow e now s f).now ≤ start + (i + j)
  follow-Lasts (done a) start now s i j f h k = omega (arith, k a now)
  follow-Lasts (failed y) start now s i j f h k = omega arith
  follow-Lasts panicked start now s i j f h k = omega arith
  follow-Lasts out_of_fuel start now s i j f h k = omega arith

  follow-EndsBy :
      (e : Exit X A) (now s c d : ℕ) (f : A → Io X B)
      → now ≤ c
      → c ≤ d
      → ((a : A) → EndsBy c d (f a))
      → (follow e now s f).now ≤ d
  follow-EndsBy (done a) now s c d f h le k = k a now h
  follow-EndsBy (failed y) now s c d f h le k = omega arith
  follow-EndsBy panicked now s c d f h le k = omega arith
  follow-EndsBy out_of_fuel now s c d f h le k = omega arith

  pub follow-IsSettled :
      (e : Exit X A) (now s : ℕ) (f : A → Io X B)
      → (e ≢ panicked) × (e ≢ out_of_fuel)
      → ((a : A) → e ≡ done a → IsSettled (f a now))
      → IsSettled (follow e now s f)
  follow-IsSettled (done a) now s f h k = k a refl
  follow-IsSettled (failed y) now s f h k = (λ e. cc, λ e. cc)
  follow-IsSettled panicked now s f h k = absurd (h.0 refl)
  follow-IsSettled out_of_fuel now s f h k = absurd (h.1 refl)

module _ {X A B : Type 0} (m : Io X A) (f : A → Io X B) where
  pub bind-SendsAtMost :
      (i j : ℕ) → SendsAtMost i m → ((a : A) → SendsAtMost j (f a)) → SendsAtMost (i + j) (m >>= f)
  bind-SendsAtMost i j h k now =
      follow-SendsAtMost (m now).exit (m now).now (m now).sent f i j (h now) (λ a _. k a)

  -- After a part that sends nothing.
  pub quiet-SendsAtMost :
      (n : ℕ) → SendsAtMost 0 m → ((a : A) → SendsAtMost n (f a)) → SendsAtMost n (m >>= f)
  quiet-SendsAtMost n h k now = omega (arith, bind-SendsAtMost 0 n h k now)

  pub bind-Fails :
      (P : ℕ → X → Type 0) (n : ℕ)
      → Fails P m
      → Sends n m
      → ((a : A) → Fails (λ k x. P (n + k) x) (f a))
      → Fails P (m >>= f)
  bind-Fails P n h k l now =
      follow-Fails P (m now).exit (m now).now (m now).sent n f (h now) (k now) l

  -- The same where the count does not matter.
  pub bind-Errs :
      (P : X → Type 0)
      → Fails (λ _. P) m
      → ((a : A) → Fails (λ _. P) (f a))
      → Fails (λ _. P) (m >>= f)
  bind-Errs P h k now = follow-Errs P (m now).exit (m now).now (m now).sent f (h now) k

  pub bind-Sends : (n k : ℕ) → Sends n m → ((a : A) → Sends k (f a)) → Sends (n + k) (m >>= f)
  bind-Sends n k h l now = follow-Sends (m now).exit (m now).now (m now).sent n k f (h now) l

  pub bind-Lasts : (i j : ℕ) → Lasts i m → ((a : A) → Lasts j (f a)) → Lasts (i + j) (m >>= f)
  bind-Lasts i j h k now = follow-Lasts (m now).exit now (m now).now (m now).sent i j f (h now) k

  pub bind-EndsBy :
      (b c d : ℕ) → c ≤ d → EndsBy b c m → ((a : A) → EndsBy c d (f a)) → EndsBy b d (m >>= f)
  bind-EndsBy b c d le h k now start =
      follow-EndsBy (m now).exit (m now).now (m now).sent c d f (h now start) le k

  pub bind-Ends : Ends m → ((a : A) → Ends (f a)) → Ends (m >>= f)
  bind-Ends h k now =
      follow-IsSettled (m now).exit (m now).now (m now).sent f (h now) (λ a e. k a (m now).now)

-- What a successful run answers.
module _ {X A : Type 0} where
  abbrev pub Yields : (A → Type 0) → Io X A → Type 0
  Yields P m = (now : ℕ) (a : A) → (m now).exit ≡ done a → P a

module _ {X A B : Type 0} where
  follow-Yields :
      (Q : B → Type 0) (e : Exit X A) (now s : ℕ) (f : A → Io X B)
      → ((a : A) → e ≡ done a → Yields Q (f a))
      → (b : B) → (follow e now s f).exit ≡ done b
      → Q b
  follow-Yields Q (done a) now s f h b q = h a refl now b q
  follow-Yields Q (failed x) now s f h b q = cc
  follow-Yields Q panicked now s f h b q = cc
  follow-Yields Q out_of_fuel now s f h b q = cc

  pub bind-Yields :
      (m : Io X A) (f : A → Io X B) (P : A → Type 0) (Q : B → Type 0)
      → Yields P m
      → ((a : A) → P a → Yields Q (f a))
      → Yields Q (m >>= f)
  bind-Yields m f P Q h k now =
      follow-Yields Q (m now).exit (m now).now (m now).sent f (λ a q. k a (h now a q))

  pub then-Yields :
      (m : Io X A) (f : A → Io X B) (Q : B → Type 0)
      → ((a : A) → Yields Q (f a))
      → Yields Q (m >>= f)
  then-Yields m f Q k = bind-Yields m f (λ _. Unit) Q (λ now a q. tt) (λ a _. k a)

  pub quiet-SendsAtMost-Yields :
      (m : Io X A) (f : A → Io X B) (P : A → Type 0) (n : ℕ)
      → SendsAtMost 0 m
      → Yields P m
      → ((a : A) → P a → SendsAtMost n (f a))
      → SendsAtMost n (m >>= f)
  quiet-SendsAtMost-Yields m f P n h y k now = omega (
    arith,
    follow-SendsAtMost (m now).exit (m now).now (m now).sent f 0 n (h now) (λ a q. k a (y now a q)),
  )

  pub bind-Ends-Yields :
      (m : Io X A) (f : A → Io X B) (P : A → Type 0)
      → Ends m
      → Yields P m
      → ((a : A) → P a → Ends (f a))
      → Ends (m >>= f)
  bind-Ends-Yields m f P h y k now =
      follow-IsSettled (m now).exit (m now).now (m now).sent f (h now)
        (λ a q. k a (y now a q) (m now).now)
