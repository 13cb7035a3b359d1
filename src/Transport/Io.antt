-- ===== src/Transport/Io.antt =====
-- How asynchronous code runs: from the reading of the monotonic clock at its start to an exit, the
-- clock at the end, and the number of requests handed to the HTTP client. `X` is the failure that the
-- code under study returns early with. `out_of_fuel` marks a loop of the model that was cut off.
use smspool_sdk.Prelude.{
  ℕ, ◌+◌, Bool, true, false, ◌||◌, Option, none, some, Result, ok, err, leb, ◌==◌, if◌then◌else◌,
  max,
}

pub data Exit (X A : Type 0) : Type 0 where
  done : A → Exit X A
  failed : X → Exit X A
  panicked : Exit X A
  out_of_fuel : Exit X A

pub record Outcome (X A : Type 0) : Type 0 where
  pub exit : Exit X A
  pub now : ℕ
  pub sent : ℕ

abbrev pub Io : Type 0 → Type 0 → Type 0
Io X A = ℕ → Outcome X A

-- What the outside does when it is asked: how long it takes, and its answer.
pub record Op (A : Type 0) : Type 0 where
  pub takes : ℕ
  pub answer : A

module _ {X A : Type 0} where
  abbrev pub at_exit : Exit X A → Io X A
  at_exit x now = record { exit = x; now = now; sent = 0 }

  abbrev pub return : A → Io X A
  return a = at_exit (done a)

  abbrev pub fail : X → Io X A
  fail x = at_exit (failed x)

  abbrev pub lift : Result A X → Io X A
  lift (ok a) = return a
  lift (err x) = fail x

  -- A value, or the panic of the code that computes it.
  abbrev pub or_panic : Option A → Io X A
  or_panic none = at_exit panicked
  or_panic (some a) = return a

  -- `tokio::time::timeout(limit, op)`, which looks at the operation before the clock.
  abbrev pub await_within : (limit : ℕ) → Op A → X → Io X A
  await_within limit op x now =
      if leb op.takes limit
      then record { exit = done op.answer; now = now + op.takes; sent = 0 }
      else record { exit = failed x; now = now + limit; sent = 0 }

  -- `tokio::time::timeout_at(deadline, op)`: an operation that is ready at once is answered even
  -- past the deadline.
  abbrev pub await_until : (deadline : ℕ) → Op A → X → Io X A
  await_until deadline op x now =
      if op.takes == 0 || leb (now + op.takes) deadline
      then record { exit = done op.answer; now = now + op.takes; sent = 0 }
      else record { exit = failed x; now = max now deadline; sent = 0 }

  -- The outcome of a later part, with `n` requests sent before it.
  abbrev pub having_sent : ℕ → Outcome X A → Outcome X A
  having_sent n o = record { exit = o.exit; now = o.now; sent = n + o.sent }

module _ {X A B : Type 0} where
  abbrev pub follow : Exit X A → (now sent : ℕ) → (A → Io X B) → Outcome X B
  follow (done a) now sent f = having_sent sent (f a now)
  follow (failed x) now sent f = record { exit = failed x; now = now; sent = sent }
  follow panicked now sent f = record { exit = panicked; now = now; sent = sent }
  follow out_of_fuel now sent f = record { exit = out_of_fuel; now = now; sent = sent }

  infixl 5 ◌>>=◌
  abbrev pub ◌>>=◌ : Io X A → (A → Io X B) → Io X B
  ◌>>=◌ m f now = let o = m now in follow o.exit o.now o.sent f

infixl 5 ◌>>◌
abbrev pub ◌>>◌ : {X B : Type 0} → Io X (Unit {0}) → Io X B → Io X B
m >> k = m >>= λ _. k

-- `match m { Ok(a) => Ok(a), Err(x) => handler(x) }`.
module _ {X Y A : Type 0} where
  abbrev pub handle : Exit X A → (now sent : ℕ) → (X → Io Y A) → Outcome Y A
  handle (done a) now sent f = record { exit = done a; now = now; sent = sent }
  handle (failed x) now sent f = having_sent sent (f x now)
  handle panicked now sent f = record { exit = panicked; now = now; sent = sent }
  handle out_of_fuel now sent f = record { exit = out_of_fuel; now = now; sent = sent }

  abbrev pub rescue : Io X A → (X → Io Y A) → Io Y A
  rescue m f now = let o = m now in handle o.exit o.now o.sent f

-- `if test { return Err(x); }`.
abbrev pub leave_if : {X : Type 0} → Bool → X → Io X (Unit {0})
leave_if true x = fail x
leave_if false x = return tt

-- `Instant::now()`.
abbrev pub get_now : {X : Type 0} → Io X ℕ
get_now now = return now now

-- `tokio::time::sleep(delay)`.
abbrev pub sleep : {X : Type 0} → ℕ → Io X (Unit {0})
sleep delay now = record { exit = done tt; now = now + delay; sent = 0 }

-- One request is handed to the HTTP client.
abbrev pub hand_over : {X : Type 0} → Io X (Unit {0})
hand_over now = record { exit = done tt; now = now; sent = 1 }
