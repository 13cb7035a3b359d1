-- ===== src/Poll/Delay/Stops.antt =====
-- When the waits and the reads of a polling workflow stop it (src/poll.rs): what they fail with, when
-- they end, and that they do end.
use smspool_sdk.Prelude.{
  ℕ, ◌+◌, ◌≤◌, ◌<◌, ◌≡◌, refl, ◌⊎◌, inl, inr, Bool, true, false, Option, none, some, arith, leb,
  min, max, Bool-cases, unwrap_or, if◌then◌else◌,
}
use smspool_sdk.Transport.Io.{Op, Outcome, done, failed}
use smspool_sdk.Transport.Rules.{Ends, EndsBy}
use smspool_sdk.Transport.Timed.{FailsAt}
use smspool_sdk.Poll.Delay.{
  PollOptions, is_cancelled, stop_conditions, sleep_until_or_stop, sleep_or_stop, ask_or_stop,
}

-- The token is cancelled by `now`.
abbrev pub WasCancelled : Option ℕ → (now : ℕ) → Type 0
WasCancelled none now = ⊥
WasCancelled (some at) now = at ≤ now

module _ {X F : Type 0} (cancelled deadline : X) (options : PollOptions F) where
  -- The failure names the condition that holds at its time.
  abbrev pub IsStop : (now : ℕ) → X → Type 0
  IsStop now x =
      ((x ≡ cancelled) × WasCancelled options.cancelled_at now)
      ⊎ ((x ≡ deadline) × (options.deadline ≤ now))

  cancelled_WasCancelled :
      (at : Option ℕ) (t now : ℕ) → is_cancelled at t ≡ true → t ≤ now → WasCancelled at now
  cancelled_WasCancelled none t now q h = cc
  cancelled_WasCancelled (some at) t now q h = ground arith

  later_WasCancelled :
      (at : Option ℕ) (t now : ℕ)
      → is_cancelled at t ≡ true
      → WasCancelled at (max now (unwrap_or at 0))
  later_WasCancelled none t now q = cc
  later_WasCancelled (some at) t now q = omega arith

  pub stop_conditions-IsStop : FailsAt IsStop (stop_conditions cancelled deadline options)
  stop_conditions-IsStop now x q = elim (Bool-cases (is_cancelled options.cancelled_at now)) [
    | inl h ↦
        inl (ground arith, ground (arith, cancelled_WasCancelled options.cancelled_at now now h))
    | inr h ↦ inr (ground arith, ground arith)
  ]

  -- The three arms of a race.
  abbrev race : {A : Type 0} → (token timer : Bool) → (cut stop finish : ℕ) → A → Outcome X A
  race token timer cut stop finish a =
      if token
      then record { exit = failed cancelled; now = cut; sent = 0 }
      else if timer
      then record { exit = failed deadline; now = stop; sent = 0 }
      else record { exit = done a; now = finish; sent = 0 }

  race-IsStop :
      {A : Type 0} (token timer : Bool) (cut stop finish : ℕ) (a : A) (x : X)
      → (token ≡ true → WasCancelled options.cancelled_at cut)
      → options.deadline ≤ stop
      → (race token timer cut stop finish a).exit ≡ failed x
      → IsStop (race token timer cut stop finish a).now x
  race-IsStop true timer cut stop finish a x h k q = inl (ground arith, h refl)
  race-IsStop false true cut stop finish a x h k q = inr (ground arith, k)
  race-IsStop false false cut stop finish a x h k q = cc

  pub sleep_until_or_stop-IsStop :
      (at : ℕ) → FailsAt IsStop (sleep_until_or_stop cancelled deadline options at)
  sleep_until_or_stop-IsStop at now x =
      let wake_at = max now (min at options.deadline) in
      race-IsStop (is_cancelled options.cancelled_at wake_at) (leb options.deadline wake_at)
        (max now (unwrap_or options.cancelled_at 0)) (max now options.deadline) wake_at tt x
        (later_WasCancelled options.cancelled_at wake_at now) (omega arith)

  pub sleep_or_stop-IsStop :
      (delay : ℕ) → FailsAt IsStop (sleep_or_stop cancelled deadline options delay)
  sleep_or_stop-IsStop delay now =
      sleep_until_or_stop-IsStop (min (now + delay) options.deadline) now

  pub ask_or_stop-IsStop :
      {A : Type 0} (op : Op A) → FailsAt IsStop (ask_or_stop cancelled deadline options op)
  ask_or_stop-IsStop op now x =
      let finish = now + op.takes in
      let stop = max now options.deadline in
      race-IsStop (is_cancelled options.cancelled_at (min finish stop)) (leb stop finish)
        (max now (unwrap_or options.cancelled_at 0)) stop finish op.answer x
        (later_WasCancelled options.cancelled_at (min finish stop) now) (omega arith)

  pub stop_conditions-Ends : Ends (stop_conditions cancelled deadline options)
  stop_conditions-Ends now = (λ q. ground arith, λ q. ground arith)

  pub sleep_until_or_stop-Ends : (at : ℕ) → Ends (sleep_until_or_stop cancelled deadline options at)
  sleep_until_or_stop-Ends at now = (λ q. ground arith, λ q. ground arith)

  pub sleep_or_stop-Ends : (delay : ℕ) → Ends (sleep_or_stop cancelled deadline options delay)
  sleep_or_stop-Ends delay now = (λ q. ground arith, λ q. ground arith)

  pub ask_or_stop-Ends : {A : Type 0} (op : Op A) → Ends (ask_or_stop cancelled deadline options op)
  ask_or_stop-Ends op now = (λ q. ground arith, λ q. ground arith)

  module _ (b : ℕ) (late : options.deadline ≤ b) where
    pub stop_conditions-EndsBy : EndsBy b b (stop_conditions cancelled deadline options)
    stop_conditions-EndsBy now h = ground arith

    pub sleep_until_or_stop-EndsBy :
        (at : ℕ) → EndsBy b b (sleep_until_or_stop cancelled deadline options at)
    sleep_until_or_stop-EndsBy at now h = ground arith

    pub sleep_or_stop-EndsBy :
        (delay : ℕ) → EndsBy b b (sleep_or_stop cancelled deadline options delay)
    sleep_or_stop-EndsBy delay now h = ground arith

    pub ask_or_stop-EndsBy :
        {A : Type 0} (op : Op A) → EndsBy b b (ask_or_stop cancelled deadline options op)
    ask_or_stop-EndsBy op now h = ground arith

  -- How the clock moves.
  pub stop_conditions_time :
      (now : ℕ)
      → ((stop_conditions cancelled deadline options now).now ≡ now)
        × ((stop_conditions cancelled deadline options now).exit ≡ done tt → now < options.deadline)
  stop_conditions_time now = (ground arith, λ q. ground arith)

  pub sleep_until_or_stop_time :
      (at now : ℕ) → now ≤ (sleep_until_or_stop cancelled deadline options at now).now
  sleep_until_or_stop_time at now = ground arith

  pub sleep_or_stop_time :
      (delay now : ℕ) → now ≤ (sleep_or_stop cancelled deadline options delay now).now
  sleep_or_stop_time delay now = ground arith

  pub ask_or_stop_time :
      {A : Type 0} (op : Op A) (now : ℕ) (a : A)
      → (ask_or_stop cancelled deadline options op now).exit ≡ done a
      → (ask_or_stop cancelled deadline options op now).now ≡ now + op.takes
  ask_or_stop_time op now a q = ground arith

  -- Without a cancellation, nothing before the deadline stops a step.
  module _ (calm : options.cancelled_at ≡ none) where
    pub stop_conditions-calm :
        (now : ℕ)
        → now < options.deadline
        → (stop_conditions cancelled deadline options now).exit ≡ done tt
    stop_conditions-calm now h = ground arith

    pub sleep_or_stop-calm :
        (delay now : ℕ)
        → now + delay < options.deadline
        → ((sleep_or_stop cancelled deadline options delay now).exit ≡ done tt)
          × ((sleep_or_stop cancelled deadline options delay now).now ≤ now + delay)
    sleep_or_stop-calm delay now h = (ground arith, ground arith)

    pub ask_or_stop-calm :
        {A : Type 0} (op : Op A) (now : ℕ)
        → now + op.takes < options.deadline
        → (ask_or_stop cancelled deadline options op now).exit ≡ done op.answer
    ask_or_stop-calm op now h = ground arith
