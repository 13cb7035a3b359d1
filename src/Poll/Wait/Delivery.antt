-- ===== src/Poll/Wait/Delivery.antt =====
-- A terminal snapshot that comes in time is delivered (src/poll.rs).
use smspool_sdk.Prelude.{
  ℕ, zero, suc, ◌+◌, ◌*◌, ◌-◌, ◌≤◌, ◌<◌, ◌≡◌, refl, sym, subst, true, Option, none, some, ok, arith,
}
use smspool_sdk.Float.{Floats}
use smspool_sdk.Transport.Io.{Io, done, ◌>>=◌}
use smspool_sdk.Transport.Timed.{bind-done}
use smspool_sdk.Api.Sms.Check.{is_terminal}
use smspool_sdk.Poll.Orders.{SmsCheck, pending, received, terminated}
use smspool_sdk.Poll.Delay.{
  PollOptions, advance_interval, polling_delay, stop_conditions, sleep_or_stop, ask_or_stop,
}
use smspool_sdk.Poll.Delay.Laws.{polling_delay-IsPaced}
use smspool_sdk.Poll.Delay.Stops.{
  stop_conditions-calm, sleep_or_stop-calm, ask_or_stop-calm, stop_conditions_time,
  ask_or_stop_time,
}
use smspool_sdk.Poll.Wait.{
  PollError, deadline, cancelled, Checks, after_check, after_round, wait_loop, wait_for_sms,
}

module _ {P S T V : Type 0} (provider : Checks P S T V) where
  -- The check `n` is the first to answer a terminal snapshot, the ones before it are pending.
  pub record DeliversAt (n : ℕ) (snapshot : SmsCheck P S T) : Type 0 where
    pub waits : (k : ℕ) → k < n → (p : P) × ((provider.check k).answer ≡ ok (pending p))
    pub answers : (provider.check n).answer ≡ ok snapshot
    pub is_last : is_terminal snapshot ≡ true

  -- Each check takes some time, and at most `c`.
  abbrev pub TakesAtMost : ℕ → Type 0
  TakesAtMost c = (k : ℕ) → (0 < (provider.check k).takes) × ((provider.check k).takes ≤ c)

module _ (R : Floats) {P S T V : Type 0} (options : PollOptions (R.F)) (provider : Checks P S T V)
    (n c : ℕ) (snapshot : SmsCheck P S T) (calm : options.cancelled_at ≡ none)
    (time : TakesAtMost provider c) (delivery : DeliversAt provider n snapshot) where
  -- The time that one round may need.
  abbrev round_time : ℕ
  round_time = c + options.max_interval

  after_check-terminal :
      (last : Option (SmsCheck P S T))
      (again : Option (SmsCheck P S T) → Option ℕ → Io (PollError P S T V) (SmsCheck P S T))
      (s : SmsCheck P S T) (now : ℕ)
      → is_terminal s ≡ true
      → (after_check last again (ok s) now).exit ≡ done s
  unfolding after_check is_terminal
  after_check-terminal last again (pending p) now h = cc
  after_check-terminal last again (received s) now h = refl
  after_check-terminal last again (terminated t) now h = refl

  after_round-done :
      (round interval now spare : ℕ)
      (rest : Option (SmsCheck P S T) → Io (PollError P S T V) (SmsCheck P S T))
      (last : Option (SmsCheck P S T))
      → now + options.max_interval + spare < options.deadline
      → ((later : ℕ) → later + spare < options.deadline → (rest last later).exit ≡ done snapshot)
      → (after_round R options provider round interval rest last none now).exit ≡ done snapshot
  unfolding after_round
  after_round-done round interval now spare rest last h k =
      let delay = polling_delay R options (provider.draw round) interval none in
      let wait : Io (PollError P S T V) (Unit {0}) =
        sleep_or_stop (cancelled last) (deadline last) options delay in
      let paced = polling_delay-IsPaced R options (provider.draw round) interval none in
      let woken =
        sleep_or_stop-calm (cancelled last) (deadline last) options calm delay now
          (omega (arith, h, paced)) in
      bind-done wait (λ _. rest last) now tt snapshot woken.0
        (k (wait now).now (omega (arith, h, paced, woken.1)))

  one_more : (togo : ℕ) → suc togo * round_time ≡ round_time + togo * round_time
  one_more togo = grind arith

  at_least : (togo : ℕ) → togo ≤ togo * round_time
  at_least zero = omega arith
  at_least (suc togo) = omega (arith, one_more togo, at_least togo, time 0)

  enough :
      (togo now : ℕ)
      → now + suc togo * round_time < options.deadline
      → togo < suc (options.deadline - now)
  enough togo now h = omega (arith, h, time 0, at_least togo)

  -- The match on the answer of a round, with `togo` rounds to follow.
  after_check-done :
      (togo round interval now : ℕ)
      (rest : Option (SmsCheck P S T) → Io (PollError P S T V) (SmsCheck P S T))
      (last : Option (SmsCheck P S T))
      → round + togo ≡ n
      → now + options.max_interval + togo * round_time < options.deadline
      → ((before : ℕ) (last' : Option (SmsCheck P S T)) (later : ℕ)
          → togo ≡ suc before
          → later + togo * round_time < options.deadline
          → (rest last' later).exit ≡ done snapshot)
      → (after_check last
          (after_round R options provider round interval rest)
          (provider.check round).answer
          now).exit
        ≡ done snapshot
  unfolding after_check
  after_check-done zero round interval now rest last q h k =
      let again = after_round R options provider round interval rest in
      let here : round ≡ n = omega (arith, q) in
      let said = subst (λ r. (provider.check r).answer ≡ ok snapshot) (sym here) delivery.answers in
      subst (λ x. (after_check last again x now).exit ≡ done snapshot) (sym said)
        (after_check-terminal last again snapshot now delivery.is_last)
  after_check-done (suc togo) round interval now rest last q h k =
      let again = after_round R options provider round interval rest in
      let said = delivery.waits round (omega (arith, q)) in
      subst (λ x. (after_check last again x now).exit ≡ done snapshot) (sym said.1)
        (after_round-done round interval now (suc togo * round_time) rest (some (pending said.0)) h
          (λ later less. k togo (some (pending said.0)) later refl less))

  wait_loop-done :
      (togo left round interval now : ℕ) (last : Option (SmsCheck P S T))
      → round + togo ≡ n
      → togo < left
      → now + suc togo * round_time < options.deadline
      → (wait_loop R options provider left round interval last now).exit ≡ done snapshot
  unfolding wait_loop
  wait_loop-done togo zero round interval now last q less h = absurd (omega arith)
  wait_loop-done togo (suc left) round interval now last q less h =
      let rest =
        wait_loop R options provider left (suc round)
          (advance_interval interval options.max_interval) in
      let next = after_check last (after_round R options provider round interval rest) in
      let op = provider.check round in
      let ask = ask_or_stop (cancelled last) (deadline last) options op in
      let stop = stop_conditions (cancelled last) (deadline last) options in
      let start : (stop now).now ≡ now =
        (stop_conditions_time (cancelled last) (deadline last) options now).0 in
      let more = one_more togo in
      let asked =
        ask_or_stop-calm (cancelled last) (deadline last) options calm op (stop now).now
          (omega (arith, h, start, more, time round)) in
      let when =
        ask_or_stop_time (cancelled last) (deadline last) options op (stop now).now op.answer
          asked in
      bind-done stop (λ _. ask >>= next) now tt snapshot
        (stop_conditions-calm (cancelled last) (deadline last) options calm now
          (omega (arith, h, more, time round)))
        (bind-done ask next (stop now).now op.answer snapshot asked (
          after_check-done togo round interval (ask (stop now).now).now rest last q
            (omega (arith, h, start, more, time round, when))
            (λ before last' later r less'.
              wait_loop-done before left (suc round)
                (advance_interval interval options.max_interval) later last' (omega (arith, q, r))
                (omega (arith, less, r))
                (subst (λ m. later + m * round_time < options.deadline) r less'))))

-- A first terminal snapshot at the check `n`, after pending ones, is what the wait answers, when nobody
-- cancels and the deadline leaves room for `n + 1` checks of at most `c` and as many maximum intervals.
pub wait_for_sms-delivers :
    (R : Floats) {P S T V : Type 0} (options : PollOptions (R.F)) (provider : Checks P S T V)
    (n c now : ℕ) (snapshot : SmsCheck P S T)
    → options.cancelled_at ≡ none
    → TakesAtMost provider c
    → DeliversAt provider n snapshot
    → now + suc n * (c + options.max_interval) < options.deadline
    → (wait_for_sms R options provider now).exit ≡ done snapshot
unfolding wait_for_sms
wait_for_sms-delivers R options provider n c now snapshot calm time delivery h =
    wait_loop-done R options provider n c snapshot calm time delivery n
      (suc (options.deadline - now)) 0 options.base_interval now none (omega arith)
      (enough R options provider n c snapshot calm time delivery n now h) h
