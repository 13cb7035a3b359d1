-- ===== src/Poll/Wait.antt =====
-- `wait_for_sms` and `wait_for_code_with` (src/poll.rs).
pub mod Answer
pub mod Code
pub mod Delivery
pub mod Ending
use smspool_sdk.Prelude.{
  ℕ, zero, suc, ◌+◌, ◌-◌, String, Option, none, some, Result, ok, err, or_else,
}
use smspool_sdk.Float.{Floats}
use smspool_sdk.Error.{Error, rate_limit_of}
use smspool_sdk.Transport.Io.{Io, Op, out_of_fuel, at_exit, return, fail, ◌>>=◌, ◌>>◌}
use smspool_sdk.Types.{Secret, sms_text}
use smspool_sdk.Api.Sms.Check.{ReceivedSms}
use smspool_sdk.Poll.Orders.{SmsCheck, pending, received, terminated}
use smspool_sdk.Poll.Delay.{
  PollOptions, advance_interval, polling_delay, stop_conditions, sleep_or_stop, ask_or_stop,
}

pub data PollError (P S T V : Type 0) : Type 0 where
  client : Error V → PollError P S T V
  deadline cancelled : (last_observed : Option (SmsCheck P S T)) → PollError P S T V

-- What the provider answers to each check, by its number, and the draws of the jitter.
pub record Checks (P S T V : Type 0) : Type 0 where
  pub check : ℕ → Op (Result (SmsCheck P S T) (Error V))
  pub draw : ℕ → ℕ

module _ {P S T V : Type 0} where
  -- The arms of the match on a failed check.
  after_failure :
      {X : Type 0}
      → (client_error : Io (PollError P S T V) X) → (again : Option ℕ → Io (PollError P S T V) X)
      → Option (Option ℕ)
      → Io (PollError P S T V) X
  after_failure client_error again (some retry_after) = again retry_after
  after_failure client_error again none = client_error

  -- The match on a check: the snapshot, or another round with the last pending one.
  after_check :
      (last_observed : Option (SmsCheck P S T))
      → (again : Option (SmsCheck P S T) → Option ℕ → Io (PollError P S T V) (SmsCheck P S T))
      → Result (SmsCheck P S T) (Error V)
      → Io (PollError P S T V) (SmsCheck P S T)
  unfolding after_failure
  after_check last_observed again (ok (pending p)) = again (some (pending p)) none
  after_check last_observed again (ok (received s)) = return (received s)
  after_check last_observed again (ok (terminated t)) = return (terminated t)
  after_check last_observed again (err error) =
      after_failure (fail (client error)) (again last_observed) (rate_limit_of error)

module _ {P S T V F : Type 0} (options : PollOptions F) where
  abbrev pub preflight :
      (last_observed : Option (SmsCheck P S T)) → Io (PollError P S T V) (Unit {0})
  preflight last_observed =
      stop_conditions (cancelled last_observed) (deadline last_observed) options

  abbrev pub sleep_poll_delay :
      (delay : ℕ) (last_observed : Option (SmsCheck P S T)) → Io (PollError P S T V) (Unit {0})
  sleep_poll_delay delay last_observed =
      sleep_or_stop (cancelled last_observed) (deadline last_observed) options delay

module _ (R : Floats) {P S T V : Type 0} where
  open R use {F}

  -- The end of a round: the wait, and the rounds that follow.
  after_round :
      PollOptions F
      → Checks P S T V
      → (round interval : ℕ)
        (rest : Option (SmsCheck P S T) → Io (PollError P S T V) (SmsCheck P S T))
      → Option (SmsCheck P S T)
      → (retry_after : Option ℕ) → Io (PollError P S T V) (SmsCheck P S T)
  after_round options provider round interval rest last_observed retry_after =
      sleep_poll_delay options (polling_delay R options (provider.draw round) interval retry_after)
        last_observed
      >> rest last_observed

  -- The loop, cut off after `left` rounds.
  unfoldable pub wait_loop :
      PollOptions F
      → Checks P S T V
      → (left round interval : ℕ) → Option (SmsCheck P S T)
      → Io (PollError P S T V) (SmsCheck P S T)
  unfolding after_check after_round
  wait_loop options provider zero round interval last_observed = at_exit out_of_fuel
  wait_loop options provider (suc left) round interval last_observed = do
    preflight options last_observed
    checked ←
        ask_or_stop (cancelled last_observed) (deadline last_observed) options
          (provider.check round)
    after_check last_observed
        (after_round options provider round interval (
          wait_loop options provider left (suc round)
            (advance_interval interval options.max_interval)))
        checked

  unfoldable pub wait_for_sms :
      PollOptions F → Checks P S T V → Io (PollError P S T V) (SmsCheck P S T)
  wait_for_sms options provider now =
      wait_loop options provider (suc (options.deadline - now)) 0 options.base_interval none now

pub record CodePollResult (C U : Type 0) : Type 0 where
  pub sms : C
  pub code : Option U

-- `and_then(|text| extractor(text.expose()))`.
extracted : {U : Type 0} → (String → Option U) → Option (Secret sms_text) → Option U
extracted extractor none = none
extracted extractor (some text) = extractor text.expose

module _ {P T V U : Type 0} (extractor : String → Option U) where
  unfoldable pub code_of : SmsCheck P (ReceivedSms V) T → Option U
  unfolding extracted
  code_of (received x) = extracted extractor (or_else x.full_sms x.sms)
  code_of (pending p) = none
  code_of (terminated t) = none

  unfoldable pub wait_for_code_with :
      (R : Floats)
      → PollOptions (R.F)
      → Checks P (ReceivedSms V) T V
      → Io (PollError P (ReceivedSms V) T V) (CodePollResult (SmsCheck P (ReceivedSms V) T) U)
  wait_for_code_with R options provider = do
    sms ← wait_for_sms R options provider
    return (record { sms = sms; code = code_of sms })
