-- ===== src/Poll/Wait/Code.antt =====
-- The code that `wait_for_code_with` extracts (src/poll.rs).
use smspool_sdk.Prelude.{ℕ, ◌≡◌, refl, true, String, Option, none, some, or_else}
use smspool_sdk.Float.{Floats}
use smspool_sdk.Transport.Io.{done, return}
use smspool_sdk.Transport.Rules.{bind-Yields}
use smspool_sdk.Transport.Timed.{return-Yields}
use smspool_sdk.Types.{Secret, sms_text}
use smspool_sdk.Api.Sms.Check.{ReceivedSms, is_terminal}
use smspool_sdk.Poll.Orders.{SmsCheck, pending, received, terminated}
use smspool_sdk.Poll.Delay.{PollOptions}
use smspool_sdk.Poll.Wait.{
  Checks, CodePollResult, extracted, code_of, wait_for_sms, wait_for_code_with,
}
use smspool_sdk.Poll.Wait.Answer.{IsAnswer, wait_for_sms-IsAnswer}

module _ {U : Type 0} (extractor : String → Option U) where
  -- What the code may be, given the two texts of a received SMS.
  abbrev pub FitsTexts : (full_sms sms : Option (Secret sms_text)) → Option U → Type 0
  FitsTexts (some text) sms code = code ≡ extractor text.expose
  FitsTexts none (some text) code = code ≡ extractor text.expose
  FitsTexts none none code = code ≡ none

  extracted-FitsTexts :
      (full_sms sms : Option (Secret sms_text))
      → FitsTexts full_sms sms (extracted extractor (or_else full_sms sms))
  unfolding extracted
  extracted-FitsTexts (some text) sms = refl
  extracted-FitsTexts none (some text) = refl
  extracted-FitsTexts none none = refl

  module _ {P T V : Type 0} where
    abbrev pub FitsCheck : SmsCheck P (ReceivedSms V) T → Option U → Type 0
    FitsCheck (received x) code = FitsTexts x.full_sms x.sms code
    FitsCheck (terminated t) code = code ≡ none
    FitsCheck (pending p) code = ⊥

    fits :
        (sms : SmsCheck P (ReceivedSms V) T)
        → is_terminal sms ≡ true
        → FitsCheck sms (code_of extractor sms)
    unfolding code_of is_terminal
    fits (pending p) h = cc
    fits (received x) h = extracted-FitsTexts x.full_sms x.sms
    fits (terminated t) h = refl

-- A wait for a code answers the provider's terminal snapshot and the code that the extractor finds in
-- the full text of a received SMS, or in the short one where there is no full one; there is no code
-- without a text, and none for a terminated order.
pub wait_for_code_with-fits :
    (R : Floats) {P T V U : Type 0} (extractor : String → Option U) (options : PollOptions (R.F))
    (provider : Checks P (ReceivedSms V) T V) (now : ℕ)
    (result : CodePollResult (SmsCheck P (ReceivedSms V) T) U)
    → (wait_for_code_with extractor R options provider now).exit ≡ done result
    → IsAnswer R options provider result.sms × FitsCheck extractor result.sms result.code
unfolding wait_for_code_with
wait_for_code_with-fits R {P} {T} {V} extractor options provider =
    bind-Yields (wait_for_sms R options provider)
      (λ sms. return (record { sms = sms; code = code_of extractor sms }))
      (IsAnswer R options provider)
      (λ result.
        IsAnswer R options provider result.sms × FitsCheck extractor result.sms result.code)
      (wait_for_sms-IsAnswer R options provider)
      (λ sms answer.
        return-Yields
          (λ result.
            IsAnswer R options provider result.sms × FitsCheck extractor result.sms result.code)
          (record { sms = sms; code = code_of extractor sms })
          (answer, fits extractor sms answer.0))
