-- ===== src/Examples/Waiting.antt =====
-- Waits for an SMS, and the decoding of snapshots, at concrete values (src/poll.rs, src/api/sms.rs,
-- src/de.rs).
use smspool_sdk.Prelude.{
  ◌≤◌, max, ◌≡◌, refl, ◌↔◌, true, false, String, none, some, ok, err, arith, ◌==◌, if◌then◌else◌,
  is_empty,
}
use smspool_sdk.Json.{pos, boolean}
use smspool_sdk.Error.{transport, connect}
use smspool_sdk.Transport.Io.{done, failed}
use smspool_sdk.Transport.Rules.{IsSettled}
use smspool_sdk.Types.{StatusValue, order_id, Identifier}
use smspool_sdk.Types.De.{bool_from_value, decode_identifier, from_value}
use smspool_sdk.Types.De.Laws.{
  StandsFor, bool_from_value_iff, Names, decode_identifier_iff, Shows, from_value-Shows,
}
use smspool_sdk.Api.Sms.Check.{ReceivedSms, SmsCheckWire, Snapshot, sms_check_of}
use smspool_sdk.Api.Sms.Check.Laws.{Reflects, sms_check_of-Reflects}
use smspool_sdk.Poll.Orders.{SmsCheck, pending, received}
use smspool_sdk.Poll.Delay.{PollOptions, polling_delay}
use smspool_sdk.Poll.Wait.{
  PollError, client, Checks, CodePollResult, wait_for_sms, wait_for_code_with,
}
use smspool_sdk.Poll.Wait.Answer.{IsAnswer, Explains, wait_for_sms-IsAnswer, wait_for_sms-Explains}
use smspool_sdk.Poll.Wait.Ending.{wait_for_sms-IsSettled}
use smspool_sdk.Poll.Wait.Delivery.{DeliversAt, wait_for_sms-delivers}
use smspool_sdk.Poll.Wait.Code.{FitsCheck, wait_for_code_with-fits}
use smspool_sdk.Examples.Crates.{json, floats, Document, flag}
use smspool_sdk.Examples.Polling.{test_options}

abbrev sms : ReceivedSms Document
sms = record {
  expiration = none;
  full_sms = none;
  sms = some (record { expose = "code 123" });
  status = StatusValue.integer (pos 3);
}

abbrev Seen : Type 0
Seen = SmsCheck Unit (ReceivedSms Document) Unit

-- A pending snapshot, then the SMS.
abbrev arriving : Checks Unit (ReceivedSms Document) Unit Document
arriving = record {
  check = λ k. record { takes = 1; answer = ok (if k == 1 then received sms else pending tt) };
  draw = λ k. 0;
}

abbrev refused : Checks Unit (ReceivedSms Document) Unit Document
refused = record {
  check = λ k. record { takes = 1; answer = err (transport "sms.check" connect) };
  draw = λ k. 0;
}

arrives : (wait_for_sms floats test_options arriving 0).exit ≡ done (received sms)
unfolding wait_for_sms smspool_sdk.Poll.Wait.wait_loop polling_delay smspool_sdk.Poll.Delay.jitter
    smspool_sdk.Poll.Delay.advance_interval
arrives = refl

fails :
    (wait_for_sms floats test_options refused 0).exit
    ≡ failed (client (transport "sms.check" connect))
unfolding wait_for_sms smspool_sdk.Poll.Wait.wait_loop
fails = refl

wait_for_sms-IsAnswer_example : IsAnswer floats test_options arriving (received sms)
wait_for_sms-IsAnswer_example =
    wait_for_sms-IsAnswer floats test_options arriving 0 (received sms) arrives

wait_for_sms-Explains_example :
    Explains floats test_options refused
      (wait_for_sms floats test_options refused 0).now
      (client (transport "sms.check" connect))
wait_for_sms-Explains_example =
    wait_for_sms-Explains floats test_options refused 0 (client (transport "sms.check" connect))
      fails

wait_for_sms-IsSettled_example :
    IsSettled (wait_for_sms floats test_options arriving 0)
    × ((wait_for_sms floats test_options arriving 0).now ≤ max 0 1000)
wait_for_sms-IsSettled_example =
    wait_for_sms-IsSettled floats test_options arriving 0 (λ k. omega arith)

first : DeliversAt arriving 1 (received sms)
unfolding smspool_sdk.Api.Sms.Check.is_terminal
first = record { waits = λ k less. (tt, ground arith); answers = refl; is_last = refl }

wait_for_sms-delivers_example :
    (wait_for_sms floats test_options arriving 0).exit ≡ done (received sms)
wait_for_sms-delivers_example =
    wait_for_sms-delivers floats test_options arriving 1 1 0 (received sms) refl
      (λ k. (omega arith, omega arith)) first (omega arith)

abbrev found : CodePollResult Seen String
found = record { sms = received sms; code = some "code 123" }

finds : (wait_for_code_with (λ text. some text) floats test_options arriving 0).exit ≡ done found
unfolding wait_for_code_with wait_for_sms smspool_sdk.Poll.Wait.wait_loop polling_delay
    smspool_sdk.Poll.Delay.jitter smspool_sdk.Poll.Delay.advance_interval
    smspool_sdk.Poll.Wait.code_of
finds = refl

wait_for_code_with-fits_example :
    IsAnswer floats test_options arriving (received sms)
    × FitsCheck (λ text. some text) {P = Unit} {T = Unit} (received sms) (some "code 123")
wait_for_code_with-fits_example =
    wait_for_code_with-fits floats (λ text. some text) test_options arriving 0 found finds

bool_from_value_iff_example :
    (bool_from_value json (flag true) ≡ ok true) ↔ StandsFor json true (boolean true)
bool_from_value_iff_example = bool_from_value_iff json (flag true) true

abbrev order : Identifier order_id
order = record { as_str = "A1" }

decode_identifier_iff_example :
    (decode_identifier json order_id (flag true) ≡ ok order)
    ↔ (Names json "A1" (boolean true) × (is_empty "A1" ≡ false))
decode_identifier_iff_example = decode_identifier_iff json order_id (flag true) order

from_value-Shows_example : Shows json (flag true) (boolean true) (from_value json (flag true))
from_value-Shows_example = from_value-Shows json (flag true)

abbrev wire_sms : SmsCheckWire Document
wire_sms = record {
  expiration = none;
  resend = none;
  status = StatusValue.integer (pos 6);
  time_left = none;
  full_sms = none;
  sms = none;
  message = some "refunded";
}

sms_check_of-Reflects_example : Reflects wire_sms (sms_check_of wire_sms)
sms_check_of-Reflects_example = sms_check_of-Reflects wire_sms
