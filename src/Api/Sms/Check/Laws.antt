-- ===== src/Api/Sms/Check/Laws.antt =====
-- How the shape of a snapshot is chosen (src/api/sms.rs).
use smspool_sdk.Prelude.{
  ◌≡◌, refl, Bool, true, false, ◌||◌, String, Option, none, some, is_some, arith, if◌then◌else◌,
}
use smspool_sdk.Poll.Orders.{pending, received, terminated}
use smspool_sdk.Api.Sms.Check.{SmsCheckWire, Snapshot, sms_check_of, without_sms}

module _ {V : Type 0} where
  -- What a snapshot keeps of the fields that the provider sent, and when it has its shape.
  abbrev pub Reflects : SmsCheckWire V → Snapshot V → Type 0
  Reflects wire (received x) =
      ((is_some wire.full_sms || is_some wire.sms) ≡ true)
      × (x.full_sms ≡ wire.full_sms)
      × (x.sms ≡ wire.sms)
      × (x.status ≡ wire.status)
      × (x.expiration ≡ wire.expiration)
  Reflects wire (terminated x) =
      (wire.full_sms ≡ none)
      × (wire.sms ≡ none)
      × (wire.message ≡ some x.message)
      × (x.status ≡ wire.status)
      × (x.expiration ≡ wire.expiration)
      × (x.resend ≡ wire.resend)
      × (x.time_left ≡ wire.time_left)
  Reflects wire (pending x) =
      (wire.full_sms ≡ none)
      × (wire.sms ≡ none)
      × (wire.message ≡ none)
      × (x.status ≡ wire.status)
      × (x.expiration ≡ wire.expiration)
      × (x.resend ≡ wire.resend)
      × (x.time_left ≡ wire.time_left)

  without_sms-Reflects :
      (wire : SmsCheckWire V) (message : Option String)
      → wire.full_sms ≡ none
      → wire.sms ≡ none
      → wire.message ≡ message
      → Reflects wire (without_sms wire message)
  unfolding without_sms
  without_sms-Reflects wire (some m) h k q = (h, k, q, refl, refl, refl, refl)
  without_sms-Reflects wire none h k q = (h, k, q, refl, refl, refl, refl)

  chosen-Reflects :
      (wire : SmsCheckWire V) (test : Bool)
      → (is_some wire.full_sms || is_some wire.sms) ≡ test
      → Reflects wire (
          if test
          then received (record {
            expiration = wire.expiration;
            full_sms = wire.full_sms;
            sms = wire.sms;
            status = wire.status;
          })
          else without_sms wire wire.message)
  chosen-Reflects wire true q = (q, refl, refl, refl, refl)
  chosen-Reflects wire false q =
      without_sms-Reflects wire wire.message (ground arith) (ground arith) refl

  -- A snapshot keeps every field of the wire struct that its shape has, the status among them: it is received
  -- exactly with one of the two texts, else terminated with a message, else pending.
  pub sms_check_of-Reflects : (wire : SmsCheckWire V) → Reflects wire (sms_check_of wire)
  unfolding sms_check_of
  sms_check_of-Reflects wire = chosen-Reflects wire (is_some wire.full_sms || is_some wire.sms) refl
