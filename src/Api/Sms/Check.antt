-- ===== src/Api/Sms/Check.antt =====
-- The provider's snapshots of an order, and how they are decoded (src/api/sms.rs). `V` stands for
-- `serde_json::Value`. The derived readers of the structs are parameters.
pub mod Laws
use smspool_sdk.Prelude.{
  ℕ, Bool, true, false, ◌||◌, String, Option, none, some, Result, ok, err, ◌>>=◌, is_some,
  if◌then◌else◌,
}
use smspool_sdk.Json.{Json, ℤ, field_of}
use smspool_sdk.Types.{Secret, sms_text, StatusValue}
use smspool_sdk.Types.De.{DeError, custom}
use smspool_sdk.Poll.Orders.{SmsCheck, pending, received, terminated}

pub record SmsCheckWire (V : Type 0) : Type 0 where
  pub expiration : Option ℤ
  pub resend : Option ℕ
  pub status : StatusValue V
  pub time_left : Option ℕ
  pub full_sms : Option (Secret sms_text)
  pub sms : Option (Secret sms_text)
  pub message : Option String

pub record PendingSms (V : Type 0) : Type 0 where
  pub expiration : Option ℤ
  pub resend : Option ℕ
  pub status : StatusValue V
  pub time_left : Option ℕ

pub record ReceivedSms (V : Type 0) : Type 0 where
  pub expiration : Option ℤ
  pub full_sms : Option (Secret sms_text)
  pub sms : Option (Secret sms_text)
  pub status : StatusValue V

pub record TerminatedSms (V : Type 0) : Type 0 where
  pub expiration : Option ℤ
  pub message : String
  pub resend : Option ℕ
  pub status : StatusValue V
  pub time_left : Option ℕ

abbrev pub Snapshot : Type 0 → Type 0
Snapshot V = SmsCheck (PendingSms V) (ReceivedSms V) (TerminatedSms V)

module _ {V : Type 0} where
  -- `if let Some(message) = wire.message { … } else { … }`.
  without_sms : SmsCheckWire V → Option String → Snapshot V
  without_sms wire (some message) = terminated (record {
    expiration = wire.expiration;
    message = message;
    resend = wire.resend;
    status = wire.status;
    time_left = wire.time_left;
  })
  without_sms wire none = pending (record {
    expiration = wire.expiration;
    resend = wire.resend;
    status = wire.status;
    time_left = wire.time_left;
  })

  -- `SmsCheck::deserialize`, after the wire struct is read.
  unfoldable pub sms_check_of : SmsCheckWire V → Snapshot V
  unfolding without_sms
  sms_check_of wire =
      if is_some wire.full_sms || is_some wire.sms
      then received (record {
        expiration = wire.expiration;
        full_sms = wire.full_sms;
        sms = wire.sms;
        status = wire.status;
      })
      else without_sms wire wire.message

  -- `SmsCheck::status`.
  unfoldable pub status : Snapshot V → StatusValue V
  status (pending inner) = inner.status
  status (received inner) = inner.status
  status (terminated inner) = inner.status

  integer_of : StatusValue V → Option ℤ
  integer_of (StatusValue.integer value) = some value
  integer_of _ = none

  -- `SmsCheck::status_code`.
  unfoldable pub status_code : Snapshot V → Option ℤ
  unfolding integer_of
  status_code check = integer_of (status check)

-- `SmsCheck::is_terminal`.
unfoldable pub is_terminal : {P S T : Type 0} → SmsCheck P S T → Bool
is_terminal (pending inner) = false
is_terminal (received inner) = true
is_terminal (terminated inner) = true

pub data PurchaseSmsResponse (O T : Type 0) : Type 0 where
  order : O → PurchaseSmsResponse O T
  token : T → PurchaseSmsResponse O T

module _ (J : Json) where
  open J use {Value}

  -- `SmsCheck::deserialize`.
  unfoldable pub decode_sms_check :
      (Value → Result (SmsCheckWire Value) (DeError Value))
      → Value
      → Result (Snapshot Value) (DeError Value)
  decode_sms_check read value = read value >>= λ wire. ok (sms_check_of wire)

  -- `PurchaseSmsResponse::deserialize`; `O` and `T` stand for `SmsOrder` and `SmsToken`.
  unfoldable pub decode_purchase :
      {O T : Type 0}
      → (Value → Result O (DeError Value))
      → (Value → Result T (DeError Value))
      → Value
      → Result (PurchaseSmsResponse O T) (DeError Value)
  decode_purchase read_order read_token value =
      if is_some (field_of (J.view value) "order_id")
      then (read_order value >>= λ o. ok (order o))
      else if is_some (field_of (J.view value) "token")
      then (read_token value >>= λ t. ok (token t))
      else custom J "unknown purchase response shape"
