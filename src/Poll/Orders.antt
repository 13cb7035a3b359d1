-- ===== src/Poll/Orders.antt =====
-- The snapshots of orders that polling reads (src/api/sms.rs). `P`, `S` and `T` stand for the payloads of
-- the three kinds of check, `Rest` for the fields of an order that polling only copies.
use smspool_sdk.Prelude.{String, Option}

pub data SmsCheck (P S T : Type 0) : Type 0 where
  pending : P → SmsCheck P S T
  received : S → SmsCheck P S T
  terminated : T → SmsCheck P S T

pub record ActiveOrder (Rest : Type 0) : Type 0 where
  pub order_code : String
  pub status : String
  pub code : String
  pub full_code : Option String
  pub rest : Rest
