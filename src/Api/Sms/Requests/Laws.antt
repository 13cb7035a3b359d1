-- ===== src/Api/Sms/Requests/Laws.antt =====
-- The fields of a history request give the request back (src/api/sms.rs).
use smspool_sdk.Prelude.{
  ℕ, ◌≤◌, ◌≡◌, refl, String, Option, none, some, List, [], ◌∷◌, codes, same_text, if◌then◌else◌,
}
use smspool_sdk.Duration.{u64_max}
use smspool_sdk.Transport.Header.{parse_u64}
use smspool_sdk.Api.Fields.Laws.{parse_u64-decimal}
use smspool_sdk.Api.Sms.Requests.{HistoryRequest, encode_history}

-- The first field of a name.
abbrev pub field : String → List (String × String) → Option String
field name [] = none
field name (entry ∷ fields) = if same_text entry.0 name then some entry.1 else field name fields

abbrev pub number_field : String → List (String × String) → Option ℕ
number_field name fields = elim (field name fields) [
  | none ↦ none
  | some text ↦ parse_u64 (codes text)
]

abbrev history_of : (start length : Option ℕ) (search : Option String) → Option HistoryRequest
history_of (some start) (some length) (some search) =
    some (record { start = start; length = length; search = search })
history_of _ _ _ = none

-- How a server reads the fields of a history request.
abbrev pub decode_history : List (String × String) → Option HistoryRequest
decode_history fields =
    history_of (number_field "start" fields) (number_field "length" fields) (field "search" fields)

-- A history request whose numbers a `u64` holds can be read back from the fields that are sent.
pub decode_history-encode_history :
    (request : HistoryRequest)
    → request.start ≤ u64_max
    → request.length ≤ u64_max
    → decode_history (encode_history request) ≡ some request
unfolding encode_history
decode_history-encode_history request h k =
    rw (parse_u64-decimal request.start h) (rw (parse_u64-decimal request.length k) refl)
