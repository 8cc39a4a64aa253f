-- ===== src/Message/Enum.antt =====
-- `EnumUtil::ToChars` and `EnumUtil::FromString` of `MessageType`.
use duckdb_quack.Prelude.{
  Bytes, codes, same, [], ◌∷◌, Result, ok, err, not_implemented, ◌≡◌, ◌≢◌, refl, ◌↔◌, if◌then◌else◌,
  arith, same_iff, subst,
}
use duckdb_quack.Text.Decimal.{to_string}
use duckdb_quack.Message.Types.{
  MessageType, invalid, connection_request, connection_response, prepare_request, prepare_response,
  fetch_request, fetch_response, append_request, success_response, disconnect_message,
  error_response, unnamed, type_value,
}

abbrev unnamed_enum : MessageType → Result Bytes
unnamed_enum t = err (
    not_implemented "Enum value of type MessageType: '%d' not implemented"
      (to_string (type_value t) ∷ []))

-- `ToChars`; there is no case for INVALID.
unfoldable pub to_chars : MessageType → Result Bytes
to_chars connection_request = ok (codes "CONNECTION_REQUEST")
to_chars connection_response = ok (codes "CONNECTION_RESPONSE")
to_chars prepare_request = ok (codes "PREPARE_REQUEST")
to_chars prepare_response = ok (codes "PREPARE_RESPONSE")
to_chars fetch_request = ok (codes "FETCH_REQUEST")
to_chars fetch_response = ok (codes "FETCH_RESPONSE")
to_chars append_request = ok (codes "APPEND_REQUEST")
to_chars success_response = ok (codes "SUCCESS_RESPONSE")
to_chars disconnect_message = ok (codes "DISCONNECT_MESSAGE")
to_chars error_response = ok (codes "ERROR_RESPONSE")
to_chars invalid = unnamed_enum invalid
to_chars (unnamed n) = unnamed_enum (unnamed n)

unfoldable pub from_string : Bytes → Result MessageType
from_string value =
    if same value (codes "INVALID")
    then ok invalid
    else if same value (codes "CONNECTION_REQUEST")
    then ok connection_request
    else if same value (codes "CONNECTION_RESPONSE")
    then ok connection_response
    else if same value (codes "PREPARE_REQUEST")
    then ok prepare_request
    else if same value (codes "PREPARE_RESPONSE")
    then ok prepare_response
    else if same value (codes "FETCH_REQUEST")
    then ok fetch_request
    else if same value (codes "FETCH_RESPONSE")
    then ok fetch_response
    else if same value (codes "APPEND_REQUEST")
    then ok append_request
    else if same value (codes "SUCCESS_RESPONSE")
    then ok success_response
    else if same value (codes "DISCONNECT_MESSAGE")
    then ok disconnect_message
    else if same value (codes "ERROR_RESPONSE")
    then ok error_response
    else err (not_implemented "Enum value of type MessageType: '%s' not implemented" (value ∷ []))

ok-injective : {s t : Bytes} → ok s ≡ ok t → s ≡ t
ok-injective h = cc

from_string-to_chars : (t : MessageType) (s : Bytes) → to_chars t ≡ ok s → from_string s ≡ ok t
unfolding to_chars from_string same
from_string-to_chars invalid s h = cc
from_string-to_chars (unnamed n) s h = cc
from_string-to_chars t s h = subst (λ v. from_string v ≡ ok t) (ok-injective h) refl

to_chars-from_string :
    (t : MessageType) (s : Bytes) → from_string s ≡ ok t → t ≢ invalid → to_chars t ≡ ok s
unfolding to_chars from_string
to_chars-from_string t s h k = ground (
  arith,
  same_iff s (codes "INVALID"),
  same_iff s (codes "CONNECTION_REQUEST"),
  same_iff s (codes "CONNECTION_RESPONSE"),
  same_iff s (codes "PREPARE_REQUEST"),
  same_iff s (codes "PREPARE_RESPONSE"),
  same_iff s (codes "FETCH_REQUEST"),
  same_iff s (codes "FETCH_RESPONSE"),
  same_iff s (codes "APPEND_REQUEST"),
  same_iff s (codes "SUCCESS_RESPONSE"),
  same_iff s (codes "DISCONNECT_MESSAGE"),
  same_iff s (codes "ERROR_RESPONSE"),
)

-- Of every message type but INVALID, a text is its name by ToChars exactly if FromString reads it
-- as this type.
pub to_chars_iff_from_string :
    (t : MessageType) (s : Bytes) → t ≢ invalid → (to_chars t ≡ ok s) ↔ (from_string s ≡ ok t)
to_chars_iff_from_string t s k = (from_string-to_chars t s, λ h. to_chars-from_string t s h k)

-- FromString reads INVALID, and ToChars prints no text for it.
invalid_not_printed :
    (from_string (codes "INVALID") ≡ ok invalid) × ((s : Bytes) → to_chars invalid ≢ ok s)
unfolding from_string to_chars same
invalid_not_printed = (refl, λ s h. cc)
