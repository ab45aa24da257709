-- ===== src/Scproto/Types.antt =====
-- sc-capture/pkg/scproto/types.go: the names of wire ids, and the ids that have behaviour.
use star_konflict.Base.{ℕ, Bool, true, false, ◌||◌, ◌++◌, Bytes, text, ◌==◌, none, some}
use star_konflict.Base.Decimal.{decimal}
use star_konflict.Scproto.Framing.{cscmd_async_req, scmd_notification}
use star_konflict.Scproto.Tables.{
  Kind, Tables, name, kind_message_type, kind_async_request, kind_notification,
}

abbrev pub scmd_assigned_shard : ℕ
scmd_assigned_shard = 0

abbrev pub ccmd_auth_request : ℕ
ccmd_auth_request = 4

abbrev pub scmd_connect_dedicated_server : ℕ
scmd_connect_dedicated_server = 11

abbrev pub ac_player_credentials : ℕ
ac_player_credentials = 9

-- `if n, ok := Name(kind, id); ok { return n }; return placeholder + itoa(id)`.
unfoldable pub named : Tables → Kind → Bytes → ℕ → Bytes
named t kind placeholder id = elim (name t kind id) [
  | some n ↦ n
  | none ↦ placeholder ++ decimal id
]

unfoldable pub known : Tables → Kind → ℕ → Bool
known t kind id = elim (name t kind id) [ some _ ↦ true | none ↦ false ]

unfoldable pub message_type_string : Tables → ℕ → Bytes
message_type_string t = named t kind_message_type (text "MESSAGE_TYPE_")

unfoldable pub async_req_type_string : Tables → ℕ → Bytes
async_req_type_string t = named t kind_async_request (text "AC_UNKNOWN_")

unfoldable pub notification_type_string : Tables → ℕ → Bytes
notification_type_string t = named t kind_notification (text "SN_UNKNOWN_")

abbrev pub message_type_known : Tables → ℕ → Bool
message_type_known t = known t kind_message_type

abbrev pub async_req_type_known : Tables → ℕ → Bool
async_req_type_known t = known t kind_async_request

abbrev pub notification_type_known : Tables → ℕ → Bool
notification_type_known t = known t kind_notification

unfoldable pub is_container : ℕ → Bool
is_container t = t == cscmd_async_req || t == scmd_notification

unfoldable pub carries_credentials : ℕ → Bool
carries_credentials t = t == ccmd_auth_request
