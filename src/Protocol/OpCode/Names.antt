-- ===== src/Protocol/OpCode/Names.antt =====
-- Each operation has its own byte, and its own printed name.
use qwer_q.Common.{◌≡◌, refl, ap, List, [], ◌∷◌}
use qwer_q.Common.{Option, none, some, if◌then◌else◌}
use qwer_q.Common.Strings.{Str, str_eq}
use qwer_q.Protocol.OpCode.{
  OpCode, publish, consume, ack, nack, extend_visibility, heartbeat, unsubscribe, schema_register,
  schema_get, call, publish_ack, message, error, extend_visibility_ack, heartbeat_ack,
  schema_response, call_response, seek, commit_offset, seek_ack, commit_offset_ack, stream_message,
  schema_list, schema_list_resp, queue_list, queue_list_resp, auth, auth_response, code,
  op_code_names, string_of,
}

-- The operation whose printed name is given.
named_in : List (OpCode × Str) → Str → Option OpCode
named_in [] s = none
named_in ((c, name) ∷ rest) s = if str_eq name s then some c else named_in rest s

named : Str → Option OpCode
unfolding named_in
named s = named_in op_code_names s

-- The printed name of an operation leads back to it.
named-string_of : (c : OpCode) → named (string_of (code c)) ≡ some c
unfolding named string_of str_eq
named-string_of = elim [
  | publish ↦ refl
  | consume ↦ refl
  | ack ↦ refl
  | nack ↦ refl
  | extend_visibility ↦ refl
  | heartbeat ↦ refl
  | unsubscribe ↦ refl
  | schema_register ↦ refl
  | schema_get ↦ refl
  | call ↦ refl
  | publish_ack ↦ refl
  | message ↦ refl
  | error ↦ refl
  | extend_visibility_ack ↦ refl
  | heartbeat_ack ↦ refl
  | schema_response ↦ refl
  | call_response ↦ refl
  | seek ↦ refl
  | commit_offset ↦ refl
  | seek_ack ↦ refl
  | commit_offset_ack ↦ refl
  | stream_message ↦ refl
  | schema_list ↦ refl
  | schema_list_resp ↦ refl
  | queue_list ↦ refl
  | queue_list_resp ↦ refl
  | auth ↦ refl
  | auth_response ↦ refl
]

-- Two operations print alike only if they are one: no byte and no name is used twice, and every
-- operation has a name of its own in the table.
pub string_of_injective : (c d : OpCode) → string_of (code c) ≡ string_of (code d) → c ≡ d
string_of_injective c d e = cc (named-string_of c, named-string_of d, ap named e)
