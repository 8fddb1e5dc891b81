-- ===== src/Protocol/OpCode.antt =====
-- internal/protocol/opcodes.go. An `OpCode` is a byte; the constants name some of them.
pub mod Names
use qwer_q.Common.{ℕ, Option, none, some, List, [], ◌∷◌, ◌==◌, if◌then◌else◌}
use qwer_q.Common.Strings.{Str, bytes}

-- The named operations, in the order of the source's const blocks.
pub data OpCode : Type 0 where
  publish consume ack nack extend_visibility heartbeat unsubscribe : OpCode
  schema_register schema_get call : OpCode
  publish_ack message error extend_visibility_ack heartbeat_ack schema_response call_response :
      OpCode
  seek commit_offset seek_ack commit_offset_ack stream_message : OpCode
  schema_list schema_list_resp queue_list queue_list_resp : OpCode
  auth auth_response : OpCode

abbrev pub code : OpCode → ℕ
code publish = 0x01
code consume = 0x03
code ack = 0x05
code nack = 0x06
code extend_visibility = 0x08
code heartbeat = 0x0a
code unsubscribe = 0x0b
code schema_register = 0x10
code schema_get = 0x11
code call = 0x20
code publish_ack = 0x02
code message = 0x04
code error = 0x07
code extend_visibility_ack = 0x09
code heartbeat_ack = 0x0c
code schema_response = 0x12
code call_response = 0x21
code seek = 0x50
code commit_offset = 0x51
code seek_ack = 0x52
code commit_offset_ack = 0x53
code stream_message = 0x54
code schema_list = 0x30
code schema_list_resp = 0x31
code queue_list = 0x32
code queue_list_resp = 0x33
code auth = 0x40
code auth_response = 0x41

-- The map `opCodeNames`, in its order.
abbrev pub op_code_names : List (OpCode × Str)
op_code_names =
    (publish, bytes "PUBLISH")
    ∷ (publish_ack, bytes "PUBLISH_ACK")
    ∷ (consume, bytes "CONSUME")
    ∷ (message, bytes "MESSAGE")
    ∷ (ack, bytes "ACK")
    ∷ (nack, bytes "NACK")
    ∷ (error, bytes "ERROR")
    ∷ (extend_visibility, bytes "EXTEND_VISIBILITY")
    ∷ (extend_visibility_ack, bytes "EXTEND_VISIBILITY_ACK")
    ∷ (heartbeat, bytes "HEARTBEAT")
    ∷ (unsubscribe, bytes "UNSUBSCRIBE")
    ∷ (heartbeat_ack, bytes "HEARTBEAT_ACK")
    ∷ (seek, bytes "SEEK")
    ∷ (commit_offset, bytes "COMMIT_OFFSET")
    ∷ (seek_ack, bytes "SEEK_ACK")
    ∷ (commit_offset_ack, bytes "COMMIT_OFFSET_ACK")
    ∷ (stream_message, bytes "STREAM_MESSAGE")
    ∷ (schema_register, bytes "SCHEMA_REGISTER")
    ∷ (schema_get, bytes "SCHEMA_GET")
    ∷ (schema_response, bytes "SCHEMA_RESPONSE")
    ∷ (call, bytes "CALL")
    ∷ (call_response, bytes "CALL_RESPONSE")
    ∷ (schema_list, bytes "SCHEMA_LIST")
    ∷ (schema_list_resp, bytes "SCHEMA_LIST_RESP")
    ∷ (queue_list, bytes "QUEUE_LIST")
    ∷ (queue_list_resp, bytes "QUEUE_LIST_RESP")
    ∷ (auth, bytes "AUTH")
    ∷ (auth_response, bytes "AUTH_RESPONSE")
    ∷ []

abbrev name_in : List (OpCode × Str) → ℕ → Str
name_in [] op = bytes "UNKNOWN"
name_in ((c, name) ∷ rest) op = if code c == op then name else name_in rest op

-- `OpCode.String`, of any byte.
pub string_of : ℕ → Str
string_of op = name_in op_code_names op
