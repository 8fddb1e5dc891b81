-- ===== src/Protocol/Payload.antt =====
-- internal/protocol/publish_response.go and client_codec.go: payloads that are encoded and decoded
-- by hand, past the protobuf library. A Go `len` is below 2^63.
pub mod Response
pub mod Fields
use qwer_q.Common.{
  ℕ, zero, suc, ◌+◌, ◌-◌, ◌%◌, ◌^◌, ◌<◌, Bool, true, false, not, ◌||◌, ◌&&◌, Option, none, some,
  List, [], ◌∷◌, ◌++◌, ltb, ◌==◌, if◌then◌else◌, length, take, drop,
}
use qwer_q.Common.Strings.{Str}
use qwer_q.Common.Int.{ℤ, pos, lt_ℤ, pos_part, neg_part}
use qwer_q.Wire.{uvarint_bytes, read_uvarint, int_of}

abbrev pub field_queue_string : ℕ
field_queue_string = 0x0a

abbrev pub field_payload_bytes : ℕ
field_payload_bytes = 0x12

abbrev pub field_prefetch_uint32 : ℕ
field_prefetch_uint32 = 0x10

abbrev pub field_message_id_string : ℕ
field_message_id_string = 0x0a

abbrev pub publish_response_message_id_field : ℕ
publish_response_message_id_field = 0x0a

-- `EncodeSimplePublishRequestPayload`
pub encode_simple_publish_request_payload : Str → Str → Str
encode_simple_publish_request_payload queue payload =
    field_queue_string
    ∷ (uvarint_bytes (length queue)
        ++ (queue ++ (field_payload_bytes ∷ (uvarint_bytes (length payload) ++ payload))))

-- `EncodeSimpleConsumeRequestPayload`
pub encode_simple_consume_request_payload : Str → ℕ → ℕ → Str
encode_simple_consume_request_payload queue prefetch visibility_timeout =
    field_queue_string
    ∷ (uvarint_bytes (length queue)
        ++ (queue
            ++ ((if prefetch == 0 then [] else field_prefetch_uint32 ∷ uvarint_bytes prefetch)
                ++ (if visibility_timeout == 0
                    then []
                    else 0x18 ∷ uvarint_bytes visibility_timeout))))

-- `EncodeAckRequestPayload`
pub encode_ack_request_payload : Str → Str
encode_ack_request_payload message_id =
    field_message_id_string ∷ (uvarint_bytes (length message_id) ++ message_id)

-- `EncodePublishResponsePayload`
pub encode_publish_response_payload : Str → Str
encode_publish_response_payload message_id =
    publish_response_message_id_field ∷ (uvarint_bytes (length message_id) ++ message_id)

-- `payload[start:end]`, with Go's panic as `none`; `end` is an `int`.
slice : Str → ℕ → ℤ → Option Str
slice s start end =
    if lt_ℤ end (pos start) || lt_ℤ (pos (length s)) end
    then none
    else some (take (pos_part end - start) (drop start s))

-- The rest of `DecodePublishResponsePayload`, from the length and its size on. `int(length)` and
-- the sum wrap in 64 bits. The outer `none` is a panic.
decode_message_id : Str → ℕ → ℕ → Option (Str × Bool)
unfolding slice
decode_message_id payload len n =
    let start = 1 + n in
    let end = int_of ((start + len) % 2 ^ 64) in
    if lt_ℤ (pos (length payload)) end
    then some ([], false)
    else if lt_ℤ end (pos (length payload)) || lt_ℤ (pos (length payload)) end
    then some ([], false)
    else elim (slice payload start end) [ none ↦ none | some id ↦ some (id, true) ]

-- `DecodePublishResponsePayload`
unfoldable pub decode_publish_response_payload : Str → Option (Str × Bool)
unfolding decode_message_id
decode_publish_response_payload [] = some ([], true)
decode_publish_response_payload (b ∷ rest) =
    if not (b == publish_response_message_id_field)
    then some ([], false)
    else elim (read_uvarint rest) [
      | none ↦ some ([], false)
      | some (len, n) ↦ decode_message_id (b ∷ rest) len n
    ]
