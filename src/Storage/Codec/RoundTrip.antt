-- ===== src/Storage/Codec/RoundTrip.antt =====
-- A stored message is read back whole, and its size is known in advance.
use qwer_q.Common.{◌%◌, ◌^◌, ◌≡◌, refl, arith, [], ◌∷◌, ◌++◌, length, length-append}
use qwer_q.Common.Strings.{Str}
use qwer_q.Common.Dict.{Dict}
use qwer_q.Types.{Message}
use qwer_q.Wire.{IsU32, IsU64, IsI64, uvarint_bytes, varint_bytes}
use qwer_q.Storage.Codec.{
  Result, ok, message_encoding_v2, append_bytes, encode_message, headers_size,
  encoded_message_size_v2, decode_message_fields, decode_message, read_uvarint,
}
use qwer_q.Storage.Codec.Fields.{
  text, header_texts, append_headers-header_texts, Sized, NewKeys, read_uvarint-append,
  read_varint-append, read_bytes-append, read_headers-header_texts,
}
use mathlib.Core.List.{append_assoc, append-nil}

-- The values are in the ranges of their Go types, and no header is in the map twice.
pub record IsStorable (msg : Message) : Type 0 where
  pub payload_size : IsU64 (length msg.payload)
  pub header_count : IsU64 (length msg.headers)
  pub header_sizes : Sized msg.headers
  pub header_keys : NewKeys [] msg.headers
  pub attempt_range : IsU32 msg.attempt
  pub published_range : IsI64 msg.published_at
  pub visible_range : IsI64 msg.visible_at
  pub key_size : IsU64 (length msg.ordering_key)
  pub sequence_range : IsU64 msg.sequence

-- The bytes, from the outside in.
layout : Message → Str
layout msg =
    text msg.payload
    ++ (uvarint_bytes (length msg.headers)
        ++ (header_texts msg.headers
            ++ (uvarint_bytes msg.attempt
                ++ (varint_bytes msg.published_at
                    ++ (varint_bytes msg.visible_at
                        ++ (text msg.ordering_key ++ uvarint_bytes msg.sequence))))))

encode_message-layout : (msg : Message) → encode_message msg ≡ message_encoding_v2 ∷ layout msg
unfolding encode_message append_bytes layout
encode_message-layout msg = simp (append_headers-header_texts, append_assoc)

-- The field values of `msg` in `base`.
decode_message_fields-layout :
    (msg base : Message)
    → IsStorable msg
    → decode_message_fields (layout msg) base ≡ ok (record msg { id = base.id; queue = base.queue })
unfolding decode_message_fields layout
decode_message_fields-layout msg base s =
    let sequence : read_uvarint (uvarint_bytes msg.sequence) ≡ ok (msg.sequence, []) =
      rw append-nil at (read_uvarint-append msg.sequence [] s.sequence_range) in
    let attempt : msg.attempt % 2 ^ 32 ≡ msg.attempt = omega (arith, s.attempt_range) in
    rw (
      read_bytes-append msg.payload _ s.payload_size,
      read_uvarint-append (length msg.headers) _ s.header_count,
      read_headers-header_texts msg.headers [] _ s.header_sizes s.header_keys,
      read_uvarint-append msg.attempt _ (omega (arith, s.attempt_range)),
      read_varint-append msg.published_at _ s.published_range,
      read_varint-append msg.visible_at _ s.visible_range,
      read_bytes-append msg.ordering_key _ s.key_size,
      sequence,
      attempt,
    )

-- Reading a stored message whose fields are in the ranges of their types, and whose headers are a
-- map, gives the message back, with the identifier and the queue that the caller took from the
-- key: the entry itself holds neither.
pub decode_message-encode_message :
    (json_unmarshal : Str → Message → Result Message) (msg base : Message)
    → IsStorable msg
    → decode_message json_unmarshal (encode_message msg) base
      ≡ ok (record msg { id = base.id; queue = base.queue })
unfolding decode_message
decode_message-encode_message json_unmarshal msg base s =
    rw (encode_message-layout msg) (decode_message_fields-layout msg base s)

length-header_texts : (hs : Dict Str) → length (header_texts hs) ≡ headers_size hs
unfolding header_texts headers_size
length-header_texts [] = refl
length-header_texts ((k, v) ∷ hs) = omega (arith, length-append {0}, length-header_texts hs)

-- The capacity that `encodeMessage` reserves is exactly the size of what it writes.
pub length-encode_message :
    (msg : Message) → length (encode_message msg) ≡ encoded_message_size_v2 msg
unfolding encoded_message_size_v2 layout
length-encode_message msg =
    rw (encode_message-layout msg)
      (omega (arith, length-append {0}, length-header_texts msg.headers))
