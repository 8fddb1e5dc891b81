-- ===== src/Storage/Codec.antt =====
-- internal/storage/codec.go: a stored message as bytes. Times are `UnixNano`; a map is ranged over
-- in the order of its association list, and a nil map is the empty one.
pub mod Fields
pub mod RoundTrip
use qwer_q.Common.{
  ℕ, zero, suc, ◌+◌, ◌%◌, ◌^◌, List, [], ◌∷◌, ◌++◌, Option, none, some, ltb, ◌==◌, if◌then◌else◌,
  length, take, drop,
}
use qwer_q.Common.Strings.{Str}
use qwer_q.Common.Dict.{Dict, insert}
use qwer_q.Common.Int.{ℤ}
use qwer_q.Types.{Message}
use qwer_q.Wire
use qwer_q.Wire.{uvarint_bytes, varint_bytes}

abbrev pub message_encoding_v1 : ℕ
message_encoding_v1 = 1

abbrev pub message_encoding_v2 : ℕ
message_encoding_v2 = 2

-- The errors, by their texts, and that of `json.Unmarshal`.
pub data DecodeError : Type 0 where
  empty_payload invalid_uvarint invalid_varint truncated_payload invalid_json : DecodeError

pub data Result {ℓ} (A : Type ℓ) : Type ℓ where
  ok : A → Result A
  err : DecodeError → Result A

infixl 5 ◌>>=◌
abbrev pub ◌>>=◌ {ℓ κ} : {A : Type ℓ} {B : Type κ} → Result A → (A → Result B) → Result B
ok a >>= f = f a
err e >>= f = err e

-- `appendBytes` and `appendString`, which are one function on bytes.
pub append_bytes : Str → Str → Str
append_bytes dst s = dst ++ (uvarint_bytes (length s) ++ s)

-- The loop over the headers of `encodeMessage`.
pub append_headers : Str → Dict Str → Str
unfolding append_bytes
append_headers buf [] = buf
append_headers buf ((k, v) ∷ hs) = append_headers (append_bytes (append_bytes buf k) v) hs

-- `encodeMessage`
pub encode_message : Message → Str
encode_message msg =
    let tagged = message_encoding_v2 ∷ [] in
    let with_payload = append_bytes tagged msg.payload in
    let with_count = with_payload ++ uvarint_bytes (length msg.headers) in
    let with_headers = append_headers with_count msg.headers in
    let with_attempt = with_headers ++ uvarint_bytes msg.attempt in
    let with_published = with_attempt ++ varint_bytes msg.published_at in
    let with_visible = with_published ++ varint_bytes msg.visible_at in
    let with_key = append_bytes with_visible msg.ordering_key in
    with_key ++ uvarint_bytes msg.sequence

-- `uvarintSize` and `varintSize`: the count that `binary.PutUvarint` returns.
abbrev uvarint_size : ℕ → ℕ
uvarint_size v = length (uvarint_bytes v)

abbrev varint_size : ℤ → ℕ
varint_size v = length (varint_bytes v)

headers_size : Dict Str → ℕ
headers_size [] = 0
headers_size ((k, v) ∷ hs) =
    (uvarint_size (length k) + length k) + (uvarint_size (length v) + length v) + headers_size hs

-- `encodedMessageSizeV2`
pub encoded_message_size_v2 : Message → ℕ
unfolding headers_size
encoded_message_size_v2 msg =
    1
    + uvarint_size (length msg.payload)
    + length msg.payload
    + uvarint_size (length msg.headers)
    + headers_size msg.headers
    + uvarint_size msg.attempt
    + varint_size msg.published_at
    + varint_size msg.visible_at
    + (uvarint_size (length msg.ordering_key) + length msg.ordering_key)
    + uvarint_size msg.sequence

-- `readUvarint`
pub read_uvarint : Str → Result (ℕ × Str)
read_uvarint s = elim (Wire.read_uvarint s) [
  | none ↦ err invalid_uvarint
  | some (v, n) ↦ ok (v, drop n s)
]

-- `readVarint`
pub read_varint : Str → Result (ℤ × Str)
read_varint s = elim (Wire.read_varint s) [
  | none ↦ err invalid_varint
  | some (v, n) ↦ ok (v, drop n s)
]

-- `readBytes` and `readString`
pub read_bytes : Str → Result (Str × Str)
read_bytes s = read_uvarint s >>= λ r.
    if ltb (length r.1) r.0 then err truncated_payload else ok (take r.0 r.1, drop r.0 r.1)

-- The loop over `headerCount` of `decodeMessageFields`; each round writes to the map.
pub read_headers : ℕ → Str → Dict Str → Result (Dict Str × Str)
read_headers zero buf hs = ok (hs, buf)
read_headers (suc n) buf hs =
    read_bytes buf >>= λ k. read_bytes k.1 >>= λ v. read_headers n v.1 (insert k.0 v.0 hs)

-- `decodeMessageFields`. What stands behind the sequence is not looked at.
pub decode_message_fields : Str → Message → Result Message
decode_message_fields buf msg = do
  (payload, after_payload) ← read_bytes buf
  (header_count, after_count) ← read_uvarint after_payload
  (headers, after_headers) ← read_headers header_count after_count []
  (attempt, after_attempt) ← read_uvarint after_headers
  (published_at, after_published) ← read_varint after_attempt
  (visible_at, after_visible) ← read_varint after_published
  (ordering_key, after_key) ← read_bytes after_visible
  (sequence, rest) ← read_uvarint after_key
  ok (record msg {
    payload = payload;
    headers = headers;
    attempt = attempt % 2 ^ 32;
    published_at = published_at;
    visible_at = visible_at;
    ordering_key = ordering_key;
    sequence = sequence;
  })

-- `decodeMessageV1`
pub decode_message_v1 : Str → Message → Result Message
unfolding decode_message_fields
decode_message_v1 buf msg = read_bytes buf >>= λ i.
    read_bytes i.1 >>= λ q. decode_message_fields q.1 (record msg { id = i.0; queue = q.0 })

-- `decodeMessage`, into a message that holds what the caller has put there. `json_unmarshal` is the
-- standard library's, on the older entries that are JSON texts.
pub decode_message : (Str → Message → Result Message) → Str → Message → Result Message
decode_message json_unmarshal [] msg = err empty_payload
decode_message json_unmarshal (version ∷ buf) msg =
    if version == message_encoding_v1
    then decode_message_v1 buf msg
    else if version == message_encoding_v2
    then decode_message_fields buf msg
    else json_unmarshal (version ∷ buf) msg
