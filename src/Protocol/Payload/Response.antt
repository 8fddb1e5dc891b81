-- ===== src/Protocol/Payload/Response.antt =====
-- The publish response: its round trip, and what the decoder accepts of arbitrary bytes.
use qwer_q.Common.{
  ℕ, suc, ◌+◌, ◌-◌, ◌%◌, ◌^◌, ◌<◌, ◌≤◌, ◌≡◌, ◌≢◌, refl, arith, true, none, some, [], ◌∷◌, ◌++◌,
  length, take, drop, length-append, drop-append, take-length, length-drop, Option-cases, inl, inr,
  ◌⊎◌, ap, ◌∙◌,
}
use qwer_q.Common.Strings.{Str, IsBytes}
use qwer_q.Wire.{IsU64, uvarint_bytes, read_uvarint}
use qwer_q.Wire.Laws.{
  read_uvarint-uvarint_bytes, read_uvarint_bounds, read_uvarint-IsU64, uvarint_bytes-length,
}
use qwer_q.Protocol.Payload.{
  encode_publish_response_payload, decode_message_id, decode_publish_response_payload, slice,
  publish_response_message_id_field,
}

-- When the length leads exactly to the end, what stands behind it is the identifier.
decode_message_id_fits :
    (payload : Str) (len n : ℕ)
    → length payload < 2 ^ 63
    → 1 + n + len ≡ length payload
    → decode_message_id payload len n ≡ some (drop (1 + n) payload, true)
unfolding decode_message_id slice
decode_message_id_fits payload len n small e =
    let end : (1 + n + len) % 2 ^ 64 ≡ length payload = omega arith in
    let all : take (length payload - (1 + n)) (drop (1 + n) payload) ≡ drop (1 + n) payload =
      rw (← (length-drop (1 + n) payload)) (take-length (drop (1 + n) payload)) in
    rw end (ground (arith, all))

drop_suc : (b : ℕ) (xs ys : Str) → drop (1 + length xs) (b ∷ (xs ++ ys)) ≡ ys
drop_suc b xs ys = let e : 1 + length xs ≡ suc (length xs) = omega arith in rw e (drop-append xs ys)

-- `DecodePublishResponsePayload` gives back a message identifier shorter than 2^62 that was
-- encoded.
pub decode-encode_publish_response :
    (message_id : Str)
    → length message_id < 2 ^ 62
    → decode_publish_response_payload (encode_publish_response_payload message_id)
      ≡ some (message_id, true)
unfolding decode_publish_response_payload encode_publish_response_payload
decode-encode_publish_response message_id h =
    let head = uvarint_bytes (length message_id) in
    let size : length (head ++ message_id) ≡ length head + length message_id =
      length-append head message_id in
    let short : length head ≤ 10 = (uvarint_bytes-length (length message_id)).1 in
    rw (read_uvarint-uvarint_bytes (length message_id) message_id (omega arith)) (
      decode_message_id_fits (publish_response_message_id_field ∷ (head ++ message_id)) _ _
        (omega arith) (omega arith)
      ∙ ground (arith, drop_suc publish_response_message_id_field head message_id))

-- On any payload shorter than 2^63 the decoder slices inside the bounds: it never panics.
pub decode_publish_response-ne-none :
    (payload : Str) → length payload < 2 ^ 63 → decode_publish_response_payload payload ≢ none
unfolding decode_publish_response_payload decode_message_id slice
decode_publish_response-ne-none [] h e = cc
decode_publish_response-ne-none (b ∷ rest) h e = elim (Option-cases (read_uvarint rest)) [
  | inl q ↦ ground (arith, q)
  | inr ((len, n), q) ↦ ground (arith, q, read_uvarint_bounds rest len n q)
]

decode_message_id_sound :
    (payload : Str) (len n : ℕ) (id : Str)
    → length payload < 2 ^ 63
    → 1 + n ≤ length payload
    → IsU64 len
    → decode_message_id payload len n ≡ some (id, true)
    → (len ≡ length id) × (drop (1 + n) payload ≡ id)
unfolding decode_message_id slice
decode_message_id_sound payload len n id small start big e =
    let sum : 1 + n + len ≡ length payload = ground arith in
    let same : drop (1 + n) payload ≡ id =
      ground (arith, e, decode_message_id_fits payload len n small sum) in
    (rw (← same) (omega (arith, sum, length-drop (1 + n) payload)), same)

-- A payload of bytes, shorter than 2^63, that is accepted is empty, with no identifier, or it is
-- the field byte, a length that counts the rest, and the identifier to the very end.
pub decode_publish_response_sound :
    (payload id : Str)
    → length payload < 2 ^ 63
    → IsBytes payload
    → decode_publish_response_payload payload ≡ some (id, true)
    → ((payload ≡ []) × (id ≡ []))
      ⊎ ((rest : Str) × (n : ℕ) × (payload ≡ publish_response_message_id_field ∷ rest)
          × (read_uvarint rest ≡ some (length id, n))
          × (drop n rest ≡ id))
unfolding decode_publish_response_payload
decode_publish_response_sound [] id h bs e = inl (refl, ground arith)
decode_publish_response_sound (b ∷ rest) id h bs e = elim (Option-cases (read_uvarint rest)) [
  | inl q ↦ absurd (ground (arith, q))
  | inr ((len, n), q) ↦
      let inside =
        decode_message_id_sound (b ∷ rest) len n id h
          (omega (arith, read_uvarint_bounds rest len n q)) (read_uvarint-IsU64 rest len n bs.1 q)
          (ground (arith, q)) in
      let one : 1 + n ≡ suc n = omega arith in
      inr (rest, n, ground (arith, q), q ∙ ap (λ t. some (t, n)) inside.0, (rw one at inside.1))
]
