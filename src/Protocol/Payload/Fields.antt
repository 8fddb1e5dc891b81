-- ===== src/Protocol/Payload/Fields.antt =====
-- The hand-written encoders against the protobuf wire format: a message is a list of fields, each
-- a tag (8 * number + wire type) and a value, a varint or a string with its length.
use qwer_q.Common.{
  ℕ, zero, suc, ◌/◌, ◌%◌, ◌^◌, ◌<◌, ◌≡◌, refl, arith, Option, none, some, List, [], ◌∷◌, ◌++◌, ltb,
  ◌==◌, if◌then◌else◌, ◌>>=◌, length, take, drop, take-append, drop-append, length-append,
  Bool-cases, inl, inr, ◌∙◌,
}
use qwer_q.Common.Strings.{Str}
use qwer_q.Wire.{uvarint_bytes, read_uvarint}
use qwer_q.Wire.Laws.{read_uvarint-uvarint_bytes, read_uvarint_small}
use qwer_q.Protocol.Payload.{
  encode_simple_publish_request_payload, encode_simple_consume_request_payload,
}
use mathlib.Core.List.{append-nil}

pub data Field : Type 0 where
  number : ℕ → ℕ → Field
  text : ℕ → Str → Field

-- The value behind a tag, with what follows it.
value_of : ℕ → Str → Option (Field × Str)
value_of tag s = read_uvarint s >>= λ r.
    if tag % 8 == 0
    then some (number (tag / 8) r.0, drop r.1 s)
    else if (tag % 8 == 2)
    then (if ltb (length (drop r.1 s)) r.0
        then none
        else some (text (tag / 8) (take r.0 (drop r.1 s)), drop r.0 (drop r.1 s)))
    else none

-- The fields of a message, `fuel` of them at most.
pub fields : ℕ → Str → Option (List Field)
unfolding value_of
fields fuel [] = some []
fields zero (b ∷ s) = none
fields (suc fuel) (b ∷ s) = read_uvarint (b ∷ s) >>= λ t.
    value_of t.0 (drop t.1 (b ∷ s)) >>= λ v. fields fuel v.1 >>= λ rest. some (v.0 ∷ rest)

fields-text :
    (fuel tag : ℕ) (s rest : Str)
    → tag < 128
    → tag % 8 ≡ 2
    → length s < 2 ^ 63
    → fields (suc fuel) (tag ∷ (uvarint_bytes (length s) ++ (s ++ rest)))
      ≡ (fields fuel rest >>= λ fs. some (text (tag / 8) s ∷ fs))
unfolding fields value_of
fields-text fuel tag s rest h w small =
    let head = uvarint_bytes (length s) in
    rw
      (
        read_uvarint_small tag (head ++ (s ++ rest)) h,
        read_uvarint-uvarint_bytes (length s) (s ++ rest) (omega arith),
        drop-append head (s ++ rest),
        take-append s rest,
        drop-append s rest,
        w,
      )
      (ground (arith, length-append s rest))

fields_number :
    (fuel tag v : ℕ) (rest : Str)
    → tag < 128
    → tag % 8 ≡ 0
    → v < 2 ^ 32
    → fields (suc fuel) (tag ∷ (uvarint_bytes v ++ rest))
      ≡ (fields fuel rest >>= λ fs. some (number (tag / 8) v ∷ fs))
unfolding fields value_of
fields_number fuel tag v rest h w small =
    let head = uvarint_bytes v in
    rw (
      read_uvarint_small tag (head ++ rest) h,
      read_uvarint-uvarint_bytes v rest (omega arith),
      drop-append head rest,
      w,
    )

fields_nil : (fuel : ℕ) → fields fuel [] ≡ some []
unfolding fields
fields_nil zero = refl
fields_nil (suc fuel) = refl

fields-text_last :
    (fuel tag : ℕ) (s : Str)
    → tag < 128
    → tag % 8 ≡ 2
    → length s < 2 ^ 63
    → fields (suc fuel) (tag ∷ (uvarint_bytes (length s) ++ s)) ≡ some (text (tag / 8) s ∷ [])
fields-text_last fuel tag s h w small =
    (rw (append-nil s) at (fields-text fuel tag s [] h w small)) ∙ rw (fields_nil fuel)

fields_number_last :
    (fuel tag v : ℕ)
    → tag < 128
    → tag % 8 ≡ 0
    → v < 2 ^ 32
    → fields (suc fuel) (tag ∷ uvarint_bytes v) ≡ some (number (tag / 8) v ∷ [])
fields_number_last fuel tag v h w small =
    (rw (append-nil (uvarint_bytes v)) at (fields_number fuel tag v [] h w small))
    ∙ rw (fields_nil fuel)

-- A field with the default value is left out, as proto3 does.
abbrev pub unless_zero : ℕ → ℕ → List Field
unless_zero n v = if v == 0 then [] else number n v ∷ []

-- A simple publish request, of a queue and a payload shorter than 2^62, is the message with field
-- 1 the queue and field 2 the payload.
pub fields-encode_simple_publish_request :
    (queue payload : Str)
    → length queue < 2 ^ 62
    → length payload < 2 ^ 62
    → fields 2 (encode_simple_publish_request_payload queue payload)
      ≡ some (text 1 queue ∷ text 2 payload ∷ [])
unfolding encode_simple_publish_request_payload
fields-encode_simple_publish_request queue payload h k = rw (
  fields-text 1 0x0a queue (0x12 ∷ (uvarint_bytes (length payload) ++ payload)) (omega arith) refl
      (omega arith),
  fields-text_last 0 0x12 payload (omega arith) refl (omega arith),
)

fields_timeout :
    (v : ℕ)
    → v < 2 ^ 32
    → fields 1 (if v == 0 then [] else 0x18 ∷ uvarint_bytes v) ≡ some (unless_zero 3 v)
fields_timeout v h = elim (Bool-cases (v == 0)) [
  | inl e ↦ rw e (fields_nil 1)
  | inr e ↦ rw e (fields_number_last 0 0x18 v (omega arith) refl h)
]

fields_prefetch :
    (p v : ℕ)
    → p < 2 ^ 32
    → v < 2 ^ 32
    → fields 2 (
        (if p == 0 then [] else 0x10 ∷ uvarint_bytes p)
        ++ (if v == 0 then [] else 0x18 ∷ uvarint_bytes v))
      ≡ some (unless_zero 2 p ++ unless_zero 3 v)
fields_prefetch p v hp hv = elim (Bool-cases (p == 0)) [
  | inl e ↦ elim (Bool-cases (v == 0)) [
    | inl d ↦ rw (e, d) (fields_nil 2)
    | inr d ↦ rw (e, d) (fields_number_last 1 0x18 v (omega arith) refl hv)
  ]
  | inr e ↦ rw e (fields_number 1 0x10 p _ (omega arith) refl hp ∙ rw (fields_timeout v hv))
]

-- A simple consume request, of a queue shorter than 2^62 and 32-bit numbers, has the queue as
-- field 1, and the prefetch count and the visibility timeout as fields 2 and 3, each left out when
-- it is 0.
pub fields-encode_simple_consume_request :
    (queue : Str) (prefetch visibility_timeout : ℕ)
    → length queue < 2 ^ 62
    → prefetch < 2 ^ 32
    → visibility_timeout < 2 ^ 32
    → fields 3 (encode_simple_consume_request_payload queue prefetch visibility_timeout)
      ≡ some (text 1 queue ∷ (unless_zero 2 prefetch ++ unless_zero 3 visibility_timeout))
unfolding encode_simple_consume_request_payload
fields-encode_simple_consume_request queue prefetch visibility_timeout h p v = rw (
  fields-text 2 0x0a queue _ (omega arith) refl (omega arith),
  fields_prefetch prefetch visibility_timeout p v,
)
