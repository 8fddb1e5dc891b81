-- ===== src/Storage/Codec/Fields.antt =====
-- Each reader of codec.go takes back what the matching writer appended, and leaves what follows.
use qwer_q.Common.{
  ℕ, ◌≡◌, refl, arith, [], ◌∷◌, ◌++◌, none, length, take-append, drop-append, length-append, sym,
  ap, ◌∙◌,
}
use qwer_q.Common.Strings.{Str}
use qwer_q.Common.Dict.{Dict, lookup, insert}
use qwer_q.Common.Int.{ℤ}
use qwer_q.Wire.{IsU64, IsI64, uvarint_bytes, varint_bytes}
use qwer_q.Wire.Laws.{read_uvarint-uvarint_bytes, read_varint-varint_bytes}
use qwer_q.Storage.Codec.{
  ok, append_bytes, append_headers, read_uvarint, read_varint, read_bytes, read_headers,
}
use mathlib.Core.List.{append_assoc, append-nil}

pub read_uvarint-append :
    (v : ℕ) (rest : Str) → IsU64 v → read_uvarint (uvarint_bytes v ++ rest) ≡ ok (v, rest)
unfolding read_uvarint
read_uvarint-append v rest h =
    rw (read_uvarint-uvarint_bytes v rest h, read_uvarint, drop-append (uvarint_bytes v) rest)

pub read_varint-append :
    (v : ℤ) (rest : Str) → IsI64 v → read_varint (varint_bytes v ++ rest) ≡ ok (v, rest)
unfolding read_varint
read_varint-append v rest h =
    rw (read_varint-varint_bytes v rest h, read_varint, drop-append (varint_bytes v) rest)

-- A string as `appendBytes` writes it.
abbrev pub text : Str → Str
text s = uvarint_bytes (length s) ++ s

pub read_bytes-append :
    (s rest : Str) → IsU64 (length s) → read_bytes (text s ++ rest) ≡ ok (s, rest)
unfolding read_bytes
read_bytes-append s rest h =
    rw
      (
        append_assoc (uvarint_bytes (length s)) s rest,
        read_uvarint-append (length s) (s ++ rest) h,
        take-append s rest,
        drop-append s rest,
      )
      (ground (arith, length-append s rest))

-- The headers as `encodeMessage` writes them.
unfoldable pub header_texts : Dict Str → Str
header_texts [] = []
header_texts ((k, v) ∷ hs) = text k ++ (text v ++ header_texts hs)

pub append_headers-header_texts :
    (buf : Str) (hs : Dict Str) → append_headers buf hs ≡ buf ++ header_texts hs
unfolding append_headers append_bytes header_texts
append_headers-header_texts buf [] = sym (append-nil buf)
append_headers-header_texts buf ((k, v) ∷ hs) =
    append_headers-header_texts (append_bytes (append_bytes buf k) v) hs ∙ simp append_assoc

-- Every key and value is short enough for its length to be a `uint64`, as in Go it always is.
abbrev pub Sized : Dict Str → Type 0
Sized [] = Unit {0}
Sized ((k, v) ∷ hs) = IsU64 (length k) × IsU64 (length v) × Sized hs

-- No key of the second list is in the first, or twice in the second.
abbrev pub NewKeys : Dict Str → Dict Str → Type 0
NewKeys m [] = Unit {0}
NewKeys m ((k, v) ∷ hs) = (lookup k m ≡ none) × NewKeys (m ++ ((k, v) ∷ [])) hs

insert_new : (k v : Str) (m : Dict Str) → lookup k m ≡ none → insert k v m ≡ m ++ ((k, v) ∷ [])
unfolding lookup insert
insert_new k v [] h = refl
insert_new k v ((j, w) ∷ m) h = ground (arith, insert_new k v m)

pub read_headers-header_texts :
    (hs m : Dict Str) (rest : Str)
    → Sized hs
    → NewKeys m hs
    → read_headers (length hs) (header_texts hs ++ rest) m ≡ ok (m ++ hs, rest)
unfolding read_headers header_texts
read_headers-header_texts [] m rest s n = rw (append-nil m)
read_headers-header_texts ((k, v) ∷ hs) m rest (hk, hv, s) (new, n) =
    rw
      (
        append_assoc (text k) (text v ++ header_texts hs) rest,
        append_assoc (text v) (header_texts hs) rest,
        read_bytes-append k (text v ++ (header_texts hs ++ rest)) hk,
        read_bytes-append v (header_texts hs ++ rest) hv,
        insert_new k v m new,
      )
      (read_headers-header_texts hs (m ++ ((k, v) ∷ [])) rest s n
        ∙ ap (λ t. ok (t, rest)) (append_assoc m ((k, v) ∷ []) hs))
