-- ===== src/Protocol/Frame/Limits.antt =====
-- What `DecodeFrame` accepts of arbitrary bytes, and what it refuses by the length word alone.
use qwer_q.Common.{
  ℕ, ◌+◌, ◌-◌, ◌^◌, ◌<◌, ◌≤◌, ◌≡◌, refl, arith, [], ◌∷◌, ◌++◌, inl, inr, ltb, length, length-take,
  take-append-drop, Bool-cases, sym, ap, ◌∙◌, ◌⊎◌, append-All,
}
use qwer_q.Common.Strings.{Str, IsByte, IsBytes}
use qwer_q.Wire.{put_uint32, uint32_of}
use qwer_q.Wire.Laws.{uint32_of-put}
use qwer_q.Protocol.Frame.{
  Frame, Result, ok, err, max_frame_size, read_full, decode_frame, length_word, frame_of,
  frame_too_large, frame_too_small, message_too_large, FrameError,
}
use mathlib.Core.Path.{subst, ap₂}
use qwer_q.Protocol.Frame.RoundTrip.{read_full-append}

-- The length words that no limit admits, with the error each is due.
pub data Refused (max len : ℕ) : FrameError → Type 0 where
  beyond_frame : max_frame_size < len → Refused max len frame_too_large
  below_header : len < 2 → Refused max len frame_too_small
  beyond_message : len ≤ max_frame_size → max + 2 < len → Refused max len message_too_large

-- A 32-bit length word beyond a limit is refused with that limit's error whatever follows it: no
-- byte of the body is read.
pub decode_frame_refuses :
    (max len : ℕ) (rest : Str) (e : FrameError)
    → len < 2 ^ 32
    → Refused max len e
    → decode_frame max (put_uint32 len ++ rest) ≡ err e
unfolding decode_frame
decode_frame_refuses max len rest e h (beyond_frame big) =
    rw (read_full-append (put_uint32 len) rest 4 refl, uint32_of-put len h) (ground arith)
decode_frame_refuses max len rest e h (below_header small) =
    rw (read_full-append (put_uint32 len) rest 4 refl, uint32_of-put len h) (ground arith)
decode_frame_refuses max len rest e h (beyond_message fits big) =
    rw (read_full-append (put_uint32 len) rest 4 refl, uint32_of-put len h) (ground arith)

-- A reading of `n` bytes that succeeds took them off the front.
read_full_ok : (n : ℕ) (r s r' : Str) → read_full n r ≡ ok (s, r') → (length s ≡ n) × (r ≡ s ++ r')
unfolding read_full
read_full_ok n r s r' e = elim (Bool-cases (ltb (length r) n)) [
  | inl short ↦ absurd (ground arith)
  | inr long ↦ ground (arith, take-append-drop n r, length-take n r)
]

put-uint32_of :
    (a b c d : ℕ)
    → IsBytes (a ∷ b ∷ c ∷ d ∷ [])
    → put_uint32 (uint32_of a b c d) ≡ a ∷ b ∷ c ∷ d ∷ []
put-uint32_of a b c d h = ground arith

length_word-put : (s : Str) → length s ≡ 4 → IsBytes s → put_uint32 (length_word s) ≡ s
length_word-put [] h bs = absurd (omega arith)
length_word-put (a ∷ []) h bs = absurd (omega arith)
length_word-put (a ∷ b ∷ []) h bs = absurd (omega arith)
length_word-put (a ∷ b ∷ c ∷ []) h bs = absurd (omega arith)
length_word-put (a ∷ b ∷ c ∷ d ∷ []) h bs = put-uint32_of a b c d bs
length_word-put (a ∷ b ∷ c ∷ d ∷ e ∷ s) h bs = absurd (omega arith)

Result-cases {ℓ} :
    {A : Type ℓ} (m : Result A) → ((a : A) × (m ≡ ok a)) ⊎ ((e : FrameError) × (m ≡ err e))
Result-cases (ok a) = inl (a, refl)
Result-cases (err e) = inr (e, refl)

-- The two readings of an accepted frame, and the checks between them.
record Accepted (max : ℕ) (r : Str) (f : Frame) (r' : Str) : Type 0 where
  word : Str
  body : Str
  after : Str
  first : read_full 4 r ≡ ok (word, after)
  second : read_full (length_word word) after ≡ ok (body, r')
  parts : f ≡ frame_of body
  not_small : 2 ≤ length_word word
  not_big : length_word word ≤ max_frame_size
  fits : length_word word - 2 ≤ max

decode_frame-Accepted :
    (max : ℕ) (r : Str) (f : Frame) (r' : Str)
    → decode_frame max r ≡ ok (f, r')
    → Accepted max r f r'
unfolding decode_frame
decode_frame-Accepted max r f r' e = elim (Result-cases (read_full 4 r)) [
  | inr (x, q) ↦ absurd (ground (arith, q))
  | inl ((word, after), q) ↦ elim (Result-cases (read_full (length_word word) after)) [
    | inr (x, p) ↦ absurd (ground (arith, q, p))
    | inl ((body, r3), p) ↦
        let same : r3 ≡ r' = ground (arith, q, p) in
        record {
          word = word;
          body = body;
          after = after;
          first = q;
          second = p ∙ ap (λ t. ok (body, t)) same;
          parts = ground (arith, q, p);
          not_small = ground (arith, q, p);
          not_big = ground (arith, q, p);
          fits = ground (arith, q, p);
        }
  ]
]

frame_of-body :
    (body : Str)
    → 2 ≤ length body
    → (body ≡ (frame_of body).version ∷ (frame_of body).op_code ∷ (frame_of body).payload)
      × (length (frame_of body).payload + 2 ≡ length body)
frame_of-body [] h = absurd (omega arith)
frame_of-body (v ∷ []) h = absurd (omega arith)
frame_of-body (v ∷ op ∷ p) h = (refl, omega arith)

-- A frame that is accepted from bytes keeps both limits, and the bytes read are exactly the length
-- word, the version, the operation and the payload: `DecodeFrame` reads nothing else and skips
-- nothing.
pub decode_frame_sound :
    (max : ℕ) (r : Str) (f : Frame) (r' : Str)
    → IsBytes r
    → decode_frame max r ≡ ok (f, r')
    → (r ≡ put_uint32 (length f.payload + 2) ++ ((f.version ∷ f.op_code ∷ f.payload) ++ r'))
      × (length f.payload ≤ max)
      × (length f.payload + 2 ≤ max_frame_size)
decode_frame_sound max r f r' bs e =
    let a = decode_frame-Accepted max r f r' e in
    let (four, front) = read_full_ok 4 r a.word a.after a.first in
    let (len, back) = read_full_ok (length_word a.word) a.after a.body r' a.second in
    let (whole, count) = frame_of-body a.body (omega (arith, len, a.not_small)) in
    let word-bytes : IsBytes a.word =
      (append-All IsByte a.word a.after (subst IsBytes front bs)).0 in
    let size : length (frame_of a.body).payload + 2 ≡ length_word a.word = count ∙ len in
    rw (a.parts) (
      front
          ∙ ap (λ t. a.word ++ t) back
          ∙ sym (
              ap₂ (λ w b. put_uint32 w ++ (b ++ r')) size (sym whole)
              ∙ ap (λ w. w ++ (a.body ++ r')) (length_word-put a.word four word-bytes)),
      omega (arith, size, a.fits, a.not_small),
      omega (arith, size, a.not_big),
    )
