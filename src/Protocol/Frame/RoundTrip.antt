-- ===== src/Protocol/Frame/RoundTrip.antt =====
-- `DecodeFrame` reads back what `EncodeFrame` and `WriteFrame` write.
use qwer_q.Common.{
  ℕ, zero, suc, ◌+◌, ◌-◌, ◌%◌, ◌^◌, ◌<◌, ◌≤◌, ◌≡◌, refl, arith, List, [], ◌∷◌, ◌++◌, some, All, map,
  length, length-append, take-append, drop-append, take-length,
}
use qwer_q.Common.Strings.{Str}
use qwer_q.Wire.{put_uint32}
use qwer_q.Wire.Laws.{uint32_of-put}
use qwer_q.Protocol.Frame.{
  Frame, ok, ◌>>=◌, protocol_version, max_frame_size, encode_frame, write_frame, read_full,
  decode_frame, frame_of, Result,
}
use mathlib.Core.List.{append_assoc}

-- Reading as many bytes as stand in front gives those, and leaves the rest.
pub read_full-append :
    (s rest : Str) (n : ℕ) → length s ≡ n → read_full n (s ++ rest) ≡ ok (s, rest)
unfolding read_full
read_full-append s rest n h =
    rw (← h) (ground (arith, length-append s rest, take-append s rest, drop-append s rest))

-- `EncodeFrame` builds the bytes that `WriteFrame` writes, while the frame fits 32 bits.
pub encode_frame-write_frame :
    (op : ℕ) (payload : Str)
    → length payload + 6 < 2 ^ 32
    → encode_frame op payload ≡ some (write_frame op payload)
unfolding encode_frame write_frame
encode_frame-write_frame op payload h =
    let size : (4 + (2 + length payload) % 2 ^ 32) % 2 ^ 32 ≡ length payload + 6 = omega arith in
    let rest : length payload + 6 - 6 ≡ length payload = omega arith in
    rw (size, rest, take-length payload) (ground arith)

-- The four bytes of the length word, then that many.
decode_frame_step :
    (max len : ℕ) (body rest : Str)
    → len < 2 ^ 32
    → len ≤ max_frame_size
    → 2 ≤ len
    → len - 2 ≤ max
    → length body ≡ len
    → decode_frame max (put_uint32 len ++ (body ++ rest)) ≡ ok (frame_of body, rest)
unfolding decode_frame
decode_frame_step max len body rest h big small fits e =
    rw (read_full-append (put_uint32 len) (body ++ rest) 4 refl, uint32_of-put len h)
      (ground (arith, read_full-append body rest len e))

-- A frame that keeps the limits is read back whole, and what follows it is left.
pub decode_frame-write_frame :
    (max op : ℕ) (payload rest : Str)
    → length payload ≤ max
    → length payload + 2 ≤ max_frame_size
    → decode_frame max (write_frame op payload ++ rest)
      ≡ ok (record { version = protocol_version; op_code = op; payload = payload }, rest)
unfolding write_frame
decode_frame-write_frame max op payload rest fits big =
    let len : (2 + length payload) % 2 ^ 32 ≡ 2 + length payload = omega arith in
    rw len (
      decode_frame_step max (2 + length payload) (protocol_version ∷ op ∷ payload) rest
        (omega arith) (omega arith) (omega arith) (omega arith) (omega arith))

-- `n` calls of `DecodeFrame` on one reader.
pub decode_frames : ℕ → ℕ → Str → Result (List Frame × Str)
decode_frames max zero r = ok ([], r)
decode_frames max (suc n) r =
    decode_frame max r >>= λ f. decode_frames max n f.1 >>= λ fs. ok (f.0 ∷ fs.0, fs.1)

-- The bytes of several `WriteFrame` calls.
pub write_frames : List (ℕ × Str) → Str
write_frames [] = []
write_frames ((op, payload) ∷ fs) = write_frame op payload ++ write_frames fs

abbrev pub sent : ℕ × Str → Frame
sent f = record { version = protocol_version; op_code = f.0; payload = f.1 }

abbrev pub WithinLimits : ℕ → List (ℕ × Str) → Type 0
WithinLimits max = All (λ f. (length f.1 ≤ max) × (length f.1 + 2 ≤ max_frame_size))

-- Frames that keep the limits, written one after the other, are read back one after the other:
-- none runs into the next.
pub decode_frames-write_frames :
    (max : ℕ) (fs : List (ℕ × Str)) (rest : Str)
    → WithinLimits max fs
    → decode_frames max (length fs) (write_frames fs ++ rest) ≡ ok (map sent fs, rest)
unfolding decode_frames write_frames
decode_frames-write_frames max [] rest h = refl
decode_frames-write_frames max ((op, payload) ∷ fs) rest ((fits, big), hs) =
    rw (append_assoc (write_frame op payload) (write_frames fs) rest) (
      rw (decode_frame-write_frame max op payload (write_frames fs ++ rest) fits big)
        (rw (decode_frames-write_frames max fs rest hs)))
