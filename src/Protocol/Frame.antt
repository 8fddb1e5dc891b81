-- ===== src/Protocol/Frame.antt =====
-- internal/protocol/frame.go: frames on the wire. A reader is the list of the bytes that are still
-- to come, with the end of the stream behind them; a byte slice that a pool lends is the bytes that
-- `io.ReadFull` put there.
pub mod RoundTrip
pub mod Limits
use qwer_q.Common.{
  ℕ, zero, suc, ◌+◌, ◌-◌, ◌*◌, ◌%◌, ◌^◌, ◌<◌, ◌≤◌, Bool, true, false, Option, none, some, List, [],
  ◌∷◌, ◌++◌, ltb, ◌==◌, if◌then◌else◌, length, take, drop,
}
use qwer_q.Common.Strings.{Str}
use qwer_q.Wire.{put_uint32, uint32_of}

abbrev pub protocol_version : ℕ
protocol_version = 1

-- 16 MB
abbrev pub max_frame_size : ℕ
max_frame_size = 16 * 1024 * 1024

-- 1 MB
abbrev pub default_max_message_size : ℕ
default_max_message_size = 1 * 1024 * 1024

-- The errors of frame.go, and the two of `io.ReadFull`.
pub data FrameError : Type 0 where
  frame_too_large message_too_large frame_too_small eof unexpected_eof : FrameError

pub data Result {ℓ} (A : Type ℓ) : Type ℓ where
  ok : A → Result A
  err : FrameError → Result A

infixl 5 ◌>>=◌
abbrev pub ◌>>=◌ {ℓ κ} : {A : Type ℓ} {B : Type κ} → Result A → (A → Result B) → Result B
ok a >>= f = f a
err e >>= f = err e

abbrev pub guard : Bool → FrameError → Result (Unit {0})
guard true e = err e
guard false e = ok tt

infixl 5 ◌>>◌
abbrev pub ◌>>◌ {ℓ} : {B : Type ℓ} → Result (Unit {0}) → Result B → Result B
m >> k = m >>= λ _. k

pub record Frame : Type 0 where
  pub version : ℕ
  pub op_code : ℕ
  pub payload : Str

-- `EncodeFrame`. `length` and `4 + length` are uint32; on a buffer below six bytes the writes to
-- `frame[4]` and `frame[5]` panic, which is `none`; `copy` stops at the buffer's end.
pub encode_frame : ℕ → Str → Option Str
encode_frame op payload =
    let len = (2 + length payload) % 2 ^ 32 in
    let size = (4 + len) % 2 ^ 32 in
    if ltb size 6
    then none
    else some (put_uint32 len ++ (protocol_version ∷ op ∷ take (size - 6) payload))

-- `WriteFrame`: the bytes that it hands to the writer.
pub write_frame : ℕ → Str → Str
write_frame op payload =
    put_uint32 ((2 + length payload) % 2 ^ 32) ++ (protocol_version ∷ op ∷ payload)

is_empty : Str → Bool
is_empty [] = true
is_empty (b ∷ s) = false

-- `io.ReadFull` of `n` bytes, for `n` above 0.
unfoldable pub read_full : ℕ → Str → Result (Str × Str)
unfolding is_empty
read_full n s =
    if ltb (length s) n
    then err (if is_empty s then eof else unexpected_eof)
    else ok (take n s, drop n s)

-- `binary.BigEndian.Uint32(lengthBuf)`; `lengthBuf` has four bytes.
abbrev length_word : Str → ℕ
length_word (a ∷ b ∷ c ∷ d ∷ _) = uint32_of a b c d
length_word _ = 0

abbrev frame_of : Str → Frame
frame_of (v ∷ op ∷ p) = record { version = v; op_code = op; payload = p }
frame_of _ = record { version = 0; op_code = 0; payload = [] }

-- `DecodeFrame`, with the configured maximum message size.
unfoldable pub decode_frame : ℕ → Str → Result (Frame × Str)
decode_frame max_message_size r = do
  (length_buf, r') ← read_full 4 r
  let len = length_word length_buf
  guard (ltb max_frame_size len) frame_too_large
  guard (ltb len 2) frame_too_small
  guard (ltb max_message_size (len - 2)) message_too_large
  (frame_bytes, r'') ← read_full len r'
  ok (frame_of frame_bytes, r'')
