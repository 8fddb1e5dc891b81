-- ===== src/Protocol/Examples.antt =====
-- The codecs on concrete bytes.
use qwer_q.Common.{ℕ, ◌≤◌, ◌≡◌, refl, arith, true, some, List, [], ◌∷◌, ◌++◌, map}
use qwer_q.Common.Strings.{Str, bytes}
use qwer_q.Wire.{put_uint32, read_uvarint}
use qwer_q.Protocol.Frame.{Frame, decode_frame, read_full, ok, max_frame_size}
use qwer_q.Protocol.Frame.RoundTrip.{decode_frames, write_frames, sent, decode_frames-write_frames}
use qwer_q.Protocol.Frame.Limits.{decode_frame_sound}
use qwer_q.Protocol.Payload.{
  encode_publish_response_payload, decode_publish_response_payload,
  encode_simple_publish_request_payload,
}
use qwer_q.Protocol.Payload.Response.{decode-encode_publish_response}
use qwer_q.Protocol.Payload.Fields.{text, fields, fields-encode_simple_publish_request}

abbrev two_frames : List (ℕ × Str)
two_frames = (1, bytes "hi") ∷ (2, []) ∷ []

decode_frames-write_frames_example :
    decode_frames 10 2 (write_frames two_frames ++ (7 ∷ [])) ≡ ok (map sent two_frames, 7 ∷ [])
decode_frames-write_frames_example =
    decode_frames-write_frames 10 two_frames (7 ∷ [])
      ((omega arith, omega arith), ((omega arith, omega arith), tt))

abbrev frame_bytes : Str
frame_bytes = 0 ∷ 0 ∷ 0 ∷ 3 ∷ 1 ∷ 4 ∷ 104 ∷ 9 ∷ []

abbrev the_frame : Frame
the_frame = record { version = 1; op_code = 4; payload = 104 ∷ [] }

reads : decode_frame 10 frame_bytes ≡ ok (the_frame, 9 ∷ [])
unfolding decode_frame read_full
reads = refl

decode_frame_sound_example :
    (frame_bytes ≡ put_uint32 3 ++ ((1 ∷ 4 ∷ 104 ∷ []) ++ (9 ∷ [])))
    × (1 ≤ 10)
    × (3 ≤ max_frame_size)
decode_frame_sound_example =
    decode_frame_sound 10 frame_bytes the_frame (9 ∷ [])
      (
        omega arith,
        (
          omega arith,
          (
            omega arith,
            (omega arith, (omega arith, (omega arith, (omega arith, (omega arith, tt))))),
          ),
        ),
      )
      reads

decode-encode_publish_response_example :
    decode_publish_response_payload (encode_publish_response_payload (bytes "id"))
    ≡ some (bytes "id", true)
decode-encode_publish_response_example = decode-encode_publish_response (bytes "id") (omega arith)

abbrev letter : Str
letter = 65 ∷ []

abbrev answer : Str
answer = 10 ∷ 1 ∷ 65 ∷ []

accepts : decode_publish_response_payload answer ≡ some (letter, true)
unfolding decode_publish_response_payload read_uvarint
accepts = refl

fields-encode_simple_publish_request_example :
    fields 2 (encode_simple_publish_request_payload (bytes "jobs") (bytes "work"))
    ≡ some (text 1 (bytes "jobs") ∷ text 2 (bytes "work") ∷ [])
fields-encode_simple_publish_request_example =
    fields-encode_simple_publish_request (bytes "jobs") (bytes "work") (omega arith) (omega arith)
