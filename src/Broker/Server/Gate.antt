-- ===== src/Broker/Server/Gate.antt =====
-- The gate of internal/broker/server.go: a client that has not authenticated reaches no handler.
use qwer_q.Common.{
  ℕ, ◌+◌, ◌^◌, ◌<◌, Bool, false, ◌&&◌, Option, none, some, List, [], ◌∷◌, ◌==◌, if◌then◌else◌,
  ◌>>=◌, ◌≡◌, ap, inl, inr, arith, length, Bool-cases,
}
use qwer_q.Common.Strings.{Str, bytes, str_eq}
use qwer_q.Protocol.Frame.{Frame, write_frame}
use qwer_q.Protocol.Frame.RoundTrip.{encode_frame-write_frame}
use qwer_q.Broker.Server.{
  AuthMessages, Requests, accept, compare_token, write, after_auth, round, proceed, serve,
}

-- The messages that a refusal is made of fit a frame, as those of protobuf with texts of this length
-- do.
pub record IsShort (pb : AuthMessages) : Type 0 where
  pub auth_answers :
      (success : Bool) (text : Str)
      → length text < 100
      → length (pb.marshal_auth_response success text) + 6 < 2 ^ 32
  pub errors :
      (number : ℕ) (text : Str)
      → length text < 100
      → length (pb.marshal_error_response number text) + 6 < 2 ^ 32

-- The token is the server's.
abbrev pub carries : Str → Option Str → Bool
carries auth_token none = false
carries auth_token (some token) = str_eq token auth_token

-- The frame asks to authenticate, with the server's token.
abbrev pub admits : AuthMessages → Str → Frame → Bool
admits pb auth_token frame =
    (frame.op_code == 0x40) && carries auth_token (pb.unmarshal_auth_request frame.payload)

-- The frame that a refused client gets.
abbrev pub refusal_text : Option Str → Str
refusal_text none = bytes "invalid auth request"
refusal_text (some token) = bytes "invalid token"

abbrev pub refusal : AuthMessages → Frame → Str
refusal pb frame =
    if frame.op_code == 0x40
    then write_frame 0x41
        (pb.marshal_auth_response false (refusal_text (pb.unmarshal_auth_request frame.payload)))
    else write_frame 0x07 (pb.marshal_error_response 9 (bytes "authentication required"))

module _ (pb : AuthMessages) (short : IsShort pb) (auth_token : Str) where
  -- A token that is not the server's is refused.
  compare_token-refused :
      (token : Option Str)
      → carries auth_token token ≡ false
      → compare_token pb auth_token false token
        ≡ (false, some (write_frame 0x41 (pb.marshal_auth_response false (refusal_text token))))
  unfolding compare_token
  compare_token-refused none c =
      ap (λ r. (false, r))
        (encode_frame-write_frame 0x41 _
          (short.auth_answers false (bytes "invalid auth request") (omega arith)))
  compare_token-refused (some token) c = rw c (
      ap (λ r. (false, r))
        (encode_frame-write_frame 0x41 _
          (short.auth_answers false (bytes "invalid token") (omega arith))))

  module _ {X : Type 0} (h : Requests X) where
    -- The first round on a connection that needs to authenticate, where the frame is not let through.
    round-refused :
        (frame : Frame) (x : X)
        → str_eq auth_token [] ≡ false
        → admits pb auth_token frame ≡ false
        → round pb h auth_token frame (accept auth_token x)
          ≡ some
              (record { authenticated = false; state = x; written = refusal pb frame ∷ [] }, false)
    unfolding round after_auth write
    round-refused frame x t a = elim (Bool-cases (frame.op_code == 0x40)) [
      | inl b ↦
          rw (t, b)
            (ap (after_auth (record { authenticated = false; state = x; written = [] }))
              (compare_token-refused (pb.unmarshal_auth_request frame.payload) (rw b at a)))
      | inr b ↦
          rw (t, b)
            (ap
              (λ o. o >>= λ resp.
                some
                  (write resp (record { authenticated = false; state = x; written = [] }), false))
              (encode_frame-write_frame 0x07 _
                (short.errors 9 (bytes "authentication required") (omega arith))))
    ]

    -- On a server with a token, a connection whose first frame is no request to authenticate that
    -- decodes to the server's token gets one frame, the refusal, and is over, whatever frames follow:
    -- no handler runs on their state, and the connection is not authenticated. The marshalled answers
    -- are to fit a frame.
    pub serve-refuses :
        (frame : Frame) (frames : List Frame) (x : X)
        → str_eq auth_token [] ≡ false
        → admits pb auth_token frame ≡ false
        → serve pb h auth_token (frame ∷ frames) (accept auth_token x)
          ≡ some (record { authenticated = false; state = x; written = refusal pb frame ∷ [] })
    unfolding serve proceed
    serve-refuses frame frames x t a =
        ap (λ o. o >>= proceed (serve pb h auth_token frames)) (round-refused frame x t a)
