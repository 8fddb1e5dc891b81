-- ===== src/Broker/Server.antt =====
-- internal/broker/server.go: the loop of a connection over the frames that `DecodeFrame` reads until
-- its first error, the authentication, and the switch on operations. The generated code of protobuf
-- is a parameter, and so is what a handler does with a payload, on a state of any type: the loop and
-- the switch hand the payloads on. `none` is a panic.
pub mod Gate
mod Examples
use qwer_q.Common.{
  ℕ, Bool, true, false, Option, none, some, List, [], ◌∷◌, ◌++◌, ◌==◌, if◌then◌else◌, ◌>>=◌,
}
use qwer_q.Common.Strings.{Str, bytes, str_eq}
use qwer_q.Protocol.OpCode.{
  code, publish, consume, ack, nack, extend_visibility, seek, commit_offset, schema_register,
  schema_get, schema_list, queue_list, heartbeat, unsubscribe, call, error, auth, auth_response,
}
use qwer_q.Protocol.Frame.{Frame, encode_frame}

-- The messages `AuthRequest`, of which the token is read, `AuthResponse` and `ErrorResponse`.
pub record AuthMessages : Type 0 where
  pub unmarshal_auth_request : Str → Option Str
  pub marshal_auth_response : Bool → Str → Str
  pub marshal_error_response : ℕ → Str → Str

-- `EncodeError`
abbrev pub encode_error : AuthMessages → ℕ → Str → Option Str
encode_error pb number text = encode_frame (code error) (pb.marshal_error_response number text)

-- What a handler does to the state, and the response that the loop is to write, if any.
abbrev pub Handler : Type 0 → Type 0
Handler X = X → Option (X × Option Str)

-- The handlers of the server, on the payload of a frame.
pub record Requests (X : Type 0) : Type 0 where
  pub handle_publish : Str → Handler X
  pub handle_consume : Str → Handler X
  pub handle_ack : Str → Handler X
  pub handle_nack : Str → Handler X
  pub handle_extend_visibility : Str → Handler X
  pub handle_seek : Str → Handler X
  pub handle_commit_offset : Str → Handler X
  pub handle_schema_register : Str → Handler X
  pub handle_schema_get : Str → Handler X
  pub handle_schema_list : Handler X
  pub handle_queue_list : Handler X
  pub handle_heartbeat : Str → Handler X
  pub handle_unsubscribe : Str → Handler X
  pub handle_call : Str → Handler X

-- A switch on a number: the first case that it is, or the default.
abbrev pub switch : {A : Type 0} → ℕ → List (ℕ × A) → A → A
switch n [] default = default
switch n ((m, a) ∷ cases) default = if n == m then a else switch n cases default

-- The default case.
abbrev pub unknown : {X : Type 0} → AuthMessages → Handler X
unknown pb x = encode_error pb 1 (bytes "unknown opcode") >>= λ resp. some (x, some resp)

-- `handleFrame`
unfoldable pub handle_frame : {X : Type 0} → AuthMessages → Requests X → Frame → Handler X
handle_frame pb h frame =
    switch frame.op_code
      ((code publish, h.handle_publish frame.payload)
        ∷ (code consume, h.handle_consume frame.payload)
        ∷ (code ack, h.handle_ack frame.payload)
        ∷ (code nack, h.handle_nack frame.payload)
        ∷ (code extend_visibility, h.handle_extend_visibility frame.payload)
        ∷ (code seek, h.handle_seek frame.payload)
        ∷ (code commit_offset, h.handle_commit_offset frame.payload)
        ∷ (code schema_register, h.handle_schema_register frame.payload)
        ∷ (code schema_get, h.handle_schema_get frame.payload)
        ∷ (code schema_list, h.handle_schema_list)
        ∷ (code queue_list, h.handle_queue_list)
        ∷ (code heartbeat, h.handle_heartbeat frame.payload)
        ∷ (code unsubscribe, h.handle_unsubscribe frame.payload)
        ∷ (code call, h.handle_call frame.payload)
        ∷ [])
      (unknown pb)

-- The frame of an `AuthResponse`.
abbrev pub auth_answer : AuthMessages → Bool → Str → Option Str
auth_answer pb success text =
    encode_frame (code auth_response) (pb.marshal_auth_response success text)

-- The part of `handleAuth` behind the decoding: `authenticated` and the response.
unfoldable pub compare_token : AuthMessages → Str → Bool → Option Str → Bool × Option Str
compare_token pb auth_token authenticated none =
    (authenticated, auth_answer pb false (bytes "invalid auth request"))
compare_token pb auth_token authenticated (some token) =
    if str_eq token auth_token
    then (true, auth_answer pb true (bytes "authenticated"))
    else (authenticated, auth_answer pb false (bytes "invalid token"))

-- `handleAuth`
abbrev pub handle_auth : AuthMessages → Str → Str → Bool → Bool × Option Str
handle_auth pb auth_token payload authenticated =
    compare_token pb auth_token authenticated (pb.unmarshal_auth_request payload)

-- What the loop keeps of `connState`, the state of the handlers, and what was written.
pub record Connection (X : Type 0) : Type 0 where
  pub authenticated : Bool
  pub state : X
  pub written : List Str

-- The connection as `handleConn` starts it: without a token nobody needs to authenticate.
abbrev pub accept : {X : Type 0} → Str → X → Connection X
accept auth_token x = record { authenticated = str_eq auth_token []; state = x; written = [] }

unfoldable pub write : {X : Type 0} → Str → Connection X → Connection X
write resp c = record c { written = c.written ++ (resp ∷ []) }

-- What a handler returns.
unfoldable pub after_frame : {X : Type 0} → Connection X → X × Option Str → Connection X × Bool
after_frame c (x, none) = (record c { state = x }, true)
after_frame c (x, some resp) = (write resp (record c { state = x }), true)

-- What `handleAuth` returns: the loop goes on if the client is authenticated.
unfoldable pub after_auth :
    {X : Type 0} → Connection X → Bool × Option Str → Option (Connection X × Bool)
after_auth c (authenticated, resp) =
    resp >>= λ r. some (write r (record c { authenticated = authenticated }), authenticated)

-- A round of the loop of `handleConn` on a frame, and whether the loop goes on.
unfoldable pub round :
    {X : Type 0}
    → AuthMessages
    → Requests X
    → Str
    → Frame
    → Connection X
    → Option (Connection X × Bool)
round pb h auth_token frame c =
    if c.authenticated
    then (handle_frame pb h frame c.state >>= λ r. some (after_frame c r))
    else (if frame.op_code == code auth
        then after_auth c (handle_auth pb auth_token frame.payload c.authenticated)
        else (encode_error pb 9 (bytes "authentication required") >>= λ resp.
            some (write resp c, false)))

-- What follows a round.
unfoldable pub proceed :
    {X : Type 0}
    → (Connection X → Option (Connection X))
    → Connection X × Bool
    → Option (Connection X)
proceed next (c, true) = next c
proceed next (c, false) = some c

-- The loop of `handleConn`.
unfoldable pub serve :
    {X : Type 0}
    → AuthMessages
    → Requests X
    → Str
    → List Frame
    → Connection X
    → Option (Connection X)
serve pb h auth_token [] c = some c
serve pb h auth_token (frame ∷ frames) c =
    round pb h auth_token frame c >>= proceed (serve pb h auth_token frames)
