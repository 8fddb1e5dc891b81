-- ===== src/Broker/Server/Examples.antt =====
-- A connection on which the theorem on the gate is applied.
use qwer_q.Common.{ℕ, false, none, some, [], ◌∷◌, ◌≡◌, refl, arith}
use qwer_q.Common.Strings.{bytes, str_eq}
use qwer_q.Protocol.OpCode.{code, publish}
use qwer_q.Protocol.Frame.{Frame}
use qwer_q.Broker.Server.{AuthMessages, Requests, accept, serve}
use qwer_q.Broker.Server.Gate.{IsShort, refusal, serve-refuses}

-- A request to authenticate is its token.
abbrev plain : AuthMessages
plain = record {
  unmarshal_auth_request = λ s. some s;
  marshal_auth_response = λ b s. s;
  marshal_error_response = λ n s. n ∷ s;
}

-- Each handler panics.
abbrev crashing : Requests ℕ
crashing = record {
  handle_publish = λ p x. none;
  handle_consume = λ p x. none;
  handle_ack = λ p x. none;
  handle_nack = λ p x. none;
  handle_extend_visibility = λ p x. none;
  handle_seek = λ p x. none;
  handle_commit_offset = λ p x. none;
  handle_schema_register = λ p x. none;
  handle_schema_get = λ p x. none;
  handle_schema_list = λ x. none;
  handle_queue_list = λ x. none;
  handle_heartbeat = λ p x. none;
  handle_unsubscribe = λ p x. none;
  handle_call = λ p x. none;
}

abbrev request : Frame
request = record { version = 1; op_code = code publish; payload = bytes "job" }

plain-IsShort : IsShort plain
plain-IsShort = record {
  auth_answers = λ success text h. omega arith;
  errors = λ number text h. omega arith;
}

serve-refuses_example :
    serve plain crashing (bytes "secret") (request ∷ request ∷ []) (accept (bytes "secret") 3)
    ≡ some (record { authenticated = false; state = 3; written = refusal plain request ∷ [] })
unfolding str_eq
serve-refuses_example =
    serve-refuses plain plain-IsShort (bytes "secret") crashing request (request ∷ []) 3 refl refl
