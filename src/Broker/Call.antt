-- ===== src/Broker/Call.antt =====
-- internal/broker/call.go: requests that wait for a reply. A reply channel is a number, its contents
-- stand in `channels`; `time.After` may fire at any time. `none` is a panic.
pub mod Replies
mod Examples
pub mod Closing
use qwer_q.Common.{
  ℕ, ◌+◌, ◌*◌, Bool, true, false, Option, none, some, List, [], ◌∷◌, ◌++◌, ◌==◌, if◌then◌else◌,
  ◌>>=◌,
}
use qwer_q.Common.Strings.{Str, bytes}
use qwer_q.Common.Dict.{Dict, lookup, insert, delete}
use qwer_q.Common.Int.{pos}
use qwer_q.Types.{Message, Time, Duration}
use qwer_q.Broker.Base.{Error, second, no_hook}
use qwer_q.Broker.Group.{is_empty}
use qwer_q.Broker.Stream.{Fallible, ok, failed}
use qwer_q.Broker.Queue.Consumers.{dequeue, set_max_size}
use qwer_q.Broker.Queue.Acks.{ack_with_hook}
use qwer_q.Broker.Registry.{Broker, find_queue, put_queue, get_or_create_queue}
use qwer_q.Broker.Handlers.{PublishRequest, handle_publish}

abbrev pub reply_queue_prefix : Str
reply_queue_prefix = bytes "_reply."

-- 30 seconds
abbrev pub default_call_timeout : Duration
default_call_timeout = pos (30 * second)

-- A channel of one place.
pub record ReplyChannel : Type 0 where
  pub buf : Option Message
  pub closed : Bool

abbrev pub open_channel : ReplyChannel
open_channel = record { buf = none; closed = false }

-- `CallManager`; `pending` is `none` for the nil map that `Close` leaves.
pub record CallManager : Type 0 where
  pub pending : Option (Dict ℕ)
  pub reply_q : Str
  pub consumer : ℕ
  pub done : Bool
  pub channels : ℕ → ReplyChannel
  pub next_ch : ℕ

abbrev pub manager_of : Str → ℕ → CallManager
manager_of reply_q consumer = record {
  pending = some [];
  reply_q = reply_q;
  consumer = consumer;
  done = false;
  channels = λ c. open_channel;
  next_ch = 0;
}

-- `NewCallManager`: it consumes from a reply queue of its own.
pub new_call_manager :
    {S : Type 0} → Str → Time → Broker S × S → Option ((Broker S × S) × CallManager)
new_call_manager conn_id now t =
    let reply_q = reply_queue_prefix ++ conn_id in
    let r = get_or_create_queue reply_q t in
    r.1 >>= λ q. dequeue (pos (60 * second)) now (set_max_size (pos 1000) q) >>= λ d.
    some ((put_queue reply_q d.0 r.0.0, r.0.1), manager_of reply_q d.1)

abbrev pub set_channel : ℕ → ReplyChannel → (ℕ → ReplyChannel) → ℕ → ReplyChannel
set_channel c v channels d = if c == d then v else channels d

-- The `select` with a default, and `close(ch)`: both panic on a closed channel.
unfoldable pub send_and_close : Message → ReplyChannel → Option ReplyChannel
send_and_close msg c = if c.closed then none else elim c.buf [
  | none ↦ some (record { buf = some msg; closed = true })
  | some m ↦ some (record { buf = some m; closed = true })
]

-- `msg.Headers["correlation_id"]`, which is empty when missing.
unfoldable pub correlation_of : Message → Str
correlation_of msg = elim (lookup (bytes "correlation_id") msg.headers) [ none ↦ [] | some id ↦ id ]

-- The entry is taken off the map, and its channel gets the reply.
unfoldable pub deliver_reply : Str → Message → CallManager → Dict ℕ → Option ℕ → Option CallManager
deliver_reply id msg cm pending none = some cm
deliver_reply id msg cm pending (some c) = send_and_close msg (cm.channels c) >>= λ v.
    some (record cm { pending = some (delete id pending); channels = set_channel c v cm.channels })

unfoldable pub route_in : Str → Message → CallManager → Option (Dict ℕ) → Option CallManager
route_in id msg cm none = some cm
route_in id msg cm (some pending) = deliver_reply id msg cm pending (lookup id pending)

-- The caller that waits for the reply, if there is one, gets it.
abbrev pub route : Str → Message → CallManager → Option CallManager
route id msg cm = route_in id msg cm cm.pending

-- The acknowledgement of the reply.
unfoldable pub ack_reply : {S : Type 0} → Str → Str → Time → Broker S × S → Option (Broker S × S)
ack_reply reply_q id now (b, s) = elim (find_queue reply_q b) [
  | none ↦ some (b, s)
  | some q ↦ ack_with_hook no_hook id now (q, s) >>= λ r. some (put_queue reply_q r.0.0 b, r.0.1)
]

-- `handleReply`: a message without a correlation identifier is not acknowledged.
unfoldable pub handle_reply :
    {S : Type 0}
    → Message
    → Time
    → CallManager × (Broker S × S)
    → Option (CallManager × (Broker S × S))
handle_reply msg now (cm, t) =
    if is_empty (correlation_of msg)
    then some (cm, t)
    else route (correlation_of msg) msg cm >>= λ cm'.
        ack_reply cm.reply_q msg.id now t >>= λ t'. some (cm', t')

-- The reply channel that `Call` sets up; writing to the nil map panics.
unfoldable pub begin_call : Str → CallManager → Option (CallManager × ℕ)
begin_call id cm = cm.pending >>= λ pending. some (
  record cm {
    pending = some (insert id cm.next_ch pending);
    channels = set_channel cm.next_ch open_channel cm.channels;
    next_ch = cm.next_ch + 1;
  },
  cm.next_ch,
)

unfoldable pub end_in : Str → CallManager → Option (Dict ℕ) → CallManager
end_in id cm none = cm
end_in id cm (some pending) = record cm { pending = some (delete id pending) }

-- What `Call` does when it returns; deleting from the nil map does nothing.
abbrev pub end_call : Str → CallManager → CallManager
end_call id cm = end_in id cm cm.pending

-- The publish request of a call.
pub call_request : Str → Str → Str → Str → Dict Str → PublishRequest
call_request id reply_q queue payload headers = record {
  queue = queue;
  payload = payload;
  headers = insert (bytes "correlation_id") id (insert (bytes "reply_to") reply_q headers);
  message_id = [];
  ordering_key = [];
  idempotency_key = [];
}

-- What the outcome of the publish leads to: the channel to wait on, or the error.
unfoldable pub published :
    {S : Type 0}
    → Str
    → CallManager × ℕ
    → (Broker S × S) × Fallible Str
    → (CallManager × (Broker S × S)) × Fallible ℕ
published id (cm, c) (t, ok mid) = ((cm, t), ok c)
published id (cm, c) (t, failed e) = ((end_call id cm, t), failed e)

-- `Call` up to its wait. `id` and `fresh_id` are what `NewULID` gives.
pub start_call :
    {S : Type 0}
    → Str
    → Str
    → Str
    → Str
    → Dict Str
    → Time
    → CallManager × (Broker S × S)
    → Option ((CallManager × (Broker S × S)) × Fallible ℕ)
start_call id fresh_id queue payload headers now (cm, t) = begin_call id cm >>= λ r.
    handle_publish (call_request id cm.reply_q queue payload headers) fresh_id now t >>= λ p.
    some (published id r p)

-- What a receive on a reply channel finds.
pub data Received : Type 0 where
  nothing_yet : Received
  reply : Message → Received
  nil_reply : Received

unfoldable pub received : ReplyChannel → Received
received c = elim c.buf [ some m ↦ reply m | none ↦ if c.closed then nil_reply else nothing_yet ]

-- The two ends of `Call`.
pub data CallResult : Type 0 where
  response : Str → Dict Str → CallResult
  call_timeout : CallResult

-- What a receive leads to: a nil reply is dereferenced.
unfoldable pub settled : Received → Option (Option CallResult)
settled (reply m) = some (some (response m.payload m.headers))
settled nil_reply = none
settled nothing_yet = some none

-- The wait of `Call`: `timer` tells whether the case of the timer is taken.
unfoldable pub await : Bool → ℕ → CallManager → Option (Option CallResult)
await true c cm = some (some call_timeout)
await false c cm = settled (received (cm.channels c))

-- The channels of the callers that wait are closed.
unfoldable pub close_all : Dict ℕ → (ℕ → ReplyChannel) → Option (ℕ → ReplyChannel)
close_all [] channels = some channels
close_all ((id, c) ∷ pending) channels =
    if (channels c).closed
    then none
    else close_all pending (set_channel c (record (channels c) { closed = true }) channels)

-- What a nil map ranges over.
unfoldable pub ranged : Option (Dict ℕ) → Dict ℕ
ranged none = []
ranged (some pending) = pending

-- `Close`, whose `close(cm.done)` panics the second time.
unfoldable pub close : CallManager → Option CallManager
close cm =
    if cm.done
    then none
    else close_all (ranged cm.pending) cm.channels >>= λ channels.
        some (record cm { pending = none; channels = channels; done = true })
