-- ===== src/Cluster/Fsm.antt =====
-- internal/cluster/fsm.go: the commands that Raft commits, applied to the broker. The JSON texts are
-- an interface of decoders. `none` is a panic.
pub mod Snapshot
pub mod Snapshots
use qwer_q.Common.{
  ℕ, suc, ◌+◌, ◌-◌, ◌*◌, Bool, true, false, Option, none, some, List, [], ◌∷◌, ◌++◌, map, ◌==◌,
  if◌then◌else◌, ◌>>=◌, is_some,
}
use qwer_q.Common.Strings.{Str}
use qwer_q.Common.Dict.{Dict, lookup, insert}
use qwer_q.Common.Int.{ℤ, pos, negsuc}
use qwer_q.Types.{Message, Time}
use qwer_q.Broker.Base.{Error, no_hook}
use qwer_q.Broker.Queue
use qwer_q.Broker.Queue.{Queue, enqueue_direct}
use qwer_q.Broker.Queue.Acks.{ack_with_hook, nack_with_hooks}
use qwer_q.Broker.Stream.{Fallible, ok, failed, StreamQueue, publish}
use qwer_q.Broker.Stream.Retention.{unix_milli}
use qwer_q.Broker.Registry.{Storage, Broker, find_queue, put_queue}
use qwer_q.Broker.Handlers.{save_in, delete_in, as_enqueued}
use qwer_q.Broker.Recovery.{
  FullBroker, find_stream_queue, put_stream_queue, get_or_create_stream_queue, queue_in,
  list_queues, reset_for_restore,
}

-- `CommandType`, a uint8: the named values, and any other.
pub data CommandType : Type 0 where
  cmd_publish cmd_ack cmd_nack cmd_create_queue cmd_delete_queue cmd_schema_register : CommandType
  cmd_other : ℕ → CommandType

-- `Command`
pub record Command : Type 0 where
  pub type : CommandType
  pub payload : Str

pub record PublishCommand : Type 0 where
  pub queue : Str
  pub message_id : Str
  pub payload : Str
  pub headers : Dict Str
  pub published_at : ℤ
  pub stream : Bool

pub record AckCommand : Type 0 where
  pub queue : Str
  pub message_id : Str

pub record NackCommand : Type 0 where
  pub queue : Str
  pub message_id : Str
  pub requeue : Bool

-- `CreateQueueCommand`, and `SchemaRegisterCommand`, of which the queue alone is read.
pub record CreateQueueCommand : Type 0 where
  pub name : Str

-- `json.Unmarshal` into the commands.
pub record Decoders : Type 0 where
  pub command : Str → Option Command
  pub publish_command : Str → Option PublishCommand
  pub ack_command : Str → Option AckCommand
  pub nack_command : Str → Option NackCommand
  pub create_queue_command : Str → Option CreateQueueCommand
  pub schema_register_command : Str → Option CreateQueueCommand

-- The errors of a response.
pub data FsmError : Type 0 where
  unmarshal_failed delete_not_implemented : FsmError
  queue_not_found : Str → FsmError
  unknown_command : ℕ → FsmError
  broker_error : Error → FsmError

-- `FSMResponse`; the version is never set.
pub record FsmResponse : Type 0 where
  pub error : Option FsmError
  pub message_id : Str

abbrev pub refused : FsmError → FsmResponse
refused e = record { error = some e; message_id = [] }

abbrev pub done_with : Str → FsmResponse
done_with id = record { error = none; message_id = id }

-- `time.UnixMilli`
abbrev pub of_unix_milli : ℤ → Time
of_unix_milli (pos n) = pos (n * 1000000)
of_unix_milli (negsuc n) = negsuc ((n + 1) * 1000000 - 1)

-- The message of a publish command.
abbrev pub published : PublishCommand → Message
published cmd = record {
  id = cmd.message_id;
  queue = cmd.queue;
  payload = cmd.payload;
  headers = cmd.headers;
  attempt = 0;
  published_at = of_unix_milli cmd.published_at;
  visible_at = of_unix_milli cmd.published_at;
  ordering_key = [];
  sequence = 0;
}

-- The result of a command on the broker.
abbrev pub Applied : Type 0 → Type 0
Applied S = Option ((FullBroker S × S) × FsmResponse)

-- What the outcome of `Publish` leads to.
unfoldable pub after_stream :
    {S : Type 0}
    → PublishCommand
    → FullBroker S
    → (StreamQueue S × S) × Fallible ℕ
    → (FullBroker S × S) × FsmResponse
after_stream cmd b ((sq, s), failed e) =
    ((put_stream_queue cmd.queue sq b, s), refused (broker_error e))
after_stream cmd b ((sq, s), ok seq) =
    ((put_stream_queue cmd.queue sq b, s), done_with cmd.message_id)

-- What the outcome of `Enqueue` leads to; a failure of `SaveMessage` is only logged.
unfoldable pub after_enqueue :
    {S : Type 0}
    → PublishCommand
    → FullBroker S
    → S
    → Queue × Option Error
    → (FullBroker S × S) × FsmResponse
after_enqueue cmd b s (q, some e) = ((b, s), refused (broker_error e))
after_enqueue cmd b s (q, none) = (
  (
    record b { broker = put_queue cmd.queue q b.broker },
    (save_in b.broker.storage (as_enqueued (published cmd) q none) s).0,
  ),
  done_with cmd.message_id,
)

-- The part of `applyPublish` behind the decoding. A nil queue is used.
unfoldable pub publish_to : {S : Type 0} → PublishCommand → Time → FullBroker S × S → Applied S
publish_to cmd now t =
    if cmd.stream
    then (let r = get_or_create_stream_queue cmd.queue t in
        r.1 >>= λ sq. some (after_stream cmd r.0.0 (publish (published cmd) (sq, r.0.1))))
    else (let r = queue_in cmd.queue t in
        r.1 >>= λ q.
        Queue.enqueue (published cmd) now q >>= λ o. some (after_enqueue cmd r.0.0 r.0.1 o))

-- `applyPublish`
unfoldable pub apply_publish : {S : Type 0} → Decoders → Str → Time → FullBroker S × S → Applied S
apply_publish dec text now t = elim (dec.publish_command text) [
  | none ↦ some (t, refused unmarshal_failed)
  | some cmd ↦ publish_to cmd now t
]

-- The part of `applyAck` behind the decoding; the outcome of `DeleteMessage` is dropped.
unfoldable pub ack_at : {S : Type 0} → AckCommand → Time → FullBroker S × S → Applied S
ack_at cmd now (b, s) = elim (find_queue cmd.queue b.broker) [
  | none ↦ some ((b, s), refused (queue_not_found cmd.queue))
  | some q ↦ ack_with_hook no_hook cmd.message_id now (q, s) >>= λ r. some (
    (
      record b { broker = put_queue cmd.queue r.0.0 b.broker },
      (delete_in b.broker.storage cmd.queue cmd.message_id s).0,
    ),
    done_with [],
  )
]

-- `applyAck`
unfoldable pub apply_ack : {S : Type 0} → Decoders → Str → Time → FullBroker S × S → Applied S
apply_ack dec text now t = elim (dec.ack_command text) [
  | none ↦ some (t, refused unmarshal_failed)
  | some cmd ↦ ack_at cmd now t
]

-- The part of `applyNack` behind the decoding. What `Nack` hands out is dropped.
unfoldable pub nack_at : {S : Type 0} → NackCommand → Time → FullBroker S × S → Applied S
nack_at cmd now (b, s) = elim (find_queue cmd.queue b.broker) [
  | none ↦ some ((b, s), refused (queue_not_found cmd.queue))
  | some q ↦ nack_with_hooks no_hook no_hook cmd.message_id cmd.requeue now (q, s) >>= λ r.
      some ((record b { broker = put_queue cmd.queue r.0.0 b.broker }, s), done_with [])
]

-- `applyNack`
unfoldable pub apply_nack : {S : Type 0} → Decoders → Str → Time → FullBroker S × S → Applied S
apply_nack dec text now t = elim (dec.nack_command text) [
  | none ↦ some (t, refused unmarshal_failed)
  | some cmd ↦ nack_at cmd now t
]

-- `applyCreateQueue` and `applySchemaRegister`: they make sure that there is a queue.
unfoldable pub apply_create_queue :
    {S : Type 0} → Option CreateQueueCommand → FullBroker S × S → Applied S
apply_create_queue none t = some (t, refused unmarshal_failed)
apply_create_queue (some cmd) t = some ((queue_in cmd.name t).0, done_with [])

-- The switch of `Apply`.
unfoldable pub apply_command :
    {S : Type 0} → Decoders → CommandType → Str → Time → FullBroker S × S → Applied S
apply_command dec cmd_publish text now t = apply_publish dec text now t
apply_command dec cmd_ack text now t = apply_ack dec text now t
apply_command dec cmd_nack text now t = apply_nack dec text now t
apply_command dec cmd_create_queue text now t = apply_create_queue (dec.create_queue_command text) t
apply_command dec cmd_delete_queue text now t = some (t, refused delete_not_implemented)
apply_command dec cmd_schema_register text now t =
    apply_create_queue (dec.schema_register_command text) t
apply_command dec (cmd_other n) text now t = some (t, refused (unknown_command n))

-- `Apply`
pub apply : {S : Type 0} → Decoders → Str → Time → FullBroker S × S → Applied S
apply dec log now t = elim (dec.command log) [
  | none ↦ some (t, refused unmarshal_failed)
  | some cmd ↦ apply_command dec cmd.type cmd.payload now t
]
