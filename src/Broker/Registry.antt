-- ===== src/Broker/Registry.antt =====
-- internal/broker/broker.go: the broker's queues by name, and the names of dlq.go. The storage is an
-- interface of operations on a state `S`. `none` is a panic, here of a nil queue that is used.
use qwer_q.Common.{
  ℕ, ◌*◌, ◌-◌, Bool, false, ◌&&◌, Option, none, some, List, [], ◌++◌, ltb, ◌==◌, if◌then◌else◌,
  length, drop,
}
use qwer_q.Common.Strings.{Str, bytes, str_eq}
use qwer_q.Common.Dict.{Dict, lookup, insert}
use qwer_q.Common.Int.{ℤ, pos}
use qwer_q.Types.{Message}
use qwer_q.Broker.Base.{Error, memory_pressure, FailurePolicy}
use qwer_q.Broker.Dedup.{IdempotencyTracker, new_idempotency_tracker, default_idempotency_ttl}
use qwer_q.Broker.Stream.{Fallible}
use qwer_q.Broker.Queue.{Queue, new_queue}
use qwer_q.Broker.Queue.Acks.{purge}

-- `storage.QueueConfig`. The mode is the string of a `QueueMode`; a failure policy that is not set is
-- the empty one of `other`.
pub record QueueConfig : Type 0 where
  pub max_size : ℤ
  pub max_size_set : Bool
  pub max_retries : ℕ
  pub failure_policy : FailurePolicy
  pub mode : Str
  pub retention_max_age : ℤ
  pub retention_max_bytes : ℤ

-- The operations of `storage.Storage`, but for `Close`.
pub record Storage (S : Type 0) : Type 0 where
  pub save_message : Message → S → S × Option Error
  pub delete_message : Str → Str → S → S × Option Error
  pub delete_queue_messages : Str → S → S × Option Error
  pub load_messages : Str → S → Fallible (List Message)
  pub save_queue : Str → QueueConfig → S → S × Option Error
  pub load_queues : S → Fallible (Dict QueueConfig)

-- `Broker`; `storage` and `dedup` are `none` where the source has nil.
pub record Broker (S : Type 0) : Type 0 where
  pub queues : Dict Queue
  pub storage : Option (Storage S)
  pub dedup : Option IdempotencyTracker
  pub memory_limit : ℕ
  pub cached_alloc : ℕ

abbrev pub default_memory_limit : ℕ
default_memory_limit = 400 * 1024 * 1024

-- `NewBroker`, with the storage as its option.
pub new_broker : {S : Type 0} → Option (Storage S) → Broker S
new_broker storage = record {
  queues = [];
  storage = storage;
  dedup = some (new_idempotency_tracker default_idempotency_ttl);
  memory_limit = default_memory_limit;
  cached_alloc = 0;
}

-- `CheckMemoryPressure`, and `CheckMemoryPressureEager`, which calls it.
unfoldable pub check_memory_pressure : {S : Type 0} → Broker S → Option Error
check_memory_pressure b =
    if b.memory_limit == 0
    then none
    else if ltb b.memory_limit b.cached_alloc
    then some memory_pressure
    else none

-- `GetQueue`
abbrev pub find_queue : {S : Type 0} → Str → Broker S → Option Queue
find_queue name b = lookup name b.queues

-- A queue is changed in place.
abbrev pub put_queue : {S : Type 0} → Str → Queue → Broker S → Broker S
put_queue name q b = record b { queues = insert name q b.queues }

-- The configuration of a new queue is saved.
unfoldable pub save_config : {S : Type 0} → Str → Queue → Option (Storage S) → S → S × Option Error
save_config name q none s = (s, none)
save_config name q (some st) s =
    st.save_queue name
      (record {
        max_size = q.max_size;
        max_size_set = false;
        max_retries = q.max_retries;
        failure_policy = q.failure_policy;
        mode = [];
        retention_max_age = pos 0;
        retention_max_bytes = pos 0;
      })
      s

-- What follows the saving: a queue whose configuration is not saved is not kept.
unfoldable pub register :
    {S : Type 0}
    → Str
    → Queue
    → Broker S
    → S × Option Error
    → (Broker S × S) × Option Queue × Option Error
register name q b (s, some e) = ((b, s), none, some e)
register name q b (s, none) = ((put_queue name q b, s), some q, none)

-- `GetOrCreateQueueWithError`: the queue, or nil and the error.
unfoldable pub get_or_create_queue_with_error :
    {S : Type 0} → Str → Broker S × S → (Broker S × S) × Option Queue × Option Error
get_or_create_queue_with_error name (b, s) = elim (find_queue name b) [
  | some q ↦ ((b, s), some q, none)
  | none ↦ register name (new_queue name) b (save_config name (new_queue name) b.storage s)
]

-- `GetOrCreateQueue`: the error is dropped, and nil stays.
unfoldable pub get_or_create_queue :
    {S : Type 0} → Str → Broker S × S → (Broker S × S) × Option Queue
get_or_create_queue name t = let r = get_or_create_queue_with_error name t in (r.0, r.1)

abbrev pub dlq_suffix : Str
dlq_suffix = bytes ".dlq"

-- `DLQName` and `IsDLQ`.
abbrev pub dlq_name : Str → Str
dlq_name queue = queue ++ dlq_suffix

pub is_dlq : Str → Bool
is_dlq queue =
    ltb (length dlq_suffix) (length queue)
    && str_eq (drop (length queue - length dlq_suffix) queue) dlq_suffix

-- What follows the storage's part in `PurgeQueue`.
purge_after :
    {S : Type 0} → Str → Queue → Broker S → S × Option Error → (Broker S × S) × ℕ × Option Error
purge_after name q b (s, some e) = ((b, s), 0, some e)
purge_after name q b (s, none) = let r = purge q in ((put_queue name r.0 b, s), r.1, none)

-- `PurgeQueue`, with the number of messages removed.
pub purge_queue : {S : Type 0} → Str → Broker S × S → (Broker S × S) × ℕ × Option Error
unfolding purge_after
purge_queue name (b, s) = elim (find_queue name b) [
  | none ↦ ((b, s), 0, none)
  | some q ↦
      purge_after name q b
        (elim b.storage [ none ↦ (s, none) | some st ↦ st.delete_queue_messages name s ])
]
