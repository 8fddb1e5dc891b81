-- ===== src/Broker/Recovery.antt =====
-- internal/broker/broker.go, the rest of the broker: its stream queues by name, and how it comes back
-- from the storage. In the source the stream queues stand in `Broker` too. `none` is a panic.
pub mod Restored
pub mod Persisted
mod Examples
use qwer_q.Common.{
  ℕ, ◌+◌, ◌-◌, ◌*◌, ◌%◌, ◌^◌, Bool, true, false, not, ◌&&◌, ◌||◌, Option, none, some, List, [], ◌∷◌,
  ◌++◌, ltb, ◌==◌, if◌then◌else◌, ◌>>=◌, is_some,
}
use qwer_q.Common.Strings.{Str, bytes, str_eq}
use qwer_q.Common.Order.{sort_strings}
use qwer_q.Common.Dict.{Dict, lookup, insert, keys}
use qwer_q.Common.Int.{ℤ, pos, negsuc, lt_ℤ}
use qwer_q.Types.{Message, Time, zero_time}
use qwer_q.Broker.Base.{Error, queue_full, second, FailurePolicy, other}
use qwer_q.Broker.Group.{is_empty}
use qwer_q.Broker.Queue.{Queue, enqueue_direct}
use qwer_q.Broker.Queue.Consumers.{set_max_size, set_max_retries, set_failure_policy}
use qwer_q.Broker.Stream.{
  Fallible, ok, failed, StreamStorage, StreamQueue, new_stream_queue, set_retention, publish, seek,
  commit_offset,
}
use qwer_q.Broker.Registry.{
  QueueConfig, Storage, Broker, find_queue, put_queue, get_or_create_queue, check_memory_pressure,
}
use qwer_q.Broker.Handlers.{PublishRequest, check_key}

-- The broker with its stream queues. `stream_storage` is the storage as a `StreamStorage`, if it is
-- one.
pub record FullBroker (S : Type 0) : Type 0 where
  pub broker : Broker S
  pub stream_queues : Dict (StreamQueue S)
  pub stream_storage : Option (StreamStorage S)

abbrev pub queue_mode_stream : Str
queue_mode_stream = bytes "stream"

-- `storage.QueueConfig{Mode: storage.QueueModeStream}`
abbrev pub stream_config : QueueConfig
stream_config = record {
  max_size = pos 0;
  max_size_set = false;
  max_retries = 0;
  failure_policy = other [];
  mode = queue_mode_stream;
  retention_max_age = pos 0;
  retention_max_bytes = pos 0;
}

unfoldable pub save_stream_config : {S : Type 0} → Str → Option (Storage S) → S → S × Option Error
save_stream_config name none s = (s, none)
save_stream_config name (some st) s = st.save_queue name stream_config s

-- `GetStreamQueue`
abbrev pub find_stream_queue : {S : Type 0} → Str → FullBroker S → Option (StreamQueue S)
find_stream_queue name b = lookup name b.stream_queues

-- A stream queue is changed in place.
abbrev pub put_stream_queue : {S : Type 0} → Str → StreamQueue S → FullBroker S → FullBroker S
put_stream_queue name sq b = record b { stream_queues = insert name sq b.stream_queues }

-- `IsStreamQueue`
abbrev pub is_stream_queue : {S : Type 0} → Str → FullBroker S → Bool
is_stream_queue name b = is_some (find_stream_queue name b)

-- What follows the saving: a stream queue whose configuration is not saved is not kept.
unfoldable pub register_stream :
    {S : Type 0}
    → Str
    → StreamQueue S
    → FullBroker S
    → S × Option Error
    → (FullBroker S × S) × Option (StreamQueue S) × Option Error
register_stream name sq b (s, some e) = ((b, s), none, some e)
register_stream name sq b (s, none) = ((put_stream_queue name sq b, s), some sq, none)

-- `GetOrCreateStreamQueueWithError`
unfoldable pub get_or_create_stream_queue_with_error :
    {S : Type 0}
    → Str
    → FullBroker S × S
    → (FullBroker S × S) × Option (StreamQueue S) × Option Error
get_or_create_stream_queue_with_error name (b, s) = elim (find_stream_queue name b) [
  | some sq ↦ ((b, s), some sq, none)
  | none ↦
      register_stream name (new_stream_queue name b.stream_storage s) b
        (save_stream_config name b.broker.storage s)
]

-- `GetOrCreateStreamQueue`: the error is dropped, and nil stays.
unfoldable pub get_or_create_stream_queue :
    {S : Type 0} → Str → FullBroker S × S → (FullBroker S × S) × Option (StreamQueue S)
get_or_create_stream_queue name t =
    let r = get_or_create_stream_queue_with_error name t in (r.0, r.1)

-- `GetOrCreateQueue`, which leaves the stream queues alone.
unfoldable pub queue_in : {S : Type 0} → Str → FullBroker S × S → (FullBroker S × S) × Option Queue
queue_in name (b, s) =
    let r = get_or_create_queue name (b.broker, s) in ((record b { broker = r.0.0 }, r.0.1), r.1)

-- `ListQueues`
pub list_queues : {S : Type 0} → FullBroker S → List Str
list_queues b = sort_strings (keys b.broker.queues ++ keys b.stream_queues)

-- `ResetForRestore`
unfoldable pub reset_for_restore : {S : Type 0} → FullBroker S → FullBroker S
reset_for_restore b = record b { broker = record (b.broker) { queues = [] }; stream_queues = [] }

-- The message that `LoadFromStorage` makes of a stored one.
abbrev pub restored : Message → Message
restored m = record m { sequence = 0 }

-- `EnqueueDirect` of several messages in turn.
unfoldable pub enqueue_all : List Message → Time → Queue → Option Queue
enqueue_all [] now q = some q
enqueue_all (m ∷ ms) now q = enqueue_direct m now q >>= enqueue_all ms now

abbrev pub is_set : FailurePolicy → Bool
is_set (other []) = false
is_set p = true

unfoldable pub sized : QueueConfig → Queue → Queue
sized cfg q =
    if cfg.max_size_set || (lt_ℤ cfg.max_size (pos 0) || lt_ℤ (pos 0) cfg.max_size)
    then set_max_size cfg.max_size q
    else q

unfoldable pub retried : QueueConfig → Queue → Queue
retried cfg q = if cfg.max_retries == 0 then q else set_max_retries (cfg.max_retries % 2 ^ 32) q

unfoldable pub policed : QueueConfig → Queue → Queue
policed cfg q = if is_set cfg.failure_policy then set_failure_policy cfg.failure_policy q else q

-- The configuration that `LoadFromStorage` applies.
abbrev pub configured : QueueConfig → Queue → Queue
configured cfg q = policed cfg (retried cfg (sized cfg q))

abbrev pub map_restored : List Message → List Message
map_restored [] = []
map_restored (m ∷ ms) = restored m ∷ map_restored ms

-- The part of the loop for a queue, once its messages are loaded; a nil queue panics.
unfoldable pub restore_queue :
    {S : Type 0}
    → Str
    → QueueConfig
    → List Message
    → Time
    → (FullBroker S × S) × Option Queue
    → Option (FullBroker S × S)
restore_queue name cfg ms now ((b, s), none) = none
restore_queue name cfg ms now ((b, s), some q) =
    enqueue_all (map_restored ms) now (configured cfg q) >>= λ q'.
    some (record b { broker = put_queue name q' b.broker }, s)

-- The 64 bits of an int64.
abbrev pub signed : ℕ → ℤ
signed v = if ltb v (2 ^ 63) then pos v else negsuc (2 ^ 64 - v - 1)

-- `time.Duration(v) * time.Second`
abbrev pub seconds : ℤ → ℤ
seconds (pos n) = signed (n * second % 2 ^ 64)
seconds (negsuc n) = signed ((2 ^ 64 - (n + 1) * second % 2 ^ 64) % 2 ^ 64)

-- The part of the loop for a stream queue; retention on a nil one panics.
unfoldable pub restore_stream :
    {S : Type 0}
    → Str
    → QueueConfig
    → (FullBroker S × S) × Option (StreamQueue S)
    → Option (FullBroker S × S)
restore_stream name cfg ((b, s), sq) =
    if lt_ℤ (pos 0) cfg.retention_max_age || lt_ℤ (pos 0) cfg.retention_max_bytes
    then (sq >>= λ q. some (
      put_stream_queue name
          (set_retention (seconds cfg.retention_max_age) cfg.retention_max_bytes q) b,
      s,
    ))
    else some (b, s)

-- What follows `LoadMessages`.
unfoldable pub restore_loaded :
    {S : Type 0}
    → Str
    → QueueConfig
    → Time
    → FullBroker S × S
    → Fallible (List Message)
    → Option ((FullBroker S × S) × Option Error)
restore_loaded name cfg now t (failed e) = some (t, some e)
restore_loaded name cfg now t (ok ms) =
    restore_queue name cfg ms now (queue_in name t) >>= λ t'. some (t', none)

-- One round of `LoadFromStorage`.
unfoldable pub restore_one :
    {S : Type 0}
    → Storage S
    → Str
    → QueueConfig
    → Time
    → FullBroker S × S
    → Option ((FullBroker S × S) × Option Error)
restore_one st name cfg now t =
    if str_eq cfg.mode queue_mode_stream
    then (restore_stream name cfg (get_or_create_stream_queue name t) >>= λ t'. some (t', none))
    else restore_loaded name cfg now t (st.load_messages name t.1)

-- The loop, in the order in which `range` visits the map; it stops at the first error.
unfoldable pub restore_all :
    {S : Type 0}
    → Storage S
    → Dict QueueConfig
    → Time
    → (FullBroker S × S) × Option Error
    → Option ((FullBroker S × S) × Option Error)
restore_all st [] now r = some r
restore_all st (q ∷ qs) now (t, some e) = some (t, some e)
restore_all st ((name, cfg) ∷ qs) now (t, none) =
    restore_one st name cfg now t >>= restore_all st qs now

-- What follows `LoadQueues`.
unfoldable pub restore_queues :
    {S : Type 0}
    → Storage S
    → Time
    → FullBroker S × S
    → Fallible (Dict QueueConfig)
    → Option ((FullBroker S × S) × Option Error)
restore_queues st now t (failed e) = some (t, some e)
restore_queues st now t (ok qs) = restore_all st qs now (t, none)

-- `LoadFromStorage`
pub load_from_storage :
    {S : Type 0} → Time → FullBroker S × S → Option ((FullBroker S × S) × Option Error)
load_from_storage now (b, s) = elim b.broker.storage [
  | none ↦ some ((b, s), none)
  | some st ↦ restore_queues st now (b, s) (st.load_queues s)
]
