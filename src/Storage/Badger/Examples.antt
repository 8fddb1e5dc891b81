-- ===== src/Storage/Badger/Examples.antt =====
-- The storage on a database in memory.
use qwer_q.Common.{true, none, some, List, [], ◌∷◌, ◌≡◌, refl, arith, inl, if◌then◌else◌, ◌&&◌}
use qwer_q.Common.Strings.{bytes, str_eq}
use qwer_q.Common.Dict.{lookup}
use qwer_q.Common.Int.{pos}
use qwer_q.Types.{Message}
use qwer_q.Broker.Base.{unreadable, dlq}
use qwer_q.Broker.Registry.{QueueConfig, Storage}
use qwer_q.Broker.Recovery.{FullBroker}
use qwer_q.Broker.Stream.{ok, failed, StreamQueue, new_stream_queue}
use qwer_q.Broker.Stream.Sequence.{publish_all}
use qwer_q.Storage.Codec
use qwer_q.Storage.Codec.{encode_message}
use qwer_q.Storage.Codec.RoundTrip.{IsStorable}
use qwer_q.Storage.Badger.{
  Json, Write, txn_set, blank, queue_msgs, msg_key, save_message, delete_message, load_messages,
  delete_batches, save_consumer_offset, load_consumer_offset,
}
use qwer_q.Storage.Badger.Keys.{IsPlain}
use qwer_q.Storage.Badger.Load.{Reloads, promised-IsStored, load_messages-Reloads}
use qwer_q.Storage.Badger.Decimal.{padded}
use qwer_q.Storage.Badger.Memory.{memory, memory-IsBadger}
use qwer_q.Storage.Badger.Nested.{nested, new_stream_queue-restarts}
use qwer_q.Storage.Badger.Offsets.{load-save_consumer_offset}
use qwer_q.Storage.Badger.Refine.{
  Store, Implements, promised, save-Implements, Simulates, save, call, call-Simulates,
}
use qwer_q.Storage.Badger.Restart.{InStep, publish_all-resumes}
use qwer_q.Common.Order.{has_prefix}
use qwer_q.Storage.Badger.Scan.{under, lookup-head}
use qwer_q.Storage.Badger.Streams.{stream_key, badger_stream_storage}
use qwer_q.Storage.Badger.Sweep.{Swept, delete_batches-Swept}

abbrev job : Message
job = record (blank (bytes "01") (bytes "jobs")) {
  payload = bytes "work";
  published_at = pos 5;
  visible_at = pos 5;
}

-- The state after one save.
abbrev one_job : List Write
one_job = txn_set (msg_key (bytes "jobs") (bytes "01")) (encode_message job) ∷ []

abbrev texts : Json
texts = record {
  marshal_message = λ m. ok (encode_message m);
  unmarshal_message = λ s. failed unreadable;
  marshal_config = λ c. failed unreadable;
  unmarshal_config = λ s. failed unreadable;
  unmarshal_legacy = λ s m. Codec.ok m;
}

abbrev nothing : Store
nothing q i = none

jobs-IsPlain : IsPlain (bytes "jobs")
jobs-IsPlain = (λ e. cc, (λ e. cc, (λ e. cc, (λ e. cc, tt))))

unfoldable nothing-Implements : Implements memory [] nothing
unfolding memory lookup
nothing-Implements = record { entries = []; viewed = refl; holds = λ q i. refl }

one_job-Implements : Implements memory one_job (promised (save job) nothing)
unfolding save_message memory
one_job-Implements =
    save-Implements memory memory-IsBadger job [] one_job nothing jobs-IsPlain nothing-Implements
      refl

job-IsStorable : IsStorable job
job-IsStorable = record {
  payload_size = omega arith;
  header_count = omega arith;
  header_sizes = tt;
  header_keys = tt;
  attempt_range = omega arith;
  published_range = omega arith;
  visible_range = omega arith;
  key_size = omega arith;
  sequence_range = omega arith;
}

call-Simulates_example :
    Simulates memory memory-IsBadger (save job) nothing (call memory 1 (save job) [])
unfolding nothing-Implements
call-Simulates_example =
    call-Simulates memory memory-IsBadger 0 (save job) [] nothing jobs-IsPlain nothing-Implements
      (omega arith)

load_messages-Reloads_example :
    Reloads memory texts (bytes "jobs") (promised (save job) nothing) one_job
load_messages-Reloads_example =
    load_messages-Reloads memory memory-IsBadger texts (bytes "jobs") one_job
      (promised (save job) nothing) jobs-IsPlain
      (promised-IsStored (save job) nothing job-IsStorable (λ q i m e. absurd (cc e)))
      one_job-Implements

-- The messages are in the database, and a configuration is taken in without a trace.
abbrev shelf : Storage (List Write)
shelf = record {
  save_message = save_message memory;
  delete_message = delete_message memory;
  delete_queue_messages = λ queue d. (d, none);
  load_messages = load_messages memory texts;
  save_queue = λ name config d. (d, none);
  load_queues = λ d. ok [];
}

abbrev starting : FullBroker (List Write)
starting = record {
  broker = record {
    queues = [];
    storage = some shelf;
    dedup = none;
    memory_limit = 0;
    cached_alloc = 0;
  };
  stream_queues = [];
  stream_storage = none;
}

abbrev config : QueueConfig
config = record {
  max_size = pos 100;
  max_size_set = true;
  max_retries = 3;
  failure_policy = dlq;
  mode = [];
  retention_max_age = pos 0;
  retention_max_bytes = pos 0;
}

delete_batches-Swept_example :
    Swept memory memory-IsBadger
      (queue_msgs (bytes "jobs"))
      ((msg_key (bytes "jobs") (bytes "01"), encode_message job) ∷ [])
      (delete_batches memory 2 (queue_msgs (bytes "jobs")) one_job)
unfolding memory under has_prefix
delete_batches-Swept_example =
    delete_batches-Swept memory memory-IsBadger 1 (queue_msgs (bytes "jobs")) one_job
      ((msg_key (bytes "jobs") (bytes "01"), encode_message job) ∷ []) refl (omega arith)

-- A queue that has published nothing yet.
abbrev log : StreamQueue (List Write)
log = record {
  name = bytes "log";
  next_seq = 1;
  consumers = [];
  storage = some (badger_stream_storage memory texts);
  retention_max_age = pos 0;
  retention_max_bytes = pos 0;
  next_ch = 0;
}

log-InStep : InStep memory texts (log, [])
unfolding memory lookup
log-InStep = record {
  storage = refl;
  entries = [];
  viewed = refl;
  log = record { within = λ k v e h. absurd (cc e); newest = inl (refl, λ k h. refl) };
}

publish_all-resumes_example :
    let r = publish_all (job ∷ job ∷ []) (log, []) in
    (new_stream_queue r.0.0.name (some (badger_stream_storage memory texts)) r.0.1).next_seq
    ≡ r.0.0.next_seq
publish_all-resumes_example =
    publish_all-resumes memory memory-IsBadger texts (job ∷ job ∷ []) (log, []) log-InStep
      (omega arith)

-- An entry of the stream `a:b`.
abbrev inner_log : List Write
inner_log = txn_set (stream_key (nested (bytes "a") (bytes "b")) 9) (bytes "m") ∷ []

new_stream_queue-restarts_example :
    (new_stream_queue (bytes "a") (some (badger_stream_storage memory texts)) inner_log).next_seq
    ≡ 1
unfolding memory padded
new_stream_queue-restarts_example =
    new_stream_queue-restarts memory texts (bytes "a") [] (bytes "m") 98 9 inner_log
      ((stream_key (nested (bytes "a") (bytes "b")) 9, bytes "m") ∷ []) memory-IsBadger refl
      (omega arith) refl
      (lookup-head (stream_key (nested (bytes "a") (bytes "b")) 9) (bytes "m") [])

load-save_consumer_offset_example :
    load_consumer_offset memory
      (bytes "jobs")
      (bytes "g")
      (save_consumer_offset memory (bytes "jobs") (bytes "g") 42 []).0
    ≡ (if str_eq (bytes "jobs") (bytes "jobs") && str_eq (bytes "g") (bytes "g")
        then ok 42
        else load_consumer_offset memory (bytes "jobs") (bytes "g") [])
unfolding memory save_consumer_offset
load-save_consumer_offset_example =
    load-save_consumer_offset memory (bytes "jobs") (bytes "jobs") (bytes "g") (bytes "g") 42 []
      (save_consumer_offset memory (bytes "jobs") (bytes "g") 42 []).0 [] memory-IsBadger
      jobs-IsPlain jobs-IsPlain (omega arith) refl refl
