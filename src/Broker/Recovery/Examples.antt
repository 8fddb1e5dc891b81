-- ===== src/Broker/Recovery/Examples.antt =====
-- A broker that comes back with one message of one queue.
use qwer_q.Common.{true, none, some, [], ◌∷◌}
use qwer_q.Common.Strings.{bytes}
use qwer_q.Common.Int.{pos}
use qwer_q.Types.{Message}
use qwer_q.Storage.Badger.{blank}
use qwer_q.Broker.Base.{dlq}
use qwer_q.Broker.Stream.{ok}
use qwer_q.Broker.Registry.{QueueConfig, Storage}
use qwer_q.Broker.Recovery.{FullBroker}

abbrev job : Message
job = blank (bytes "01") (bytes "jobs")

abbrev shelf : Storage Unit
shelf = record {
  save_message = λ m s. (s, none);
  delete_message = λ queue id s. (s, none);
  delete_queue_messages = λ queue s. (s, none);
  load_messages = λ queue s. ok (job ∷ []);
  save_queue = λ name config s. (s, none);
  load_queues = λ s. ok [];
}

abbrev empty : FullBroker Unit
empty = record {
  broker = record {
    queues = [];
    storage = some shelf;
    dedup = none;
    memory_limit = 0;
    cached_alloc = 0;
  };
  stream_queues = [];
  stream_storage = none;
}

abbrev config : QueueConfig
config = record {
  max_size = pos 100;
  max_size_set = true;
  max_retries = 3;
  failure_policy = dlq;
  mode = [];
  retention_max_age = pos 0;
  retention_max_bytes = pos 0;
}
