-- ===== src/Cluster/Examples.antt =====
-- A node with one queue: a snapshot of one message.
use qwer_q.Common.{none, [], ◌∷◌}
use qwer_q.Common.Strings.{bytes}
use qwer_q.Common.Int.{pos}
use qwer_q.Types.{Message}
use qwer_q.Storage.Badger.{blank}
use qwer_q.Broker.Base.{dlq}
use qwer_q.Broker.Queue.{Queue}
use qwer_q.Broker.Recovery.{FullBroker}
use qwer_q.Cluster.Fsm.Snapshot.{FsmSnapshot, to_snapshot}

abbrev job : Message
job = record (blank (bytes "01") (bytes "jobs")) {
  published_at = pos 5000000;
  visible_at = pos 5000000;
}

abbrev working : Queue
working = record {
  name = bytes "jobs";
  messages = [];
  in_flight = (bytes "01", job) ∷ [];
  consumers = [];
  next_idx = 0;
  max_size = pos 10;
  failure_policy = dlq;
  max_retries = 5;
  key_assignments = [];
  groups = [];
  next_ch = 0;
}

-- Without a storage.
abbrev node : FullBroker Unit
node = record {
  broker = record {
    queues = (bytes "jobs", working) ∷ [];
    storage = none;
    dedup = none;
    memory_limit = 0;
    cached_alloc = 0;
  };
  stream_queues = [];
  stream_storage = none;
}

abbrev snapshot : FsmSnapshot
snapshot = record {
  queues = (bytes "jobs", to_snapshot job ∷ []) ∷ [];
  stream_queues = bytes "log" ∷ [];
}
