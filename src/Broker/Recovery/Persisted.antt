-- ===== src/Broker/Recovery/Persisted.antt =====
-- A broker of internal/broker/broker.go that starts on the database of internal/storage/badger.go gets
-- back what was stored.
use qwer_q.Common.{none, some, List, ◌≡◌}
use qwer_q.Common.Strings.{Str}
use qwer_q.Types.{Message, Time}
use qwer_q.Broker.Registry.{QueueConfig, Storage}
use qwer_q.Broker.Recovery.{FullBroker, restore_one}
use qwer_q.Broker.Recovery.Restored.{Holds}
use qwer_q.Storage.Badger.{Badger}
use qwer_q.Storage.Badger.Refine.{Store}
use qwer_q.Storage.Badger.Load.{Ordered, find}

-- The queue comes back with the messages that are stored of it, each once, by their identifiers.
pub record Restores {D : Type 0} (st : Storage D) (name : Str) (cfg : QueueConfig) (now : Time)
    (a : Store) (b : FullBroker D) (d d' : D) : Type 0 where
  pub after : FullBroker D
  pub messages : List Message
  pub restored : restore_one st name cfg now (b, d) ≡ some ((after, d'), none)
  pub held : Holds name messages b after
  pub ordered : Ordered messages
  pub complete : (i : Str) → find i messages ≡ a name i
