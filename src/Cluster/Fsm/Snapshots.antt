-- ===== src/Cluster/Fsm/Snapshots.antt =====
-- `Restore` of internal/cluster/fsm.go brings back what the snapshot holds.
use qwer_q.Common.{Option, none, some, List, [], ◌∷◌, map, ◌≡◌}
use qwer_q.Common.Strings.{Str}
use qwer_q.Common.Dict.{Dict, lookup}
use qwer_q.Types.{Message}
use qwer_q.Broker.Base.{Error}
use qwer_q.Broker.Queue.{Queue, new_queue}
use qwer_q.Broker.Registry.{Storage, find_queue, put_queue, save_config}
use qwer_q.Broker.Handlers.{save_in}
use qwer_q.Broker.Recovery.{FullBroker}
use qwer_q.Broker.Recovery.Restored.{stocked, with_queue}
use qwer_q.Cluster.Fsm.Snapshot.{SnapshotMessage, of_snapshot}

-- The storage takes each message and the configuration of each queue.
pub record Takes {S : Type 0} (storage : Option (Storage S)) : Type 0 where
  pub saves : (m : Message) (s : S) → (save_in storage m s).1 ≡ none
  pub registers : (name : Str) (s : S) → (save_config name (new_queue name) storage s).1 ≡ none

-- The queue of a name has the snapshot's messages pending, in order, and nothing in flight.
pub record Brought {S : Type 0} (name : Str) (ms : List SnapshotMessage) (b : FullBroker S)
    : Type 0 where
  pub queue : Queue
  pub found : find_queue name b.broker ≡ some queue
  pub pending : queue.messages ≡ map of_snapshot ms
  pub resting : queue.in_flight ≡ []

-- Each name stands once.
abbrev pub IsMap : Dict (List SnapshotMessage) → Type 0
IsMap [] = Unit
IsMap ((name, ms) ∷ qs) = (lookup name qs ≡ none) × IsMap qs

-- The outcome of the outer loop.
record Restored {S : Type 0} (qs : Dict (List SnapshotMessage)) (b : FullBroker S)
    (o : Option ((FullBroker S × S) × Option Error)) : Type 0 where
  after : FullBroker S
  state : S
  ended : o ≡ some ((after, state), none)
  storage_kept : after.broker.storage ≡ b.broker.storage
  brought :
      (name : Str) (ms : List SnapshotMessage) → lookup name qs ≡ some ms → Brought name ms after
  others : (j : Str) → lookup j qs ≡ none → find_queue j after.broker ≡ find_queue j b.broker

-- The broker after a round.
abbrev with_messages : {S : Type 0} → Str → List SnapshotMessage → FullBroker S → FullBroker S
with_messages name ms b = record b {
  broker =
      put_queue name (stocked (new_queue name) (map of_snapshot ms)) (with_queue name b).broker;
}

-- What `Restore` is to bring back under a name: the queue of the snapshot, or none.
abbrev pub Expected : {S : Type 0} → Str → Option (List SnapshotMessage) → FullBroker S → Type 0
Expected name none b = find_queue name b.broker ≡ none
Expected name (some ms) b = Brought name ms b
