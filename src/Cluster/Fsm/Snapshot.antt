-- ===== src/Cluster/Fsm/Snapshot.antt =====
-- internal/cluster/fsm.go: what `Snapshot` notes of the broker, and `Restore`. `none` is a panic.
use qwer_q.Common.{ℕ, Option, none, some, List, [], ◌∷◌, ◌++◌, map, if◌then◌else◌, ◌>>=◌, is_some}
use qwer_q.Common.Strings.{Str}
use qwer_q.Common.Dict.{Dict, lookup, insert}
use qwer_q.Common.Int.{ℤ}
use qwer_q.Types.{Message, Time}
use qwer_q.Broker.Base.{Error}
use qwer_q.Broker.Queue.{Queue, enqueue_direct}
use qwer_q.Broker.Stream.{Fallible, ok, failed}
use qwer_q.Broker.Stream.Retention.{unix_milli}
use qwer_q.Broker.Registry.{Storage, find_queue, put_queue}
use qwer_q.Broker.Handlers.{save_in, as_enqueued}
use qwer_q.Broker.Recovery.{
  FullBroker, find_stream_queue, get_or_create_stream_queue, queue_in, list_queues,
  reset_for_restore,
}
use qwer_q.Cluster.Fsm.{of_unix_milli}

pub record SnapshotMessage : Type 0 where
  pub id : Str
  pub queue : Str
  pub payload : Str
  pub headers : Dict Str
  pub attempt : ℕ
  pub published_at : ℤ
  pub visible_at : ℤ

-- `fsmSnapshot`
pub record FsmSnapshot : Type 0 where
  pub queues : Dict (List SnapshotMessage)
  pub stream_queues : List Str

-- The stored form of a message.
abbrev pub to_snapshot : Message → SnapshotMessage
to_snapshot m = record {
  id = m.id;
  queue = m.queue;
  payload = m.payload;
  headers = m.headers;
  attempt = m.attempt;
  published_at = unix_milli m.published_at;
  visible_at = unix_milli m.visible_at;
}

-- The message of a snapshot.
abbrev pub of_snapshot : SnapshotMessage → Message
of_snapshot m = record {
  id = m.id;
  queue = m.queue;
  payload = m.payload;
  headers = m.headers;
  attempt = m.attempt;
  published_at = of_unix_milli m.published_at;
  visible_at = of_unix_milli m.visible_at;
  ordering_key = [];
  sequence = 0;
}

-- One name of the first loop of `Snapshot`.
unfoldable pub note_queue : {S : Type 0} → FullBroker S → Str → FsmSnapshot → FsmSnapshot
note_queue b name snapshot = elim (find_stream_queue name b) [
  | some sq ↦ record snapshot { stream_queues = snapshot.stream_queues ++ (sq.name ∷ []) }
  | none ↦ elim (find_queue name b.broker) [
    | none ↦ snapshot
    | some q ↦ record snapshot { queues = insert name [] snapshot.queues }
  ]
]

unfoldable pub note_queues : {S : Type 0} → FullBroker S → List Str → FsmSnapshot → FsmSnapshot
note_queues b [] snapshot = snapshot
note_queues b (name ∷ names) snapshot = note_queues b names (note_queue b name snapshot)

-- The messages are appended to what the snapshot has of the queue; a failed load is skipped.
unfoldable pub note_loaded : Str → Fallible (List Message) → FsmSnapshot → FsmSnapshot
note_loaded name (failed e) snapshot = snapshot
note_loaded name (ok []) snapshot = snapshot
note_loaded name (ok (m ∷ ms)) snapshot = record snapshot {
  queues =
      insert name
        ((elim (lookup name snapshot.queues) [ none ↦ [] | some old ↦ old ])
          ++ map to_snapshot (m ∷ ms))
        snapshot.queues;
}

-- The second loop, where there is a storage.
unfoldable pub note_messages :
    {S : Type 0} → FullBroker S → Storage S → S → List Str → FsmSnapshot → FsmSnapshot
note_messages b st s [] snapshot = snapshot
note_messages b st s (name ∷ names) snapshot = note_messages b st s names (
    if is_some (find_stream_queue name b)
    then snapshot
    else note_loaded name (st.load_messages name s) snapshot)

-- `Snapshot`
pub snapshot_of : {S : Type 0} → FullBroker S × S → FsmSnapshot
snapshot_of (b, s) =
    let names = list_queues b in
    let noted = note_queues b names (record { queues = []; stream_queues = [] }) in
    elim b.broker.storage [ none ↦ noted | some st ↦ note_messages b st s names noted ]

-- The stream queues of `Restore`.
unfoldable pub restore_streams : {S : Type 0} → List Str → FullBroker S × S → FullBroker S × S
restore_streams [] t = t
restore_streams (name ∷ names) t = restore_streams names (get_or_create_stream_queue name t).0

-- The result of the inner loop of `Restore`: the queue, and the error that ended it.
abbrev pub Loop : Type 0 → Type 0
Loop S = Option ((Queue × S) × Option Error)

-- What the outcome of `SaveMessage` leads to.
unfoldable pub after_restored :
    {S : Type 0} → (Queue × S → Loop S) → Queue → S × Option Error → Loop S
after_restored next q (s, some e) = some ((q, s), some e)
after_restored next q (s, none) = next (q, s)

-- The inner loop, on the queue's messages.
unfoldable pub restore_messages :
    {S : Type 0} → Option (Storage S) → Time → List SnapshotMessage → Queue × S → Loop S
restore_messages storage now [] (q, s) = some ((q, s), none)
restore_messages storage now (m ∷ ms) (q, s) = enqueue_direct (of_snapshot m) now q >>= λ q'.
    after_restored (restore_messages storage now ms) q'
      (save_in storage (as_enqueued (of_snapshot m) q' none) s)

-- A nil queue is used if there are messages.
unfoldable pub restore_nil :
    {S : Type 0}
    → List SnapshotMessage
    → FullBroker S × S
    → Option ((FullBroker S × S) × Option Error)
restore_nil [] t = some (t, none)
restore_nil (m ∷ ms) t = none

-- A round of the outer loop.
unfoldable pub restore_queue :
    {S : Type 0}
    → Time
    → Str
    → List SnapshotMessage
    → (FullBroker S × S) × Option Queue
    → Option ((FullBroker S × S) × Option Error)
restore_queue now name ms (t, none) = restore_nil ms t
restore_queue now name ms ((b, s), some q) =
    restore_messages b.broker.storage now ms (q, s) >>= λ r.
    some ((record b { broker = put_queue name r.0.0 b.broker }, r.0.1), r.1)

-- The outer loop, in the order in which `range` visits the map; it ends at the first error.
unfoldable pub restore_queues :
    {S : Type 0}
    → Time
    → Dict (List SnapshotMessage)
    → (FullBroker S × S) × Option Error
    → Option ((FullBroker S × S) × Option Error)
restore_queues now [] r = some r
restore_queues now (q ∷ qs) (t, some e) = some (t, some e)
restore_queues now ((name, ms) ∷ qs) (t, none) =
    restore_queue now name ms (queue_in name t) >>= restore_queues now qs

-- `Restore`, of a snapshot that decodes.
unfoldable pub restore :
    {S : Type 0}
    → Time
    → FsmSnapshot
    → FullBroker S × S
    → Option ((FullBroker S × S) × Option Error)
restore now snapshot (b, s) =
    restore_queues now snapshot.queues
      (restore_streams snapshot.stream_queues (reset_for_restore b, s), none)
