-- ===== src/Storage/Badger.antt =====
-- internal/storage/badger.go: the messages, the queues' configurations and the consumer offsets in
-- a BadgerDB. The database (github.com/dgraph-io/badger/v4) is an interface of transactions on a
-- state `D`, whose documented behaviour is `Laws.IsBadger`, and the JSON texts are an interface too.
-- The write batcher stands apart, in Storage/Batcher; the loop that syncs, and the options that
-- `badger.Open` gets, are not modelled.
pub mod Scan
pub mod Decimal
pub mod Streams
pub mod Laws
pub mod Padding
pub mod Sweep
mod Examples
pub mod Offsets
pub mod Memory
pub mod Nested
pub mod Restart
pub mod Log
pub mod Load
pub mod Refine
pub mod Keys
use qwer_q.Common.{
  ℕ, zero, suc, ◌+◌, Option, none, some, List, [], ◌∷◌, ◌++◌, map, length, take, drop,
}
use qwer_q.Common.Strings.{Str, bytes}
use qwer_q.Common.Dict.{Dict, lookup, insert, keys}
use qwer_q.Common.Int.{pos}
use qwer_q.Types.{Message, zero_time}
use qwer_q.Broker.Base.{Error, unreadable}
use qwer_q.Broker.Stream.{Fallible, ok, failed}
use qwer_q.Broker.Registry.{QueueConfig}
use qwer_q.Storage.Codec.{Result, err, encode_message, decode_message}
use qwer_q.Storage.Badger.Scan.{Entries, scan}
use qwer_q.Storage.Badger.Decimal.{decimal, scan_decimal}

-- `txn.Set` and `txn.Delete`.
pub data Write : Type 0 where
  txn_set : Str → Str → Write
  txn_delete : Str → Write

-- `db.View` shows the entries of a snapshot in the order of their keys, or fails. `db.Update`
-- commits the writes of its transaction, or returns the error that stopped it.
pub record Badger (D : Type 0) : Type 0 where
  pub view : D → Fallible Entries
  pub update : List Write → D → D × Option Error

-- `json.Marshal` and `json.Unmarshal` on the types that are stored; `unmarshal_legacy` is the case of
-- `decodeMessage`.
pub record Json : Type 0 where
  pub marshal_message : Message → Fallible Str
  pub unmarshal_message : Str → Fallible Message
  pub marshal_config : QueueConfig → Fallible Str
  pub unmarshal_config : Str → Fallible QueueConfig
  pub unmarshal_legacy : Str → Message → Result Message

infixl 5 ◌>>=◌
abbrev pub ◌>>=◌ {ℓ κ} : {A : Type ℓ} {B : Type κ} → Fallible A → (A → Fallible B) → Fallible B
ok a >>= f = f a
failed e >>= f = failed e

abbrev pub msg_prefix : Str
msg_prefix = bytes "msg:"

abbrev pub queue_prefix : Str
queue_prefix = bytes "queue:"

abbrev pub offset_prefix : Str
offset_prefix = bytes "offset:"

abbrev pub colon : Str
colon = bytes ":"

-- What the keys of the messages of a queue start with.
abbrev pub queue_msgs : Str → Str
queue_msgs queue = msg_prefix ++ (queue ++ colon)

-- `msgKey`
abbrev pub msg_key : Str → Str → Str
msg_key queue id = queue_msgs queue ++ id

module _ {D : Type 0} (db : Badger D) where
  -- `SaveMessage`, without a batcher.
  unfoldable pub save_message : Message → D → D × Option Error
  save_message msg d = db.update (txn_set (msg_key msg.queue msg.id) (encode_message msg) ∷ []) d

  -- `DeleteMessage`
  unfoldable pub delete_message : Str → Str → D → D × Option Error
  delete_message queue id d = db.update (txn_delete (msg_key queue id) ∷ []) d

abbrev pub delete_batch_size : ℕ
delete_batch_size = 500

-- The keys that one round of `DeleteQueueMessages` takes.
abbrev pub batch : Str → Entries → List Str
batch prefix es = take delete_batch_size (keys (scan prefix es))

-- What follows a round's transaction: the next round, unless it failed.
unfoldable pub after_round :
    {D : Type 0} → (D → Option (D × Option Error)) → D × Option Error → Option (D × Option Error)
after_round continue (d, some e) = some (d, some e)
after_round continue (d, none) = continue d

-- A round on the keys it found.
unfoldable pub delete_keys :
    {D : Type 0}
    → Badger D
    → (D → Option (D × Option Error))
    → List Str
    → D
    → Option (D × Option Error)
delete_keys db continue [] d = some (d, none)
delete_keys db continue (k ∷ ks) d = after_round continue (db.update (map txn_delete (k ∷ ks)) d)

-- The rounds of `DeleteQueueMessages`: `none` if `fuel` is used up.
unfoldable pub delete_batches : {D : Type 0} → Badger D → ℕ → Str → D → Option (D × Option Error)
delete_batches db zero prefix d = none
delete_batches db (suc fuel) prefix d = elim (db.view d) [
  | failed e ↦ some (d, some e)
  | ok es ↦ delete_keys db (delete_batches db fuel prefix) (batch prefix es) d
]

-- `DeleteQueueMessages`
abbrev pub delete_queue_messages : {D : Type 0} → Badger D → ℕ → Str → D → Option (D × Option Error)
delete_queue_messages db fuel queue d = delete_batches db fuel (queue_msgs queue) d

-- `Message{ID: id, Queue: queue}`
abbrev pub blank : Str → Str → Message
blank id queue = record {
  id = id;
  queue = queue;
  payload = [];
  headers = [];
  attempt = 0;
  published_at = zero_time;
  visible_at = zero_time;
  ordering_key = [];
  sequence = 0;
}

unfoldable pub readable : Result Message → Fallible Message
readable (Result.ok m) = ok m
readable (err e) = failed unreadable

-- One round of `LoadMessages`: the identifier is what follows the prefix in the key.
unfoldable pub load_entry : Json → Str → Str × Str → Fallible Message
load_entry json queue (key, val) =
    readable (
      decode_message json.unmarshal_legacy val (blank (drop (length (queue_msgs queue)) key) queue))

-- A loop that stops at the first error. The results before it, which the code returns as well, are
-- left out: no caller reads them.
unfoldable pub collect {ℓ κ} :
    {A : Type ℓ} {B : Type κ} → (A → Fallible B) → List A → Fallible (List B)
collect f [] = ok []
collect f (x ∷ xs) = f x >>= λ y. collect f xs >>= λ ys. ok (y ∷ ys)

-- `LoadMessages`
unfoldable pub load_messages : {D : Type 0} → Badger D → Json → Str → D → Fallible (List Message)
load_messages db json queue d =
    db.view d >>= λ es. collect (load_entry json queue) (scan (queue_msgs queue) es)

-- What follows `json.Marshal`.
unfoldable pub set_marshalled : {D : Type 0} → Badger D → Str → D → Fallible Str → D × Option Error
set_marshalled db key d (failed e) = (d, some e)
set_marshalled db key d (ok val) = db.update (txn_set key val ∷ []) d

-- `SaveQueue`
unfoldable pub save_queue :
    {D : Type 0} → Badger D → Json → Str → QueueConfig → D → D × Option Error
save_queue db json name config d =
    set_marshalled db (queue_prefix ++ name) d (json.marshal_config config)

-- A loop that writes to a map, with what follows the prefix of each key.
unfoldable pub collect_map :
    {V : Type 0} → (Str → Fallible V) → ℕ → Entries → Dict V → Fallible (Dict V)
collect_map read n [] found = ok found
collect_map read n ((key, val) ∷ es) found =
    read val >>= λ v. collect_map read n es (insert (drop n key) v found)

-- `LoadQueues`
unfoldable pub load_queues : {D : Type 0} → Badger D → Json → D → Fallible (Dict QueueConfig)
load_queues db json d = db.view d >>= λ es.
    collect_map json.unmarshal_config (length queue_prefix) (scan queue_prefix es) []

-- What the keys of the offsets of a queue start with.
abbrev pub queue_offsets : Str → Str
queue_offsets queue = offset_prefix ++ (queue ++ colon)

-- `offsetKey`
abbrev pub offset_key : Str → Str → Str
offset_key queue group = queue_offsets queue ++ group

-- `SaveConsumerOffset`
unfoldable pub save_consumer_offset : {D : Type 0} → Badger D → Str → Str → ℕ → D → D × Option Error
save_consumer_offset db queue group offset d =
    db.update (txn_set (offset_key queue group) (decimal offset) ∷ []) d

-- `fmt.Sscanf` with its error.
unfoldable pub scanned : Option ℕ → Fallible ℕ
scanned none = failed unreadable
scanned (some v) = ok v

-- A key that is not found is no error.
unfoldable pub offset_in : Option Str → Fallible ℕ
offset_in none = ok 0
offset_in (some val) = scanned (scan_decimal val)

-- `LoadConsumerOffset`
unfoldable pub load_consumer_offset : {D : Type 0} → Badger D → Str → Str → D → Fallible ℕ
load_consumer_offset db queue group d =
    db.view d >>= λ es. offset_in (lookup (offset_key queue group) es)

-- `LoadAllConsumerOffsets`
unfoldable pub load_all_consumer_offsets : {D : Type 0} → Badger D → Str → D → Fallible (Dict ℕ)
load_all_consumer_offsets db queue d = db.view d >>= λ es.
    collect_map (λ val. scanned (scan_decimal val)) (length (queue_offsets queue))
      (scan (queue_offsets queue) es) []
