-- ===== src/Storage/Badger/Streams.antt =====
-- internal/storage/badger.go: the methods of a `StreamStorage`, on the same database.
use qwer_q.Common.{
  ℕ, Option, none, some, List, [], ◌∷◌, ◌++◌, map, if◌then◌else◌, length, take, drop,
}
use qwer_q.Common.Strings.{Str, bytes}
use qwer_q.Common.Int.{ℤ, lt_ℤ}
use qwer_q.Types.{Message}
use qwer_q.Broker.Base.{Error}
use qwer_q.Broker.Stream.{Fallible, ok, failed, StreamStorage}
use qwer_q.Broker.Stream.Retention.{unix_milli}
use qwer_q.Storage.Badger.{
  Badger, Json, txn_delete, ◌>>=◌, colon, set_marshalled, collect, scanned, save_consumer_offset,
  load_consumer_offset,
}
use qwer_q.Common.Order.{lt_bytes, has_prefix}
use qwer_q.Storage.Badger.Scan.{Entries, seek, scan, while_prefix, seek_back}
use qwer_q.Storage.Badger.Decimal.{padded_decimal, scan_decimal}

abbrev pub stream_prefix : Str
stream_prefix = bytes "stream:"

-- What the keys of a stream start with.
abbrev pub stream_msgs : Str → Str
stream_msgs queue = stream_prefix ++ (queue ++ colon)

-- `streamKey`
abbrev pub stream_key : Str → ℕ → Str
stream_key queue seq = stream_msgs queue ++ padded_decimal seq

-- `SaveStreamMessage`
unfoldable pub save_stream_message :
    {D : Type 0} → Badger D → Json → Str → ℕ → Message → D → D × Option Error
save_stream_message db json queue seq msg d =
    set_marshalled db (stream_key queue seq) d (json.marshal_message msg)

-- `LoadStreamMessages`, with a limit that is not negative.
unfoldable pub load_stream_messages :
    {D : Type 0} → Badger D → Json → Str → ℕ → ℕ → D → Fallible (List Message)
load_stream_messages db json queue from_seq limit d = db.view d >>= λ es.
    collect (λ e. json.unmarshal_message e.1)
      (take limit (while_prefix (stream_msgs queue) (seek (stream_key queue from_seq) es)))

-- The sequence that follows the prefix of a key.
abbrev pub sequence_in : Str → Str → Fallible ℕ
sequence_in queue key = scanned (scan_decimal (drop (length (stream_msgs queue)) key))

-- The entry that an iterator stands at, if it is of the stream.
unfoldable pub sequence_at : Str → Option (Str × Str) → Fallible ℕ
sequence_at queue none = ok 0
sequence_at queue (some (key, val)) =
    if has_prefix (stream_msgs queue) key then sequence_in queue key else ok 0

-- The first entry from the seek on.
abbrev pub first : Entries → Option (Str × Str)
first [] = none
first (e ∷ es) = some e

-- `GetStreamSequence`
unfoldable pub get_stream_sequence : {D : Type 0} → Badger D → Str → D → Fallible ℕ
get_stream_sequence db queue d =
    db.view d >>= λ es. sequence_at queue (seek_back (stream_msgs queue ++ (255 ∷ [])) es)

-- The keys up to the first that is not below `end_key`.
unfoldable pub keys_below : Str → Entries → List Str
keys_below end_key [] = []
keys_below end_key ((key, val) ∷ es) =
    if lt_bytes key end_key then key ∷ keys_below end_key es else []

-- What `View` fails with, `Update` returns.
unfoldable pub update_from :
    {D : Type 0} → D → Fallible Entries → (Entries → D × Option Error) → D × Option Error
update_from d (failed e) run = (d, some e)
update_from d (ok es) run = run es

-- `DeleteStreamMessagesBefore`: the transaction reads what it is to delete.
unfoldable pub delete_stream_messages_before :
    {D : Type 0} → Badger D → Str → ℕ → D → D × Option Error
delete_stream_messages_before db queue seq d = update_from d (db.view d) λ es.
    db.update (map txn_delete (keys_below (stream_key queue seq) (scan (stream_msgs queue) es))) d

-- The loop of `GetStreamMessageByTimestamp`, which decodes up to the message it finds.
unfoldable pub find_since : Json → ℤ → Entries → Fallible ℕ
find_since json timestamp_ms [] = ok 0
find_since json timestamp_ms ((key, val) ∷ es) = json.unmarshal_message val >>= λ msg.
    if lt_ℤ (unix_milli msg.published_at) timestamp_ms
    then find_since json timestamp_ms es
    else ok msg.sequence

-- `GetStreamMessageByTimestamp`
unfoldable pub get_stream_message_by_timestamp :
    {D : Type 0} → Badger D → Json → Str → ℤ → D → Fallible ℕ
get_stream_message_by_timestamp db json queue timestamp_ms d =
    db.view d >>= λ es. find_since json timestamp_ms (scan (stream_msgs queue) es)

-- `GetStreamStats`: the oldest and the newest sequence.
unfoldable pub get_stream_stats : {D : Type 0} → Badger D → Str → D → Fallible (ℕ × ℕ)
get_stream_stats db queue d = db.view d >>= λ es.
    sequence_at queue (first (seek (stream_msgs queue) es)) >>= λ oldest.
    get_stream_sequence db queue d >>= λ newest. ok (oldest, newest)

-- `BadgerStorage` as the storage of a stream queue.
unfoldable pub badger_stream_storage : {D : Type 0} → Badger D → Json → StreamStorage D
badger_stream_storage db json = record {
  save_stream_message = save_stream_message db json;
  load_stream_messages = load_stream_messages db json;
  save_consumer_offset = save_consumer_offset db;
  load_consumer_offset = load_consumer_offset db;
  get_stream_sequence = get_stream_sequence db;
  delete_stream_messages_before = delete_stream_messages_before db;
  get_stream_message_by_timestamp = get_stream_message_by_timestamp db json;
  get_stream_stats = get_stream_stats db;
}
