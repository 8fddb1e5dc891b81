-- ===== src/Broker/Stream.antt =====
-- internal/broker/stream.go: a stream queue, a log whose consumers keep offsets. The storage is an
-- interface of operations on a state `S`. The goroutine that `Subscribe` and `Seek` start to deliver
-- stored messages is not modelled. Sequences are uint64.
pub mod Retention
pub mod Stall
pub mod Sequence
use qwer_q.Common.{
  ℕ, zero, suc, ◌+◌, ◌-◌, ◌%◌, ◌^◌, ◌<◌, Bool, true, false, Option, none, some, List, [], ◌∷◌, ◌++◌,
  ltb, leb, ◌==◌, if◌then◌else◌, length,
}
use qwer_q.Common.Strings.{Str, str_eq}
use qwer_q.Common.Int.{ℤ}
use qwer_q.Types.{Message, Duration}
use qwer_q.Broker.Base.{Error}

-- A value or an error.
pub data Fallible {ℓ} (A : Type ℓ) : Type ℓ where
  ok : A → Fallible A
  failed : Error → Fallible A

-- The operations that `storage.StreamStorage` adds, on the storage's state, but for
-- `LoadAllConsumerOffsets`, which nothing calls.
pub record StreamStorage (S : Type 0) : Type 0 where
  pub save_stream_message : Str → ℕ → Message → S → S × Option Error
  pub load_stream_messages : Str → ℕ → ℕ → S → Fallible (List Message)
  pub save_consumer_offset : Str → Str → ℕ → S → S × Option Error
  pub load_consumer_offset : Str → Str → S → Fallible ℕ
  pub get_stream_sequence : Str → S → Fallible ℕ
  pub delete_stream_messages_before : Str → ℕ → S → S × Option Error
  pub get_stream_message_by_timestamp : Str → ℤ → S → Fallible ℕ
  pub get_stream_stats : Str → S → Fallible (ℕ × ℕ)

-- `StreamConsumer`: `buf` is what stands in its channel of 100 places.
pub record StreamConsumer : Type 0 where
  pub group : Str
  pub ch : ℕ
  pub buf : List Message
  pub offset : ℕ

abbrev pub channel_size : ℕ
channel_size = 100

-- `StreamQueue`; `storage` is `none` for a nil interface.
pub record StreamQueue (S : Type 0) : Type 0 where
  pub name : Str
  pub next_seq : ℕ
  pub consumers : List StreamConsumer
  pub storage : Option (StreamStorage S)
  pub retention_max_age : Duration
  pub retention_max_bytes : ℤ
  pub next_ch : ℕ

abbrev pub succ_u64 : ℕ → ℕ
succ_u64 n = (n + 1) % 2 ^ 64

unfoldable pub restored_seq : Fallible ℕ → ℕ
restored_seq (ok zero) = 1
restored_seq (ok (suc n)) = succ_u64 (suc n)
restored_seq (failed e) = 1

-- `NewStreamQueue`: sequences start at 1, or behind the highest one stored.
unfoldable pub new_stream_queue : {S : Type 0} → Str → Option (StreamStorage S) → S → StreamQueue S
unfolding restored_seq
new_stream_queue name storage s = record {
  name = name;
  next_seq = elim storage [ none ↦ 1 | some st ↦ restored_seq (st.get_stream_sequence name s) ];
  consumers = [];
  storage = storage;
  retention_max_age = ℤ.pos 0;
  retention_max_bytes = ℤ.pos 0;
  next_ch = 0;
}

-- `SetRetention`
pub set_retention : {S : Type 0} → Duration → ℤ → StreamQueue S → StreamQueue S
set_retention max_age max_bytes sq = record sq {
  retention_max_age = max_age;
  retention_max_bytes = max_bytes;
}

-- The notification of one consumer: only one that waits for this very sequence gets the message.
pub notify : ℕ → Message → StreamConsumer → StreamConsumer
notify seq msg c =
    if c.offset == seq
    then (if ltb (length c.buf) channel_size
        then record c { buf = c.buf ++ (msg ∷ []); offset = succ_u64 seq }
        else c)
    else c

pub notify_all : ℕ → Message → List StreamConsumer → List StreamConsumer
unfolding notify
notify_all seq msg [] = []
notify_all seq msg (c ∷ cs) = notify seq msg c ∷ notify_all seq msg cs

-- What follows the saving in `Publish`; a failure takes the sequence back.
unfoldable pub publish_after :
    {S : Type 0} → Message → StreamQueue S → S × Option Error → (StreamQueue S × S) × Fallible ℕ
unfolding notify_all
publish_after msg sq (s, some e) = ((sq, s), failed e)
publish_after msg sq (s, none) = (
  (
    record sq {
      next_seq = succ_u64 sq.next_seq;
      consumers = notify_all sq.next_seq msg sq.consumers;
    },
    s,
  ),
  ok sq.next_seq,
)

-- `Publish`, with the sequence.
unfoldable pub publish :
    {S : Type 0} → Message → StreamQueue S × S → (StreamQueue S × S) × Fallible ℕ
unfolding publish_after
publish msg (sq, s) =
    let msg' = record msg { sequence = sq.next_seq } in
    publish_after msg' sq (elim sq.storage [
      | none ↦ (s, none)
      | some st ↦ st.save_stream_message sq.name sq.next_seq msg' s
    ])

-- `Subscribe`, with the new consumer's channel.
pub subscribe : {S : Type 0} → Str → ℕ → StreamQueue S → StreamQueue S × ℕ
subscribe group start_offset sq =
    let c : StreamConsumer = record {
      group = group;
      ch = sq.next_ch;
      buf = [];
      offset = if start_offset == 0 then sq.next_seq else start_offset;
    } in
    (record sq { consumers = sq.consumers ++ (c ∷ []); next_ch = sq.next_ch + 1 }, sq.next_ch)

seek_in : Str → ℕ → List StreamConsumer → List StreamConsumer
seek_in group offset [] = []
seek_in group offset (c ∷ cs) =
    if str_eq c.group group then record c { offset = offset } ∷ cs else c ∷ seek_in group offset cs

-- `Seek`: the first consumer of the group is moved.
pub seek : {S : Type 0} → Str → ℕ → StreamQueue S → StreamQueue S
unfolding seek_in
seek group offset sq = record sq { consumers = seek_in group offset sq.consumers }

remove_in : ℕ → List StreamConsumer → List StreamConsumer
remove_in ch [] = []
remove_in ch (c ∷ cs) = if c.ch == ch then cs else c ∷ remove_in ch cs

-- `RemoveConsumer`
pub remove_consumer : {S : Type 0} → ℕ → StreamQueue S → StreamQueue S
unfolding remove_in
remove_consumer ch sq = record sq { consumers = remove_in ch sq.consumers }

-- The client takes the next message from its channel.
receive_in : ℕ → List StreamConsumer → List StreamConsumer
receive_in ch [] = []
receive_in ch (c ∷ cs) =
    if c.ch == ch
    then elim c.buf [ [] ↦ c ∷ cs | m ∷ ms ↦ record c { buf = ms } ∷ cs ]
    else c ∷ receive_in ch cs

pub receive : {S : Type 0} → ℕ → StreamQueue S → StreamQueue S
unfolding receive_in
receive ch sq = record sq { consumers = receive_in ch sq.consumers }

-- `CommitOffset`
pub commit_offset : {S : Type 0} → Str → ℕ → StreamQueue S × S → S × Option Error
commit_offset group offset (sq, s) = elim sq.storage [
  | none ↦ (s, none)
  | some st ↦ st.save_consumer_offset sq.name group offset s
]

-- `GetCommittedOffset`
pub get_committed_offset : {S : Type 0} → Str → StreamQueue S × S → Fallible ℕ
get_committed_offset group (sq, s) = elim sq.storage [
  | none ↦ ok 0
  | some st ↦ st.load_consumer_offset sq.name group s
]
