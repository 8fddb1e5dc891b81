-- ===== src/Broker/StreamHandlers.antt =====
-- The requests of internal/broker/handlers.go on stream queues. `none` is a panic.
use qwer_q.Common.{ℕ, Option, none, some, [], ◌==◌, if◌then◌else◌}
use qwer_q.Common.Strings.{Str}
use qwer_q.Common.Int.{ℤ}
use qwer_q.Types.{Message, Time, zero_time}
use qwer_q.Broker.Base.{Error, queue_full}
use qwer_q.Broker.Group.{is_empty}
use qwer_q.Broker.Stream.{Fallible, ok, failed, StreamQueue, publish, seek, commit_offset}
use qwer_q.Broker.Registry.{check_memory_pressure}
use qwer_q.Broker.Handlers.{PublishRequest, check_key}
use qwer_q.Broker.Recovery.{
  FullBroker, find_stream_queue, put_stream_queue, get_or_create_stream_queue_with_error,
}

-- The message that `HandleStreamPublish` makes.
abbrev pub stream_message_of : PublishRequest → Str → Time → Message
stream_message_of req fresh_id now = record {
  id = if is_empty req.message_id then fresh_id else req.message_id;
  queue = req.queue;
  payload = req.payload;
  headers = req.headers;
  attempt = 0;
  published_at = now;
  visible_at = zero_time;
  ordering_key = [];
  sequence = 0;
}

-- What the outcome of `Publish` leads to: the identifier and the sequence.
unfoldable pub after_publish :
    {S : Type 0}
    → Message
    → FullBroker S
    → (StreamQueue S × S) × Fallible ℕ
    → (FullBroker S × S) × Fallible (Str × ℕ)
after_publish msg b ((sq, s), failed e) = ((put_stream_queue msg.queue sq b, s), failed e)
after_publish msg b ((sq, s), ok seq) = ((put_stream_queue msg.queue sq b, s), ok (msg.id, seq))

-- The part of `HandleStreamPublish` behind the checks.
unfoldable pub stream_publish :
    {S : Type 0}
    → Message
    → (FullBroker S × S) × Option (StreamQueue S) × Option Error
    → Option ((FullBroker S × S) × Fallible (Str × ℕ))
stream_publish msg (t, sq, some e) = some (t, failed e)
stream_publish msg (t, none, none) = none
stream_publish msg ((b, s), some sq, none) = some (after_publish msg b (publish msg (sq, s)))

-- `HandleStreamPublish`
unfoldable pub handle_stream_publish :
    {S : Type 0}
    → PublishRequest
    → Str
    → Time
    → FullBroker S × S
    → Option ((FullBroker S × S) × Fallible (Str × ℕ))
handle_stream_publish req fresh_id now (b, s) = elim (check_memory_pressure b.broker) [
  | some e ↦ some ((b, s), failed e)
  | none ↦
      let r = check_key now req.idempotency_key b.broker in
      let b' = record b { broker = r.0 } in
      elim r.1 [
        | some e ↦ some ((b', s), failed e)
        | none ↦
            stream_publish (stream_message_of req fresh_id now)
              (get_or_create_stream_queue_with_error req.queue (b', s))
      ]
]

-- `SeekPosition`; any other value moves to offset 0.
pub data SeekPosition : Type 0 where
  seek_beginning seek_end seek_unknown : SeekPosition
  seek_offset : ℕ → SeekPosition
  seek_timestamp : ℤ → SeekPosition

-- Where no message is at the timestamp or after, the end.
unfoldable pub at_timestamp : ℕ → Fallible ℕ → Fallible ℕ
at_timestamp end (failed e) = failed e
at_timestamp end (ok seq) = ok (if seq == 0 then end else seq)

-- The offset that a seek asks for.
unfoldable pub seek_target : {S : Type 0} → SeekPosition → StreamQueue S × S → Fallible ℕ
seek_target seek_beginning (sq, s) = ok 1
seek_target seek_end (sq, s) = ok sq.next_seq
seek_target seek_unknown (sq, s) = ok 0
seek_target (seek_offset n) (sq, s) = ok n
seek_target (seek_timestamp ms) (sq, s) = elim sq.storage [
  | none ↦ ok 0
  | some st ↦ at_timestamp sq.next_seq (st.get_stream_message_by_timestamp sq.name ms s)
]

unfoldable pub seek_to :
    {S : Type 0} → Str → Str → StreamQueue S → FullBroker S → Fallible ℕ → FullBroker S × Fallible ℕ
seek_to queue group sq b (failed e) = (b, failed e)
seek_to queue group sq b (ok offset) = (put_stream_queue queue (seek group offset sq) b, ok offset)

-- `HandleSeek`: a missing stream gives the error of a full queue.
pub handle_seek :
    {S : Type 0} → Str → Str → SeekPosition → FullBroker S × S → FullBroker S × Fallible ℕ
handle_seek queue group position (b, s) = elim (find_stream_queue queue b) [
  | none ↦ (b, failed queue_full)
  | some sq ↦ seek_to queue group sq b (seek_target position (sq, s))
]

-- `HandleCommitOffset`
pub handle_commit_offset : {S : Type 0} → Str → Str → ℕ → FullBroker S × S → S × Option Error
handle_commit_offset queue group offset (b, s) = elim (find_stream_queue queue b) [
  | none ↦ (s, some queue_full)
  | some sq ↦ commit_offset group offset (sq, s)
]
