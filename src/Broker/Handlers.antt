-- ===== src/Broker/Handlers.antt =====
-- internal/broker/handlers.go: what the broker does for a request on a queue. The requests are
-- records of the fields that the handlers read; `fresh_id` is what `NewULID` gives.
pub mod Published
pub mod Retry
pub mod DeadLetter
pub mod NilQueue
mod Examples
use qwer_q.Common.{
  ℕ, ◌*◌, Bool, true, false, Option, none, some, List, [], ◌∷◌, ltb, if◌then◌else◌, ◌>>=◌, ◌||◌,
}
use mathlib.Core.Bool.{not}
use qwer_q.Common.Strings.{Str}
use qwer_q.Common.Dict.{Dict, lookup, insert}
use qwer_q.Common.Int.{pos, lt_ℤ}
use qwer_q.Types.{Message, Time, Duration, zero_time}
use qwer_q.Broker.Base.{Error, joined, Hook, NackResult, second}
use qwer_q.Broker.Dedup
use qwer_q.Broker.Dedup.{IdempotencyTracker}
use qwer_q.Broker.Group
use qwer_q.Broker.Group.{ConsumerGroup, is_empty}
use qwer_q.Broker.Group.Members
use qwer_q.Broker.Group.Acks as GroupAcks
use qwer_q.Broker.Queue
use qwer_q.Broker.Queue.{Queue}
use qwer_q.Broker.Queue.Acks
use qwer_q.Broker.Queue.Consumers
use qwer_q.Broker.Queue.Groups.{get_group, get_or_create_group, remove_group}
use qwer_q.Broker.Stream.{Fallible, ok, failed}
use qwer_q.Broker.Registry.{
  Storage, Broker, check_memory_pressure, find_queue, put_queue, get_or_create_queue_with_error,
  get_or_create_queue, dlq_name,
}

pub record PublishRequest : Type 0 where
  pub queue : Str
  pub payload : Str
  pub headers : Dict Str
  pub message_id : Str
  pub ordering_key : Str
  pub idempotency_key : Str

-- The storage's calls, which do nothing when there is none.
unfoldable pub save_in : {S : Type 0} → Option (Storage S) → Message → S → S × Option Error
save_in none m s = (s, none)
save_in (some st) m s = st.save_message m s

unfoldable pub delete_in : {S : Type 0} → Option (Storage S) → Str → Str → S → S × Option Error
delete_in none queue id s = (s, none)
delete_in (some st) queue id s = st.delete_message queue id s

-- The message that a publish request makes.
abbrev pub message_of : PublishRequest → Str → Time → Message
message_of req fresh_id now = record {
  id = if is_empty req.message_id then fresh_id else req.message_id;
  queue = req.queue;
  payload = req.payload;
  headers = req.headers;
  attempt = 0;
  published_at = now;
  visible_at = now;
  ordering_key = req.ordering_key;
  sequence = 0;
}

-- The check of the idempotency key.
unfoldable pub check_key : {S : Type 0} → Time → Str → Broker S → Broker S × Option Error
check_key now key b = elim b.dedup [
  | none ↦ (b, none)
  | some t ↦ let r = Dedup.check now key t in (record b { dedup = some r.0 }, r.1)
]

-- The storage forgets the message that the queue refused.
unfoldable pub roll_back :
    {S : Type 0} → Error → Broker S → S × Option Error → (Broker S × S) × Fallible Str
roll_back e b (s, none) = ((b, s), failed e)
roll_back e b (s, some e') = ((b, s), failed (joined e e'))

-- What the outcome of `Enqueue` leads to.
unfoldable pub after_enqueue :
    {S : Type 0} → Message → Broker S × S → Queue × Option Error → (Broker S × S) × Fallible Str
unfolding roll_back
after_enqueue msg (b, s) (q, none) = ((put_queue msg.queue q b, s), ok msg.id)
after_enqueue msg (b, s) (q, some e) = roll_back e b (delete_in b.storage msg.queue msg.id s)

-- What the outcome of `SaveMessage` leads to.
unfoldable pub after_save :
    {S : Type 0}
    → Message
    → Time
    → Queue
    → Broker S
    → S × Option Error
    → Option ((Broker S × S) × Fallible Str)
unfolding after_enqueue
after_save msg now q b (s, some e) = some ((b, s), failed e)
after_save msg now q b (s, none) =
    Queue.enqueue msg now q >>= λ r. some (after_enqueue msg (b, s) r)

-- The part of `HandlePublish` behind the checks.
unfoldable pub publish_message :
    {S : Type 0}
    → Message
    → Time
    → (Broker S × S) × Option Queue × Option Error
    → Option ((Broker S × S) × Fallible Str)
unfolding after_save
publish_message msg now (t, q, some e) = some (t, failed e)
publish_message msg now (t, none, none) = none
publish_message msg now ((b, s), some q, none) = after_save msg now q b (save_in b.storage msg s)

-- `HandlePublish`, with the message's identifier.
unfoldable pub handle_publish :
    {S : Type 0}
    → PublishRequest
    → Str
    → Time
    → Broker S × S
    → Option ((Broker S × S) × Fallible Str)
unfolding check_key publish_message
handle_publish req fresh_id now (b, s) = elim (check_memory_pressure b) [
  | some e ↦ some ((b, s), failed e)
  | none ↦
      let r = check_key now req.idempotency_key b in
      elim r.1 [
        | some e ↦ some ((r.0, s), failed e)
        | none ↦
            publish_message (message_of req fresh_id now) now
              (get_or_create_queue_with_error req.queue (r.0, s))
      ]
]

-- 30 seconds
abbrev pub default_visibility_timeout : Duration
default_visibility_timeout = pos (30 * second)

-- The new consumer, of the queue or of a group.
join :
    {S : Type 0} → Str → Str → Duration → Time → Str → Broker S × S → Queue → Option (Broker S × S)
join queue group timeout now member_id (b, s) q =
    if is_empty group
    then (Consumers.dequeue timeout now q >>= λ r. some (put_queue queue r.0 b, s))
    else (let r = get_or_create_group group q in
        Members.add_member member_id timeout now r.1 >>= λ g.
        some (put_queue queue (record (r.0) { groups = insert group g r.0.groups }) b, s))

-- `HandleConsume`; the timeout is in seconds.
unfoldable pub handle_consume :
    {S : Type 0} → Str → Str → ℕ → Str → Time → Broker S × S → Option (Broker S × S)
unfolding join
handle_consume queue group visibility_timeout member_id now t =
    let timeout =
      if ltb 0 visibility_timeout
      then pos (visibility_timeout * second)
      else default_visibility_timeout in
    let r = get_or_create_queue queue t in r.1 >>= λ q. join queue group timeout now member_id r.0 q

-- `deleteStored` and `deleteDropped`.
abbrev pub delete_hook : {S : Type 0} → Option (Storage S) → Str → Str → Hook S
delete_hook storage queue id = λ m s. delete_in storage queue id s

abbrev put_group : Str → ConsumerGroup → Queue → Queue
put_group name g q = record q { groups = insert name g q.groups }

-- The acknowledgement in the queue, or in one of its groups.
ack_in :
    {S : Type 0}
    → Str
    → Str
    → Str
    → Time
    → Queue
    → Broker S × S
    → Option ((Broker S × S) × Bool × Option Error)
ack_in id queue group now q (b, s) =
    let hook = delete_hook b.storage queue id in
    if is_empty group
    then (Acks.ack_with_hook hook id now (q, s) >>= λ r.
        some ((put_queue queue r.0.0 b, r.0.1), r.1, r.2))
    else elim (get_group group q) [
      | none ↦ some ((b, s), false, none)
      | some g ↦ GroupAcks.ack_with_hook hook id now (g, s) >>= λ r.
          some ((put_queue queue (put_group group r.0.0 q) b, r.0.1), r.1, r.2)
    ]

-- `HandleAck`
pub handle_ack :
    {S : Type 0}
    → Str
    → Str
    → Str
    → Time
    → Broker S × S
    → Option ((Broker S × S) × Bool × Option Error)
unfolding ack_in
handle_ack id queue group now (b, s) = elim (find_queue queue b) [
  | none ↦ some ((b, s), false, none)
  | some q ↦ ack_in id queue group now q (b, s)
]

-- The message as the dead letter queue left it: a delivery has changed it. It was the last of the
-- queue, so it was delivered if nothing is pending.
unfoldable pub as_enqueued : Message → Queue → Option Error → Message
as_enqueued m q (some e) = m
as_enqueued m q none =
    if is_empty q.messages then elim (lookup m.id q.in_flight) [ none ↦ m | some m' ↦ m' ] else m

-- The stored message moves along; the errors are dropped.
unfoldable pub move_stored : {S : Type 0} → Option (Storage S) → Str → Message → S → S
move_stored storage queue m s = (save_in storage m (delete_in storage queue m.id s).0).0

-- The move to the dead letter queue. The errors of `Enqueue` and of the storage are dropped.
unfoldable pub move_to_dlq :
    {S : Type 0} → Str → Message → Time → Broker S × S → Option (Broker S × S)
unfolding as_enqueued move_stored
move_to_dlq queue msg now t =
    let name = dlq_name queue in
    let m = record msg { queue = name; visible_at = now } in
    let found = get_or_create_queue name t in
    let b = found.0.0 in
    let s = found.0.1 in
    found.1 >>= λ dlq. Queue.enqueue m now dlq >>= λ r.
    some (put_queue name r.0 b, move_stored b.storage queue (as_enqueued m r.0 r.1) s)

-- What the outcome of a negative acknowledgement leads to.
unfoldable pub after_nack :
    {S : Type 0}
    → Str
    → Time
    → Broker S × S
    → NackResult
    → Option Error
    → Option ((Broker S × S) × Bool × Option Error)
unfolding move_to_dlq
after_nack queue now t n (some e) = some (t, false, some e)
after_nack queue now t n none =
    if n.found
    then (if n.to_dlq
        then elim n.message [
          | none ↦ some (t, true, none)
          | some m ↦ move_to_dlq queue m now t >>= λ t'. some (t', true, none)
        ]
        else some (t, true, none))
    else some (t, false, none)

-- `persistRequeue`
abbrev pub save_hook : {S : Type 0} → Option (Storage S) → Hook S
save_hook storage = λ m s. save_in storage m s

nack_in :
    {S : Type 0}
    → Str
    → Bool
    → Str
    → Str
    → Time
    → Queue
    → Broker S × S
    → Option ((Broker S × S) × Bool × Option Error)
unfolding after_nack
nack_in id requeue queue group now q (b, s) =
    let drop = delete_hook b.storage queue id in
    if is_empty group
    then (Acks.nack_with_hooks drop (save_hook b.storage) id requeue now (q, s) >>= λ r.
        after_nack queue now (put_queue queue r.0.0 b, r.0.1) r.1 r.2)
    else elim (get_group group q) [
      | none ↦ some ((b, s), false, none)
      | some g ↦
          GroupAcks.nack_with_hooks drop id requeue q.max_retries q.failure_policy now (g, s)
          >>= λ r. after_nack queue now (put_queue queue (put_group group r.0.0 q) b, r.0.1) r.1 r.2
    ]

-- `HandleNack`
unfoldable pub handle_nack :
    {S : Type 0}
    → Str
    → Bool
    → Str
    → Str
    → Time
    → Broker S × S
    → Option ((Broker S × S) × Bool × Option Error)
unfolding nack_in
handle_nack id requeue queue group now (b, s) = elim (find_queue queue b) [
  | none ↦ some ((b, s), false, none)
  | some q ↦ nack_in id requeue queue group now q (b, s)
]

-- `IsZero`
is_zero_time : Time → Bool
is_zero_time t = not (lt_ℤ t zero_time || lt_ℤ zero_time t)

-- `HandleExtendVisibility`; the extension is in seconds.
pub handle_extend_visibility :
    {S : Type 0} → Str → ℕ → Str → Time → Broker S × S → (Broker S × S) × Time × Bool
unfolding is_zero_time
handle_extend_visibility id extension_seconds queue now (b, s) = elim (find_queue queue b) [
  | none ↦ ((b, s), zero_time, false)
  | some q ↦
      let r = Acks.extend_visibility id (pos (extension_seconds * second)) now q in
      if is_zero_time r.1
      then ((put_queue queue r.0 b, s), zero_time, false)
      else ((put_queue queue r.0 b, s), r.1, true)
]

-- `HandleHeartbeat`
pub handle_heartbeat : {S : Type 0} → Str → Str → Str → Time → Broker S × S → (Broker S × S) × Bool
handle_heartbeat queue group member_id now (b, s) = elim (find_queue queue b) [
  | none ↦ ((b, s), false)
  | some q ↦ elim (get_group group q) [
    | none ↦ ((b, s), false)
    | some g ↦
        let r = Members.heartbeat member_id now g in
        ((put_queue queue (put_group group r.0 q) b, s), r.1)
  ]
]

-- A member leaves its group, and an empty group goes.
leave_group :
    {S : Type 0} → Str → Str → Queue → Broker S × S → ConsumerGroup × Bool → (Broker S × S) × Bool
leave_group queue group q (b, s) (g, empty) =
    ((put_queue queue (if empty then remove_group group q else put_group group g q) b, s), true)

-- `HandleUnsubscribe`; `order` is the order in which `range` visits the group's entries, and `ch` the
-- channel of a consumer without a group.
pub handle_unsubscribe :
    {S : Type 0}
    → Str
    → Str
    → Str
    → Option ℕ
    → List Str
    → Time
    → Broker S × S
    → Option ((Broker S × S) × Bool)
unfolding leave_group
handle_unsubscribe queue group member_id ch order now (b, s) = elim (find_queue queue b) [
  | none ↦ some ((b, s), false)
  | some q ↦
      if is_empty group
      then elim ch [
        | none ↦ some ((b, s), false)
        | some c ↦ some ((put_queue queue (Consumers.remove_consumer c q) b, s), true)
      ]
      else elim (get_group group q) [
        | none ↦ some ((b, s), false)
        | some g ↦ Members.remove_member order member_id now g >>= λ r.
            some (leave_group queue group q (b, s) r)
      ]
]
