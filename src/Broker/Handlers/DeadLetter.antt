-- ===== src/Broker/Handlers/DeadLetter.antt =====
-- A rejected message that is to be dead-lettered leaves its queue. The dead letter queue is a queue
-- like any other, and takes the message unless it is full.
use qwer_q.Common.{
  ◌≡◌, arith, Bool, true, false, Option, none, some, [], ap, sym, ◌∙◌, >>=-eq_some, Bool-cases, inl,
  inr, if◌then◌else◌, length, length-append,
}
use qwer_q.Common.Strings.{Str, str_eq, Str-cases}
use qwer_q.Common.Dict.{lookup, delete, lookup-insert_self, lookup-insert}
use qwer_q.Types.{Message, Time}
use qwer_q.Broker.Base.{Error, fate, to_dlq, Hook, dead_lettered}
use qwer_q.Broker.Queue.{Queue, is_full, enqueue, enqueue_direct}
use qwer_q.Broker.Queue.Acks.{nack_with_hooks, act}
use qwer_q.Broker.Queue.Contents.{held, IsDistinct}
use qwer_q.Broker.Registry.{
  Broker, find_queue, put_queue, get_or_create_queue, dlq_name, dlq_suffix,
}
use qwer_q.Broker.Handlers.{
  move_to_dlq, move_stored, as_enqueued, after_nack, nack_in, handle_nack, delete_hook, save_hook,
}
use qwer_q.Broker.Handlers.Published.{with_message, enqueue_direct-held, found_queue}

enqueue-held :
    (m : Message) (now : Time) (q : Queue) (r : Queue × Option Error)
    → IsDistinct (with_message m q)
    → enqueue m now q ≡ some r
    → (j : Str) → held j r.0 ≡ (if is_full q then held j q else held j (with_message m q))
unfolding enqueue
enqueue-held m now q r d e j = elim (Bool-cases (is_full q)) [
  | inl full ↦
      let same : r.0 ≡ q = cc (rw (full, enqueue) at e) in
      let choice : (if is_full q then held j q else held j (with_message m q)) ≡ held j q =
        rw full in
      ap (held j) same ∙ sym choice
  | inr fits ↦
      let (q', direct, end) = >>=-eq_some (enqueue_direct m now q) _ (rw (fits, enqueue) at e) in
      let same : r.0 ≡ q' = cc end in
      let choice : (if is_full q then held j q else held j (with_message m q))
          ≡ held j (with_message m q) =
        rw fits in
      ap (held j) same ∙ enqueue_direct-held m now q q' d direct j ∙ sym choice
]

-- A queue is not its own dead letter queue.
pub dlq_name-ne : (name : Str) → str_eq name (dlq_name name) ≡ false
dlq_name-ne name = elim (Str-cases name (dlq_name name)) [
  | inr (other, _) ↦ other
  | inl (_, same) ↦ absurd (omega (arith, ap length same, length-append name dlq_suffix))
]

dlq_name-ne' : (name : Str) → str_eq (dlq_name name) name ≡ false
dlq_name-ne' name = elim (Str-cases (dlq_name name) name) [
  | inr (other, _) ↦ other
  | inl (_, same) ↦ absurd (omega (arith, ap length same, length-append name dlq_suffix))
]

pub nack-to_dlq :
    {S : Type 0} (drops requeues : Hook S) (id : Str) (again : Bool) (now : Time) (q : Queue)
    (s : S) (msg : Message)
    → lookup id q.in_flight ≡ some msg
    → fate again q.failure_policy msg.attempt q.max_retries ≡ to_dlq
    → nack_with_hooks drops requeues id again now (q, s)
      ≡ some ((record q { in_flight = delete id q.in_flight }, s), dead_lettered msg, none)
unfolding nack_with_hooks act
nack-to_dlq drops requeues id again now q s msg p f = rw (p, nack_with_hooks) (rw f)

move_to_dlq-found :
    {S : Type 0} (queue : Str) (msg : Message) (now : Time) (b : Broker S) (s : S) (dlq : Queue)
    (r : Queue × Option Error)
    → find_queue (dlq_name queue) b ≡ some dlq
    → enqueue (record msg { queue = dlq_name queue; visible_at = now }) now dlq ≡ some r
    → move_to_dlq queue msg now (b, s)
      ≡ some (
        put_queue (dlq_name queue) r.0 b,
        move_stored b.storage queue
            (as_enqueued (record msg { queue = dlq_name queue; visible_at = now }) r.0 r.1)
            s,
      )
unfolding move_to_dlq get_or_create_queue
move_to_dlq-found queue msg now b s dlq r found e =
    rw (found_queue (dlq_name queue) b s dlq found, move_to_dlq) (rw (e, move_to_dlq))

-- The dead letter of a message, and what the broker holds once the message has moved.
abbrev pub letter : Str → Message → Time → Message
letter queue msg now = record msg { queue = dlq_name queue; visible_at = now }

pub record Moved (S : Type 0) (queue id : Str) (l : Message) (q dlq : Queue)
    (m : Option ((Broker S × S) × Bool × Option Error)) : Type 0 where
  pub broker : Broker S
  pub stored : S
  pub answered : m ≡ some ((broker, stored), true, none)
  pub gone : find_queue queue broker ≡ some (record q { in_flight = delete id q.in_flight })
  pub dlq_after : Queue
  pub kept : find_queue (dlq_name queue) broker ≡ some dlq_after
  pub held_after :
      (j : Str)
      → held j dlq_after ≡ (if is_full dlq then held j dlq else held j (with_message l dlq))

-- A rejected message in flight in a queue, outside the groups, whose fate is the dead letter queue
-- leaves its queue, and the request is answered as done. The dead letter queue, where there is one
-- with no identifier held twice and its `Enqueue` does not panic, holds what it held before and
-- the message, unless it is full: then it holds what it held before only.
pub handle_nack-Moved :
    {S : Type 0} (id : Str) (again : Bool) (queue : Str) (now : Time) (b : Broker S) (s : S)
    (q dlq : Queue) (msg : Message) (r : Queue × Option Error)
    → find_queue queue b ≡ some q
    → find_queue (dlq_name queue) b ≡ some dlq
    → lookup id q.in_flight ≡ some msg
    → fate again q.failure_policy msg.attempt q.max_retries ≡ to_dlq
    → IsDistinct (with_message (letter queue msg now) dlq)
    → enqueue (letter queue msg now) now dlq ≡ some r
    → Moved S queue id (letter queue msg now) q dlq (handle_nack id again queue [] now (b, s))
unfolding handle_nack nack_in after_nack
handle_nack-Moved id again queue now b s q dlq msg r here there flying sends distinct e =
    let q' : Queue = record q { in_flight = delete id q.in_flight } in
    let b' = put_queue queue q' b in
    let apart = dlq_name-ne queue in
    let still : find_queue (dlq_name queue) b' ≡ some dlq =
      rw (lookup-insert (dlq_name queue) queue q' b.queues, apart) there in
    let rejected =
      nack-to_dlq (delete_hook b.storage queue id) (save_hook b.storage) id again now q s msg flying
        sends in
    let moved = move_to_dlq-found queue msg now b' s dlq r still e in
    record {
      broker = put_queue (dlq_name queue) r.0 b';
      stored = move_stored b.storage queue (as_enqueued (letter queue msg now) r.0 r.1) s;
      answered = rw (here, handle_nack) (rw (rejected, nack_in) (rw (moved, after_nack)));
      gone =
          rw (lookup-insert queue (dlq_name queue) r.0 b'.queues, dlq_name-ne' queue)
            (lookup-insert_self queue q' b.queues);
      dlq_after = r.0;
      kept = lookup-insert_self (dlq_name queue) r.0 b'.queues;
      held_after = enqueue-held (letter queue msg now) now dlq r distinct e;
    }
