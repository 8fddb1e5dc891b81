-- ===== src/Broker/Queue/Acks.antt =====
-- internal/broker/queue.go: what ends or prolongs a delivery, and what takes messages out.
use qwer_q.Common.{
  ℕ, ◌+◌, Bool, true, false, Option, none, some, List, [], ◌∷◌, ◌++◌, ltb, if◌then◌else◌, ◌>>=◌,
  length, take,
}
use qwer_q.Common.Strings.{Str, str_eq}
use qwer_q.Common.Dict.{lookup, insert, delete}
use qwer_q.Common.Int.{ℤ, pos, negsuc, ◌+ℤ◌}
use qwer_q.Types.{Message, Time, Duration, zero_time}
use qwer_q.Broker.Base.{
  Error, Hook, NackResult, not_found, dead_lettered, discarded, requeued, to_dlq, to_drop,
  to_requeue, Fate, fate, is_before,
}
use qwer_q.Broker.Queue.{Queue, try_deliver}

-- What follows the hook in `ackWithHook`.
unfoldable pub ack_after :
    {S : Type 0}
    → Str
    → Time
    → Queue
    → S × Option Error
    → Option ((Queue × S) × Bool × Option Error)
ack_after message_id now q (s, some x) = some ((q, s), false, some x)
ack_after message_id now q (s, none) =
    try_deliver now (record q { in_flight = delete message_id q.in_flight }) >>= λ q'.
    some ((q', s), true, none)

-- `ackWithHook`
unfoldable pub ack_with_hook :
    {S : Type 0} → Hook S → Str → Time → Queue × S → Option ((Queue × S) × Bool × Option Error)
unfolding ack_after
ack_with_hook before_ack message_id now (q, s) = elim (lookup message_id q.in_flight) [
  | none ↦ some ((q, s), false, none)
  | some msg ↦ ack_after message_id now q (before_ack msg s)
]

-- The message leaves the queue, unless the hook fails.
unfoldable pub discard_after :
    {S : Type 0}
    → Str
    → Message
    → Queue
    → S × Option Error
    → Option ((Queue × S) × NackResult × Option Error)
discard_after message_id msg q (s, some x) = some ((q, s), discarded msg, some x)
discard_after message_id msg q (s, none) =
    some ((record q { in_flight = delete message_id q.in_flight }, s), discarded msg, none)

-- The last part of `nackWithHooks`: back to the end of the queue, unless the hook fails. The result
-- points to the message, which the delivery may have changed since; the value is that of the requeue.
unfoldable pub requeue_after :
    {S : Type 0}
    → Str
    → Message
    → Time
    → Queue
    → S × Option Error
    → Option ((Queue × S) × NackResult × Option Error)
requeue_after message_id msg now q (s, some x) = some ((q, s), requeued msg, some x)
requeue_after message_id msg now q (s, none) =
    let msg' = record msg { visible_at = now } in
    try_deliver now
      (record q { in_flight = delete message_id q.in_flight; messages = q.messages ++ (msg' ∷ []) })
    >>= λ q'. some ((q', s), requeued msg', none)

-- What is done with a message in flight, once its fate is known.
unfoldable pub act :
    {S : Type 0}
    → Hook S
    → Hook S
    → Str
    → Message
    → Time
    → Queue × S
    → Fate
    → Option ((Queue × S) × NackResult × Option Error)
unfolding discard_after requeue_after
act before_drop before_requeue message_id msg now (q, s) to_dlq =
    some ((record q { in_flight = delete message_id q.in_flight }, s), dead_lettered msg, none)
act before_drop before_requeue message_id msg now (q, s) to_drop =
    discard_after message_id msg q (before_drop msg s)
act before_drop before_requeue message_id msg now (q, s) to_requeue =
    requeue_after message_id msg now q (before_requeue (record msg { visible_at = now }) s)

-- `nackWithHooks`
unfoldable pub nack_with_hooks :
    {S : Type 0}
    → Hook S
    → Hook S
    → Str
    → Bool
    → Time
    → Queue × S
    → Option ((Queue × S) × NackResult × Option Error)
unfolding act
nack_with_hooks before_drop before_requeue message_id requeue now (q, s) =
    elim (lookup message_id q.in_flight) [
      | none ↦ some ((q, s), not_found, none)
      | some msg ↦
          act before_drop before_requeue message_id msg now (q, s)
            (fate requeue q.failure_policy msg.attempt q.max_retries)
    ]

-- One entry back to the end of the queue.
unfoldable pub requeue_entry : Time → Str → Message → Queue → Queue
requeue_entry now id msg q = record q {
  in_flight = delete id q.in_flight;
  messages = q.messages ++ (record msg { visible_at = now } ∷ []);
}

-- The loop of `RequeueExpired`; `range` visits the keys in an order of its own.
unfoldable pub requeue_expired_loop : List Str → Time → Queue → Queue
unfolding requeue_entry
requeue_expired_loop [] now q = q
requeue_expired_loop (id ∷ ids) now q = requeue_expired_loop ids now (elim (lookup id q.in_flight) [
  | none ↦ q
  | some msg ↦ if is_before msg.visible_at now then requeue_entry now id msg q else q
])

-- `ExtendVisibility`
unfoldable pub extend_visibility : Str → Duration → Time → Queue → Queue × Time
extend_visibility message_id extension now q = elim (lookup message_id q.in_flight) [
  | none ↦ (q, zero_time)
  | some msg ↦ (
    record q {
      in_flight = insert message_id (record msg { visible_at = now +ℤ extension }) q.in_flight;
    },
    now +ℤ extension,
  )
]

-- `Peek`, of `n` messages at most; a negative `n` panics.
unfoldable pub peek : ℤ → Queue → Option (List Message)
peek (negsuc n) q = none
peek (pos n) q = some (take (if ltb (length q.messages) n then length q.messages else n) q.messages)

unfoldable pub has_id : Str → List Message → Bool
has_id id [] = false
has_id id (m ∷ ms) = if str_eq m.id id then true else has_id id ms

unfoldable pub without_id : Str → List Message → List Message
without_id id [] = []
without_id id (m ∷ ms) = if str_eq m.id id then ms else m ∷ without_id id ms

-- `Remove`
unfoldable pub remove : Str → Queue → Queue × Bool
unfolding has_id without_id
remove message_id q =
    if has_id message_id q.messages
    then (record q { messages = without_id message_id q.messages }, true)
    else elim (lookup message_id q.in_flight) [
      | none ↦ (q, false)
      | some m ↦ (record q { in_flight = delete message_id q.in_flight }, true)
    ]

-- `Purge`, with the number of messages removed.
unfoldable pub purge : Queue → Queue × ℕ
purge q = (record q { messages = []; in_flight = [] }, length q.messages + length q.in_flight)
