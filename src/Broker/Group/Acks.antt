-- ===== src/Broker/Group/Acks.antt =====
-- internal/broker/group.go: acknowledgements within a group.
use qwer_q.Common.{ℕ, Bool, true, false, Option, none, some, ◌∷◌, [], ◌++◌, ◌>>=◌}
use qwer_q.Common.Strings.{Str}
use qwer_q.Common.Dict.{lookup, delete}
use qwer_q.Types.{Message, Time}
use qwer_q.Broker.Base.{
  Error, FailurePolicy, Hook, to_dlq, to_drop, to_requeue, fate, NackResult, not_found,
  dead_lettered, discarded, requeued,
}
use qwer_q.Broker.Group.{InFlightEntry, ConsumerGroup, write, try_deliver}

-- What follows the hook in `ackWithHook`.
ack_after :
    {S : Type 0}
    → Str
    → Time
    → ConsumerGroup
    → S × Option Error
    → Option ((ConsumerGroup × S) × Bool × Option Error)
ack_after message_id now g (s, some x) = some ((g, s), false, some x)
ack_after message_id now g (s, none) =
    try_deliver now (record g { in_flight = delete message_id g.in_flight }) >>= λ g'.
    some ((g', s), true, none)

-- `ackWithHook`
pub ack_with_hook :
    {S : Type 0}
    → Hook S
    → Str
    → Time
    → ConsumerGroup × S
    → Option ((ConsumerGroup × S) × Bool × Option Error)
unfolding ack_after
ack_with_hook before_ack message_id now (g, s) = elim (lookup message_id g.in_flight) [
  | none ↦ some ((g, s), false, none)
  | some e ↦ ack_after message_id now g (before_ack (g.store e.msg) s)
]

-- The message leaves the group, unless the hook fails.
discard_after :
    {S : Type 0}
    → Str
    → Message
    → ConsumerGroup
    → S × Option Error
    → Option ((ConsumerGroup × S) × NackResult × Option Error)
discard_after message_id msg g (s, some x) = some ((g, s), discarded msg, some x)
discard_after message_id msg g (s, none) =
    some ((record g { in_flight = delete message_id g.in_flight }, s), discarded msg, none)

-- The last part of `nackWithHooks`: back to pending.
requeue_message :
    {S : Type 0}
    → Str
    → Time
    → InFlightEntry
    → ConsumerGroup × S
    → Option ((ConsumerGroup × S) × NackResult × Option Error)
requeue_message message_id now e (g, s) =
    let msg = record (g.store e.msg) { visible_at = now } in
    try_deliver now (record g {
      in_flight = delete message_id g.in_flight;
      store = write g.store e.msg msg;
      messages = g.messages ++ (e.msg ∷ []);
    })
    >>= λ g'. some ((g', s), requeued (g'.store e.msg), none)

-- `nackWithHooks`
pub nack_with_hooks :
    {S : Type 0}
    → Hook S
    → Str
    → Bool
    → ℕ
    → FailurePolicy
    → Time
    → ConsumerGroup × S
    → Option ((ConsumerGroup × S) × NackResult × Option Error)
unfolding discard_after requeue_message
nack_with_hooks before_drop message_id requeue max_retries policy now (g, s) =
    elim (lookup message_id g.in_flight) [
      | none ↦ some ((g, s), not_found, none)
      | some e ↦
          let msg = g.store e.msg in
          elim (fate requeue policy msg.attempt max_retries) [
            | to_dlq ↦ some (
              (record g { in_flight = delete message_id g.in_flight }, s),
              dead_lettered msg,
              none,
            )
            | to_drop ↦ discard_after message_id msg g (before_drop msg s)
            | to_requeue ↦ requeue_message message_id now e (g, s)
          ]
    ]
