-- ===== src/Broker/Queue/Examples.antt =====
-- A queue with one consumer and two messages, on which the theorems are applied.
use qwer_q.Common.{ℕ, ◌≡◌, refl, arith, true, false, none, some, List, [], ◌∷◌, inl, inr}
use qwer_q.Common.Strings.{Str, bytes, str_eq, Str-cases}
use qwer_q.Common.Dict.{lookup, insert, delete}
use qwer_q.Common.Int.{pos, ◌+ℤ◌}
use qwer_q.Types.{Message, Time}
use qwer_q.Broker.Base.{dlq, fate, no_hook, dead_lettered}
use qwer_q.Broker.Queue.{Queue, new_queue, try_deliver, fnv32a}
use qwer_q.Broker.Queue.Acks.{ack_with_hook, nack_with_hooks, requeue_expired_loop}
use qwer_q.Broker.Queue.Contents.{held, IsDistinct, try_deliver-held}
use qwer_q.Broker.Queue.Order.{Front, try_deliver-Front}
use qwer_q.Broker.Queue.Groups.{requeue_expired}
use qwer_q.Broker.Queue.Invariant.{IsRouted}
use qwer_q.Broker.Queue.Total.{Safe, try_deliver-Safe}
use qwer_q.Broker.Queue.Stock.{
  Acked, Nacked, AllKeyed, ack_with_hook-Acked, nack_with_hooks-Nacked, requeue_expired-held,
}
use qwer_q.Broker.Queue.History.{Call, enqueues, dequeues, acks, run, run-new_queue}

abbrev message_of : Str → Str → Message
message_of id key = record {
  id = id;
  queue = bytes "jobs";
  payload = bytes "work";
  headers = [];
  attempt = 0;
  published_at = pos 5;
  visible_at = pos 5;
  ordering_key = key;
  sequence = 0;
}

abbrev first : Message
first = message_of (bytes "a") []

abbrev second_one : Message
second_one = message_of (bytes "b") (bytes "k")

abbrev waiting : Queue
waiting = record {
  name = bytes "jobs";
  messages = first ∷ second_one ∷ [];
  in_flight = [];
  consumers = record { ch = 0; buf = []; visibility_timeout = pos 30 } ∷ [];
  next_idx = 0;
  max_size = pos 10;
  failure_policy = dlq;
  max_retries = 5;
  key_assignments = [];
  groups = [];
  next_ch = 1;
}

abbrev delivered : Queue
delivered = record waiting {
  messages = second_one ∷ [];
  in_flight = (bytes "a", record first { attempt = 1; visible_at = pos 40 }) ∷ [];
  consumers =
      record { ch = 0; buf = record first { attempt = 1 } ∷ []; visibility_timeout = pos 30 } ∷ [];
  key_assignments = (bytes "k", 0) ∷ [];
}

delivers : try_deliver (pos 10) waiting ≡ some delivered
unfolding try_deliver lookup fnv32a insert ◌+ℤ◌
delivers = refl

waiting-IsDistinct : IsDistinct waiting
unfolding str_eq lookup
waiting-IsDistinct id = elim (Str-cases (bytes "a") id) [
  | inl (same, e) ↦ rw (← e) (omega arith)
  | inr (other, _) ↦ rw other (ground arith)
]

try_deliver-held_example : held (bytes "a") delivered ≡ held (bytes "a") waiting
try_deliver-held_example =
    try_deliver-held (pos 10) waiting delivered waiting-IsDistinct delivers (bytes "a")

try_deliver-Front_example : Front (pos 10) waiting delivered
try_deliver-Front_example = try_deliver-Front (pos 10) waiting delivered delivers

try_deliver-Safe_example : Safe waiting (try_deliver (pos 10) waiting)
try_deliver-Safe_example = try_deliver-Safe (pos 10) waiting tt

delivered-IsDistinct : IsDistinct delivered
delivered-IsDistinct id =
    rw (try_deliver-held (pos 10) waiting delivered waiting-IsDistinct delivers id)
      (waiting-IsDistinct id)

abbrev acknowledged : Queue
acknowledged = record delivered { in_flight = [] }

acknowledges :
    ack_with_hook (no_hook {S = ℕ}) (bytes "a") (pos 11) (delivered, 0)
    ≡ some ((acknowledged, 0), true, none)
unfolding ack_with_hook lookup str_eq try_deliver delete
acknowledges = refl

ack_with_hook-Acked_example : Acked (bytes "a") delivered acknowledged true
ack_with_hook-Acked_example =
    ack_with_hook-Acked no_hook (bytes "a") (pos 11) delivered acknowledged 0 0 true none
      delivered-IsDistinct acknowledges

rejects :
    nack_with_hooks (no_hook {S = ℕ}) no_hook (bytes "a") false (pos 11) (delivered, 0)
    ≡ some
        ((acknowledged, 0), dead_lettered (record first { attempt = 1; visible_at = pos 40 }), none)
unfolding nack_with_hooks lookup str_eq fate delete
rejects = refl

delivered-AllKeyed : AllKeyed delivered.in_flight
unfolding lookup
delivered-AllKeyed id msg e = elim (Str-cases (bytes "a") id) [
  | inl (same, p) ↦ ground (arith, rw same at e, p)
  | inr (other, _) ↦ ground (arith, rw other at e)
]

keyed : (msg : Message) → lookup (bytes "a") delivered.in_flight ≡ some msg → msg.id ≡ bytes "a"
unfolding lookup str_eq
keyed msg e = ground (arith, e)

nack_with_hooks-Nacked_example :
    Nacked
      (bytes "a")
      delivered
      acknowledged
      (dead_lettered (record first { attempt = 1; visible_at = pos 40 }))
nack_with_hooks-Nacked_example =
    nack_with_hooks-Nacked no_hook no_hook (bytes "a") false (pos 11) delivered acknowledged 0 0
      (dead_lettered (record first { attempt = 1; visible_at = pos 40 })) none delivered-IsDistinct
      keyed rejects

abbrev expired : Queue
expired = record delivered {
  messages = second_one ∷ record first { attempt = 1; visible_at = pos 50 } ∷ [];
  in_flight = [];
}

expires : requeue_expired (bytes "a" ∷ []) (λ _. []) (pos 50) delivered ≡ some expired
unfolding requeue_expired lookup try_deliver requeue_expired_loop str_eq delete
expires = refl

requeue_expired-held_example : held (bytes "a") expired ≡ held (bytes "a") delivered
requeue_expired-held_example =
    requeue_expired-held (bytes "a" ∷ []) (λ _. []) (pos 50) delivered expired delivered-IsDistinct
      delivered-AllKeyed expires (bytes "a")

abbrev history : List (Time × Call ℕ)
history =
    (pos 1, dequeues (pos 30)) ∷ (pos 2, enqueues first) ∷ (pos 3, acks no_hook (bytes "a")) ∷ []

run-new_queue_example :
    (t : Queue × ℕ) × (run history (new_queue (bytes "jobs"), 0) ≡ some t) × IsRouted t.0
run-new_queue_example = run-new_queue history (bytes "jobs") 0
