-- ===== src/Broker/Queue.antt =====
-- internal/broker/queue.go: a queue. A message pointer stands in one place at a time, pending or in
-- flight, so messages are values; consumers get copies. A consumer is known by its channel `ch`,
-- which holds one message. The clock is read once for each operation. `none` is a panic.
pub mod Consumers
pub mod Acks
pub mod Groups
pub mod Contents
pub mod Carries
pub mod Delivery
pub mod Order
pub mod Invariant
pub mod Total
pub mod Live
pub mod Runs
pub mod History
pub mod Stock
mod Examples
use qwer_q.Common.{
  ℕ, zero, suc, ◌+◌, ◌-◌, ◌*◌, ◌%◌, ◌^◌, Bool, true, false, ◌&&◌, ◌||◌, Option, none, some, List,
  [], ◌∷◌, ◌++◌, ltb, leb, ◌==◌, if◌then◌else◌, ◌>>=◌, length, get_elem?, set,
}
use qwer_q.Common.Strings.{Str}
use qwer_q.Common.Dict.{Dict, lookup, insert}
use qwer_q.Common.Int.{ℤ, pos, ◌+ℤ◌, lt_ℤ, pos_part}
use qwer_q.Types.{Message, Time, Duration}
use qwer_q.Broker.Base.{Error, queue_full, FailurePolicy, dlq, default_max_retries, is_after}
use qwer_q.Broker.Group.{ConsumerGroup, has_room, is_empty}
use qwer_q.Broker.Group
use Prim.Native.Nat.{bit_xor}

abbrev pub default_max_queue_size : ℕ
default_max_queue_size = 10000

-- `Consumer`
pub record Consumer : Type 0 where
  pub ch : ℕ
  pub buf : List Message
  pub visibility_timeout : Duration

-- `Queue`. `next_ch` is the next channel that `Dequeue` makes.
pub record Queue : Type 0 where
  pub name : Str
  pub messages : List Message
  pub in_flight : Dict Message
  pub consumers : List Consumer
  pub next_idx : ℕ
  pub max_size : ℤ
  pub failure_policy : FailurePolicy
  pub max_retries : ℕ
  pub key_assignments : Dict ℕ
  pub groups : Dict ConsumerGroup
  pub next_ch : ℕ

-- `NewQueue`
unfoldable pub new_queue : Str → Queue
new_queue name = record {
  name = name;
  messages = [];
  in_flight = [];
  consumers = [];
  next_idx = 0;
  max_size = pos default_max_queue_size;
  failure_policy = dlq;
  max_retries = default_max_retries;
  key_assignments = [];
  groups = [];
  next_ch = 0;
}

-- `cloneMessage`: the copy that a consumer gets counts the attempt already.
pub clone_message : Message → Message
clone_message msg = record msg { attempt = (msg.attempt + 1) % 2 ^ 32 }

-- FNV-1a over 32 bits, of the standard library: `h.Sum32()` after one `Write`.
fnv_loop : ℕ → Str → ℕ
fnv_loop h [] = h
fnv_loop h (b ∷ s) = fnv_loop (bit_xor h b * 16777619 % 2 ^ 32) s

pub fnv32a : Str → ℕ
unfolding fnv_loop
fnv32a s = fnv_loop 2166136261 s

-- The index of the consumer that owns a channel.
pub index_of : ℕ → List Consumer → Option ℕ
index_of ch [] = none
index_of ch (c ∷ cs) = if c.ch == ch then some 0 else (index_of ch cs >>= λ i. some (suc i))

-- `select { case c.Ch <- cloneMessage(msg): … default: }` to the consumer at an index: the queue
-- with the copy in the channel, and the message as it is now, if the channel took it.
pub send : Time → Message → ℕ → Queue → Option (Queue × Option Message)
unfolding clone_message
send now msg idx q = elim (get_elem? q.consumers idx) [
  | none ↦ none
  | some c ↦
      if has_room c.buf
      then some (
        record q {
          consumers = set q.consumers idx (record c { buf = c.buf ++ (clone_message msg ∷ []) });
        },
        some (record msg { visible_at = now +ℤ c.visibility_timeout }),
      )
      else some (q, none)
]

-- To the consumer of an assignment. If it is gone its channel is closed, and a send on it panics.
send_to : Time → Message → ℕ → Queue → Option (Queue × Option Message)
unfolding send index_of
send_to now msg ch q = index_of ch q.consumers >>= λ idx. send now msg idx q

-- `deliverOrdered`
pub deliver_ordered : Time → Message → Queue → Option (Queue × Option Message)
unfolding send_to
deliver_ordered now msg q = elim (lookup msg.ordering_key q.key_assignments) [
  | some ch ↦ send_to now msg ch q
  | none ↦ get_elem? q.consumers (fnv32a msg.ordering_key % length q.consumers) >>= λ c.
      send_to now msg c.ch
        (record q { key_assignments = insert msg.ordering_key c.ch q.key_assignments })
]

-- The loop of `deliverRoundRobin`, with `k` rounds left from `j` on.
round_robin_loop : Time → Message → ℕ → ℕ → Queue → Option (Queue × Option Message)
unfolding send
round_robin_loop now msg zero j q = some (q, none)
round_robin_loop now msg (suc k) j q =
    let idx = (q.next_idx + j) % length q.consumers in
    send now msg idx q >>= λ r. elim r.1 [
      | some msg' ↦ some (record r.0 { next_idx = (idx + 1) % length q.consumers }, some msg')
      | none ↦ round_robin_loop now msg k (j + 1) r.0
    ]

-- `deliverRoundRobin`
pub deliver_round_robin : Time → Message → Queue → Option (Queue × Option Message)
unfolding round_robin_loop
deliver_round_robin now msg q = round_robin_loop now msg (length q.consumers) 0 q

-- A key is routed, and no key goes round.
pub deliver : Time → Message → Queue → Option (Queue × Option Message)
unfolding deliver_ordered deliver_round_robin
deliver now msg q =
    if is_empty msg.ordering_key then deliver_round_robin now msg q else deliver_ordered now msg q

-- A delivered message is in flight, with its attempt counted.
pub launch : Message → Message → Queue → Queue
launch msg msg' q = record q {
  in_flight = insert msg.id (record msg' { attempt = (msg'.attempt + 1) % 2 ^ 32 }) q.in_flight;
}

-- `for len(q.messages) > 0`; the list is `q.messages` at the start of each round.
pub deliver_loop : List Message → Time → Queue → Option Queue
unfolding deliver launch
deliver_loop [] now q = some q
deliver_loop (msg ∷ rest) now q = elim (is_after msg.visible_at now) [
  | true ↦ some q
  | false ↦ deliver now msg q >>= λ r. elim r.1 [
    | none ↦ some r.0
    | some msg' ↦ deliver_loop rest now (launch msg msg' (record (r.0) { messages = rest }))
  ]
]

-- `tryDeliver`
unfoldable pub try_deliver : Time → Queue → Option Queue
unfolding deliver_loop
try_deliver now q =
    if is_empty q.consumers || is_empty q.messages then some q else deliver_loop q.messages now q

-- The fan-out to the groups, in the order in which `range` visits the map.
unfoldable pub enqueue_groups : Message → Time → Dict ConsumerGroup → Option (Dict ConsumerGroup)
enqueue_groups msg now [] = some []
enqueue_groups msg now ((name, g) ∷ gs) =
    Group.enqueue msg now g >>= λ g'. enqueue_groups msg now gs >>= λ gs'. some ((name, g') ∷ gs')

-- `EnqueueDirect`
unfoldable pub enqueue_direct : Message → Time → Queue → Option Queue
unfolding enqueue_groups
enqueue_direct msg now q =
    try_deliver now (record q { messages = q.messages ++ (msg ∷ []) }) >>= λ q'.
    enqueue_groups msg now q'.groups >>= λ gs. some (record q' { groups = gs })

abbrev pub is_full : Queue → Bool
is_full q = lt_ℤ (pos 0) q.max_size && leb (pos_part q.max_size) (length q.messages)

-- `Enqueue`
unfoldable pub enqueue : Message → Time → Queue → Option (Queue × Option Error)
enqueue msg now q =
    if is_full q
    then some (q, some queue_full)
    else (enqueue_direct msg now q >>= λ q'. some (q', none))
