-- ===== src/Broker/Group.antt =====
-- internal/broker/group.go: a consumer group. Messages are shared by pointer between the pending
-- list, the in-flight entries and the members' channels, so a group has a store from pointers to
-- messages; `next_ptr` is the next address that `Enqueue` allocates.
-- A member's channel holds one message. The clock is read once for each operation. `none` is a panic.
pub mod Members
pub mod Acks
pub mod Crash
pub mod Settle
use qwer_q.Common.{
  ℕ, zero, suc, ◌+◌, ◌-◌, ◌*◌, ◌%◌, ◌^◌, Bool, true, false, ◌&&◌, ◌||◌, Option, none, some, List,
  [], ◌∷◌, ◌++◌, ltb, leb, ◌==◌, if◌then◌else◌, ◌>>=◌, length, get_elem?, set,
}
use qwer_q.Common.Strings.{Str, str_eq}
use qwer_q.Common.Dict.{Dict, lookup, insert, delete}
use qwer_q.Common.Int.{ℤ, pos, ◌+ℤ◌, lt_ℤ}
use qwer_q.Types.{Message, Time, Duration, zero_time}
use qwer_q.Broker.Base.{second, is_after}

abbrev pub default_heartbeat_timeout : Duration
default_heartbeat_timeout = pos (10 * second)

-- `groupMember`; `buf` is what stands in its channel, pointers to messages.
pub record Member : Type 0 where
  pub id : Str
  pub buf : List ℕ
  pub vis_timeout : Duration
  pub last_heartbeat : Time

pub record InFlightEntry : Type 0 where
  pub msg : ℕ
  pub member_id : Str

pub record ConsumerGroup : Type 0 where
  pub name : Str
  pub queue_name : Str
  pub members : List Member
  pub next_idx : ℕ
  pub messages : List ℕ
  pub in_flight : Dict InFlightEntry
  pub heartbeat_timeout : Duration
  pub store : ℕ → Message
  pub next_ptr : ℕ

abbrev pub write : (ℕ → Message) → ℕ → Message → ℕ → Message
write store p m q = if q == p then m else store q

abbrev pub no_message : Message
no_message = record {
  id = [];
  queue = [];
  payload = [];
  headers = [];
  attempt = 0;
  published_at = zero_time;
  visible_at = zero_time;
  ordering_key = [];
  sequence = 0;
}

-- `NewConsumerGroup`
pub new_consumer_group : Str → Str → ConsumerGroup
new_consumer_group name queue_name = record {
  name = name;
  queue_name = queue_name;
  members = [];
  next_idx = 0;
  messages = [];
  in_flight = [];
  heartbeat_timeout = default_heartbeat_timeout;
  store = λ p. no_message;
  next_ptr = 0;
}

-- A channel of capacity 1 takes a message only when it is empty.
abbrev pub has_room : {A : Type 0} → List A → Bool
has_room [] = true
has_room (p ∷ ps) = false

-- The body of the send case: `idx` is the member's index, `rest` what the head leaves.
pub sent : Time → ℕ → ℕ → Member → List ℕ → ConsumerGroup → ConsumerGroup
sent now p idx m rest g =
    let msg = g.store p in
    let msg' = record msg {
      attempt = (msg.attempt + 1) % 2 ^ 32;
      visible_at = now +ℤ m.vis_timeout;
    } in
    record g {
      members = set g.members idx (record m { buf = m.buf ++ (p ∷ []) });
      messages = rest;
      store = write g.store p msg';
      in_flight = insert msg.id (record { msg = p; member_id = m.id }) g.in_flight;
      next_idx = (idx + 1) % length g.members;
    }

-- One round of the member loop. `g.messages[1:]` of an empty slice panics.
try_member : Time → ℕ → ℕ → ConsumerGroup × Bool → Option (ConsumerGroup × Bool)
unfolding sent
try_member now p j (g, delivered) =
    let idx = (g.next_idx + j) % length g.members in
    elim (get_elem? g.members idx) [
      | none ↦ none
      | some m ↦
          if has_room m.buf
          then elim g.messages [ [] ↦ none | _ ∷ rest ↦ some (sent now p idx m rest g, true) ]
          else some (g, delivered)
    ]

-- `for j := 0; j < len(g.members); j++`, with `k` rounds left from `j` on. The source's `break`
-- leaves the `select` alone, so the loop goes on after a delivery.
pub member_loop : Time → ℕ → ℕ → ℕ → ConsumerGroup × Bool → Option (ConsumerGroup × Bool)
unfolding try_member
member_loop now p zero j s = some s
member_loop now p (suc k) j s = try_member now p j s >>= member_loop now p k (j + 1)

-- `for len(g.messages) > 0`. Each round that goes on takes a message off, so as many rounds as
-- there are messages are enough.
deliver_loop : ℕ → Time → ConsumerGroup → Option ConsumerGroup
unfolding member_loop
deliver_loop zero now g = some g
deliver_loop (suc fuel) now g = elim g.messages [
  | [] ↦ some g
  | p ∷ _ ↦ elim (is_after (g.store p).visible_at now) [
    | true ↦ some g
    | false ↦ member_loop now p (length g.members) 0 (g, false) >>= λ r. elim r.1 [
      | true ↦ deliver_loop fuel now r.0
      | false ↦ some r.0
    ]
  ]
]

abbrev pub is_empty : {A : Type 0} → List A → Bool
is_empty [] = true
is_empty (a ∷ as') = false

-- `tryDeliver`
pub try_deliver : Time → ConsumerGroup → Option ConsumerGroup
unfolding deliver_loop
try_deliver now g =
    if is_empty g.members || is_empty g.messages
    then some g
    else deliver_loop (length g.messages) now g

-- `Enqueue`: a copy with the delivery state reset; the ordering key and the sequence are not copied.
pub enqueue : Message → Time → ConsumerGroup → Option ConsumerGroup
enqueue msg now g =
    let cloned = record no_message {
      id = msg.id;
      queue = msg.queue;
      payload = msg.payload;
      headers = msg.headers;
      published_at = msg.published_at;
    } in
    try_deliver now (record g {
      messages = g.messages ++ (g.next_ptr ∷ []);
      store = write g.store g.next_ptr cloned;
      next_ptr = g.next_ptr + 1;
    })
