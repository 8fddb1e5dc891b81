-- ===== src/Broker/Recovery/Restored.antt =====
-- What internal/broker/broker.go loads from the storage stands in its queues, in order.
use qwer_q.Common.{none, some, List, [], ◌∷◌, ◌++◌, if◌then◌else◌, ◌>>=◌, ◌≡◌, refl, sym, ap, ◌∙◌}
use qwer_q.Common.Strings.{Str, str_eq}
use qwer_q.Types.{Message, Time}
use qwer_q.Broker.Queue.{Queue, new_queue, enqueue_direct, try_deliver, enqueue_groups}
use qwer_q.Broker.Registry.{find_queue, put_queue, save_config, register, get_or_create_queue}
use qwer_q.Broker.Handlers.Published.{created_queue}
use qwer_q.Broker.Recovery.{FullBroker, queue_in, map_restored, enqueue_all}
use mathlib.Core.List.{append_assoc, append-nil}

-- A queue that nobody consumes, with messages.
abbrev pub stocked : Queue → List Message → Queue
stocked q ms = record q { messages = ms; consumers = []; groups = [] }

pub enqueue_direct-stocked :
    (m : Message) (now : Time) (q : Queue) (ms : List Message)
    → enqueue_direct m now (stocked q ms) ≡ some (stocked q (ms ++ (m ∷ [])))
unfolding enqueue_direct try_deliver enqueue_groups
enqueue_direct-stocked m now q ms = refl

-- Into a queue that nobody consumes, all messages go, in order.
pub enqueue_all-stocked :
    (now : Time) (q : Queue) (new ms : List Message)
    → enqueue_all new now (stocked q ms) ≡ some (stocked q (ms ++ new))
unfolding enqueue_all
enqueue_all-stocked now q [] ms = ap (λ xs. some (stocked q xs)) (sym (append-nil ms))
enqueue_all-stocked now q (m ∷ new) ms =
    ap (λ o. o >>= enqueue_all new now) (enqueue_direct-stocked m now q ms)
    ∙ enqueue_all-stocked now q new (ms ++ (m ∷ []))
    ∙ ap (λ xs. some (stocked q xs)) (append_assoc ms (m ∷ []) new)

-- The queue after a round: it holds what was stored, in order, and nothing is in flight.
pub record Holds {S : Type 0} (name : Str) (ms : List Message) (b b' : FullBroker S) : Type 0 where
  pub queue : Queue
  pub found : find_queue name b'.broker ≡ some queue
  pub pending : queue.messages ≡ map_restored ms
  pub resting : queue.in_flight ≡ []
  pub others :
      (j : Str)
      → find_queue j b'.broker ≡ (if str_eq name j then some queue else find_queue j b.broker)

-- The configuration of a queue that is not there is saved, and it is created.
pub record Registered {S : Type 0} (name : Str) (t : FullBroker S × S) : Type 0 where
  pub absent : find_queue name t.0.broker ≡ none
  pub after : S
  pub saved : save_config name (new_queue name) t.0.broker.storage t.1 ≡ (after, none)

-- The broker with the new queue.
abbrev pub with_queue : {S : Type 0} → Str → FullBroker S → FullBroker S
with_queue name b = record b { broker = put_queue name (new_queue name) b.broker }

pub queue_in-Registered :
    {S : Type 0} (name : Str) (b : FullBroker S) (s : S) (r : Registered name (b, s))
    → queue_in name (b, s) ≡ ((with_queue name b, r.after), some (new_queue name))
unfolding queue_in get_or_create_queue register
queue_in-Registered name b s r =
    ap (λ r. ((record b { broker = r.0.0 }, r.0.1), r.1))
      (created_queue name b.broker s r.absent
        ∙ ap (register name (new_queue name) b.broker) r.saved)
