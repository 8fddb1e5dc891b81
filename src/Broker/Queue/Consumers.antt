-- ===== src/Broker/Queue/Consumers.antt =====
-- internal/broker/queue.go: consumers come, take from their channels, and go.
use qwer_q.Common.{ℕ, ◌+◌, Option, none, some, List, [], ◌∷◌, ◌++◌, ◌==◌, if◌then◌else◌, ◌>>=◌}
use qwer_q.Common.Dict.{Dict}
use qwer_q.Common.Int.{ℤ}
use qwer_q.Types.{Message, Time, Duration}
use qwer_q.Broker.Base.{FailurePolicy}
use qwer_q.Broker.Queue.{Consumer, Queue, index_of, try_deliver}

-- `Dequeue`: a new consumer, with the channel that the caller gets.
unfoldable pub dequeue : Duration → Time → Queue → Option (Queue × ℕ)
dequeue visibility_timeout now q =
    let c : Consumer = record {
      ch = q.next_ch;
      buf = [];
      visibility_timeout = visibility_timeout;
    } in
    try_deliver now (record q { consumers = q.consumers ++ (c ∷ []); next_ch = q.next_ch + 1 })
    >>= λ q'. some (q', q.next_ch)

-- The entries of `keyAssignments` that name a consumer go.
unfoldable pub clear_assignments : ℕ → Dict ℕ → Dict ℕ
clear_assignments ch [] = []
clear_assignments ch ((key, assigned) ∷ m) =
    if assigned == ch then clear_assignments ch m else (key, assigned) ∷ clear_assignments ch m

unfoldable pub without_consumer : ℕ → List Consumer → List Consumer
without_consumer ch [] = []
without_consumer ch (c ∷ cs) = if c.ch == ch then cs else c ∷ without_consumer ch cs

-- `RemoveConsumer`
unfoldable pub remove_consumer : ℕ → Queue → Queue
unfolding index_of
remove_consumer ch q = elim (index_of ch q.consumers) [
  | none ↦ q
  | some i ↦ record q {
    key_assignments = clear_assignments ch q.key_assignments;
    consumers = without_consumer ch q.consumers;
  }
]

unfoldable pub take_from : ℕ → List Consumer → List Consumer × Option Message
take_from ch [] = ([], none)
take_from ch (c ∷ cs) =
    let rest = take_from ch cs in
    if c.ch == ch
    then elim c.buf [ [] ↦ (c ∷ cs, none) | m ∷ ms ↦ (record c { buf = ms } ∷ cs, some m) ]
    else (c ∷ rest.0, rest.1)

-- The consumer takes what stands in its channel, if anything does. The lock is not held.
unfoldable pub receive : ℕ → Queue → Queue × Option Message
unfolding take_from
receive ch q = let (cs, m) = take_from ch q.consumers in (record q { consumers = cs }, m)

-- `SetMaxSize`, `SetFailurePolicy` and `SetMaxRetries`.
unfoldable pub set_max_size : ℤ → Queue → Queue
set_max_size max q = record q { max_size = max }

unfoldable pub set_failure_policy : FailurePolicy → Queue → Queue
set_failure_policy policy q = record q { failure_policy = policy }

unfoldable pub set_max_retries : ℕ → Queue → Queue
set_max_retries max q = record q { max_retries = max }
