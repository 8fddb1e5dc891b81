-- ===== src/Broker/RetryDlq.antt =====
-- internal/broker/dlq.go: `RetryDLQ`, which moves the pending messages of the dead letter queue back.
-- Both locks are held, so the loop sees no other change.
pub mod Conserves
mod Examples
use qwer_q.Common.{ℕ, ◌+◌, Option, none, some, List, [], ◌∷◌, ◌>>=◌}
use qwer_q.Common.Strings.{Str}
use qwer_q.Types.{Message, Time}
use qwer_q.Broker.Base.{Error, joined}
use qwer_q.Broker.Queue
use qwer_q.Broker.Queue.{Queue}
use qwer_q.Broker.Registry.{Storage, Broker, find_queue, put_queue, get_or_create_queue, dlq_name}
use qwer_q.Broker.Handlers.{save_in, delete_in}

-- The loop's state: what is left of the dead letters, the queue, the storage and the number moved, and
-- the error when it stops.
pub record Retry (S : Type 0) : Type 0 where
  pub left : List Message
  pub queue : Queue
  pub stored : S
  pub retried : ℕ
  pub error : Option Error

abbrev pub stop : {S : Type 0} → List Message → Queue → ℕ → S → Error → Retry S
stop ms q n s e = record { left = ms; queue = q; stored = s; retried = n; error = some e }

-- A step back, of which an error joins the one that led to it.
abbrev pub join_error : Error → Option Error → Error
join_error e none = e
join_error e (some e') = joined e e'

-- The copy that goes back.
abbrev pub fresh_copy : Str → Time → Message → Message
fresh_copy name now msg = record msg { queue = name; attempt = 0; visible_at = now }

-- The storage's part before the message is enqueued: the copy is saved and the dead letter deleted.
stored_move :
    {S : Type 0}
    → Option (Storage S)
    → Str
    → Message
    → Message
    → S × Option Error
    → S × Option Error
stored_move st name msg copy (s, some e) = (s, some e)
stored_move st name msg copy (s, none) =
    let r = delete_in st (dlq_name name) msg.id s in
    elim r.1 [
      | none ↦ (r.0, none)
      | some e ↦ let back = delete_in st name copy.id r.0 in (back.0, some (join_error e back.1))
    ]

-- The storage's part when the queue refuses: the dead letter is saved again and the copy deleted.
stored_back : {S : Type 0} → Option (Storage S) → Str → Message → Message → Error → S → S × Error
stored_back st name msg copy e s =
    let r = save_in st msg s in
    elim r.1 [
      | some e' ↦ (r.0, joined e e')
      | none ↦ let back = delete_in st name copy.id r.0 in (back.0, join_error e back.1)
    ]

-- What the outcome of `Enqueue` leads to; `next` is the rest of the loop.
after_enqueue :
    {S : Type 0}
    → Option (Storage S)
    → Str
    → Message
    → Message
    → List Message
    → ℕ
    → S
    → (Queue → Option (Retry S))
    → Queue × Option Error
    → Option (Retry S)
unfolding stored_back
after_enqueue st name msg copy ms n s next (q, none) = next q
after_enqueue st name msg copy ms n s next (q, some e) =
    let r = stored_back st name msg copy e s in some (stop (msg ∷ ms) q n r.0 r.1)

-- What the outcome of the storage's part leads to.
after_move :
    {S : Type 0}
    → Option (Storage S)
    → Str
    → Time
    → Message
    → Message
    → List Message
    → Queue
    → ℕ
    → (S → Queue → Option (Retry S))
    → S × Option Error
    → Option (Retry S)
unfolding after_enqueue
after_move st name now msg copy ms q n next (s, some e) = some (stop (msg ∷ ms) q n s e)
after_move st name now msg copy ms q n next (s, none) =
    Queue.enqueue copy now q >>= after_enqueue st name msg copy ms n s (next s)

-- `for len(dlq.messages) > 0`
pub retry_loop :
    {S : Type 0} → List Message → Option (Storage S) → Str → Time → ℕ → S → Queue → Option (Retry S)
unfolding after_move stored_move
retry_loop [] st name now n s q =
    some (record { left = []; queue = q; stored = s; retried = n; error = none })
retry_loop (msg ∷ ms) st name now n s q =
    let copy = fresh_copy name now msg in
    after_move st name now msg copy ms q n (retry_loop ms st name now (n + 1))
      (stored_move st name msg copy (save_in st copy s))

-- The queues after the loop.
settle : {S : Type 0} → Str → Queue → Broker S → Retry S → (Broker S × S) × ℕ × Option Error
settle name dlq b r = (
  (
    put_queue (dlq_name name) (record dlq { messages = r.left }) (put_queue name r.queue b),
    r.stored,
  ),
  r.retried,
  r.error,
)

-- `RetryDLQ`, with the number of messages moved. A nil queue is used only when there is a message.
pub retry_dlq :
    {S : Type 0} → Str → Time → Broker S × S → Option ((Broker S × S) × ℕ × Option Error)
unfolding settle
retry_dlq name now (b, s) = elim (find_queue (dlq_name name) b) [
  | none ↦ some ((b, s), 0, none)
  | some dlq ↦
      let t = get_or_create_queue name (b, s) in
      elim dlq.messages [
        | [] ↦ some (t.0, 0, none)
        | m ∷ ms ↦ t.1 >>= λ q.
            retry_loop (m ∷ ms) b.storage name now 0 t.0.1 q >>= λ r. some (settle name dlq t.0.0 r)
      ]
]
