-- ===== src/Broker/RetryDlq/Conserves.antt =====
-- No message is lost or doubled by `RetryDLQ`, wherever it stops.
use qwer_q.Common.{
  ℕ, ◌+◌, ◌≤◌, ◌≡◌, arith, Option, none, some, List, [], ◌∷◌, ◌++◌, ap, sym, ◌∙◌, >>=-eq_some,
  Bool-cases, inl, inr, ◌⊎◌, if◌then◌else◌,
}
use mathlib.Core.Option.{some-injective}
use qwer_q.Common.Strings.{Str, str_eq}
use qwer_q.Types.{Message, Time}
use qwer_q.Broker.Base.{Error}
use qwer_q.Broker.Queue.{Queue, is_full, enqueue, enqueue_direct}
use qwer_q.Broker.Queue.Contents.{held, count_id, IsDistinct}
use qwer_q.Broker.Registry.{Storage}
use qwer_q.Broker.Handlers.Published.{with_message, enqueue_direct-held}
use qwer_q.Broker.RetryDlq.{Retry, fresh_copy, after_enqueue, after_move, retry_loop}

-- An enqueue takes the message, or it refuses and changes nothing.
abbrev Taken : Message → Queue → Queue × Option Error → Type 0
Taken m q r =
    ((r.1 ≡ none) × ((j : Str) → held j r.0 ≡ held j (with_message m q)))
    ⊎ ((e : Error) × (r ≡ (q, some e)))

enqueue-Taken :
    (m : Message) (now : Time) (q : Queue) (r : Queue × Option Error)
    → IsDistinct (with_message m q)
    → enqueue m now q ≡ some r
    → Taken m q r
unfolding enqueue
enqueue-Taken m now q r d e = elim (Bool-cases (is_full q)) [
  | inl full ↦ inr (_, sym (some-injective _ _ (rw (full, enqueue) at e)))
  | inr fits ↦
      let (q', direct, end) = >>=-eq_some (enqueue_direct m now q) _ (rw (fits, enqueue) at e) in
      let same : r.0 ≡ q' = cc end in
      inl (cc end, λ j. ap (held j) same ∙ enqueue_direct-held m now q q' d direct j)
]

-- How often an identifier is held, among the dead letters and in the queue.
abbrev pub both : Str → List Message → Queue → ℕ
both j ms q = count_id j ms + held j q

count_id-snoc :
    (j : Str) (ms : List Message) (m : Message)
    → count_id j (ms ++ (m ∷ [])) ≡ count_id j ms + (if str_eq m.id j then 1 else 0)
count_id-snoc j [] m = omega arith
count_id-snoc j (x ∷ ms) m = omega (arith, count_id-snoc j ms m)

-- A dead letter that goes over counts as before.
over :
    (j name : Str) (now : Time) (m : Message) (ms : List Message) (q : Queue)
    → both j ms (with_message (fresh_copy name now m) q) ≡ both j (m ∷ ms) q
over j name now m ms q = omega (arith, count_id-snoc j q.messages (fresh_copy name now m))

-- What a loop that goes on with the rest of the dead letters keeps.
abbrev Keeps : {S : Type 0} → List Message → (Queue → Option (Retry S)) → Type 0
Keeps {S} ms next =
    (q : Queue) (r : Retry S)
    → ((j : Str) → both j ms q ≤ 1)
    → next q ≡ some r
    → (j : Str) → both j r.left r.queue ≡ both j ms q

after_enqueue-both :
    {S : Type 0} (st : Option (Storage S)) (name : Str) (now : Time) (m : Message)
    (ms : List Message) (n : ℕ) (s : S) (next : Queue → Option (Retry S)) (q : Queue)
    (o : Queue × Option Error) (r : Retry S)
    → Keeps ms next
    → ((j : Str) → both j (m ∷ ms) q ≤ 1)
    → Taken (fresh_copy name now m) q o
    → after_enqueue st name m (fresh_copy name now m) ms n s next o ≡ some r
    → (j : Str) → both j r.left r.queue ≡ both j (m ∷ ms) q
unfolding after_enqueue
after_enqueue-both st name now m ms n s next q (q', none) r keeps d (inl (_, h)) e j =
    let moved : (i : Str) → both i ms q' ≡ both i (m ∷ ms) q =
      λ i. ap (λ t. count_id i ms + t) (h i) ∙ over i name now m ms q in
    keeps q' r (λ i. rw (moved i) (d i)) e j ∙ moved j
after_enqueue-both st name now m ms n s next q (q', none) r keeps d (inr (x, same)) e j = cc same
after_enqueue-both st name now m ms n s next q (q', some x) r keeps d (inl (taken, h)) e j =
    cc taken
after_enqueue-both st name now m ms n s next q (q', some x) r keeps d (inr (y, same)) e j =
    ap (λ t. both j t.left t.queue) (sym (some-injective _ _ e))
    ∙ ap (λ t. both j (m ∷ ms) t.0) same

after_move-both :
    {S : Type 0} (st : Option (Storage S)) (name : Str) (now : Time) (m : Message)
    (ms : List Message) (n : ℕ) (next : S → Queue → Option (Retry S)) (q : Queue)
    (o : S × Option Error) (r : Retry S)
    → ((s : S) → Keeps ms (next s))
    → ((j : Str) → both j (m ∷ ms) q ≤ 1)
    → after_move st name now m (fresh_copy name now m) ms q n next o ≡ some r
    → (j : Str) → both j r.left r.queue ≡ both j (m ∷ ms) q
unfolding after_move
after_move-both st name now m ms n next q (s, some x) r keeps d e j =
    ap (λ t. both j t.left t.queue) (sym (some-injective _ _ e))
after_move-both st name now m ms n next q (s, none) r keeps d e j =
    let (o, taken, rest) = >>=-eq_some (enqueue (fresh_copy name now m) now q) _ e in
    after_enqueue-both st name now m ms n s (next s) q o r (keeps s) d
      (enqueue-Taken (fresh_copy name now m) now q o (fits d) taken) rest j
  where
    fits : ((j : Str) → both j (m ∷ ms) q ≤ 1) → IsDistinct (with_message (fresh_copy name now m) q)
    fits d i = omega (arith, d i, over i name now m ms q)

-- From any start in which no identifier is held twice, the dead letters left and the queue hold
-- each identifier as often as the dead letters and the queue did before, whichever call of the
-- storage or of the queue fails.
pub retry_loop-both :
    {S : Type 0} (ms : List Message) (st : Option (Storage S)) (name : Str) (now : Time) (n : ℕ)
    (s : S) (q : Queue) (r : Retry S)
    → ((j : Str) → both j ms q ≤ 1)
    → retry_loop ms st name now n s q ≡ some r
    → (j : Str) → both j r.left r.queue ≡ both j ms q
unfolding retry_loop
retry_loop-both [] st name now n s q r d e j =
    ap (λ t. both j t.left t.queue) (sym (some-injective _ _ e))
retry_loop-both (m ∷ ms) st name now n s q r d e j =
    after_move-both st name now m ms n (retry_loop ms st name now (n + 1)) q _ r
      (λ s' q' r' d' e' i. retry_loop-both ms st name now (n + 1) s' q' r' d' e' i) d e j
