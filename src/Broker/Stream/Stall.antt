-- ===== src/Broker/Stream/Stall.antt =====
-- A consumer at the tail gets what is published; one that is behind the tail is passed over by every
-- later publish.
use qwer_q.Common.{
  ℕ, zero, suc, ◌+◌, ◌^◌, ◌<◌, ◌≤◌, ◌≡◌, refl, arith, Option, none, some, List, [], ◌∷◌, ◌++◌,
  length, get_elem?, inl, inr, ◌⊎◌, ap, sym, ◌∙◌, map,
}
use mathlib.Core.List.{append-nil}
use qwer_q.Common.Lists.{length-append}
use qwer_q.Types.{Message}
use qwer_q.Broker.Base.{Error}
use qwer_q.Broker.Stream.{
  Fallible, ok, failed, StreamConsumer, StreamQueue, publish, publish_after, succ_u64, notify,
  notify_all, channel_size,
}
use qwer_q.Broker.Stream.Sequence.{publish_all, collected}

-- The consumers are notified place by place.
get_elem?-notify_all :
    (seq : ℕ) (m : Message) (cs : List StreamConsumer) (i : ℕ) (c : StreamConsumer)
    → get_elem? cs i ≡ some c
    → get_elem? (notify_all seq m cs) i ≡ some (notify seq m c)
unfolding notify_all
get_elem?-notify_all seq m [] i c h = cc
get_elem?-notify_all seq m (d ∷ cs) zero c h = ground (arith, h)
get_elem?-notify_all seq m (d ∷ cs) (suc i) c h = get_elem?-notify_all seq m cs i c h

-- A consumer elsewhere than at the sequence is not touched.
notify_elsewhere :
    (seq : ℕ) (m : Message) (c : StreamConsumer) → c.offset < seq → notify seq m c ≡ c
unfolding notify
notify_elsewhere seq m c h = ground (arith, h)

-- What a publish does to the consumer at place `i`.
Step : {S : Type 0} → StreamQueue S → ℕ → StreamConsumer → (StreamQueue S × S) × Fallible ℕ → Type 0
Step sq i c r =
    ((r.1 ≡ ok sq.next_seq)
      × (r.0.0.next_seq ≡ succ_u64 sq.next_seq)
      × ((m : Message) × (m.sequence ≡ sq.next_seq)
          × (get_elem? r.0.0.consumers i ≡ some (notify sq.next_seq m c))))
    ⊎ ((e : Error) × (r.1 ≡ failed e)
        × (r.0.0.next_seq ≡ sq.next_seq)
        × (get_elem? r.0.0.consumers i ≡ some c))

publish_after-Step :
    {S : Type 0} (m : Message) (sq : StreamQueue S) (i : ℕ) (c : StreamConsumer)
    (o : S × Option Error)
    → m.sequence ≡ sq.next_seq
    → get_elem? sq.consumers i ≡ some c
    → Step sq i c (publish_after m sq o)
unfolding publish_after Step
publish_after-Step m sq i c (s, some e) numbered h = inr (e, refl, refl, h)
publish_after-Step m sq i c (s, none) numbered h =
    inl (refl, refl, (m, numbered, get_elem?-notify_all sq.next_seq m sq.consumers i c h))

publish-Step :
    {S : Type 0} (m : Message) (t : StreamQueue S × S) (i : ℕ) (c : StreamConsumer)
    → get_elem? t.0.consumers i ≡ some c
    → Step t.0 i c (publish m t)
unfolding publish
publish-Step m (sq, s) i c h = publish_after-Step _ sq i c _ refl h

-- A consumer whose offset lies below the next sequence is passed over by all later publishes,
-- while the sequences stay below 2^64: nothing enters its channel and its offset stays, however
-- much room the channel has by then.
pub publish_all-stalled :
    {S : Type 0} (ms : List Message) (t : StreamQueue S × S) (i : ℕ) (c : StreamConsumer)
    → get_elem? t.0.consumers i ≡ some c
    → c.offset < t.0.next_seq
    → t.0.next_seq + length ms < 2 ^ 64
    → get_elem? (publish_all ms t).0.0.consumers i ≡ some c
unfolding publish_all Step
publish_all-stalled [] t i c h behind bound = h
publish_all-stalled (m ∷ ms) t i c h behind bound = elim (publish-Step m t i c h) [
  | inl (done, counted, (m', _, notified)) ↦
      let next : (publish m t).0.0.next_seq ≡ t.0.next_seq + 1 = rw counted (omega arith) in
      publish_all-stalled ms (publish m t).0 i c
        (notified ∙ ap some (notify_elsewhere t.0.next_seq m' c behind)) (omega (arith, next))
        (omega (arith, next))
  | inr (e, wrong, same, kept) ↦
      publish_all-stalled ms (publish m t).0 i c kept (omega (arith, same)) (omega (arith, same))
]

-- A consumer at the sequence with room in its channel gets the message.
notify_there :
    (seq : ℕ) (m : Message) (c : StreamConsumer)
    → c.offset ≡ seq
    → length c.buf < channel_size
    → notify seq m c ≡ (record c { buf = c.buf ++ (m ∷ []); offset = succ_u64 seq })
unfolding notify
notify_there seq m c h room = ground (arith, h, room)

-- The sequences in a channel.
abbrev pub sequences : List Message → List ℕ
sequences ms = map (λ m. m.sequence) ms

sequences-snoc :
    (xs : List Message) (m : Message) (rest : List ℕ)
    → sequences (xs ++ (m ∷ [])) ++ rest ≡ sequences xs ++ (m.sequence ∷ rest)
sequences-snoc [] m rest = refl
sequences-snoc (x ∷ xs) m rest = ap (◌∷◌ x.sequence) (sequences-snoc xs m rest)

-- A consumer that has caught up with the tail, with room in its channel for all the messages, gets
-- exactly those that were saved, in the order of their sequences, and has caught up again.
pub publish_all-caught_up :
    {S : Type 0} (ms : List Message) (t : StreamQueue S × S) (i : ℕ) (c : StreamConsumer)
    → get_elem? t.0.consumers i ≡ some c
    → c.offset ≡ t.0.next_seq
    → length c.buf + length ms ≤ channel_size
    → let r = publish_all ms t in
      (c' : StreamConsumer) × (get_elem? r.0.0.consumers i ≡ some c')
      × (sequences c'.buf ≡ sequences c.buf ++ r.1)
      × (c'.offset ≡ r.0.0.next_seq)
unfolding publish_all Step collected
publish_all-caught_up [] t i c h tail room = (c, h, sym (append-nil _), tail)
publish_all-caught_up (m ∷ ms) t i c h tail room = elim (publish-Step m t i c h) [
  | inl (done, counted, (m', numbered, notified)) ↦
      let there = notify_there t.0.next_seq m' c tail (omega arith) in
      let longer = length-append c.buf (m' ∷ []) in
      let (c', held, got, caught_up) =
        publish_all-caught_up ms (publish m t).0 i
          (record c { buf = c.buf ++ (m' ∷ []); offset = succ_u64 t.0.next_seq })
          (notified ∙ ap some there) (sym counted) (omega (arith, longer)) in
      let later = (publish_all ms (publish m t).0).1 in
      rw (done, collected)
        (
          c',
          held,
          got ∙ sequences-snoc c.buf m' later ∙ ap (λ n. sequences c.buf ++ (n ∷ later)) numbered,
          caught_up,
        )
  | inr (e, wrong, same, kept) ↦
      rw (wrong, collected)
        (publish_all-caught_up ms (publish m t).0 i c kept (tail ∙ sym same) (omega arith))
]
