-- ===== src/Broker/Stream/Sequence.antt =====
-- Sequences are handed out one after the other, and a failed save takes its sequence back.
use qwer_q.Common.{
  ℕ, zero, suc, ◌+◌, ◌^◌, ◌<◌, ◌≤◌, ◌≡◌, refl, arith, Option, none, some, List, [], ◌∷◌, length,
  inl, inr, ◌⊎◌, ap, ◌∙◌,
}
use qwer_q.Types.{Message}
use qwer_q.Broker.Base.{Error}
use qwer_q.Broker.Stream.{Fallible, ok, failed, StreamQueue, publish, publish_after, succ_u64}

-- The sequence of a publish that succeeded, in front of the others.
unfoldable pub collected : Fallible ℕ → List ℕ → List ℕ
collected (ok seq) rest = seq ∷ rest
collected (failed e) rest = rest

-- `Publish` of several messages in turn, with the sequences of those that succeeded.
unfoldable pub publish_all :
    {S : Type 0} → List Message → StreamQueue S × S → (StreamQueue S × S) × List ℕ
publish_all [] t = (t, [])
publish_all (m ∷ ms) t =
    let r = publish m t in let rest = publish_all ms r.0 in (rest.0, collected r.1 rest.1)

-- `n`, `n + 1`, and so on.
pub from : ℕ → ℕ → List ℕ
from n zero = []
from n (suc k) = n ∷ from (n + 1) k

-- A publish either succeeds, with the next sequence, or changes nothing of the queue.
abbrev pub Numbered : {S : Type 0} → StreamQueue S → (StreamQueue S × S) × Fallible ℕ → Type 0
Numbered sq r =
    ((r.1 ≡ ok sq.next_seq) × (r.0.0.next_seq ≡ succ_u64 sq.next_seq))
    ⊎ ((e : Error) × (r.1 ≡ failed e) × (r.0.0 ≡ sq))

publish_after-Numbered :
    {S : Type 0} (m : Message) (sq : StreamQueue S) (o : S × Option Error)
    → Numbered sq (publish_after m sq o)
unfolding publish_after
publish_after-Numbered m sq (s, some e) = inr (e, refl, refl)
publish_after-Numbered m sq (s, none) = inl (refl, refl)

pub publish-Numbered :
    {S : Type 0} (m : Message) (t : StreamQueue S × S) → Numbered t.0 (publish m t)
unfolding publish
publish-Numbered m (sq, s) = publish_after-Numbered _ sq _

-- While they stay below 2^64, the sequences of the successful publishes are consecutive from
-- `next_seq` on: none is skipped, none is given twice, and the counter stands behind the last.
pub publish_all-consecutive :
    {S : Type 0} (ms : List Message) (t : StreamQueue S × S)
    → t.0.next_seq + length ms < 2 ^ 64
    → let r = publish_all ms t in
      (r.1 ≡ from t.0.next_seq (length r.1))
      × (r.0.0.next_seq ≡ t.0.next_seq + length r.1)
      × (length r.1 ≤ length ms)
unfolding publish_all collected from
publish_all-consecutive [] t h = (refl, omega arith, omega arith)
publish_all-consecutive (m ∷ ms) t h = elim (publish-Numbered m t) [
  | inl (done, counted) ↦
      let next : (publish m t).0.0.next_seq ≡ t.0.next_seq + 1 = rw counted (omega arith) in
      let (a, b, c) = publish_all-consecutive ms (publish m t).0 (omega (arith, next)) in
      let tail = a ∙ ap (λ n. from n (length (publish_all ms (publish m t).0).1)) next in
      rw (done, collected)
        (ap (λ l. t.0.next_seq ∷ l) tail, omega (arith, b, next), omega (arith, c))
  | inr (e, wrong, same) ↦
      let next : (publish m t).0.0.next_seq ≡ t.0.next_seq = ap (λ q. q.next_seq) same in
      let (a, b, c) = publish_all-consecutive ms (publish m t).0 (omega (arith, next)) in
      let tail = a ∙ ap (λ n. from n (length (publish_all ms (publish m t).0).1)) next in
      rw (wrong, collected) (tail, omega (arith, b, next), omega (arith, c))
]
