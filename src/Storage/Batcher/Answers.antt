-- ===== src/Storage/Batcher/Answers.antt =====
-- Every request that the batcher of internal/storage/batcher.go takes in is answered once, in order.
use qwer_q.Common.{
  ℕ, ◌*◌, ◌<◌, ◌≤◌, true, false, Option, List, [], ◌∷◌, ◌++◌, map, ◌≡◌, refl, sym, ap, ◌∙◌, leb,
  length, length-append, arith, inl, inr, Bool-cases,
}
use qwer_q.Broker.Base.{Error}
use qwer_q.Storage.Batcher.{
  WriteRequest, WriteBatch, WriteBatcher, new_write_batcher, request_of, answer_all, flush,
  flush_some, receive, Step, submit, refuse, collect, fire, close, stop, Reachable, start, after,
}
use mathlib.Core.List.{append_assoc, append-nil, map-append}

abbrev pub channels : List WriteRequest → List ℕ
channels rs = map (λ r. r.err) rs

-- The callers that were answered, in order.
abbrev pub answered : {D : Type 0} → WriteBatcher D → List ℕ
answered s = map (λ a. a.0) s.answers

-- What is under way: the requests that were taken in are the ones answered, then the batch, then the
-- inbox, and there is no more in either than fits.
pub record IsOrdered {D : Type 0} (max_size : ℕ) (s : WriteBatcher D) : Type 0 where
  pub order : s.taken ≡ answered s ++ (channels s.batch ++ channels s.inbox)
  pub batch_fits : length s.batch < max_size
  pub inbox_fits : length s.inbox ≤ max_size * 2
  pub drained : s.closed ≡ true → (s.batch ≡ []) × (s.inbox ≡ [])

answered-answer_all :
    (rs : List WriteRequest) (e : Option Error) → map (λ a. a.0) (answer_all rs e) ≡ channels rs
answered-answer_all [] e = refl
answered-answer_all (r ∷ rs) e = ap (◌∷◌ r.err) (answered-answer_all rs e)

module _ {W D : Type 0} (wb : WriteBatch W D) (max_size : ℕ) where
  -- A flush answers its batch.
  answered-flush :
      (rs : List WriteRequest) (s : WriteBatcher D)
      → answered (flush wb rs s) ≡ answered s ++ channels rs
  unfolding flush
  answered-flush rs s = simp (map-append, answered-answer_all)

  answered-flush_some :
      (rs : List WriteRequest) (s : WriteBatcher D)
      → answered (flush_some wb rs s) ≡ answered s ++ channels rs
  unfolding flush_some flush
  answered-flush_some [] s = sym (append-nil (answered s))
  answered-flush_some (r ∷ rs) s = answered-flush (r ∷ rs) s

  -- A request moves from the inbox to the batch.
  channels-move :
      (batch rest : List WriteRequest) (req : WriteRequest)
      → channels batch ++ channels (req ∷ rest) ≡ channels (batch ++ (req ∷ [])) ++ channels rest
  channels-move batch rest req = simp (map-append, append_assoc)

  drained-order :
      (s : WriteBatcher D)
      → channels s.batch ++ channels s.inbox ≡ channels (s.batch ++ s.inbox) ++ channels []
  drained-order s = simp (map-append, append-nil)

  -- What is flushed is answered next, and leaves no batch.
  flush-IsOrdered :
      (rs : List WriteRequest) (s : WriteBatcher D)
      → 0 < max_size
      → s.taken ≡ answered s ++ (channels rs ++ channels s.inbox)
      → length s.inbox ≤ max_size * 2
      → (s.closed ≡ true → s.inbox ≡ [])
      → IsOrdered max_size (flush wb rs s)
  unfolding flush
  flush-IsOrdered rs s p o f d = record {
    order =
        o
        ∙ sym (append_assoc (answered s) (channels rs) (channels s.inbox))
        ∙ ap (λ a. a ++ channels s.inbox) (sym (answered-flush rs s));
    batch_fits = p;
    inbox_fits = f;
    drained = λ c. (refl, d c);
  }

  flush_some-IsOrdered :
      (rs : List WriteRequest) (s : WriteBatcher D)
      → 0 < max_size
      → s.taken ≡ answered s ++ (channels rs ++ channels s.inbox)
      → length s.inbox ≤ max_size * 2
      → (s.closed ≡ true → s.inbox ≡ [])
      → IsOrdered max_size (flush_some wb rs s)
  unfolding flush_some
  flush_some-IsOrdered [] s p o f d = record {
    order = o;
    batch_fits = p;
    inbox_fits = f;
    drained = λ c. (refl, d c);
  }
  flush_some-IsOrdered (r ∷ rs) s p o f d = flush-IsOrdered (r ∷ rs) s p o f d

  receive-IsOrdered :
      (req : WriteRequest) (rest : List WriteRequest) (s : WriteBatcher D)
      → 0 < max_size
      → s.closed ≡ false
      → s.inbox ≡ req ∷ rest
      → IsOrdered max_size s
      → IsOrdered max_size (receive wb max_size req rest s)
  unfolding receive
  receive-IsOrdered req rest s p c e i =
      let batch = s.batch ++ (req ∷ []) in
      let order =
        i.order
        ∙ ap (λ xs. answered s ++ (channels s.batch ++ channels xs)) e
        ∙ ap (λ xs. answered s ++ xs) (channels-move s.batch rest req) in
      let fits : length rest ≤ max_size * 2 = omega (arith, ap length e, i.inbox_fits) in
      elim (Bool-cases (leb max_size (length batch))) [
        | inl b ↦ rw b (
            flush-IsOrdered batch (record s { inbox = rest; batch = batch }) p order fits
              (λ h. absurd (cc (c, h))))
        | inr b ↦ rw b (record {
          order = order;
          batch_fits = ground (arith, b);
          inbox_fits = fits;
          drained = λ h. absurd (cc (c, h));
        })
      ]

  -- The request is the last of those taken in.
  take_in-order :
      (req : WriteRequest) (s : WriteBatcher D)
      → IsOrdered max_size s
      → s.taken ++ (req.err ∷ [])
        ≡ answered s ++ (channels s.batch ++ channels (s.inbox ++ (req ∷ [])))
  take_in-order req s i = ap (λ xs. xs ++ (req.err ∷ [])) i.order ∙ simp (map-append, append_assoc)

  step-IsOrdered :
      (s t : WriteBatcher D)
      → 0 < max_size
      → IsOrdered max_size s
      → Step wb max_size s t
      → IsOrdered max_size t
  step-IsOrdered _ _ p i (submit msg err s c h) = record {
    order = take_in-order (request_of msg err) s i;
    batch_fits = i.batch_fits;
    inbox_fits = omega (arith, length-append s.inbox (request_of msg err ∷ []), h);
    drained = λ d. absurd (cc (c, d));
  }
  step-IsOrdered _ _ p i (refuse err s h) = record {
    order = i.order;
    batch_fits = i.batch_fits;
    inbox_fits = i.inbox_fits;
    drained = i.drained;
  }
  step-IsOrdered _ _ p i (collect req rest s c e) = receive-IsOrdered req rest s p c e i
  step-IsOrdered _ _ p i (fire s c) =
      flush_some-IsOrdered s.batch s p i.order i.inbox_fits (λ d. absurd (cc (c, d)))
  step-IsOrdered _ _ p i (close s h) = record {
    order = i.order;
    batch_fits = i.batch_fits;
    inbox_fits = i.inbox_fits;
    drained = i.drained;
  }
  step-IsOrdered _ _ p i (stop s h c) =
      flush_some-IsOrdered (s.batch ++ s.inbox) (record s { inbox = []; closed = true }) p
        (i.order ∙ ap (λ xs. answered s ++ xs) (drained-order s)) (omega arith) (λ d. refl)

  Reachable-IsOrdered :
      (s : WriteBatcher D) → 0 < max_size → Reachable wb max_size s → IsOrdered max_size s
  unfolding new_write_batcher
  Reachable-IsOrdered _ p (start d) = record {
    order = refl;
    batch_fits = p;
    inbox_fits = omega arith;
    drained = λ c. (refl, refl);
  }
  Reachable-IsOrdered _ p (after s t r h) = step-IsOrdered s t p (Reachable-IsOrdered s p r) h

  -- In every state that is reached the requests that were taken in are the ones answered, in order,
  -- then the batch, then the inbox; the batch is below `max_size`, and the inbox not above twice it.
  Reachable-ordered :
      (s : WriteBatcher D)
      → 0 < max_size
      → Reachable wb max_size s
      → (s.taken ≡ answered s ++ (channels s.batch ++ channels s.inbox))
        × (length s.batch < max_size)
        × (length s.inbox ≤ max_size * 2)
  Reachable-ordered s p r =
      let i = Reachable-IsOrdered s p r in (i.order, i.batch_fits, i.inbox_fits)

  -- Once the loop of a batcher has ended, each request that was taken in has been answered exactly
  -- once, in the order of the requests, whatever the order of submits, flushes, ticks and the close.
  pub Reachable-answered :
      (s : WriteBatcher D)
      → 0 < max_size
      → Reachable wb max_size s
      → s.closed ≡ true
      → answered s ≡ s.taken
  Reachable-answered s p r c =
      let i = Reachable-IsOrdered s p r in
      let (b, x) = i.drained c in
      sym (
        i.order
        ∙ ap (λ xs. answered s ++ (channels xs ++ channels s.inbox)) b
        ∙ ap (λ xs. answered s ++ channels xs) x
        ∙ append-nil (answered s))
