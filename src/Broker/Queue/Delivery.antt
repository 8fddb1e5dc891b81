-- ===== src/Broker/Queue/Delivery.antt =====
-- `tryDeliver` as a relation: a run of single deliveries, each of the head of the queue.
use qwer_q.Common.{
  ℕ, zero, suc, ◌+◌, ◌≡◌, refl, arith, Bool, true, false, Option, none, some, List, [], ◌∷◌, ◌++◌,
  length, set, ap, if◌then◌else◌, subst, Option-cases, inl, inr, ◌⊎◌, get_elem?, >>=-eq_some,
  Bool-cases, ◌∙◌, ◌%◌,
}
use mathlib.Core.Option.{some-injective}
use qwer_q.Common.Dict.{lookup}
use qwer_q.Common.Int.{◌+ℤ◌}
use qwer_q.Broker.Group.{has_room, is_empty}
use qwer_q.Types.{Message, Time}
use qwer_q.Broker.Base.{is_after}
use qwer_q.Broker.Queue.{
  Consumer, Queue, clone_message, index_of, send, send_to, deliver_ordered, round_robin_loop,
  deliver_round_robin, deliver, deliver_loop, launch,
}

-- How many of the messages pass a test, and how many of those in the consumers' channels do.
abbrev pub count : (Message → Bool) → List Message → ℕ
count p [] = 0
count p (m ∷ ms) = (if p m then 1 else 0) + count p ms

abbrev pub in_channels : (Message → Bool) → List Consumer → ℕ
in_channels p [] = 0
in_channels p (c ∷ cs) = count p c.buf + in_channels p cs

-- A consumer got the copy of the message, if one is handed back.
abbrev pub copies : (Message → Bool) → Message → Option Message → ℕ
copies p msg none = 0
copies p msg (some msg') = if p (clone_message msg) then 1 else 0

count-snoc :
    (p : Message → Bool) (ms : List Message) (m : Message)
    → count p (ms ++ (m ∷ [])) ≡ (if p m then 1 else 0) + count p ms
count-snoc p [] m = refl
count-snoc p (n ∷ ms) m = omega (arith, count-snoc p ms m)

in_channels-set :
    (p : Message → Bool) (cs : List Consumer) (idx : ℕ) (c : Consumer) (m : Message)
    → get_elem? cs idx ≡ some c
    → in_channels p (set cs idx (record c { buf = c.buf ++ (m ∷ []) }))
      ≡ (if p m then 1 else 0) + in_channels p cs
in_channels-set p [] idx c m e = cc
in_channels-set p (d ∷ cs) zero c m e =
    let same : d ≡ c = cc e in omega (arith, count-snoc p c.buf m, ap (λ d. count p d.buf) same)
in_channels-set p (d ∷ cs) (suc idx) c m e = omega (arith, in_channels-set p cs idx c m e)

abbrev pub Filled : Message → Queue → Queue × Option Message → Type 0
Filled msg q y =
    (p : Message → Bool)
    → in_channels p y.0.consumers ≡ copies p msg y.1 + in_channels p q.consumers

-- What one delivery leaves alone, and what it puts into the channels; the message that it hands back
-- has only its time changed.
pub record Kept (msg : Message) (q r : Queue) (o : Option Message) : Type 0 where
  pub messages_kept : r.messages ≡ q.messages
  pub in_flight_kept : r.in_flight ≡ q.in_flight
  pub channels : Filled msg q (r, o)
  pub outcome : (o ≡ none) ⊎ ((t : Time) × (o ≡ some (record msg { visible_at = t })))

send-Kept :
    (now : Time) (msg : Message) (idx : ℕ) (q r : Queue) (o : Option Message)
    → send now msg idx q ≡ some (r, o)
    → Kept msg q r o
unfolding send
send-Kept now msg idx q r o e = elim (Option-cases (get_elem? q.consumers idx)) [
  | inl p ↦ absurd (ground (arith, p))
  | inr (c, p) ↦ elim (Bool-cases (has_room c.buf)) [
    | inl b ↦ record {
      messages_kept = ground (arith, p, b);
      in_flight_kept = ground (arith, p, b);
      channels =
          subst (Filled msg q) (some-injective _ _ (rw b at (rw (p, send) at e)))
            λ t. in_channels-set t q.consumers idx c (clone_message msg) p;
      outcome = inr (now +ℤ c.visibility_timeout, ground (arith, p, b));
    }
    | inr b ↦ record {
      messages_kept = ground (arith, p, b);
      in_flight_kept = ground (arith, p, b);
      channels =
          subst (Filled msg q) (some-injective _ _ (rw b at (rw (p, send) at e))) λ t. omega arith;
      outcome = inl (ground (arith, p, b));
    }
  ]
]

send_to-Kept :
    (now : Time) (msg : Message) (ch : ℕ) (q r : Queue) (o : Option Message)
    → send_to now msg ch q ≡ some (r, o)
    → Kept msg q r o
unfolding send_to
send_to-Kept now msg ch q r o e =
    let (idx, _, sent) = >>=-eq_some (index_of ch q.consumers) _ e in
    send-Kept now msg idx q r o sent

deliver_ordered-Kept :
    (now : Time) (msg : Message) (q r : Queue) (o : Option Message)
    → deliver_ordered now msg q ≡ some (r, o)
    → Kept msg q r o
unfolding deliver_ordered
deliver_ordered-Kept now msg q r o e =
    elim (Option-cases (lookup msg.ordering_key q.key_assignments)) [
      | inr (ch, p) ↦ send_to-Kept now msg ch q r o (rw (p, deliver_ordered) at e)
      | inl p ↦
          let (c, _, sent) =
            >>=-eq_some (get_elem? q.consumers _) _ (rw (p, deliver_ordered) at e) in
          let kept = send_to-Kept now msg c.ch _ r o sent in
          record {
            messages_kept = kept.messages_kept;
            in_flight_kept = kept.in_flight_kept;
            channels = kept.channels;
            outcome = kept.outcome;
          }
    ]

round_robin_loop-Kept :
    (now : Time) (msg : Message) (k j : ℕ) (q r : Queue) (o : Option Message)
    → round_robin_loop now msg k j q ≡ some (r, o)
    → Kept msg q r o
unfolding round_robin_loop
round_robin_loop-Kept now msg zero j q r o e = record {
  messages_kept = ground arith;
  in_flight_kept = ground arith;
  channels = subst (Filled msg q) (some-injective _ _ e) λ t. omega arith;
  outcome = inl (ground arith);
}
round_robin_loop-Kept now msg (suc k) j q r o e =
    let (s, tried, rest) = >>=-eq_some (send now msg _ q) _ e in
    let first = send-Kept now msg _ q s.0 s.1 tried in
    elim (Option-cases s.1) [
      | inl p ↦
          let next = round_robin_loop-Kept now msg k (j + 1) s.0 r o (rw p at rest) in
          record {
            messages_kept = next.messages_kept ∙ first.messages_kept;
            in_flight_kept = next.in_flight_kept ∙ first.in_flight_kept;
            channels = λ t. omega (
              arith,
              next.channels t,
              first.channels t ∙ ap (λ w. copies t msg w + in_channels t q.consumers) p,
            );
            outcome = next.outcome;
          }
      | inr (msg', p) ↦
          let done : some (record (s.0) { next_idx = (_ + 1) % length q.consumers }, some msg')
              ≡ some (r, o) =
            rw p at rest in
          record {
            messages_kept = ground (arith, done, first.messages_kept);
            in_flight_kept = ground (arith, done, first.in_flight_kept);
            channels =
                subst (Filled msg q) (some-injective _ _ done)
                  λ t. first.channels t ∙ ap (λ w. copies t msg w + in_channels t q.consumers) p;
            outcome = elim first.outcome [
              | inl n ↦ absurd (cc (n, p))
              | inr (t, w) ↦ inr (t, cc (done, p, w))
            ];
          }
    ]

pub deliver-Kept :
    (now : Time) (msg : Message) (q r : Queue) (o : Option Message)
    → deliver now msg q ≡ some (r, o)
    → Kept msg q r o
unfolding deliver deliver_round_robin
deliver-Kept now msg q r o e = elim (Bool-cases (is_empty msg.ordering_key)) [
  | inl b ↦ round_robin_loop-Kept now msg (length q.consumers) 0 q r o (rw (b, deliver) at e)
  | inr b ↦ deliver_ordered-Kept now msg q r o (rw (b, deliver) at e)
]

-- The head of the queue is visible, and a consumer takes it.
pub data Ships (now : Time) (q r : Queue) : Type 0 where
  ships :
      (msg msg' : Message) (rest : List Message) (q' : Queue)
      → q.messages ≡ msg ∷ rest
      → is_after msg.visible_at now ≡ false
      → deliver now msg q ≡ some (q', some msg')
      → r ≡ launch msg msg' (record q' { messages = rest })
      → Ships now q r

-- The loop's run: it ends on an empty queue, at a head that is not visible yet, or at one that no
-- channel has room for.
pub data Run (now : Time) (r : Queue) : Queue → Type 0 where
  empty : {q : Queue} → q.messages ≡ [] → r ≡ q → Run now r q
  early :
      {q : Queue} (msg : Message) (rest : List Message)
      → q.messages ≡ msg ∷ rest
      → is_after msg.visible_at now ≡ true
      → r ≡ q
      → Run now r q
  blocked :
      {q : Queue} (msg : Message) (rest : List Message)
      → q.messages ≡ msg ∷ rest
      → is_after msg.visible_at now ≡ false
      → deliver now msg q ≡ some (r, none)
      → Run now r q
  next : {q q' : Queue} → Ships now q q' → Run now r q' → Run now r q

pub deliver_loop-Run :
    (ms : List Message) (now : Time) (q r : Queue)
    → q.messages ≡ ms
    → deliver_loop ms now q ≡ some r
    → Run now r q
unfolding deliver_loop launch
deliver_loop-Run [] now q r m e = empty m (ground arith)
deliver_loop-Run (msg ∷ rest) now q r m e = elim (Bool-cases (is_after msg.visible_at now)) [
  | inl late ↦ early msg rest m late (ground (arith, late))
  | inr seen ↦
      let (s, sent, after) = >>=-eq_some (deliver now msg q) _ (rw (seen, deliver_loop) at e) in
      elim (Option-cases s.1) [
        | inl p ↦ blocked msg rest m seen (sent ∙ ground (arith, p, (rw p at after)))
        | inr (msg', p) ↦
            let q' = launch msg msg' (record (s.0) { messages = rest }) in
            next {q' = q'} (ships msg msg' rest s.0 m seen (sent ∙ ground (arith, p)) refl)
              (deliver_loop-Run rest now q' r refl (rw p at after))
      ]
]
