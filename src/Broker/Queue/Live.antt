-- ===== src/Broker/Queue/Live.antt =====
-- Which channels belong to a consumer of the queue, as consumers come, receive and go.
use qwer_q.Common.{
  ℕ, ◌≡◌, arith, Option, none, some, List, [], ◌∷◌, ◌++◌, inl, inr, Bool-cases, Option-cases, ◌==◌,
  ◌≢◌, ◌⊎◌,
}
use qwer_q.Common.Dict.{Dict, AllValues}
use qwer_q.Types.{Message}
use qwer_q.Broker.Queue.{Queue, Consumer, index_of}
use qwer_q.Broker.Queue.Consumers.{remove_consumer, clear_assignments, without_consumer, take_from}
use qwer_q.Broker.Queue.Invariant.{IsLive, IsRouted}

-- The assignments are in order, and there is no group.
abbrev pub IsSound : Queue → Type 0
IsSound q = IsRouted q × (q.groups ≡ [])

pub IsLive-cases :
    (ch : ℕ) (c : Consumer) (cs : List Consumer) → IsLive (c ∷ cs) ch → (c.ch ≡ ch) ⊎ IsLive cs ch
unfolding index_of
IsLive-cases ch c cs h = elim (Option-cases (index_of ch cs)) [
  | inl p ↦ inl (ground (arith, p))
  | inr (i, p) ↦ inr (rw p)
]

pub IsLive-head : (ch : ℕ) (c : Consumer) (cs : List Consumer) → c.ch ≡ ch → IsLive (c ∷ cs) ch
unfolding index_of
IsLive-head ch c cs h = ground arith

pub IsLive-tail : (ch : ℕ) (c : Consumer) (cs : List Consumer) → IsLive cs ch → IsLive (c ∷ cs) ch
unfolding index_of
IsLive-tail ch c cs h = elim (Option-cases (index_of ch cs)) [
  | inl p ↦ absurd (cc (p, h))
  | inr (i, p) ↦ ground (arith, p)
]

pub append-IsLive : (ch : ℕ) (cs ds : List Consumer) → IsLive cs ch → IsLive (cs ++ ds) ch
append-IsLive ch [] ds h = unfold index_of in cc
append-IsLive ch (c ∷ cs) ds h = elim (IsLive-cases ch c cs h) [
  | inl e ↦ IsLive-head ch c (cs ++ ds) e
  | inr l ↦ IsLive-tail ch c (cs ++ ds) (append-IsLive ch cs ds l)
]

pub take_from-IsLive :
    (ch taken : ℕ) (cs : List Consumer) → IsLive cs ch → IsLive (take_from taken cs).0 ch
unfolding take_from
take_from-IsLive ch taken [] h = h
take_from-IsLive ch taken (c ∷ cs) h = elim (Bool-cases (c.ch == taken)) [
  | inl b ↦ rw b (buffer c.buf)
  | inr b ↦ rw b (elim (IsLive-cases ch c cs h) [
    | inl e ↦ IsLive-head ch c _ e
    | inr l ↦ IsLive-tail ch c _ (take_from-IsLive ch taken cs l)
  ])
]
  where
    buffer :
        (buf : List Message)
        → IsLive
            (elim buf as (λ _. List Consumer × Option Message) [
              | [] ↦ (c ∷ cs, none)
              | m ∷ ms ↦ (record c { buf = ms } ∷ cs, some m)
            ]).0
            ch
    buffer [] = h
    buffer (m ∷ ms) = elim (IsLive-cases ch c cs h) [
      | inl e ↦ IsLive-head ch (record c { buf = ms }) cs e
      | inr l ↦ IsLive-tail ch (record c { buf = ms }) cs l
    ]

pub without_consumer-IsLive :
    (ch gone : ℕ) (cs : List Consumer)
    → ch ≢ gone
    → IsLive cs ch
    → IsLive (without_consumer gone cs) ch
unfolding without_consumer
without_consumer-IsLive ch gone [] ne h = h
without_consumer-IsLive ch gone (c ∷ cs) ne h = elim (Bool-cases (c.ch == gone)) [
  | inl b ↦ rw b (elim (IsLive-cases ch c cs h) [ inl e ↦ absurd (ground arith) | inr l ↦ l ])
  | inr b ↦ rw b (elim (IsLive-cases ch c cs h) [
    | inl e ↦ IsLive-head ch c _ e
    | inr l ↦ IsLive-tail ch c _ (without_consumer-IsLive ch gone cs ne l)
  ])
]

-- What is left of the assignments names other consumers, and those stay.
pub clear_assignments-IsLive :
    (gone : ℕ) (cs : List Consumer) (m : Dict ℕ)
    → AllValues (IsLive cs) m
    → AllValues (IsLive (without_consumer gone cs)) (clear_assignments gone m)
unfolding clear_assignments
clear_assignments-IsLive gone cs [] h = tt
clear_assignments-IsLive gone cs ((k, ch) ∷ m) h = elim (Bool-cases (ch == gone)) [
  | inl b ↦ rw b (clear_assignments-IsLive gone cs m h.1)
  | inr b ↦ rw b (
    without_consumer-IsLive ch gone cs (ground arith) h.0,
    clear_assignments-IsLive gone cs m h.1,
  )
]

pub remove_consumer-IsSound : (ch : ℕ) (q : Queue) → IsSound q → IsSound (remove_consumer ch q)
unfolding remove_consumer
remove_consumer-IsSound ch q (routed, no_groups) = elim (Option-cases (index_of ch q.consumers)) [
  | inl p ↦ rw (p, remove_consumer) (routed, no_groups)
  | inr (i, p) ↦
      rw (p, remove_consumer)
        (clear_assignments-IsLive ch q.consumers q.key_assignments routed, no_groups)
]
