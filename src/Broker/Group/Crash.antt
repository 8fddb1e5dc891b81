-- ===== src/Broker/Group/Crash.antt =====
-- The member loop of `tryDeliver` does not stop after a delivery. With three members or more it
-- reaches another idle member, to which it sends the same message again, and takes another message
-- off the list: when there is none left, the slice expression panics.
use qwer_q.Common.{
  ℕ, zero, suc, ◌+◌, ◌-◌, ◌%◌, ◌<◌, ◌≤◌, ◌≡◌, ◌≢◌, refl, arith, true, false, none, some, List, [],
  ◌∷◌, ◌++◌, length, get_elem?, set, All, get_elem?-lt, get_elem?-set_ne, length-set, ◌||◌, ◌∙◌,
}
use mathlib.Core.Path.{subst}
use native.Mathlib.Nat.{mod-eq_of_lt, mod-eq-sub-mod}
use qwer_q.Common.Int.{◌≤ℤ◌}
use qwer_q.Types.{Message, Time, zero_time}
use qwer_q.Broker.Base.{is_after}
use qwer_q.Broker.Group.{
  Member, ConsumerGroup, is_empty, sent, try_member, member_loop, deliver_loop, try_deliver,
  enqueue,
}

All-get {ℓ} :
    {A : Type ℓ} (P : A → Type 0) (xs : List A) (i : ℕ) (a : A)
    → All P xs
    → get_elem? xs i ≡ some a
    → P a
All-get P [] i a h e = cc
All-get P (x ∷ xs) zero a h e = subst P (ground arith) h.0
All-get P (x ∷ xs) (suc i) a h e = All-get P xs i a h.1 e

-- The member after the next one is another, where there are three.
after_next : (i n : ℕ) → 3 ≤ n → i < n → i ≢ ((i + 1) % n + 1) % n
after_next i n h k = grind (arith, mod-eq_of_lt, mod-eq-sub-mod)

-- Every member's channel is empty.
abbrev pub AllIdle : ConsumerGroup → Type 0
AllIdle g = All (λ m. m.buf ≡ []) g.members

-- The round that comes after a delivery of the last message panics.
second_round :
    (now : Time) (p idx : ℕ) (m : Member) (g : ConsumerGroup)
    → 3 ≤ length g.members
    → AllIdle g
    → idx < length g.members
    → try_member now p 1 (sent now p idx m [] g, true) ≡ none
unfolding try_member sent
second_round now p idx m g three idle h =
    let n = length g.members in
    let m' : Member = record m { buf = m.buf ++ (p ∷ []) } in
    let idx' = ((idx + 1) % n + 1) % n in
    let (m1, e) = get_elem?-lt g.members idx' (omega arith) in
    let other : get_elem? (set g.members idx m') idx' ≡ some m1 =
      get_elem?-set_ne g.members idx idx' m' (after_next idx n three h) ∙ e in
    let free : m1.buf ≡ [] = All-get (λ x. x.buf ≡ []) g.members idx' m1 idle e in
    rw (length-set g.members idx m', try_member) (rw (other, try_member) (rw free))

-- The round that delivers the last message.
first_round :
    (now : Time) (p j : ℕ) (m : Member) (g : ConsumerGroup)
    → get_elem? g.members ((g.next_idx + j) % length g.members) ≡ some m
    → m.buf ≡ []
    → g.messages ≡ p ∷ []
    → try_member now p j (g, false)
      ≡ some (sent now p ((g.next_idx + j) % length g.members) m [] g, true)
unfolding try_member
first_round now p j m g e free one = rw (e, try_member) (ground arith)

member_loop_panics :
    (now : Time) (p k : ℕ) (g : ConsumerGroup)
    → length g.members ≡ suc (suc k)
    → 3 ≤ length g.members
    → AllIdle g
    → g.messages ≡ p ∷ []
    → member_loop now p (suc (suc k)) 0 (g, false) ≡ none
unfolding member_loop
member_loop_panics now p k g count three idle one =
    let n = length g.members in
    let idx = (g.next_idx + 0) % n in
    let (m, e) = get_elem?-lt g.members idx (omega arith) in
    let free : m.buf ≡ [] = All-get (λ x. x.buf ≡ []) g.members idx m idle e in
    let first = first_round now p 0 m g e free one in
    let again : try_member now p (0 + 1) (sent now p idx m [] g, true) ≡ none =
      second_round now p idx m g three idle (omega arith) in
    rw first (rw again)

nonempty : (ms : List Member) → 3 ≤ length ms → (is_empty ms || false) ≡ false
nonempty [] h = absurd (omega arith)
nonempty (m ∷ ms) h = refl

-- A group of three members or more, all with empty channels, panics when it is to deliver its only
-- message, once that is visible.
pub try_deliver-panics :
    (now : Time) (p : ℕ) (g : ConsumerGroup)
    → 3 ≤ length g.members
    → AllIdle g
    → g.messages ≡ p ∷ []
    → is_after (g.store p).visible_at now ≡ false
    → try_deliver now g ≡ none
unfolding try_deliver deliver_loop
try_deliver-panics now p g three idle one seen =
    let busy : (is_empty g.members || is_empty g.messages) ≡ false =
      rw one (nonempty g.members three) in
    let loop = member_loop_panics now p (length g.members - 2) g (omega arith) three idle one in
    let count : suc (suc (length g.members - 2)) ≡ length g.members = omega arith in
    let stuck : member_loop now p (length g.members) 0 (g, false) ≡ none =
      subst (λ n. member_loop now p n 0 (g, false) ≡ none) count loop in
    let len : length g.messages ≡ 1 = rw one in
    rw (busy, try_deliver) (rw len (ground (arith, stuck)))

-- The first message that is published to a group of three members or more crashes the process:
-- where all have empty channels and nothing is pending, `Enqueue` panics at any time from the year
-- 1 on.
pub enqueue-panics :
    (msg : Message) (now : Time) (g : ConsumerGroup)
    → 3 ≤ length g.members
    → AllIdle g
    → g.messages ≡ []
    → zero_time ≤ℤ now
    → enqueue msg now g ≡ none
unfolding enqueue
enqueue-panics msg now g three idle none_pending later =
    try_deliver-panics now g.next_ptr _ three idle (rw none_pending) (ground arith)
