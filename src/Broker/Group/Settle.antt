-- ===== src/Broker/Group/Settle.antt =====
-- With one member or two the member loop does what it is meant to: it sends a message once.
use qwer_q.Common.{
  ℕ, zero, suc, ◌+◌, ◌%◌, ◌≤◌, ◌≡◌, refl, arith, Bool, true, false, Option, some, List, [], ◌∷◌,
  ◌++◌, length, get_elem?, get_elem?-lt, get_elem?-set_self, length-set, ◌||◌, ap, sym, ◌∙◌,
  Bool-cases, inl, inr, set, if◌then◌else◌,
}
use mathlib.Core.Path.{subst}
use native.Mathlib.Decide.{dec_lt}
use qwer_q.Types.{Time}
use qwer_q.Broker.Base.{is_after}
use qwer_q.Broker.Group.{
  Member, ConsumerGroup, has_room, is_empty, sent, try_member, member_loop, deliver_loop,
  try_deliver,
}

abbrev turn : ℕ → ConsumerGroup → ℕ
turn j g = (g.next_idx + j) % length g.members

try_full :
    (now : Time) (p j : ℕ) (m : Member) (g : ConsumerGroup) (d : Bool)
    → get_elem? g.members (turn j g) ≡ some m
    → has_room m.buf ≡ false
    → try_member now p j (g, d) ≡ some (g, d)
unfolding try_member
try_full now p j m g d e full = rw (e, try_member) (ground arith)

try_room :
    (now : Time) (p j x : ℕ) (rest : List ℕ) (m : Member) (g : ConsumerGroup) (d : Bool)
    → get_elem? g.members (turn j g) ≡ some m
    → has_room m.buf ≡ true
    → g.messages ≡ x ∷ rest
    → try_member now p j (g, d) ≡ some (sent now p (turn j g) m rest g, true)
unfolding try_member
try_room now p j x rest m g d e room head = rw (e, try_member) (ground arith)

-- What the member loop comes to: nothing is sent, or the head of the list is, once.
pub data SentOnce (now : Time) (p : ℕ) (rest : List ℕ) (g : ConsumerGroup)
    : Option (ConsumerGroup × Bool) → Type 0 where
  nobody : {r : Option (ConsumerGroup × Bool)} → r ≡ some (g, false) → SentOnce now p rest g r
  once :
      {r : Option (ConsumerGroup × Bool)} (idx : ℕ) (m : Member)
      → get_elem? g.members idx ≡ some m
      → m.buf ≡ []
      → r ≡ some (sent now p idx m rest g, true)
      → SentOnce now p rest g r

has_room→eq : {A : Type 0} (xs : List A) → has_room xs ≡ true → xs ≡ []
has_room→eq [] e = refl
has_room→eq (x ∷ xs) e = cc

one_member :
    (now : Time) (p x : ℕ) (rest : List ℕ) (g : ConsumerGroup)
    → length g.members ≡ 1
    → g.messages ≡ x ∷ rest
    → SentOnce now p rest g (member_loop now p 1 0 (g, false))
unfolding member_loop
one_member now p x rest g one head =
    let (m, e) = get_elem?-lt g.members (turn 0 g) (omega arith) in
    elim (Bool-cases (has_room m.buf)) [
      | inl b ↦
          once (turn 0 g) m e (has_room→eq m.buf b)
            (rw (try_room now p 0 x rest m g false e b head))
      | inr b ↦ nobody (rw (try_full now p 0 m g false e b))
    ]

-- After a delivery the second round comes back to the same member, whose channel is full now.
back_again :
    (now : Time) (p : ℕ) (rest : List ℕ) (m : Member) (g : ConsumerGroup)
    → length g.members ≡ 2
    → try_member now p 1 (sent now p (turn 0 g) m rest g, true)
      ≡ some (sent now p (turn 0 g) m rest g, true)
unfolding sent
back_again now p rest m g two =
    let m' : Member = record m { buf = m.buf ++ (p ∷ []) } in
    let same : turn 1 (sent now p (turn 0 g) m rest g) ≡ turn 0 g =
      rw (length-set g.members (turn 0 g) m', two) (omega arith) in
    try_full now p 1 m' (sent now p (turn 0 g) m rest g) true
      (rw same (get_elem?-set_self g.members (turn 0 g) m' (omega arith))) (full m.buf)
  where
    full : (xs : List ℕ) → has_room (xs ++ (p ∷ [])) ≡ false
    full [] = refl
    full (y ∷ xs) = refl

two_members :
    (now : Time) (p x : ℕ) (rest : List ℕ) (g : ConsumerGroup)
    → length g.members ≡ 2
    → g.messages ≡ x ∷ rest
    → SentOnce now p rest g (member_loop now p 2 0 (g, false))
unfolding member_loop
two_members now p x rest g two head =
    let (m, e) = get_elem?-lt g.members (turn 0 g) (omega arith) in
    let (m1, e1) = get_elem?-lt g.members (turn 1 g) (omega arith) in
    elim (Bool-cases (has_room m.buf)) [
      | inl b ↦
          once (turn 0 g) m e (has_room→eq m.buf b)
            (rw (try_room now p 0 x rest m g false e b head) (rw (back_again now p rest m g two)))
      | inr b ↦ elim (Bool-cases (has_room m1.buf)) [
        | inl c ↦ once (turn 1 g) m1 e1 (has_room→eq m1.buf c) (
            rw (try_full now p 0 m g false e b) (rw (try_room now p 1 x rest m1 g false e1 c head)))
        | inr c ↦
            nobody (rw (try_full now p 0 m g false e b) (rw (try_full now p 1 m1 g false e1 c)))
      ]
    ]

member_loop-SentOnce :
    (now : Time) (p x : ℕ) (rest : List ℕ) (g : ConsumerGroup)
    → 1 ≤ length g.members
    → length g.members ≤ 2
    → g.messages ≡ x ∷ rest
    → SentOnce now p rest g (member_loop now p (length g.members) 0 (g, false))
member_loop-SentOnce now p x rest g low high head = elim (dec_lt (length g.members) 2) [
  | yes h ↦
      let one : length g.members ≡ 1 = omega arith in
      subst (λ n. SentOnce now p rest g (member_loop now p n 0 (g, false))) (sym one)
        (one_member now p x rest g one head)
  | no h ↦
      let two : length g.members ≡ 2 = omega arith in
      subst (λ n. SentOnce now p rest g (member_loop now p n 0 (g, false))) (sym two)
        (two_members now p x rest g two head)
]

-- How many pointers pass a test, and how many of those in the members' channels do.
abbrev pub count : (ℕ → Bool) → List ℕ → ℕ
count t [] = 0
count t (p ∷ ps) = (if t p then 1 else 0) + count t ps

abbrev pub in_channels : (ℕ → Bool) → List Member → ℕ
in_channels t [] = 0
in_channels t (m ∷ ms) = count t m.buf + in_channels t ms

count-snoc :
    (t : ℕ → Bool) (ps : List ℕ) (p : ℕ)
    → count t (ps ++ (p ∷ [])) ≡ (if t p then 1 else 0) + count t ps
count-snoc t [] p = refl
count-snoc t (q ∷ ps) p = omega (arith, count-snoc t ps p)

in_channels-set :
    (t : ℕ → Bool) (ms : List Member) (idx : ℕ) (m : Member) (p : ℕ)
    → get_elem? ms idx ≡ some m
    → in_channels t (set ms idx (record m { buf = m.buf ++ (p ∷ []) }))
      ≡ (if t p then 1 else 0) + in_channels t ms
in_channels-set t [] idx m p e = cc
in_channels-set t (n ∷ ms) zero m p e =
    let same : n ≡ m = cc e in omega (arith, count-snoc t m.buf p, ap (λ n. count t n.buf) same)
in_channels-set t (n ∷ ms) (suc idx) m p e = omega (arith, in_channels-set t ms idx m p e)

-- The result of a delivery pass: it came through, what was pending is what went out followed by
-- what is pending now, the members' channels hold what they held before and what went out,
-- each message once, and nobody joined or left.
pub record Passed (g : ConsumerGroup) (o : Option ConsumerGroup) : Type 0 where
  pub after : ConsumerGroup
  pub out : List ℕ
  pub came_through : o ≡ some after
  pub split : g.messages ≡ out ++ after.messages
  pub delivered :
      (t : ℕ → Bool) → in_channels t after.members ≡ count t out + in_channels t g.members
  pub same_count : length after.members ≡ length g.members

stays : (g : ConsumerGroup) (o : Option ConsumerGroup) → o ≡ some g → Passed g o
stays g o e = record {
  after = g;
  out = [];
  came_through = e;
  split = refl;
  delivered = λ t. omega arith;
  same_count = refl;
}

loop_empty :
    (fuel : ℕ) (now : Time) (g : ConsumerGroup)
    → g.messages ≡ []
    → deliver_loop (suc fuel) now g ≡ some g
unfolding deliver_loop
loop_empty fuel now g e = ground arith

loop_early :
    (fuel : ℕ) (now : Time) (p : ℕ) (rest : List ℕ) (g : ConsumerGroup)
    → g.messages ≡ p ∷ rest
    → is_after (g.store p).visible_at now ≡ true
    → deliver_loop (suc fuel) now g ≡ some g
unfolding deliver_loop
loop_early fuel now p rest g e late = ground arith

loop_round :
    (fuel : ℕ) (now : Time) (p : ℕ) (rest : List ℕ) (g s : ConsumerGroup) (sends : Bool)
    → g.messages ≡ p ∷ rest
    → is_after (g.store p).visible_at now ≡ false
    → member_loop now p (length g.members) 0 (g, false) ≡ some (s, sends)
    → deliver_loop (suc fuel) now g ≡ elim sends [ true ↦ deliver_loop fuel now s | false ↦ some s ]
unfolding deliver_loop
loop_round fuel now p rest g s sends e seen f = ground arith

deliver_loop-Passed :
    (fuel : ℕ) (now : Time) (ms : List ℕ) (g : ConsumerGroup)
    → 1 ≤ length g.members
    → length g.members ≤ 2
    → g.messages ≡ ms
    → Passed g (deliver_loop fuel now g)
deliver_loop-Passed zero now ms g low high e = stays g _ (unfold deliver_loop in refl)
deliver_loop-Passed (suc fuel) now [] g low high e = stays g _ (loop_empty fuel now g e)
deliver_loop-Passed (suc fuel) now (p ∷ rest) g low high e =
    elim (Bool-cases (is_after (g.store p).visible_at now)) [
      | inl late ↦ stays g _ (loop_early fuel now p rest g e late)
      | inr seen ↦
          pass (member_loop now p (length g.members) 0 (g, false)) refl
            (member_loop-SentOnce now p p rest g low high e) seen
            λ idx m.
              let m' : Member = record m { buf = m.buf ++ (p ∷ []) } in
              deliver_loop-Passed fuel now rest (sent now p idx m rest g)
                (unfold sent in omega (arith, length-set g.members idx m'))
                (unfold sent in omega (arith, length-set g.members idx m')) (unfold sent in refl)
    ]
  where
    pass :
        (o : Option (ConsumerGroup × Bool))
        → member_loop now p (length g.members) 0 (g, false) ≡ o
        → SentOnce now p rest g o
        → is_after (g.store p).visible_at now ≡ false
        → ((idx : ℕ) (m : Member)
            → Passed (sent now p idx m rest g) (deliver_loop fuel now (sent now p idx m rest g)))
        → Passed g (deliver_loop (suc fuel) now g)
    pass o same (nobody f) seen later =
        stays g _ (loop_round fuel now p rest g g false e seen (same ∙ f))
    pass o same (once idx m h b f) seen later =
        let l = later idx m in
        let m' : Member = record m { buf = m.buf ++ (p ∷ []) } in
        record {
          after = l.after;
          out = p ∷ l.out;
          came_through =
              loop_round fuel now p rest g (sent now p idx m rest g) true e seen (same ∙ f)
              ∙ l.came_through;
          split = e ∙ ap (◌∷◌ p) (unfold sent in l.split);
          delivered = λ t.
              unfold sent in omega (arith, l.delivered t, in_channels-set t g.members idx m p h);
          same_count = l.same_count ∙ (unfold sent in length-set g.members idx m');
        }

-- With at most two members `tryDeliver` returns, and nobody joins or leaves. What it takes off the
-- pending list is a front of it, and the members' channels hold what they held before, and one
-- pointer to each message taken off, and nothing else.
pub try_deliver-Passed :
    (now : Time) (g : ConsumerGroup) → length g.members ≤ 2 → Passed g (try_deliver now g)
unfolding try_deliver
try_deliver-Passed now g small = elim (Bool-cases (is_empty g.members || is_empty g.messages)) [
  | inl idle ↦ stays g _ (rw (idle, try_deliver))
  | inr busy ↦
      rw (busy, try_deliver)
        (deliver_loop-Passed (length g.messages) now g.messages g
          (nonempty g.members (ground arith)) small refl)
]
  where
    nonempty : (ms : List Member) → is_empty ms ≡ false → 1 ≤ length ms
    nonempty [] e = cc
    nonempty (m ∷ ms) e = omega arith
