-- ===== src/Broker/Queue/Carries.antt =====
-- The content of a message: a delivery changes its attempt and its visible time, and nothing else.
use mathlib.Core.List.{Memᴰ}
use mathlib.Core.List.Memᴰ
use mathlib.Core.Option.{some-injective}
use qwer_q.Common.{
  ℕ, ◌+◌, ◌%◌, ◌^◌, ◌≤◌, ◌≡◌, refl, arith, false, none, some, List, ◌∷◌, ap, sym, ◌∙◌, subst, inl,
  inr, ◌⊎◌, Bool-cases, ◌||◌,
}
use qwer_q.Common.Strings.{Str, str_eq}
use qwer_q.Common.Dict.{Dict, lookup, insert, lookup-insert, lookup-insert_self}
use qwer_q.Types.{Message, Time}
use qwer_q.Broker.Group.{is_empty}
use qwer_q.Broker.Queue.{Queue, launch, try_deliver}
use qwer_q.Broker.Queue.Delivery.{
  deliver-Kept, Ships, ships, Run, empty, early, blocked, next, deliver_loop-Run,
}
use qwer_q.Broker.Queue.Contents.{count_id, held, IsDistinct, Ships-held}

-- The message, but for its attempt and its visible time.
abbrev pub Same : Message → Message → Type 0
Same m x = record x { attempt = m.attempt; visible_at = m.visible_at } ≡ m

-- The message is pending, or in flight under an identifier.
abbrev pub Stored : Str → Message → Queue → Type 0
Stored id x q = Memᴰ x q.messages ⊎ (lookup id q.in_flight ≡ some x)

-- The queue has the message, with its content.
abbrev pub Carries : Message → Queue → Type 0
Carries m q = (x : Message) × Same m x × Stored m.id x q

-- What is launched has the content of the head.
launched-Same :
    (m x msg msg' : Message) (n : ℕ) (t : Time)
    → Same m x
    → x ≡ msg
    → msg' ≡ record msg { visible_at = t }
    → Same m (record msg' { attempt = n })
launched-Same m x msg msg' n t s e w =
    let reset : Message → Message =
      λ y. record y { attempt = m.attempt; visible_at = m.visible_at } in
    ap reset w ∙ ap reset (sym e) ∙ s

-- A launch under another identifier leaves what is in flight.
flying-kept :
    (id k : Str) (v x : Message) (flying : Dict Message)
    → str_eq k id ≡ false
    → lookup id flying ≡ some x
    → lookup id (insert k v flying) ≡ some x
flying-kept id k v x flying n e = lookup-insert id k v flying ∙ rw n e

-- A message in flight is not pending as well, where no identifier is held twice.
apart :
    (id : Str) (msg x : Message) (rest : List Message) (q : Queue)
    → held id q ≤ 1
    → q.messages ≡ msg ∷ rest
    → lookup id q.in_flight ≡ some x
    → str_eq msg.id id ≡ false
apart id msg x rest q d m e = elim (Bool-cases (str_eq msg.id id)) [
  | inr b ↦ b
  | inl b ↦ absurd (ground (arith, d, ap (count_id id) m, b, e))
]

Ships-Carries :
    {now : Time} {q r : Queue} (m : Message)
    → Ships now q r
    → IsDistinct q
    → Carries m q
    → Carries m r
unfolding launch
Ships-Carries {now} {q} {r} m (ships msg msg' rest q' mq seen sent same) d (x, s, inl p) =
    elim (Memᴰ.cases_cons (subst (Memᴰ x) mq p)) [
      | inr later ↦ (x, s, inl (subst (Memᴰ x) (ap (λ t. t.messages) (sym same)) later))
      | inl e ↦ elim ((deliver-Kept now msg q q' (some msg') sent).outcome) [
        | inl none_sent ↦ absurd (cc none_sent)
        | inr (t, w) ↦ (
          record msg' { attempt = (msg'.attempt + 1) % 2 ^ 32 },
          launched-Same m x msg msg' ((msg'.attempt + 1) % 2 ^ 32) t s e (some-injective _ _ w),
          inr (
              rw (same, sym (ap (λ y. y.id) s), ap (λ y. y.id) e)
                (lookup-insert_self msg.id _ q'.in_flight)),
        )
      ]
    ]
Ships-Carries {now} {q} {r} m (ships msg msg' rest q' mq seen sent same) d (x, s, inr f) = (
  x,
  s,
  inr (
      rw (same, (deliver-Kept now msg q q' (some msg') sent).in_flight_kept)
        (flying-kept m.id msg.id _ x q.in_flight (apart m.id msg x rest q (d m.id) mq f) f)),
)

Run-Carries :
    {now : Time} {r q : Queue} (m : Message)
    → Run now r q
    → IsDistinct q
    → Carries m q
    → Carries m r
Run-Carries m (empty e same) d c = subst (Carries m) (sym same) c
Run-Carries m (early msg rest e late same) d c = subst (Carries m) (sym same) c
Run-Carries {now} {r} {q} m (blocked msg rest e seen sent) d (x, s, st) =
    let k = deliver-Kept now msg q r none sent in
    (
      x,
      s,
      elim st [
        | inl p ↦ inl (subst (Memᴰ x) (sym k.messages_kept) p)
        | inr f ↦ inr (ap (lookup m.id) k.in_flight_kept ∙ f)
      ],
    )
Run-Carries {now} {r} {q} m (next {q' = q'} step run) d c =
    Run-Carries m run (λ id. rw (Ships-held step d id) (d id)) (Ships-Carries m step d c)

-- `tryDeliver` keeps the content of each message that the queue has.
pub try_deliver-Carries :
    (now : Time) (q r : Queue) (m : Message)
    → IsDistinct q
    → try_deliver now q ≡ some r
    → Carries m q
    → Carries m r
unfolding try_deliver
try_deliver-Carries now q r m d e c =
    elim (Bool-cases (is_empty q.consumers || is_empty q.messages)) [
      | inl idle ↦ subst (Carries m) (some-injective _ _ (rw (idle, try_deliver) at e)) c
      | inr busy ↦
          Run-Carries m (deliver_loop-Run q.messages now q r refl (rw (busy, try_deliver) at e)) d c
    ]
