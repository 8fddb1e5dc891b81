-- ===== src/Broker/Queue/Stock.antt =====
-- What acknowledgements, requeues and new messages do to the queue's contents.
use qwer_q.Common.{
  ◌+◌, ◌≡◌, refl, arith, Bool, true, false, Option, none, some, List, [], ◌∷◌, ◌++◌, if◌then◌else◌,
  is_some, >>=-eq_some, inl, inr, ◌∙◌, Bool-cases, Option-cases, ◌⊎◌,
}
use qwer_q.Common.Strings.{Str, str_eq, str_eq_iff}
use qwer_q.Common.Dict.{Dict, lookup, delete, lookup-delete}
use qwer_q.Types.{Message, Time}
use qwer_q.Broker.Base.{Error, Hook, NackResult, Fate, to_dlq, to_drop, to_requeue, is_before}
use qwer_q.Broker.Queue.{Queue, try_deliver}
use qwer_q.Broker.Queue.Acks.{
  ack_with_hook, ack_after, nack_with_hooks, act, discard_after, requeue_after,
  requeue_expired_loop, requeue_entry,
}
use qwer_q.Broker.Queue.Groups.{requeue_expired, requeue_expired_groups}
use qwer_q.Broker.Queue.Contents.{count_id, held, IsDistinct, flying-delete, try_deliver-held}

count_id-append :
    (id : Str) (xs ys : List Message) → count_id id (xs ++ ys) ≡ count_id id xs + count_id id ys
count_id-append id [] ys = omega arith
count_id-append id (x ∷ xs) ys = omega (arith, count_id-append id xs ys)

-- The message of `id` is gone, and every other one is held as before.
abbrev pub Settles : Str → Queue → Queue → Type 0
Settles id q r = (j : Str) → held j r ≡ (if str_eq id j then 0 else held j q)

-- Taking an identifier out of the map settles it, when nothing pending has it.
delete-Settles :
    (id : Str) (msg : Message) (q : Queue)
    → IsDistinct q
    → lookup id q.in_flight ≡ some msg
    → Settles id q (record q { in_flight = delete id q.in_flight })
delete-Settles id msg q d e j =
    rw (flying-delete j id q.in_flight) (ground (arith, d id, str_eq_iff id j, e))

Settles-IsDistinct : (id : Str) (q r : Queue) → Settles id q r → IsDistinct q → IsDistinct r
Settles-IsDistinct id q r s d j = ground (arith, s j, d j)

-- What an acknowledgement comes to.
abbrev pub Acked : Str → Queue → Queue → Bool → Type 0
Acked id q r done =
    ((done ≡ true) × (is_some (lookup id q.in_flight) ≡ true) × Settles id q r)
    ⊎ ((done ≡ false) × (r ≡ q))

deliver_after_delete :
    (id : Str) (msg : Message) (now : Time) (q r : Queue)
    → IsDistinct q
    → lookup id q.in_flight ≡ some msg
    → try_deliver now (record q { in_flight = delete id q.in_flight }) ≡ some r
    → Settles id q r
deliver_after_delete id msg now q r d p e j =
    let gone = delete-Settles id msg q d p in
    let q' : Queue = record q { in_flight = delete id q.in_flight } in
    try_deliver-held now q' r (Settles-IsDistinct id q q' gone d) e j ∙ gone j

ack_after-Acked :
    {S : Type 0} (id : Str) (msg : Message) (now : Time) (q : Queue) (o : S × Option Error)
    (r : Queue) (s : S) (done : Bool) (x : Option Error)
    → IsDistinct q
    → lookup id q.in_flight ≡ some msg
    → ack_after id now q o ≡ some ((r, s), done, x)
    → Acked id q r done
unfolding ack_after
ack_after-Acked id msg now q (s', some y) r s done x d p e = inr (ground arith, ground arith)
ack_after-Acked id msg now q (s', none) r s done x d p e =
    let (t, sent, same) = >>=-eq_some (try_deliver now _) _ e in
    inl (
      ground (arith, same),
      rw p,
      deliver_after_delete id msg now q r d p (sent ∙ ground (arith, same)),
    )

-- Where no identifier is held twice, an acknowledgement that succeeds removes its message, which
-- was in flight, and no other. One that does not succeed leaves the queue as it was.
pub ack_with_hook-Acked :
    {S : Type 0} (hook : Hook S) (id : Str) (now : Time) (q r : Queue) (s s' : S) (done : Bool)
    (x : Option Error)
    → IsDistinct q
    → ack_with_hook hook id now (q, s) ≡ some ((r, s'), done, x)
    → Acked id q r done
unfolding ack_with_hook
ack_with_hook-Acked hook id now q r s s' done x d e = elim (Option-cases (lookup id q.in_flight)) [
  | inl p ↦
      let same = rw (p, ack_with_hook) at e in inr (ground (arith, same), ground (arith, same))
  | inr (msg, p) ↦
      ack_after-Acked id msg now q (hook msg s) r s' done x d p (rw (p, ack_with_hook) at e)
]

-- Moving an entry from the map to the end of the list changes no count.
requeue-held :
    (id : Str) (msg msg' : Message) (q : Queue)
    → IsDistinct q
    → lookup id q.in_flight ≡ some msg
    → msg'.id ≡ id
    → (j : Str)
    → held j (record q { in_flight = delete id q.in_flight; messages = q.messages ++ (msg' ∷ []) })
      ≡ held j q
requeue-held id msg msg' q d e same j =
    rw (flying-delete j id q.in_flight, count_id-append j q.messages (msg' ∷ []), same)
      (ground (arith, d id, str_eq_iff id j, e))

-- The map's entries stand under their own identifiers.
abbrev pub AllKeyed : Dict Message → Type 0
AllKeyed m = (id : Str) (msg : Message) → lookup id m ≡ some msg → msg.id ≡ id

AllKeyed-delete : (id : Str) (m : Dict Message) → AllKeyed m → AllKeyed (delete id m)
AllKeyed-delete id m keyed j msg e = ground (arith, rw (lookup-delete j id m) at e, keyed j msg)

-- What a negative acknowledgement comes to: the message is gone, and is the result's, or every
-- message is held as before.
abbrev pub Nacked : Str → Queue → Queue → NackResult → Type 0
Nacked id q r n =
    (((n.to_dlq ≡ true) ⊎ (n.dropped ≡ true))
      × (n.message ≡ lookup id q.in_flight)
      × Settles id q r)
    ⊎ ((j : Str) → held j r ≡ held j q)

requeue_after-held :
    {S : Type 0} (id : Str) (msg : Message) (now : Time) (q : Queue) (o : S × Option Error)
    (r : Queue) (s : S) (n : NackResult) (x : Option Error)
    → IsDistinct q
    → lookup id q.in_flight ≡ some msg
    → msg.id ≡ id
    → requeue_after id msg now q o ≡ some ((r, s), n, x)
    → (j : Str) → held j r ≡ held j q
unfolding requeue_after
requeue_after-held id msg now q (s', some y) r s n x d p same e j =
    let stays : q ≡ r = ground arith in rw stays
requeue_after-held id msg now q (s', none) r s n x d p same e j =
    let msg' : Message = record msg { visible_at = now } in
    let q' : Queue = record q {
      in_flight = delete id q.in_flight;
      messages = q.messages ++ (msg' ∷ []);
    } in
    let moved : (i : Str) → held i q' ≡ held i q = requeue-held id msg msg' q d p same in
    let (t, sent, end) = >>=-eq_some (try_deliver now q') _ e in
    try_deliver-held now q' r (λ i. rw (moved i) (d i)) (sent ∙ ground (arith, end)) j ∙ moved j

discard_after-Nacked :
    {S : Type 0} (id : Str) (msg : Message) (q : Queue) (o : S × Option Error) (r : Queue) (s : S)
    (n : NackResult) (x : Option Error)
    → IsDistinct q
    → lookup id q.in_flight ≡ some msg
    → discard_after id msg q o ≡ some ((r, s), n, x)
    → Nacked id q r n
unfolding discard_after
discard_after-Nacked id msg q (s', some y) r s n x d p e =
    let stays : q ≡ r = ground arith in inr (λ j. rw stays)
discard_after-Nacked id msg q (s', none) r s n x d p e =
    let gone : record q { in_flight = delete id q.in_flight } ≡ r = ground arith in
    inl (inr (ground arith), ground (arith, p), rw (← gone) (delete-Settles id msg q d p))

act-Nacked :
    {S : Type 0} (drops requeues : Hook S) (id : Str) (msg : Message) (now : Time) (q : Queue)
    (s₀ : S) (f : Fate) (r : Queue) (s : S) (n : NackResult) (x : Option Error)
    → IsDistinct q
    → lookup id q.in_flight ≡ some msg
    → msg.id ≡ id
    → act drops requeues id msg now (q, s₀) f ≡ some ((r, s), n, x)
    → Nacked id q r n
unfolding act
act-Nacked drops requeues id msg now q s₀ to_dlq r s n x d p same e =
    let gone : record q { in_flight = delete id q.in_flight } ≡ r = ground arith in
    inl (inl (ground arith), ground (arith, p), rw (← gone) (delete-Settles id msg q d p))
act-Nacked drops requeues id msg now q s₀ to_drop r s n x d p same e =
    discard_after-Nacked id msg q (drops msg s₀) r s n x d p e
act-Nacked drops requeues id msg now q s₀ to_requeue r s n x d p same e = inr (
    requeue_after-held id msg now q (requeues (record msg { visible_at = now }) s₀) r s n x d p same
      e)

-- Where no identifier is held twice and messages in flight stand under their own identifier, a
-- negative acknowledgement either hands the message out, to be dead-lettered or dropped, and
-- removes it alone from the queue, or leaves every message held as often as before: a message that
-- is requeued is not lost and not doubled.
pub nack_with_hooks-Nacked :
    {S : Type 0} (drops requeues : Hook S) (id : Str) (again : Bool) (now : Time) (q r : Queue)
    (s₀ s : S) (n : NackResult) (x : Option Error)
    → IsDistinct q
    → ((msg : Message) → lookup id q.in_flight ≡ some msg → msg.id ≡ id)
    → nack_with_hooks drops requeues id again now (q, s₀) ≡ some ((r, s), n, x)
    → Nacked id q r n
unfolding nack_with_hooks
nack_with_hooks-Nacked drops requeues id again now q r s₀ s n x d keyed e =
    elim (Option-cases (lookup id q.in_flight)) [
      | inl p ↦
          let same = rw (p, nack_with_hooks) at e in
          let stays : q ≡ r = ground (arith, same) in inr (λ j. rw stays)
      | inr (msg, p) ↦
          act-Nacked drops requeues id msg now q s₀ _ r s n x d p (keyed msg p)
            (rw (p, nack_with_hooks) at e)
    ]

-- The loop of `RequeueExpired` moves entries, and loses and doubles none, in whatever order the map
-- is visited.
requeue_expired_loop-held :
    (order : List Str) (now : Time) (q : Queue)
    → IsDistinct q
    → AllKeyed q.in_flight
    → (j : Str) → held j (requeue_expired_loop order now q) ≡ held j q
unfolding requeue_expired_loop requeue_entry
requeue_expired_loop-held [] now q d keyed j = refl
requeue_expired_loop-held (id ∷ ids) now q d keyed j = elim (Option-cases (lookup id q.in_flight)) [
  | inl p ↦ rw (p, requeue_expired_loop) (requeue_expired_loop-held ids now q d keyed j)
  | inr (msg, p) ↦ elim (Bool-cases (is_before msg.visible_at now)) [
    | inr b ↦ rw (p, requeue_expired_loop) (rw b (requeue_expired_loop-held ids now q d keyed j))
    | inl b ↦
        let q' = requeue_entry now id msg q in
        let moved : (i : Str) → held i q' ≡ held i q =
          requeue-held id msg (record msg { visible_at = now }) q d p (keyed id msg p) in
        rw (p, requeue_expired_loop)
          (rw b (
            requeue_expired_loop-held ids now q' (λ i. rw (moved i) (d i))
              (AllKeyed-delete id q.in_flight keyed) j
            ∙ moved j))
  ]
]

-- Where no identifier is held twice and messages in flight stand under their own identifier,
-- `RequeueExpired` keeps every message, pending or in flight, whatever the order of its loops, if
-- it does not panic.
pub requeue_expired-held :
    (order : List Str) (orders : Str → List Str) (now : Time) (q r : Queue)
    → IsDistinct q
    → AllKeyed q.in_flight
    → requeue_expired order orders now q ≡ some r
    → (j : Str) → held j r ≡ held j q
unfolding requeue_expired
requeue_expired-held order orders now q r d keyed e j =
    let q' = requeue_expired_loop order now q in
    let moved : (i : Str) → held i q' ≡ held i q = requeue_expired_loop-held order now q d keyed in
    let (t, sent, rest) = >>=-eq_some (try_deliver now q') _ e in
    let (gs, _, end) = >>=-eq_some (requeue_expired_groups orders now t.groups) _ rest in
    let same : held j r ≡ held j t = cc end in
    same ∙ try_deliver-held now q' t (λ i. rw (moved i) (d i)) sent j ∙ moved j
