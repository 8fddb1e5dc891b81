-- ===== src/Broker/Queue/Runs.antt =====
-- The operations that end in a delivery run through, and leave a sound queue sound.
use qwer_q.Common.{
  ◌≡◌, refl, Bool, Option, none, some, List, [], ◌∷◌, ◌++◌, ◌>>=◌, inl, inr, ◌∙◌, Bool-cases,
  Option-cases,
}
use qwer_q.Common.Strings.{Str}
use qwer_q.Common.Dict.{lookup, delete}
use qwer_q.Types.{Message, Time}
use qwer_q.Broker.Base.{Error, Hook, to_dlq, to_drop, to_requeue, is_before, Fate}
use qwer_q.Broker.Queue.{Queue, enqueue, enqueue_direct, enqueue_groups, is_full}
use qwer_q.Broker.Queue.Acks.{
  ack_after, nack_with_hooks, act, discard_after, requeue_after, requeue_expired_loop,
  requeue_entry, remove, has_id,
}
use qwer_q.Broker.Queue.Groups.{requeue_expired, requeue_expired_groups}
use qwer_q.Broker.Queue.Total.{try_deliver-Safe}
use qwer_q.Broker.Queue.Live.{IsSound}

abbrev pub Runs : {S : Type 0} → Option (Queue × S) → Type 0
Runs {S} m = (t : Queue × S) × (m ≡ some t) × IsSound t.0

pub enqueue_direct-Runs :
    {S : Type 0} (msg : Message) (now : Time) (q : Queue) (s : S)
    → IsSound q
    → Runs (enqueue_direct msg now q >>= λ r. some (r, s))
unfolding enqueue_direct enqueue_groups
enqueue_direct-Runs msg now q s (routed, no_groups) =
    let d = try_deliver-Safe now (record q { messages = q.messages ++ (msg ∷ []) }) routed in
    let empty : d.result.groups ≡ [] = d.same_groups ∙ no_groups in
    (
      (record (d.result) { groups = [] }, s),
      rw (d.came_through) (rw (empty, enqueue_groups)),
      (d.routed, refl),
    )

pub enqueue-Runs :
    {S : Type 0} (msg : Message) (now : Time) (q : Queue) (s : S)
    → IsSound q
    → Runs (enqueue msg now q >>= λ r. some (r.0, s))
unfolding enqueue
enqueue-Runs msg now q s sound = elim (Bool-cases (is_full q)) [
  | inl full ↦ ((q, s), rw (full, enqueue), sound)
  | inr room ↦
      let (t, e, ok) = enqueue_direct-Runs msg now q s sound in
      elim (Option-cases (enqueue_direct msg now q)) [
        | inl p ↦ absurd (cc (rw p at e))
        | inr (r, p) ↦ (t, rw (room, enqueue) (rw p (rw p at e)), ok)
      ]
]

pub ack-Runs :
    {S : Type 0} (id : Str) (now : Time) (q : Queue) (o : S × Option Error)
    → IsSound q
    → Runs (ack_after id now q o >>= λ r. some r.0)
unfolding ack_after
ack-Runs id now q (s, some x) sound = ((q, s), refl, sound)
ack-Runs id now q (s, none) sound =
    let (routed, no_groups) = sound in
    let d = try_deliver-Safe now (record q { in_flight = delete id q.in_flight }) routed in
    ((d.result, s), rw (d.came_through), (d.routed, d.same_groups ∙ no_groups))

pub discard-Runs :
    {S : Type 0} (id : Str) (msg : Message) (q : Queue) (o : S × Option Error)
    → IsSound q
    → Runs (discard_after id msg q o >>= λ r. some r.0)
unfolding discard_after
discard-Runs id msg q (s, some x) sound = ((q, s), refl, sound)
discard-Runs id msg q (s, none) sound =
    ((record q { in_flight = delete id q.in_flight }, s), refl, sound)

pub requeue-Runs :
    {S : Type 0} (id : Str) (msg : Message) (now : Time) (q : Queue) (o : S × Option Error)
    → IsSound q
    → Runs (requeue_after id msg now q o >>= λ r. some r.0)
unfolding requeue_after
requeue-Runs id msg now q (s, some x) sound = ((q, s), refl, sound)
requeue-Runs id msg now q (s, none) (routed, no_groups) =
    let d =
      try_deliver-Safe now
        (record q {
          in_flight = delete id q.in_flight;
          messages = q.messages ++ (record msg { visible_at = now } ∷ []);
        })
        routed in
    ((d.result, s), rw (d.came_through), (d.routed, d.same_groups ∙ no_groups))

pub act-Runs :
    {S : Type 0} (drops requeues : Hook S) (id : Str) (msg : Message) (now : Time) (q : Queue)
    (s : S) (f : Fate)
    → IsSound q
    → Runs (act drops requeues id msg now (q, s) f >>= λ r. some r.0)
unfolding act
act-Runs drops requeues id msg now q s to_dlq sound =
    ((record q { in_flight = delete id q.in_flight }, s), refl, sound)
act-Runs drops requeues id msg now q s to_drop sound = discard-Runs id msg q (drops msg s) sound
act-Runs drops requeues id msg now q s to_requeue sound =
    requeue-Runs id msg now q (requeues (record msg { visible_at = now }) s) sound

pub nack-Runs :
    {S : Type 0} (drops requeues : Hook S) (id : Str) (again : Bool) (now : Time) (q : Queue)
    (s : S)
    → IsSound q
    → Runs (nack_with_hooks drops requeues id again now (q, s) >>= λ r. some r.0)
unfolding nack_with_hooks
nack-Runs drops requeues id again now q s sound = elim (Option-cases (lookup id q.in_flight)) [
  | inl p ↦ ((q, s), rw (p, nack_with_hooks), sound)
  | inr (msg, p) ↦ rw (p, nack_with_hooks) (act-Runs drops requeues id msg now q s _ sound)
]

pub requeue_expired_loop-IsSound :
    (order : List Str) (now : Time) (q : Queue)
    → IsSound q
    → IsSound (requeue_expired_loop order now q)
unfolding requeue_expired_loop requeue_entry
requeue_expired_loop-IsSound [] now q sound = sound
requeue_expired_loop-IsSound (id ∷ ids) now q sound = elim (Option-cases (lookup id q.in_flight)) [
  | inl p ↦ rw (p, requeue_expired_loop) (requeue_expired_loop-IsSound ids now q sound)
  | inr (msg, p) ↦ elim (Bool-cases (is_before msg.visible_at now)) [
    | inl b ↦
        rw (p, requeue_expired_loop)
          (rw b (requeue_expired_loop-IsSound ids now (requeue_entry now id msg q) sound))
    | inr b ↦ rw (p, requeue_expired_loop) (rw b (requeue_expired_loop-IsSound ids now q sound))
  ]
]

pub requeue_expired-Runs :
    {S : Type 0} (order : List Str) (now : Time) (q : Queue) (s : S)
    → IsSound q
    → Runs (requeue_expired order (λ _. []) now q >>= λ r. some (r, s))
unfolding requeue_expired requeue_expired_groups
requeue_expired-Runs order now q s sound =
    let (routed, no_groups) = requeue_expired_loop-IsSound order now q sound in
    let d = try_deliver-Safe now (requeue_expired_loop order now q) routed in
    let empty : d.result.groups ≡ [] = d.same_groups ∙ no_groups in
    (
      (record (d.result) { groups = [] }, s),
      rw (d.came_through) (rw (empty, requeue_expired_groups)),
      (d.routed, refl),
    )

pub remove-IsSound : (id : Str) (q : Queue) → IsSound q → IsSound (remove id q).0
unfolding remove
remove-IsSound id q sound = elim (Bool-cases (has_id id q.messages)) [
  | inl b ↦ rw (b, remove) sound
  | inr b ↦ elim (Option-cases (lookup id q.in_flight)) [
    | inl p ↦ rw (b, remove) (rw p sound)
    | inr (m, p) ↦ rw (b, remove) (rw p sound)
  ]
]
