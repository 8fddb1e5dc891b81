-- ===== src/Broker/Queue/History.antt =====
-- Any history of calls on a queue without consumer groups runs to its end without a panic.
use qwer_q.Common.{
  ℕ, ◌+◌, ◌≡◌, refl, Bool, Option, some, List, [], ◌∷◌, ◌++◌, ◌>>=◌, inl, inr, ◌∙◌, Option-cases,
}
use qwer_q.Common.Strings.{Str}
use qwer_q.Common.Dict.{lookup, AllValues-imp}
use qwer_q.Common.Int.{ℤ}
use qwer_q.Types.{Message, Time, Duration}
use qwer_q.Broker.Base.{FailurePolicy, Hook}
use qwer_q.Broker.Queue.{Queue, enqueue, enqueue_direct, new_queue}
use qwer_q.Broker.Queue.Consumers.{
  dequeue, remove_consumer, receive, set_max_size, set_failure_policy, set_max_retries,
}
use qwer_q.Broker.Queue.Acks.{ack_with_hook, nack_with_hooks, extend_visibility, remove, purge}
use qwer_q.Broker.Queue.Groups.{requeue_expired}
use qwer_q.Broker.Queue.Invariant.{IsRouted}
use qwer_q.Broker.Queue.Total.{try_deliver-Safe}
use qwer_q.Broker.Queue.Live.{IsSound, append-IsLive, take_from-IsLive, remove_consumer-IsSound}
use qwer_q.Broker.Queue.Runs.{
  Runs, enqueue-Runs, enqueue_direct-Runs, ack-Runs, nack-Runs, requeue_expired-Runs,
  remove-IsSound,
}

-- A call on a queue; a hook works on the storage, `S`.
pub data Call (S : Type 0) : Type 0 where
  enqueues enqueues_direct : Message → Call S
  dequeues : Duration → Call S
  removes_consumer receives : ℕ → Call S
  acks : Hook S → Str → Call S
  nacks : Hook S → Hook S → Str → Bool → Call S
  requeues_expired : List Str → Call S
  extends : Str → Duration → Call S
  removes : Str → Call S
  purges : Call S
  sets_max_size : ℤ → Call S
  sets_failure_policy : FailurePolicy → Call S
  sets_max_retries : ℕ → Call S

-- One call at a time; `none` is a panic.
pub step : {S : Type 0} → Time × Call S → Queue × S → Option (Queue × S)
step (now, enqueues msg) (q, s) = enqueue msg now q >>= λ r. some (r.0, s)
step (now, enqueues_direct msg) (q, s) = enqueue_direct msg now q >>= λ r. some (r, s)
step (now, dequeues timeout) (q, s) = dequeue timeout now q >>= λ r. some (r.0, s)
step (now, removes_consumer ch) (q, s) = some (remove_consumer ch q, s)
step (now, receives ch) (q, s) = some ((receive ch q).0, s)
step (now, acks hook id) (q, s) = ack_with_hook hook id now (q, s) >>= λ r. some r.0
step (now, nacks drops requeues id again) (q, s) =
    nack_with_hooks drops requeues id again now (q, s) >>= λ r. some r.0
step (now, requeues_expired order) (q, s) =
    requeue_expired order (λ _. []) now q >>= λ r. some (r, s)
step (now, extends id extension) (q, s) = some ((extend_visibility id extension now q).0, s)
step (now, removes id) (q, s) = some ((remove id q).0, s)
step (now, purges) (q, s) = some ((purge q).0, s)
step (now, sets_max_size n) (q, s) = some (set_max_size n q, s)
step (now, sets_failure_policy p) (q, s) = some (set_failure_policy p q, s)
step (now, sets_max_retries n) (q, s) = some (set_max_retries n q, s)

pub run : {S : Type 0} → List (Time × Call S) → Queue × S → Option (Queue × S)
run [] t = some t
run (c ∷ cs) t = step c t >>= run cs

-- One call.
step-Runs : {S : Type 0} (c : Time × Call S) (t : Queue × S) → IsSound t.0 → Runs (step c t)
unfolding step dequeue receive extend_visibility remove purge set_max_size set_failure_policy
    set_max_retries
step-Runs (now, enqueues msg) (q, s) sound = enqueue-Runs msg now q s sound
step-Runs (now, enqueues_direct msg) (q, s) sound = enqueue_direct-Runs msg now q s sound
step-Runs (now, dequeues timeout) (q, s) (routed, no_groups) =
    let more =
      AllValues-imp _ _ q.key_assignments (λ ch l. append-IsLive ch q.consumers (_ ∷ []) l)
        routed in
    let d =
      try_deliver-Safe now
        (record q {
          consumers =
              q.consumers
              ++ (record { ch = q.next_ch; buf = []; visibility_timeout = timeout } ∷ []);
          next_ch = q.next_ch + 1;
        })
        more in
    ((d.result, s), rw (d.came_through), (d.routed, d.same_groups ∙ no_groups))
step-Runs (now, removes_consumer ch) (q, s) sound = (_, refl, remove_consumer-IsSound ch q sound)
step-Runs (now, receives ch) (q, s) (routed, no_groups) = (
  _,
  refl,
  (
    AllValues-imp _ _ q.key_assignments (λ c l. take_from-IsLive c ch q.consumers l) routed,
    no_groups,
  ),
)
step-Runs (now, acks hook id) (q, s) sound =
    unfold ack_with_hook in
    elim (Option-cases (lookup id q.in_flight)) [
      | inl p ↦ ((q, s), rw (p, ack_with_hook), sound)
      | inr (msg, p) ↦ rw (p, ack_with_hook) (ack-Runs id now q (hook msg s) sound)
    ]
step-Runs (now, nacks drops requeues id again) (q, s) sound =
    nack-Runs drops requeues id again now q s sound
step-Runs (now, requeues_expired order) (q, s) sound = requeue_expired-Runs order now q s sound
step-Runs (now, extends id extension) (q, s) sound = elim (Option-cases (lookup id q.in_flight)) [
  | inl p ↦ (_, refl, rw (p, extend_visibility) sound)
  | inr (msg, p) ↦ (_, refl, rw (p, extend_visibility) sound)
]
step-Runs (now, removes id) (q, s) sound = (_, refl, remove-IsSound id q sound)
step-Runs (now, purges) (q, s) sound = (_, refl, sound)
step-Runs (now, sets_max_size n) (q, s) sound = (_, refl, sound)
step-Runs (now, sets_failure_policy p) (q, s) sound = (_, refl, sound)
step-Runs (now, sets_max_retries n) (q, s) sound = (_, refl, sound)

run-Runs : {S : Type 0} (cs : List (Time × Call S)) (t : Queue × S) → IsSound t.0 → Runs (run cs t)
unfolding run
run-Runs [] t sound = (t, refl, sound)
run-Runs (c ∷ cs) t sound =
    let (t', e, sound') = step-Runs c t sound in
    let (r, f, done) = run-Runs cs t' sound' in (r, rw e f, done)

-- Every history of the calls listed in `Call`, none of which makes a group, runs to its end on a
-- new queue, with any hooks: no delivery panics, and each ordering key that is assigned stays with
-- a consumer that is there.
pub run-new_queue :
    {S : Type 0} (cs : List (Time × Call S)) (name : Str) (s : S)
    → (t : Queue × S) × (run cs (new_queue name, s) ≡ some t) × IsRouted t.0
unfolding new_queue
run-new_queue cs name s =
    let (t, e, sound) = run-Runs cs (new_queue name, s) (tt, refl) in (t, e, sound.0)
