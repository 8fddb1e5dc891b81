-- ===== src/Broker/Handlers/Published.antt =====
-- A publish that is answered with an identifier has put its message into the queue.
use qwer_q.Common.{
  ◌≡◌, ◌≢◌, Option, none, some, [], ◌∷◌, ◌++◌, ap, sym, ◌∙◌, >>=-eq_some, Bool-cases, Option-cases,
  inl, inr, refl, subst, if◌then◌else◌,
}
use mathlib.Core.List.Memᴰ
use mathlib.Core.List.Memᴰ.{head}
use mathlib.Core.Option.{some-injective}
use qwer_q.Broker.Group.{is_empty}
use qwer_q.Broker.Queue.Carries.{Stored, Carries, try_deliver-Carries}
use qwer_q.Common.Strings.{Str}
use qwer_q.Common.Dict.{lookup, lookup-insert_self}
use qwer_q.Types.{Message, Time}
use qwer_q.Broker.Base.{Error}
use qwer_q.Broker.Queue.{
  Queue, new_queue, is_full, enqueue, enqueue_direct, enqueue_groups, try_deliver,
}
use qwer_q.Broker.Queue.Contents.{held, IsDistinct, try_deliver-held}
use qwer_q.Broker.Stream.{ok}
use qwer_q.Broker.Registry.{
  Broker, check_memory_pressure, find_queue, put_queue, register, save_config,
  get_or_create_queue_with_error,
}
use qwer_q.Broker.Handlers.{
  PublishRequest, message_of, save_in, delete_in, check_key, roll_back, after_enqueue, after_save,
  publish_message, handle_publish,
}

-- The queue with the message at its end.
abbrev pub with_message : Message → Queue → Queue
with_message m q = record q { messages = q.messages ++ (m ∷ []) }

pub enqueue_direct-held :
    (m : Message) (now : Time) (q q' : Queue)
    → IsDistinct (with_message m q)
    → enqueue_direct m now q ≡ some q'
    → (j : Str) → held j q' ≡ held j (with_message m q)
unfolding enqueue_direct
enqueue_direct-held m now q q' d e j =
    let (t, sent, rest) = >>=-eq_some (try_deliver now (with_message m q)) _ e in
    let (gs, _, end) = >>=-eq_some (enqueue_groups m now t.groups) _ rest in
    let same : held j q' ≡ held j t = cc end in
    same ∙ try_deliver-held now (with_message m q) t d sent j

pub enqueue_direct-Carries :
    (m : Message) (now : Time) (q q' : Queue)
    → IsDistinct (with_message m q)
    → enqueue_direct m now q ≡ some q'
    → Carries m q'
unfolding enqueue_direct
enqueue_direct-Carries m now q q' d e =
    let (t, sent, rest) = >>=-eq_some (try_deliver now (with_message m q)) _ e in
    let (gs, _, end) = >>=-eq_some (enqueue_groups m now t.groups) _ rest in
    subst (Carries m) (some-injective _ _ end) (
      try_deliver-Carries now (with_message m q) t m d sent
        (m, refl, inl (Memᴰ.append_right q.messages (head refl))))

-- What a message that was taken in leads to.
pub record Published (S : Type 0) (id : Str) (m : Message) (q : Queue) (b : Broker S) : Type 0 where
  pub after : Queue
  pub kept : find_queue m.queue b ≡ some after
  pub same_id : id ≡ m.id
  pub held_after : (j : Str) → held j after ≡ held j (with_message m q)
  pub carries : Carries m after

roll_back-ne-ok :
    {S : Type 0} (x : Error) (b : Broker S) (o : S × Option Error) (t : Broker S × S) (id : Str)
    → roll_back x b o ≢ (t, ok id)
unfolding roll_back
roll_back-ne-ok x b (s, none) t id e = cc e
roll_back-ne-ok x b (s, some y) t id e = cc e

after_enqueue-Published :
    {S : Type 0} (m : Message) (now : Time) (q : Queue) (b b' : Broker S) (s s' : S) (id : Str)
    (r : Queue × Option Error)
    → IsDistinct (with_message m q)
    → enqueue m now q ≡ some r
    → after_enqueue m (b, s) r ≡ ((b', s'), ok id)
    → Published S id m q b'
unfolding after_enqueue enqueue
after_enqueue-Published m now q b b' s s' id (q', none) d taken e = elim (Bool-cases (is_full q)) [
  | inl full ↦ cc (rw (full, enqueue) at taken)
  | inr fits ↦
      let (q'', direct, end) =
        >>=-eq_some (enqueue_direct m now q) _ (rw (fits, enqueue) at taken) in
      let same : q'' ≡ q' = cc end in
      let moved : put_queue m.queue q' b ≡ b' = cc e in
      record {
        after = q';
        kept = rw (← moved) (lookup-insert_self m.queue q' b.queues);
        same_id = cc e;
        held_after = λ j. enqueue_direct-held m now q q' d (rw same at direct) j;
        carries = enqueue_direct-Carries m now q q' d (rw same at direct);
      }
]
after_enqueue-Published m now q b b' s s' id (q', some x) d taken e =
    absurd (roll_back-ne-ok x b (delete_in b.storage m.queue m.id s) (b', s') id e)

after_save-Published :
    {S : Type 0} (m : Message) (now : Time) (q : Queue) (b b' : Broker S) (s' : S) (id : Str)
    (o : S × Option Error)
    → IsDistinct (with_message m q)
    → after_save m now q b o ≡ some ((b', s'), ok id)
    → Published S id m q b'
unfolding after_save
after_save-Published m now q b b' s' id (s, some x) d e = cc
after_save-Published m now q b b' s' id (s, none) d e =
    let (r, taken, end) = >>=-eq_some (enqueue m now q) _ e in
    after_enqueue-Published m now q b b' s s' id r d taken (some-injective _ _ end)

-- The queue of a name, as it is or as it will be created.
abbrev pub queue_of : {S : Type 0} → Str → Broker S → Queue
queue_of name b = elim (find_queue name b) [ none ↦ new_queue name | some q ↦ q ]

pub found_queue :
    {S : Type 0} (name : Str) (b : Broker S) (s : S) (q : Queue)
    → find_queue name b ≡ some q
    → get_or_create_queue_with_error name (b, s) ≡ ((b, s), some q, none)
unfolding get_or_create_queue_with_error
found_queue name b s q found = rw (found, get_or_create_queue_with_error)

pub publish_found :
    {S : Type 0} (m : Message) (now : Time) (name : Str) (b : Broker S) (s : S) (q : Queue)
    → find_queue name b ≡ some q
    → publish_message m now (get_or_create_queue_with_error name (b, s))
      ≡ after_save m now q b (save_in b.storage m s)
unfolding publish_message
publish_found m now name b s q found = ap (publish_message m now) (found_queue name b s q found)

pub created_queue :
    {S : Type 0} (name : Str) (b : Broker S) (s : S)
    → find_queue name b ≡ none
    → get_or_create_queue_with_error name (b, s)
      ≡ register name (new_queue name) b (save_config name (new_queue name) b.storage s)
unfolding get_or_create_queue_with_error
created_queue name b s p = rw (p, get_or_create_queue_with_error)

register-Published :
    {S : Type 0} (m : Message) (now : Time) (q : Queue) (b b' : Broker S) (s' : S) (id : Str)
    (o : S × Option Error)
    → IsDistinct (with_message m q)
    → publish_message m now (register m.queue q b o) ≡ some ((b', s'), ok id)
    → Published S id m q b'
unfolding publish_message register
register-Published m now q b b' s' id (s, some x) d e = cc
register-Published m now q b b' s' id (s, none) d e =
    after_save-Published m now q (put_queue m.queue q b) b' s' id (save_in b.storage m s) d e

publish_message-Published :
    {S : Type 0} (m : Message) (now : Time) (b b' : Broker S) (s s' : S) (id : Str)
    → IsDistinct (with_message m (queue_of m.queue b))
    → publish_message m now (get_or_create_queue_with_error m.queue (b, s)) ≡ some ((b', s'), ok id)
    → Published S id m (queue_of m.queue b) b'
publish_message-Published m now b b' s s' id d e = elim (Option-cases (find_queue m.queue b)) [
  | inr (q, p) ↦
      let this : queue_of m.queue b ≡ q = rw (p, queue_of) in
      rw this (
        after_save-Published m now q b b' s' id (save_in b.storage m s) (rw this at d)
          (sym (publish_found m now m.queue b s q p) ∙ e))
  | inl p ↦
      let this : queue_of m.queue b ≡ new_queue m.queue = rw (p, queue_of) in
      rw this (
        register-Published m now (new_queue m.queue) b b' s' id _ (rw this at d)
          (ap (publish_message m now) (sym (created_queue m.queue b s p)) ∙ e))
]

check_key_queues :
    {S : Type 0} (now : Time) (key : Str) (b : Broker S) → (check_key now key b).0.queues ≡ b.queues
unfolding check_key
check_key_queues now key b = elim (Option-cases b.dedup) [
  | inl p ↦ rw (p, check_key)
  | inr (t, p) ↦ rw (p, check_key)
]

handle_publish-message :
    {S : Type 0} (req : PublishRequest) (fresh_id id : Str) (now : Time) (b b' : Broker S)
    (s s' : S)
    → IsDistinct (with_message (message_of req fresh_id now) (queue_of req.queue b))
    → handle_publish req fresh_id now (b, s) ≡ some ((b', s'), ok id)
    → Published S id (message_of req fresh_id now) (queue_of req.queue b) b'
unfolding handle_publish
handle_publish-message req fresh_id id now b b' s s' d e =
    elim (Option-cases (check_memory_pressure b)) [
      | inr (x, p) ↦ cc (rw (p, handle_publish) at e)
      | inl p ↦
          let r = check_key now req.idempotency_key b in
          let same : queue_of req.queue r.0 ≡ queue_of req.queue b =
            ap (λ qs. elim (lookup req.queue qs) [ none ↦ new_queue req.queue | some q ↦ q ])
              (check_key_queues now req.idempotency_key b) in
          elim (Option-cases r.1) [
            | inr (x, q) ↦ cc (rw q at (rw (p, handle_publish) at e))
            | inl q ↦
                let m = message_of req fresh_id now in
                rw (← same) (
                  publish_message-Published m now r.0 b' s s' id (rw (← same) at d)
                    (rw q at (rw (p, handle_publish) at e)))
          ]
    ]

-- What the request asks to be published.
abbrev pub Asked : PublishRequest → Message → Type 0
Asked req x =
    (x.queue ≡ req.queue)
    × (x.payload ≡ req.payload)
    × (x.headers ≡ req.headers)
    × (x.ordering_key ≡ req.ordering_key)

-- A publish that was answered with an identifier.
pub record Accepted (S : Type 0) (req : PublishRequest) (fresh_id id : Str) (now : Time)
    (b b' : Broker S) : Type 0 where
  pub identifier : id ≡ (if is_empty req.message_id then fresh_id else req.message_id)
  pub published : Published S id (message_of req fresh_id now) (queue_of req.queue b) b'
  pub content : (x : Message) × Stored id x published.after × Asked req x

-- A publish that is answered with an identifier, the request's or, if it has none, the fresh one,
-- has put a message with the queue, payload, headers and ordering key of the request, under that
-- identifier, into the queue, pending or in flight. The queue is created if need be, and holds
-- each identifier as often as before, and the new one once more, if no identifier is held twice
-- with the message added.
pub handle_publish-Published :
    {S : Type 0} (req : PublishRequest) (fresh_id id : Str) (now : Time) (b b' : Broker S)
    (s s' : S)
    → IsDistinct (with_message (message_of req fresh_id now) (queue_of req.queue b))
    → handle_publish req fresh_id now (b, s) ≡ some ((b', s'), ok id)
    → Accepted S req fresh_id id now b b'
handle_publish-Published req fresh_id id now b b' s s' d e =
    let p = handle_publish-message req fresh_id id now b b' s s' d e in
    let (x, same, stored) = p.carries in
    record {
      identifier = p.same_id;
      published = p;
      content = (
        x,
        subst (λ i. Stored i x p.after) (sym p.same_id) stored,
        (
          ap (λ y. y.queue) same,
          ap (λ y. y.payload) same,
          ap (λ y. y.headers) same,
          ap (λ y. y.ordering_key) same,
        ),
      );
    }
