-- ===== src/Broker/Call/Replies.antt =====
-- Replies reach the callers of internal/broker/call.go that wait for them, and `Close` crashes them.
use qwer_q.Common.{
  if◌then◌else◌, Bool, ℕ, ◌+◌, ◌<◌, true, false, Option, none, some, List, [], ◌∷◌, ◌>>=◌, ◌≡◌,
  refl, sym, ap, ◌∙◌, subst, ◌≢◌, inl, inr, ◌⊎◌, arith, Option-cases,
}
use qwer_q.Common.Strings.{Str, Str-cases}
use qwer_q.Common.Dict.{
  Dict, lookup, insert, delete, lookup-insert, lookup-delete, lookup-insert_self,
}
use qwer_q.Types.{Message}
use qwer_q.Broker.Call.{
  call_timeout, ReplyChannel, open_channel, CallManager, manager_of, set_channel, send_and_close,
  route, begin_call, end_call, end_in, route_in, deliver_reply, received, settled, await, response,
}

-- What happens to a manager until it is closed.
pub data Event : Type 0 where
  begins : Str → Event
  replies : Str → Message → Event
  ends : Str → Event

pub handle : Event → CallManager → Option CallManager
handle (begins id) cm = begin_call id cm >>= λ r. some r.0
handle (replies id msg) cm = route id msg cm
handle (ends id) cm = some (end_call id cm)

pub run : List Event → CallManager → Option CallManager
unfolding handle
run [] cm = some cm
run (e ∷ es) cm = handle e cm >>= run es

-- The callers that wait have open, empty channels of their own.
pub record IsWaiting (pending : Dict ℕ) (cm : CallManager) : Type 0 where
  pub here : cm.pending ≡ some pending
  pub fresh :
      (id : Str) (c : ℕ)
      → lookup id pending ≡ some c
      → (c < cm.next_ch) × (cm.channels c ≡ open_channel)
  pub apart : (i j : Str) (c : ℕ) → lookup i pending ≡ some c → lookup j pending ≡ some c → i ≡ j

manager_of-IsWaiting : (reply_q : Str) (consumer : ℕ) → IsWaiting [] (manager_of reply_q consumer)
unfolding lookup
manager_of-IsWaiting reply_q consumer = record {
  here = refl;
  fresh = λ id c e. absurd (cc e);
  apart = λ i j c e f. absurd (cc e);
}

pub set_channel_self :
    (c : ℕ) (v : ReplyChannel) (channels : ℕ → ReplyChannel) → set_channel c v channels c ≡ v
set_channel_self c v channels = ground arith

pub set_channel_ne :
    (c d : ℕ) (v : ReplyChannel) (channels : ℕ → ReplyChannel)
    → c ≢ d
    → set_channel c v channels d ≡ channels d
set_channel_ne c d v channels h = ground arith

-- An entry of the map with one more caller is the caller, or was there.
inserted :
    (i id : Str) (c n : ℕ) (pending : Dict ℕ)
    → lookup i (insert id n pending) ≡ some c
    → ((id ≡ i) × (n ≡ c)) ⊎ ((id ≢ i) × (lookup i pending ≡ some c))
inserted i id c n pending e = elim (Str-cases id i) [
  | inl (b, f) ↦ inl (f, let g = rw (lookup-insert i id n pending, b) at e in cc g)
  | inr (b, f) ↦ inr (f, rw (lookup-insert i id n pending, b) at e)
]

deleted :
    (i id : Str) (c : ℕ) (pending : Dict ℕ)
    → lookup i (delete id pending) ≡ some c
    → (id ≢ i) × (lookup i pending ≡ some c)
deleted i id c pending e = elim (Str-cases id i) [
  | inl (b, f) ↦ absurd (let g = rw (lookup-delete i id pending, b) at e in cc g)
  | inr (b, f) ↦ (f, rw (lookup-delete i id pending, b) at e)
]

-- The manager with one more caller.
abbrev begun : Str → Dict ℕ → CallManager → CallManager
begun id pending cm = record cm {
  pending = some (insert id cm.next_ch pending);
  channels = set_channel cm.next_ch open_channel cm.channels;
  next_ch = cm.next_ch + 1;
}

begin_call-begun :
    (id : Str) (pending : Dict ℕ) (cm : CallManager)
    → IsWaiting pending cm
    → begin_call id cm ≡ some (begun id pending cm, cm.next_ch)
unfolding begin_call
begin_call-begun id pending cm w =
    ap (λ p. p >>= λ pending. some (begun id pending cm, cm.next_ch)) w.here

begun-IsWaiting :
    (id : Str) (pending : Dict ℕ) (cm : CallManager)
    → IsWaiting pending cm
    → IsWaiting (insert id cm.next_ch pending) (begun id pending cm)
begun-IsWaiting id pending cm w = record {
  here = refl;
  fresh = λ i c e. elim (inserted i id c cm.next_ch pending e) [
    | inl (f, g) ↦ (
      omega (arith, g),
      ap (set_channel cm.next_ch open_channel cm.channels) (sym g)
          ∙ set_channel_self cm.next_ch open_channel cm.channels,
    )
    | inr (f, g) ↦
        let (l, o) = w.fresh i c g in
        (
          omega arith,
          set_channel_ne cm.next_ch c open_channel cm.channels (λ n. omega (arith, n)) ∙ o,
        )
  ];
  apart = λ i j c e f. elim (inserted i id c cm.next_ch pending e) [
    | inl (g, h) ↦ elim (inserted j id c cm.next_ch pending f) [
      | inl (k, l) ↦ sym g ∙ k
      | inr (k, l) ↦ absurd (let m = (w.fresh j c l).0 in omega (arith, h, m))
    ]
    | inr (g, h) ↦ elim (inserted j id c cm.next_ch pending f) [
      | inl (k, l) ↦ absurd (let m = (w.fresh i c h).0 in omega (arith, l, m))
      | inr (k, l) ↦ w.apart i j c h l
    ]
  ];
}

end_call-IsWaiting :
    (id : Str) (pending : Dict ℕ) (cm : CallManager)
    → IsWaiting pending cm
    → IsWaiting (delete id pending) (end_call id cm)
unfolding end_in
end_call-IsWaiting id pending cm w =
    subst (IsWaiting (delete id pending)) (sym (ap (end_in id cm) w.here)) (record {
      here = refl;
      fresh = λ i c e. w.fresh i c (deleted i id c pending e).1;
      apart = λ i j c e f. w.apart i j c (deleted i id c pending e).1 (deleted j id c pending f).1;
    })

abbrev full_channel : Message → ReplyChannel
full_channel msg = record { buf = some msg; closed = true }

-- The manager after a reply to the caller with the channel `c`.
abbrev replied : Str → Message → ℕ → Dict ℕ → CallManager → CallManager
replied id msg c pending cm = record cm {
  pending = some (delete id pending);
  channels = set_channel c (full_channel msg) cm.channels;
}

route-replied :
    (id : Str) (msg : Message) (c : ℕ) (pending : Dict ℕ) (cm : CallManager)
    → IsWaiting pending cm
    → lookup id pending ≡ some c
    → route id msg cm ≡ some (replied id msg c pending cm)
unfolding route_in deliver_reply send_and_close
route-replied id msg c pending cm w e =
    ap (route_in id msg cm) w.here
    ∙ ap (deliver_reply id msg cm pending) e
    ∙ ap
        (λ v. send_and_close msg v >>= λ v. some (record cm {
          pending = some (delete id pending);
          channels = set_channel c v cm.channels;
        }))
        (w.fresh id c e).1

replied-IsWaiting :
    (id : Str) (msg : Message) (c : ℕ) (pending : Dict ℕ) (cm : CallManager)
    → IsWaiting pending cm
    → lookup id pending ≡ some c
    → IsWaiting (delete id pending) (replied id msg c pending cm)
replied-IsWaiting id msg c pending cm w e = record {
  here = refl;
  fresh = λ i d f.
      let (n, g) = deleted i id d pending f in
      let (l, o) = w.fresh i d g in
      (
        l,
        set_channel_ne c d (full_channel msg) cm.channels
              (λ h. n (w.apart id i d (e ∙ ap some h) g))
            ∙ o,
      );
  apart = λ i j d f g. w.apart i j d (deleted i id d pending f).1 (deleted j id d pending g).1;
}

-- A reply for nobody changes nothing.
route-nobody :
    (id : Str) (msg : Message) (pending : Dict ℕ) (cm : CallManager)
    → IsWaiting pending cm
    → lookup id pending ≡ none
    → route id msg cm ≡ some cm
unfolding route_in deliver_reply
route-nobody id msg pending cm w e =
    ap (route_in id msg cm) w.here ∙ ap (deliver_reply id msg cm pending) e

-- The event is about another caller.
abbrev pub Other : Str → Event → Type 0
Other id (begins j) = j ≢ id
Other id (replies j msg) = j ≢ id
Other id (ends j) = j ≢ id

lookup-insert_other :
    (id j : Str) (n : ℕ) (pending : Dict ℕ)
    → j ≢ id
    → lookup id (insert j n pending) ≡ lookup id pending
lookup-insert_other id j n pending h = elim (Str-cases j id) [
  | inl (b, f) ↦ absurd (h f)
  | inr (b, f) ↦ rw (lookup-insert id j n pending, b) refl
]

lookup-delete_other :
    (id j : Str) (pending : Dict ℕ) → j ≢ id → lookup id (delete j pending) ≡ lookup id pending
lookup-delete_other id j pending h = elim (Str-cases j id) [
  | inl (b, f) ↦ absurd (h f)
  | inr (b, f) ↦ rw (lookup-delete id j pending, b) refl
]

-- The outcome of an event or a history: no panic, and those with `Other` wait on.
record Handled (others : Str → Type 0) (pending : Dict ℕ) (o : Option CallManager) : Type 0 where
  manager : CallManager
  waits : Dict ℕ
  handled : o ≡ some manager
  waiting : IsWaiting waits manager
  kept : (id : Str) → others id → lookup id waits ≡ lookup id pending

handle-Handled :
    (e : Event) (pending : Dict ℕ) (cm : CallManager)
    → IsWaiting pending cm
    → Handled (λ id. Other id e) pending (handle e cm)
unfolding handle
handle-Handled (begins j) pending cm w = record {
  manager = begun j pending cm;
  waits = insert j cm.next_ch pending;
  handled = ap (λ o. o >>= λ r. some r.0) (begin_call-begun j pending cm w);
  waiting = begun-IsWaiting j pending cm w;
  kept = λ id h. lookup-insert_other id j cm.next_ch pending h;
}
handle-Handled (replies j msg) pending cm w = elim (Option-cases (lookup j pending)) [
  | inl n ↦ record {
    manager = cm;
    waits = pending;
    handled = route-nobody j msg pending cm w n;
    waiting = w;
    kept = λ id h. refl;
  }
  | inr (c, e) ↦ record {
    manager = replied j msg c pending cm;
    waits = delete j pending;
    handled = route-replied j msg c pending cm w e;
    waiting = replied-IsWaiting j msg c pending cm w e;
    kept = λ id h. lookup-delete_other id j pending h;
  }
]
handle-Handled (ends j) pending cm w = record {
  manager = end_call j cm;
  waits = delete j pending;
  handled = refl;
  waiting = end_call-IsWaiting j pending cm w;
  kept = λ id h. lookup-delete_other id j pending h;
}

-- All events are about other callers.
abbrev pub AllOther : Str → List Event → Type 0
AllOther id [] = Unit
AllOther id (e ∷ es) = Other id e × AllOther id es

run-Handled :
    (es : List Event) (pending : Dict ℕ) (cm : CallManager)
    → IsWaiting pending cm
    → Handled (λ id. AllOther id es) pending (run es cm)
unfolding run
run-Handled [] pending cm w = record {
  manager = cm;
  waits = pending;
  handled = refl;
  waiting = w;
  kept = λ id h. refl;
}
run-Handled (e ∷ es) pending cm w =
    let a = handle-Handled e pending cm w in
    let b = run-Handled es a.waits a.manager a.waiting in
    record {
      manager = b.manager;
      waits = b.waits;
      handled = ap (λ o. o >>= run es) a.handled ∙ b.handled;
      waiting = b.waiting;
      kept = λ id h. b.kept id h.1 ∙ a.kept id h.0;
    }

received-full :
    (timer : Bool) (msg : Message) (c : ℕ) (cm : CallManager)
    → cm.channels c ≡ full_channel msg
    → await timer c cm
      ≡ some (some (if timer then call_timeout else response msg.payload msg.headers))
unfolding await received settled
received-full true msg c cm e = refl
received-full false msg c cm e = ap (λ ch. settled (received ch)) e

-- While the manager is not closed, a call that is begun and waits when the first reply with its
-- identifier arrives finds that reply in its channel, whatever calls before it, and calls with
-- other identifiers meanwhile, begin, end and are replied to: its wait returns the reply, or,
-- where it takes the case of the timer, the timeout, and nothing panics.
pub reply-arrives :
    (before between : List Event) (id reply_q : Str) (consumer : ℕ) (msg : Message)
    → AllOther id between
    → (cm : CallManager) × (called : CallManager) × (c : ℕ) × (waiting : CallManager)
      × (after : CallManager) × (run before (manager_of reply_q consumer) ≡ some cm)
      × (begin_call id cm ≡ some (called, c))
      × (run between called ≡ some waiting)
      × (route id msg waiting ≡ some after)
      × ((timer : Bool)
          → await timer c after
            ≡ some (some (if timer then call_timeout else response msg.payload msg.headers)))
reply-arrives before between id reply_q consumer msg o =
    let a =
      run-Handled before [] (manager_of reply_q consumer) (manager_of-IsWaiting reply_q consumer) in
    let cm = a.manager in
    let called = begun id a.waits cm in
    let b =
      run-Handled between (insert id cm.next_ch a.waits) called
        (begun-IsWaiting id a.waits cm a.waiting) in
    let e = b.kept id o ∙ lookup-insert_self id cm.next_ch a.waits in
    let after = replied id msg cm.next_ch b.waits b.manager in
    (
      cm,
      called,
      cm.next_ch,
      b.manager,
      after,
      a.handled,
      begin_call-begun id a.waits cm a.waiting,
      b.handled,
      route-replied id msg cm.next_ch b.waits b.manager b.waiting e,
      λ timer.
          received-full timer msg cm.next_ch after
            (set_channel_self cm.next_ch (full_channel msg) b.manager.channels),
    )
