-- ===== src/Broker/Queue/Invariant.antt =====
-- Every key assignment names a consumer that is there, so no delivery sends on a closed channel.
use qwer_q.Common.{
  ℕ, zero, suc, ◌%◌, ◌<◌, ◌≡◌, refl, arith, true, Option, none, some, List, [], ◌∷◌, ◌++◌, is_some,
  inl, inr, Bool-cases, Option-cases, length, get_elem?, set, length-set, get_elem?-lt,
}
use qwer_q.Common.Strings.{Str}
use qwer_q.Common.Dict.{
  lookup, insert, AllValues, AllValues-lookup, AllValues-insert, AllValues-imp,
}
use qwer_q.Types.{Message, Time}
use qwer_q.Broker.Group.{has_room}
use qwer_q.Broker.Queue.{
  Queue, Consumer, index_of, send, send_to, deliver_ordered, clone_message, fnv32a,
}
use qwer_q.Common.Int.{◌+ℤ◌}

abbrev pub IsLive : List Consumer → ℕ → Type 0
IsLive cs ch = is_some (index_of ch cs) ≡ true

-- Each assigned channel belongs to a consumer of the queue.
abbrev pub IsRouted : Queue → Type 0
IsRouted q = AllValues (IsLive q.consumers) q.key_assignments

-- Writing a consumer's buffer moves no channel.
index_of-set :
    (ch i : ℕ) (cs : List Consumer) (c c' : Consumer)
    → get_elem? cs i ≡ some c
    → c'.ch ≡ c.ch
    → index_of ch (set cs i c') ≡ index_of ch cs
unfolding index_of
index_of-set ch i [] c c' e h = refl
index_of-set ch zero (x ∷ cs) c c' e h = ground arith
index_of-set ch (suc i) (x ∷ cs) c c' e h = rw (index_of-set ch i cs c c' e h)

index_of-lt : (ch i : ℕ) (cs : List Consumer) → index_of ch cs ≡ some i → i < length cs
unfolding index_of
index_of-lt ch i [] e = cc
index_of-lt ch i (c ∷ cs) e = elim (Option-cases (index_of ch cs)) [
  | inl p ↦ ground (arith, p)
  | inr (j, p) ↦ ground (arith, p, index_of-lt ch j cs p)
]

-- A consumer of the list is found by its channel.
get_elem?-IsLive :
    (i : ℕ) (cs : List Consumer) (c : Consumer) → get_elem? cs i ≡ some c → IsLive cs c.ch
unfolding index_of
get_elem?-IsLive i [] c e = cc
get_elem?-IsLive zero (x ∷ cs) c e = ground arith
get_elem?-IsLive (suc i) (x ∷ cs) c e = ground (arith, get_elem?-IsLive i cs c e)

-- A delivery attempt that came through, and what it keeps of the consumers.
pub record Attempt (q : Queue) (m : Option (Queue × Option Message)) : Type 0 where
  pub after : Queue
  pub result : Option Message
  pub came_through : m ≡ some (after, result)
  pub same_channels : (ch : ℕ) → index_of ch after.consumers ≡ index_of ch q.consumers
  pub same_count : length after.consumers ≡ length q.consumers
  pub routed : IsRouted after
  pub same_groups : after.groups ≡ q.groups

pub send-Attempt :
    (now : Time) (msg : Message) (idx : ℕ) (q : Queue)
    → idx < length q.consumers
    → IsRouted q
    → Attempt q (send now msg idx q)
unfolding send
send-Attempt now msg idx q h routed =
    let (c, e) = get_elem?-lt q.consumers idx h in
    let c' : Consumer = record c { buf = c.buf ++ (clone_message msg ∷ []) } in
    let still = λ (ch : ℕ). index_of-set ch idx q.consumers c c' e refl in
    elim (Bool-cases (has_room c.buf)) [
      | inl b ↦ record {
        after = record q { consumers = set q.consumers idx c' };
        result = some (record msg { visible_at = now +ℤ c.visibility_timeout });
        came_through = rw (e, send) (rw b);
        same_channels = still;
        same_count = length-set q.consumers idx c';
        routed = AllValues-imp _ _ q.key_assignments (λ ch l. rw (still ch) l) routed;
        same_groups = refl;
      }
      | inr b ↦ record {
        after = q;
        result = none;
        came_through = rw (e, send) (rw b);
        same_channels = λ ch. refl;
        same_count = refl;
        routed = routed;
        same_groups = refl;
      }
    ]

send_to-Attempt :
    (now : Time) (msg : Message) (ch : ℕ) (q : Queue)
    → IsLive q.consumers ch
    → IsRouted q
    → Attempt q (send_to now msg ch q)
unfolding send_to
send_to-Attempt now msg ch q live routed = elim (Option-cases (index_of ch q.consumers)) [
  | inl p ↦ absurd (cc (p, live))
  | inr (i, p) ↦ rw (p, send_to) (send-Attempt now msg i q (index_of-lt ch i q.consumers p) routed)
]

assign-IsRouted :
    (key : Str) (ch : ℕ) (q : Queue)
    → IsLive q.consumers ch
    → IsRouted q
    → IsRouted (record q { key_assignments = insert key ch q.key_assignments })
assign-IsRouted key ch q live routed =
    AllValues-insert (IsLive q.consumers) key ch q.key_assignments live routed

pub deliver_ordered-Attempt :
    (now : Time) (msg : Message) (q : Queue)
    → 0 < length q.consumers
    → IsRouted q
    → Attempt q (deliver_ordered now msg q)
unfolding deliver_ordered
deliver_ordered-Attempt now msg q some_consumer routed =
    elim (Option-cases (lookup msg.ordering_key q.key_assignments)) [
      | inr (ch, p) ↦
          rw (p, deliver_ordered)
            (send_to-Attempt now msg ch q
              (AllValues-lookup _ msg.ordering_key ch q.key_assignments routed p) routed)
      | inl p ↦
          let (c, e) =
            get_elem?-lt q.consumers (fnv32a msg.ordering_key % length q.consumers) (omega arith) in
          let live = get_elem?-IsLive _ q.consumers c e in
          let a =
            send_to-Attempt now msg c.ch
              (record q { key_assignments = insert msg.ordering_key c.ch q.key_assignments }) live
              (assign-IsRouted msg.ordering_key c.ch q live routed) in
          record {
            after = a.after;
            result = a.result;
            came_through = rw (p, deliver_ordered) (rw e a.came_through);
            same_channels = a.same_channels;
            same_count = a.same_count;
            routed = a.routed;
            same_groups = a.same_groups;
          }
    ]
