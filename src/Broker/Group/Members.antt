-- ===== src/Broker/Group/Members.antt =====
-- internal/broker/group.go: who belongs to the group, and what becomes of a leaving member's messages.
use qwer_q.Common.{
  Bool, false, ◌&&◌, ◌||◌, Option, none, some, List, [], ◌∷◌, ◌++◌, ltb, leb, if◌then◌else◌, ◌>>=◌,
  length,
}
use qwer_q.Common.Strings.{Str, str_eq}
use qwer_q.Common.Dict.{lookup, delete}
use qwer_q.Common.Int.{lt_ℤ, ◌+ℤ◌}
use qwer_q.Types.{Time, Duration}
use qwer_q.Broker.Base.{is_before}
use qwer_q.Broker.Group.{Member, InFlightEntry, ConsumerGroup, write, is_empty, try_deliver}

-- `AddMember`
pub add_member : Str → Duration → Time → ConsumerGroup → Option ConsumerGroup
add_member member_id vis_timeout now g =
    let m : Member = record {
      id = member_id;
      buf = [];
      vis_timeout = vis_timeout;
      last_heartbeat = now;
    } in
    try_deliver now (record g { members = g.members ++ (m ∷ []) })

-- One entry back to pending, visible from `at` on.
requeue_entry : Time → Str → InFlightEntry → ConsumerGroup → ConsumerGroup
requeue_entry at id e g = record g {
  in_flight = delete id g.in_flight;
  store = write g.store e.msg (record (g.store e.msg) { visible_at = at });
  messages = g.messages ++ (e.msg ∷ []);
}

-- The loop of `requeueForMemberLocked`; `range` visits the keys in an order of its own.
pub requeue_for_member_locked : List Str → Str → Time → ConsumerGroup → ConsumerGroup
unfolding requeue_entry
requeue_for_member_locked [] member_id now g = g
requeue_for_member_locked (id ∷ ids) member_id now g =
    requeue_for_member_locked ids member_id now (elim (lookup id g.in_flight) [
      | none ↦ g
      | some e ↦ if str_eq e.member_id member_id then requeue_entry now id e g else g
    ])

-- `requeueForMember`
pub requeue_for_member : List Str → Str → Time → ConsumerGroup → Option ConsumerGroup
requeue_for_member order member_id now g =
    try_deliver now (requeue_for_member_locked order member_id now g)

-- The first member of the name goes.
without_member : Str → List Member → List Member
without_member member_id [] = []
without_member member_id (m ∷ ms) =
    if str_eq m.id member_id then ms else m ∷ without_member member_id ms

has_member : Str → List Member → Bool
has_member member_id [] = false
has_member member_id (m ∷ ms) = str_eq m.id member_id || has_member member_id ms

wrap_idx : ConsumerGroup → ConsumerGroup
wrap_idx g =
    if leb (length g.members) g.next_idx && ltb 0 (length g.members)
    then record g { next_idx = 0 }
    else g

-- `RemoveMember`, with whether the group is empty now.
pub remove_member : List Str → Str → Time → ConsumerGroup → Option (ConsumerGroup × Bool)
unfolding without_member has_member wrap_idx
remove_member order member_id now g =
    if has_member member_id g.members
    then (requeue_for_member order member_id now
          (wrap_idx (record g { members = without_member member_id g.members }))
        >>= λ g'. some (g', is_empty g'.members))
    else some (g, is_empty g.members)

touch_member : Str → Time → List Member → List Member
touch_member member_id now [] = []
touch_member member_id now (m ∷ ms) =
    if str_eq m.id member_id
    then record m { last_heartbeat = now } ∷ ms
    else m ∷ touch_member member_id now ms

-- `Heartbeat`
pub heartbeat : Str → Time → ConsumerGroup → ConsumerGroup × Bool
unfolding touch_member has_member
heartbeat member_id now g =
    (record g { members = touch_member member_id now g.members }, has_member member_id g.members)

-- `now.Sub(m.lastHeartbeat) > g.heartbeatTimeout`
pub is_dead : Duration → Time → Member → Bool
is_dead timeout now m = lt_ℤ (m.last_heartbeat +ℤ timeout) now

-- The loop of `ReapDeadMembers` over the members, with the group, the dead and the alive so far.
-- `orders` gives the order in which `range` visits the in-flight entries for each dead member.
reap_loop :
    (Str → List Str)
    → Time
    → List Member
    → ConsumerGroup × List Str × List Member
    → ConsumerGroup × List Str × List Member
unfolding is_dead
reap_loop orders now [] r = r
reap_loop orders now (m ∷ ms) (g, dead, alive) = reap_loop orders now ms (
    if is_dead g.heartbeat_timeout now m
    then (requeue_for_member_locked (orders m.id) m.id now g, dead ++ (m.id ∷ []), alive)
    else (g, dead, alive ++ (m ∷ [])))

-- `ReapDeadMembers`, with the names of those removed.
pub reap_dead_members : (Str → List Str) → Time → ConsumerGroup → Option (ConsumerGroup × List Str)
unfolding reap_loop wrap_idx
reap_dead_members orders now g =
    let (g', dead, alive) = reap_loop orders now g.members (g, [], []) in
    try_deliver now (wrap_idx (record g' { members = alive })) >>= λ g''. some (g'', dead)

-- The loop of `RequeueExpired`.
requeue_expired_loop : List Str → Time → ConsumerGroup → ConsumerGroup
unfolding requeue_entry
requeue_expired_loop [] now g = g
requeue_expired_loop (id ∷ ids) now g = requeue_expired_loop ids now (elim (lookup id g.in_flight) [
  | none ↦ g
  | some e ↦ if is_before (g.store e.msg).visible_at now then requeue_entry now id e g else g
])

-- `RequeueExpired`
pub requeue_expired : List Str → Time → ConsumerGroup → Option ConsumerGroup
unfolding requeue_expired_loop
requeue_expired order now g = try_deliver now (requeue_expired_loop order now g)
