-- ===== src/Broker/Queue/Groups.antt =====
-- internal/broker/queue.go: the consumer groups of a queue.
use qwer_q.Common.{Option, none, some, List, [], ◌∷◌, ◌++◌, ◌>>=◌}
use qwer_q.Common.Strings.{Str}
use qwer_q.Common.Dict.{Dict, lookup, insert, delete}
use qwer_q.Types.{Time}
use qwer_q.Broker.Group.{ConsumerGroup, new_consumer_group}
use qwer_q.Broker.Group.Members
use qwer_q.Broker.Queue.{Queue, try_deliver}
use qwer_q.Broker.Queue.Acks.{requeue_expired_loop}

-- `GetOrCreateGroup`
unfoldable pub get_or_create_group : Str → Queue → Queue × ConsumerGroup
get_or_create_group group_name q = elim (lookup group_name q.groups) [
  | some g ↦ (q, g)
  | none ↦
      let g = new_consumer_group group_name q.name in
      (record q { groups = insert group_name g q.groups }, g)
]

-- `GetGroup`
unfoldable pub get_group : Str → Queue → Option ConsumerGroup
get_group group_name q = lookup group_name q.groups

-- `RemoveGroup`
unfoldable pub remove_group : Str → Queue → Queue
remove_group group_name q = record q { groups = delete group_name q.groups }

-- `RequeueExpiredGroups`; `orders` gives for each group the order of its in-flight entries.
unfoldable pub requeue_expired_groups :
    (Str → List Str) → Time → Dict ConsumerGroup → Option (Dict ConsumerGroup)
requeue_expired_groups orders now [] = some []
requeue_expired_groups orders now ((name, g) ∷ gs) =
    Members.requeue_expired (orders name) now g >>= λ g'.
    requeue_expired_groups orders now gs >>= λ gs'. some ((name, g') ∷ gs')

-- `RequeueExpired`: the queue's own entries, a delivery, then the groups.
unfoldable pub requeue_expired : List Str → (Str → List Str) → Time → Queue → Option Queue
unfolding requeue_expired_groups
requeue_expired order orders now q = try_deliver now (requeue_expired_loop order now q) >>= λ q'.
    requeue_expired_groups orders now q'.groups >>= λ gs. some (record q' { groups = gs })

-- The loop of `ReapDeadGroupMembers`.
unfoldable pub reap_groups :
    (Str → Str → List Str) → Time → Dict ConsumerGroup → Option (Dict ConsumerGroup × List Str)
reap_groups orders now [] = some ([], [])
reap_groups orders now ((name, g) ∷ gs) = Members.reap_dead_members (orders name) now g >>= λ r.
    reap_groups orders now gs >>= λ rs. some ((name, r.0) ∷ rs.0, r.1 ++ rs.1)

-- `ReapDeadGroupMembers`, with the names of the dead.
unfoldable pub reap_dead_group_members :
    (Str → Str → List Str) → Time → Queue → Option (Queue × List Str)
unfolding reap_groups
reap_dead_group_members orders now q =
    reap_groups orders now q.groups >>= λ r. some (record q { groups = r.0 }, r.1)
