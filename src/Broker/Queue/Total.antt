-- ===== src/Broker/Queue/Total.antt =====
-- `tryDeliver` always comes to an end without a panic, while the assignments are in order.
use qwer_q.Common.{
  ℕ, zero, suc, ◌+◌, ◌%◌, ◌<◌, ◌≡◌, refl, arith, false, Option, none, some, List, [], ◌∷◌, inl, inr,
  ◌∙◌, Bool-cases, Option-cases, ◌||◌, length,
}
use qwer_q.Types.{Message, Time}
use qwer_q.Broker.Base.{is_after}
use qwer_q.Broker.Group.{is_empty}
use qwer_q.Broker.Queue.{
  Queue, Consumer, round_robin_loop, deliver_round_robin, deliver, launch, deliver_loop,
  try_deliver,
}
use qwer_q.Broker.Queue.Invariant.{IsRouted, Attempt, send-Attempt, deliver_ordered-Attempt}

round_robin_loop-Attempt :
    (now : Time) (msg : Message) (k j : ℕ) (q : Queue)
    → 0 < length q.consumers
    → IsRouted q
    → Attempt q (round_robin_loop now msg k j q)
unfolding round_robin_loop
round_robin_loop-Attempt now msg zero j q h routed = record {
  after = q;
  result = none;
  came_through = refl;
  same_channels = λ ch. refl;
  same_count = refl;
  routed = routed;
  same_groups = refl;
}
round_robin_loop-Attempt now msg (suc k) j q h routed =
    let first =
      send-Attempt now msg ((q.next_idx + j) % length q.consumers) q (omega arith) routed in
    elim (Option-cases first.result) [
      | inl p ↦
          let rest =
            round_robin_loop-Attempt now msg k (j + 1) first.after (omega (arith, first.same_count))
              first.routed in
          record {
            after = rest.after;
            result = rest.result;
            came_through = rw (first.came_through, round_robin_loop) (rw p rest.came_through);
            same_channels = λ ch. rest.same_channels ch ∙ first.same_channels ch;
            same_count = rest.same_count ∙ first.same_count;
            routed = rest.routed;
            same_groups = rest.same_groups ∙ first.same_groups;
          }
      | inr (msg', p) ↦ record {
        after = record (first.after) {
          next_idx = ((q.next_idx + j) % length q.consumers + 1) % length q.consumers;
        };
        result = some msg';
        came_through = rw (first.came_through, round_robin_loop) (rw p);
        same_channels = first.same_channels;
        same_count = first.same_count;
        routed = first.routed;
        same_groups = first.same_groups;
      }
    ]

deliver-Attempt :
    (now : Time) (msg : Message) (q : Queue)
    → 0 < length q.consumers
    → IsRouted q
    → Attempt q (deliver now msg q)
unfolding deliver deliver_round_robin
deliver-Attempt now msg q h routed = elim (Bool-cases (is_empty msg.ordering_key)) [
  | inl b ↦ rw (b, deliver) (round_robin_loop-Attempt now msg (length q.consumers) 0 q h routed)
  | inr b ↦ rw (b, deliver) (deliver_ordered-Attempt now msg q h routed)
]

-- The outcome of an operation that does not panic and keeps the assignments in order.
pub record Safe (q : Queue) (m : Option Queue) : Type 0 where
  pub result : Queue
  pub came_through : m ≡ some result
  pub routed : IsRouted result
  pub same_groups : result.groups ≡ q.groups

deliver_loop-Safe :
    (ms : List Message) (now : Time) (q : Queue)
    → 0 < length q.consumers
    → IsRouted q
    → Safe q (deliver_loop ms now q)
unfolding deliver_loop launch
deliver_loop-Safe [] now q h routed = record {
  result = q;
  came_through = refl;
  routed = routed;
  same_groups = refl;
}
deliver_loop-Safe (msg ∷ rest) now q h routed = elim (Bool-cases (is_after msg.visible_at now)) [
  | inl late ↦ record {
    result = q;
    came_through = rw (late, deliver_loop);
    routed = routed;
    same_groups = refl;
  }
  | inr seen ↦
      let one = deliver-Attempt now msg q h routed in
      elim (Option-cases one.result) [
        | inl p ↦ record {
          result = one.after;
          came_through = rw (seen, deliver_loop) (rw (one.came_through) (rw p));
          routed = one.routed;
          same_groups = one.same_groups;
        }
        | inr (msg', p) ↦
            let later =
              deliver_loop-Safe rest now (launch msg msg' (record (one.after) { messages = rest }))
                (omega (arith, one.same_count)) one.routed in
            record {
              result = later.result;
              came_through =
                  rw (seen, deliver_loop) (rw (one.came_through) (rw p later.came_through));
              routed = later.routed;
              same_groups = later.same_groups ∙ one.same_groups;
            }
      ]
]

nonempty : (cs : List Consumer) → is_empty cs ≡ false → 0 < length cs
nonempty [] e = cc
nonempty (c ∷ cs) e = omega arith

-- Where each assigned channel belongs to a consumer of the queue, `tryDeliver` returns and keeps
-- that so: it never sends on the channel of a consumer that is gone, and never indexes the
-- consumers out of range.
pub try_deliver-Safe : (now : Time) (q : Queue) → IsRouted q → Safe q (try_deliver now q)
unfolding try_deliver
try_deliver-Safe now q routed = elim (Bool-cases (is_empty q.consumers || is_empty q.messages)) [
  | inl idle ↦ record {
    result = q;
    came_through = rw (idle, try_deliver);
    routed = routed;
    same_groups = refl;
  }
  | inr busy ↦
      rw (busy, try_deliver)
        (deliver_loop-Safe q.messages now q (nonempty q.consumers (ground arith)) routed)
]
