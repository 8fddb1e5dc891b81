-- ===== src/Broker/Queue/Contents.antt =====
-- Which messages a queue holds, by identifier: no delivery loses one or makes one up.
use qwer_q.Common.{
  ℕ, ◌+◌, ◌≤◌, ◌≡◌, refl, arith, none, some, List, [], ◌∷◌, if◌then◌else◌, is_some, inl, inr, ap,
  ◌∙◌, Bool-cases, ◌||◌,
}
use qwer_q.Common.Strings.{Str, str_eq, str_eq_iff, str_eq_self}
use qwer_q.Common.Dict.{Dict, lookup, insert, delete, lookup-insert, lookup-delete}
use qwer_q.Types.{Message, Time}
use qwer_q.Broker.Group.{is_empty}
use qwer_q.Broker.Queue.{Queue, launch, try_deliver}
use qwer_q.Broker.Queue.Delivery.{
  deliver-Kept, Ships, ships, Run, empty, early, blocked, next, deliver_loop-Run,
}

-- How often an identifier stands among the pending messages.
abbrev pub count_id : Str → List Message → ℕ
count_id id [] = 0
count_id id (m ∷ ms) = (if str_eq m.id id then 1 else 0) + count_id id ms

abbrev pub flying : Str → Dict Message → ℕ
flying id m = if is_some (lookup id m) then 1 else 0

-- How many messages of the identifier the queue holds, pending or in flight.
abbrev pub held : Str → Queue → ℕ
held id q = count_id id q.messages + flying id q.in_flight

-- No identifier is held twice: a message that goes out never replaces another in the map.
abbrev pub IsDistinct : Queue → Type 0
IsDistinct q = (id : Str) → held id q ≤ 1

pub flying-insert :
    (id k : Str) (v : Message) (m : Dict Message)
    → flying id (insert k v m) ≡ (if str_eq k id then 1 else flying id m)
flying-insert id k v m = rw (lookup-insert id k v m) (ground arith)

pub flying-delete :
    (id k : Str) (m : Dict Message)
    → flying id (delete k m) ≡ (if str_eq k id then 0 else flying id m)
flying-delete id k m = rw (lookup-delete id k m) (ground arith)

held-launch :
    (id : Str) (msg msg' : Message) (rest : List Message) (q : Queue)
    → held msg.id (record q { messages = msg ∷ rest }) ≤ 1
    → held id (launch msg msg' (record q { messages = rest }))
      ≡ held id (record q { messages = msg ∷ rest })
unfolding launch
held-launch id msg msg' rest q h =
    rw (flying-insert id msg.id _ q.in_flight)
      (ground (arith, str_eq_iff msg.id id, str_eq_self msg.id))

pub Ships-held :
    {now : Time} {q r : Queue} → Ships now q r → IsDistinct q → (id : Str) → held id r ≡ held id q
Ships-held {now} {q} (ships msg msg' rest q' m seen sent same) d id =
    let kept = deliver-Kept now msg q q' (some msg') sent in
    let here : (i : Str) → held i (record q' { messages = msg ∷ rest }) ≡ held i q =
      λ i. cc (kept.in_flight_kept, m) in
    rw same (held-launch id msg msg' rest q' (rw (here msg.id) (d msg.id)) ∙ here id)

Run-held :
    {now : Time} {r q : Queue} → Run now r q → IsDistinct q → (id : Str) → held id r ≡ held id q
Run-held (empty m e) d id = ap (held id) e
Run-held (early msg rest m late e) d id = ap (held id) e
Run-held {now} {r} {q} (blocked msg rest m seen sent) d id =
    let kept = deliver-Kept now msg q r none sent in cc (kept.messages_kept, kept.in_flight_kept)
Run-held (next s run) d id = Run-held run (λ i. rw (Ships-held s d i) (d i)) id ∙ Ships-held s d id

-- Where no identifier is held twice, `tryDeliver` leaves each identifier held, pending or in
-- flight, as often as before.
pub try_deliver-held :
    (now : Time) (q r : Queue)
    → IsDistinct q
    → try_deliver now q ≡ some r
    → (id : Str) → held id r ≡ held id q
unfolding try_deliver
try_deliver-held now q r d e id = elim (Bool-cases (is_empty q.consumers || is_empty q.messages)) [
  | inl idle ↦ cc (rw (idle, try_deliver) at e)
  | inr busy ↦
      Run-held (deliver_loop-Run q.messages now q r refl (rw (busy, try_deliver) at e)) d id
]
