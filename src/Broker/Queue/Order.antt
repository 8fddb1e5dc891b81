-- ===== src/Broker/Queue/Order.antt =====
-- Delivery is strict FIFO: what goes out is a front of the queue, and what stays keeps its order.
use qwer_q.Common.{
  ◌≡◌, refl, arith, true, false, none, some, List, [], ◌∷◌, ◌++◌, All, inl, inr, ap, sym, ◌∙◌,
  Bool-cases, ◌||◌, Bool, ◌+◌, map,
}
use qwer_q.Common.Strings.{Str}
use qwer_q.Common.Dict.{Dict, contains, lookup-insert, insert, lookup-insert_self}
use qwer_q.Types.{Message, Time}
use qwer_q.Broker.Base.{is_after}
use qwer_q.Broker.Group.{is_empty}
use qwer_q.Broker.Queue.{Queue, clone_message, launch, try_deliver}
use qwer_q.Broker.Queue.Delivery.{
  count, in_channels, deliver-Kept, ships, Run, empty, early, blocked, next, deliver_loop-Run,
}

-- What was sent out was visible, and is in flight now.
abbrev pub SentOut : Time → Queue → List Message → Type 0
SentOut now r = All (λ m. (is_after m.visible_at now ≡ false) × (contains m.id r.in_flight ≡ true))

-- The messages that went out are a front of the queue's, and the rest is what is pending now. The
-- consumers' channels hold what they held before and one copy of each, and nothing else: as many
-- messages pass any test.
pub record Front (now : Time) (q r : Queue) : Type 0 where
  pub out : List Message
  pub split : q.messages ≡ out ++ r.messages
  pub sent_out : SentOut now r out
  pub delivered :
      (p : Message → Bool)
      → in_channels p r.consumers ≡ count p (map clone_message out) + in_channels p q.consumers

contains-insert :
    (id k : Str) (v : Message) (m : Dict Message)
    → contains id m ≡ true
    → contains id (insert k v m) ≡ true
contains-insert id k v m h = rw (lookup-insert id k v m) (ground arith)

-- What is in flight stays so while the loop runs.
Run-flying :
    {now : Time} {r q : Queue}
    → Run now r q
    → (id : Str) → contains id q.in_flight ≡ true
    → contains id r.in_flight ≡ true
unfolding launch
Run-flying (empty m e) id h = rw e h
Run-flying (early msg rest m late e) id h = rw e h
Run-flying {now} {r} {q} (blocked msg rest m seen sent) id h =
    rw ((deliver-Kept now msg q r none sent).in_flight_kept) h
Run-flying {now} {r} {q} (next (ships msg msg' rest q' m seen sent same) run) id h =
    Run-flying run id (
      rw (same, (deliver-Kept now msg q q' (some msg') sent).in_flight_kept)
        (contains-insert id msg.id _ q.in_flight h))

unchanged :
    (q r : Queue) (p : Message → Bool)
    → q ≡ r
    → in_channels p r.consumers ≡ 0 + in_channels p q.consumers
unchanged q r p e = ap (λ t. in_channels p t.consumers) (sym e) ∙ omega arith

Run-Front : {now : Time} {r q : Queue} → Run now r q → Front now q r
unfolding launch
Run-Front {now} {r} {q} (empty m e) = record {
  out = [];
  split = ap (λ q. q.messages) (sym e);
  sent_out = tt;
  delivered = λ p. unchanged q r p (sym e);
}
Run-Front {now} {r} {q} (early msg rest m late e) = record {
  out = [];
  split = ap (λ q. q.messages) (sym e);
  sent_out = tt;
  delivered = λ p. unchanged q r p (sym e);
}
Run-Front {now} {r} {q} (blocked msg rest m seen sent) = record {
  out = [];
  split = sym (deliver-Kept now msg q r none sent).messages_kept;
  sent_out = tt;
  delivered = (deliver-Kept now msg q r none sent).channels;
}
Run-Front {now} {r} {q} (next (ships msg msg' rest q' m seen sent same) run) =
    let later = Run-Front run in
    record {
      out = msg ∷ later.out;
      split = m ∙ ap (◌∷◌ msg) (ap (λ t. t.messages) (sym same) ∙ later.split);
      sent_out = (
        (seen, Run-flying run msg.id (rw (same, lookup-insert_self msg.id _ q'.in_flight))),
        later.sent_out,
      );
      delivered = λ p. omega (
        arith,
        later.delivered p,
        ap (λ t. in_channels p t.consumers) same,
        (deliver-Kept now msg q q' (some msg') sent).channels p,
      );
    }

-- `tryDeliver`, when it returns, has taken off a front of the queue, each message visible at the
-- time and in flight afterwards, and leaves the rest pending in its order. The consumers' channels
-- hold what they held before, and one copy, its attempt counted, of each message taken off, and
-- nothing else.
pub try_deliver-Front : (now : Time) (q r : Queue) → try_deliver now q ≡ some r → Front now q r
unfolding try_deliver
try_deliver-Front now q r e = elim (Bool-cases (is_empty q.consumers || is_empty q.messages)) [
  | inl idle ↦
      let same : q ≡ r = cc (rw (idle, try_deliver) at e) in
      record {
        out = [];
        split = ap (λ t. t.messages) same;
        sent_out = tt;
        delivered = λ p. unchanged q r p same;
      }
  | inr busy ↦ Run-Front (deliver_loop-Run q.messages now q r refl (rw (busy, try_deliver) at e))
]
