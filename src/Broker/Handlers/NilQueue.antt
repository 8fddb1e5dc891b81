-- ===== src/Broker/Handlers/NilQueue.antt =====
-- `GetOrCreateQueue` drops the error of the storage and gives nil, which its callers use.
use qwer_q.Common.{ℕ, ◌≡◌, Bool, none, some, [], ap, ◌∙◌}
use qwer_q.Common.Strings.{Str}
use qwer_q.Common.Dict.{lookup, lookup-insert, delete}
use qwer_q.Types.{Message, Time}
use qwer_q.Broker.Base.{Error, fate, to_dlq}
use qwer_q.Broker.Queue.{Queue, new_queue}
use qwer_q.Broker.Registry.{
  Broker, find_queue, put_queue, save_config, register, get_or_create_queue, dlq_name,
}
use qwer_q.Broker.Handlers.{
  handle_consume, handle_nack, nack_in, after_nack, move_to_dlq, delete_hook, save_hook,
}
use qwer_q.Broker.Handlers.Published.{created_queue}
use qwer_q.Broker.Handlers.DeadLetter.{nack-to_dlq, dlq_name-ne}

-- The queue of a name is not there, and the storage does not take its configuration.
pub record Unregistered (S : Type 0) (name : Str) (b : Broker S) (s : S) : Type 0 where
  pub absent : find_queue name b ≡ none
  pub after : S
  pub error : Error
  pub refused : save_config name (new_queue name) b.storage s ≡ (after, some error)

nil_queue :
    {S : Type 0} (name : Str) (b : Broker S) (s : S) (u : Unregistered S name b s)
    → get_or_create_queue name (b, s) ≡ ((b, u.after), none)
unfolding get_or_create_queue register
nil_queue name b s u =
    ap (λ r. (r.0, r.1))
      (created_queue name b s u.absent ∙ ap (register name (new_queue name) b) u.refused)

-- A consumer of a queue that is not there, in a group or not, crashes the broker when the storage
-- does not take the configuration of the new queue.
pub handle_consume-panics :
    {S : Type 0} (queue group : Str) (visibility_timeout : ℕ) (member_id : Str) (now : Time)
    (b : Broker S) (s : S)
    → Unregistered S queue b s
    → handle_consume queue group visibility_timeout member_id now (b, s) ≡ none
unfolding handle_consume
handle_consume-panics queue group visibility_timeout member_id now b s u =
    rw (nil_queue queue b s u, handle_consume)

-- The broker crashes when a message in flight outside the groups, whose fate is the dead letter
-- queue, is rejected, while that queue is not there and the storage does not take its
-- configuration.
pub handle_nack-panics :
    {S : Type 0} (id : Str) (again : Bool) (queue : Str) (now : Time) (b : Broker S) (s : S)
    (q : Queue) (msg : Message)
    → find_queue queue b ≡ some q
    → lookup id q.in_flight ≡ some msg
    → fate again q.failure_policy msg.attempt q.max_retries ≡ to_dlq
    → Unregistered S (dlq_name queue) b s
    → handle_nack id again queue [] now (b, s) ≡ none
unfolding handle_nack nack_in after_nack move_to_dlq
handle_nack-panics id again queue now b s q msg here flying sends u =
    let q' : Queue = record q { in_flight = delete id q.in_flight } in
    let still : Unregistered _ (dlq_name queue) (put_queue queue q' b) s = record {
      absent = rw (lookup-insert (dlq_name queue) queue q' b.queues, dlq_name-ne queue) u.absent;
      after = u.after;
      error = u.error;
      refused = u.refused;
    } in
    let rejected =
      nack-to_dlq (delete_hook b.storage queue id) (save_hook b.storage) id again now q s msg flying
        sends in
    rw (here, handle_nack)
      (rw (rejected, nack_in)
        (rw (nil_queue (dlq_name queue) (put_queue queue q' b) s still, move_to_dlq)))
