-- ===== src/Broker/RetryDlq/Examples.antt =====
-- A dead letter goes back to an empty queue; the next one finds it full.
use qwer_q.Common.{ℕ, ◌≤◌, ◌≡◌, refl, arith, none, some, List, [], ◌∷◌, inl, inr}
use qwer_q.Common.Strings.{Str, bytes, str_eq, Str-cases}
use qwer_q.Common.Dict.{lookup}
use qwer_q.Common.Int.{pos}
use qwer_q.Types.{Message}
use qwer_q.Broker.Base.{dlq, queue_full}
use qwer_q.Broker.Queue.{Queue, enqueue, enqueue_direct, try_deliver}
use qwer_q.Broker.Handlers.{save_in, delete_in}
use qwer_q.Broker.Handlers.Published.{with_message}
use qwer_q.Broker.RetryDlq.{Retry, retry_loop, fresh_copy}
use qwer_q.Broker.RetryDlq.Conserves.{both, retry_loop-both}

abbrev dead : Str → Message
dead id = record {
  id = id;
  queue = bytes "jobs.dlq";
  payload = bytes "work";
  headers = [];
  attempt = 5;
  published_at = pos 1;
  visible_at = pos 2;
  ordering_key = [];
  sequence = 0;
}

abbrev letters : List Message
letters = dead (bytes "a") ∷ dead (bytes "b") ∷ []

abbrev jobs : Queue
jobs = record {
  name = bytes "jobs";
  messages = [];
  in_flight = [];
  consumers = [];
  next_idx = 0;
  max_size = pos 1;
  failure_policy = dlq;
  max_retries = 5;
  key_assignments = [];
  groups = [];
  next_ch = 0;
}

abbrev outcome : Retry ℕ
outcome = record {
  left = dead (bytes "b") ∷ [];
  queue = with_message (fresh_copy (bytes "jobs") (pos 9) (dead (bytes "a"))) jobs;
  stored = 0;
  retried = 1;
  error = some queue_full;
}

retries : retry_loop letters none (bytes "jobs") (pos 9) 0 0 jobs ≡ some outcome
unfolding retry_loop enqueue enqueue_direct try_deliver save_in delete_in
retries = refl

letters-once : (j : Str) → both j letters jobs ≤ 1
unfolding str_eq lookup
letters-once j = elim (Str-cases (bytes "a") j) [
  | inl (same, e) ↦ rw (← e) (omega arith)
  | inr (other, _) ↦ rw other (ground arith)
]

retry_loop-both_example :
    both (bytes "a") outcome.left outcome.queue ≡ both (bytes "a") letters jobs
retry_loop-both_example =
    retry_loop-both letters none (bytes "jobs") (pos 9) 0 0 jobs outcome letters-once retries
      (bytes "a")
