-- ===== src/Broker/Handlers/Examples.antt =====
-- A broker with a full queue, and one whose dead letter queue takes a message.
use qwer_q.Common.{◌≡◌, refl, arith, false, none, some, List, [], ◌∷◌, if◌then◌else◌}
use qwer_q.Common.Strings.{Str, bytes, str_eq}
use qwer_q.Common.Dict.{Dict, lookup, insert}
use qwer_q.Common.Int.{ℤ, pos, ◌+ℤ◌}
use qwer_q.Types.{Message}
use qwer_q.Broker.Base.{storage_failed, queue_full, duplicate_message, dlq, fate}
use qwer_q.Broker.Dedup.{IdempotencyTracker, check}
use qwer_q.Broker.Dedup.Once.{ticks, run}
use qwer_q.Broker.Queue.{Queue, enqueue, enqueue_direct, try_deliver}
use qwer_q.Broker.Queue.Contents.{IsDistinct}
use qwer_q.Broker.Stream.{Fallible, ok, failed}
use qwer_q.Broker.Registry.{
  save_config, Storage, Broker, check_memory_pressure, get_or_create_queue_with_error,
}
use qwer_q.Broker.Handlers.{
  PublishRequest, message_of, handle_publish, handle_nack, save_in, delete_in,
}
use qwer_q.Broker.Handlers.Published.{Accepted, with_message, handle_publish-Published}
use qwer_q.Broker.Handlers.NilQueue.{Unregistered, handle_nack-panics}
use qwer_q.Broker.Handlers.Retry.{handle_publish-burns_key}
use qwer_q.Broker.Handlers.DeadLetter.{Moved, letter, handle_nack-Moved}

abbrev request : PublishRequest
request = record {
  queue = bytes "jobs";
  payload = bytes "work";
  headers = [];
  message_id = bytes "m";
  ordering_key = [];
  idempotency_key = bytes "k";
}

abbrev queue_with : Str → ℤ → List Message → Dict Message → Queue
queue_with name max_size messages in_flight = record {
  name = name;
  messages = messages;
  in_flight = in_flight;
  consumers = [];
  next_idx = 0;
  max_size = max_size;
  failure_policy = dlq;
  max_retries = 5;
  key_assignments = [];
  groups = [];
  next_ch = 0;
}

-- A storage that keeps the identifiers of what it holds, newest first.
abbrev without : Str → List Str → List Str
without id [] = []
without id (i ∷ is) = if str_eq i id then is else i ∷ without id is

abbrev ids : Storage (List Str)
ids = record {
  save_message = λ m s. (m.id ∷ s, none);
  delete_message = λ queue id s. (without id s, none);
  delete_queue_messages = λ queue s. ([], none);
  load_messages = λ queue s. ok [];
  save_queue = λ name config s. (s, none);
  load_queues = λ s. ok [];
}

abbrev tracker : IdempotencyTracker
tracker = record { keys = []; ttl = pos 100; stopped = false }

abbrev broker_with : Dict Queue → IdempotencyTracker → Broker (List Str)
broker_with queues t = record {
  queues = queues;
  storage = some ids;
  dedup = some t;
  memory_limit = 0;
  cached_alloc = 0;
}

abbrev old : Message
old = message_of (record request { message_id = bytes "o" }) [] (pos 1)

abbrev full : Queue
full = queue_with (bytes "jobs") (pos 1) (old ∷ []) []

abbrev busy : Broker (List Str)
busy = broker_with ((bytes "jobs", full) ∷ []) tracker

abbrev drained : Broker (List Str)
drained = broker_with [] (run (check (pos 5) (bytes "k") tracker).0 ((pos 20, ticks) ∷ []))

handle_publish-burns_key_example :
    (handle_publish request [] (pos 5) (busy, bytes "o" ∷ [])
      ≡ some (
        (record busy { dedup = some (check (pos 5) (bytes "k") tracker).0 }, bytes "o" ∷ []),
        failed queue_full,
      ))
    × ((r : (Broker (List Str) × List Str) × Fallible Str) × (handle_publish request []
            (pos 50)
            (drained, [])
          ≡ some r)
        × (r.1 ≡ failed (duplicate_message (bytes "k"))))
unfolding check_memory_pressure check lookup ◌+ℤ◌ str_eq save_in delete_in
handle_publish-burns_key_example =
    handle_publish-burns_key request [] [] (pos 5) (pos 50) busy drained (bytes "o" ∷ []) [] full
      tracker ((pos 20, ticks) ∷ []) refl refl refl refl (omega arith, tt) (λ e. cc) refl refl refl
      (refl, refl) (omega arith)

abbrev empty_queue : Queue
empty_queue = queue_with (bytes "jobs") (pos 10) [] []

abbrev ready : Broker (List Str)
ready = broker_with ((bytes "jobs", empty_queue) ∷ []) tracker

abbrev published : Broker (List Str)
published = record ready {
  queues = (bytes "jobs", with_message (message_of request [] (pos 5)) empty_queue) ∷ [];
  dedup = some (record tracker { keys = (bytes "k", pos 105) ∷ [] });
}

publishes :
    handle_publish request [] (pos 5) (ready, [])
    ≡ some ((published, bytes "m" ∷ []), ok (bytes "m"))
unfolding handle_publish check_memory_pressure check lookup get_or_create_queue_with_error str_eq
    save_in enqueue enqueue_direct try_deliver insert ◌+ℤ◌
publishes = refl

one-IsDistinct :
    (m : Message) (name : Str) (max_size : ℤ) → IsDistinct (queue_with name max_size (m ∷ []) [])
unfolding lookup
one-IsDistinct m name max_size id = ground arith

handle_publish-Published_example :
    Accepted (List Str) request [] (bytes "m") (pos 5) ready published
unfolding lookup str_eq
handle_publish-Published_example =
    handle_publish-Published request [] (bytes "m") (pos 5) ready published [] (bytes "m" ∷ [])
      (one-IsDistinct (message_of request [] (pos 5)) (bytes "jobs") (pos 10)) publishes

abbrev flying : Message
flying = record old { attempt = 1; visible_at = pos 40 }

abbrev working : Queue
working = queue_with (bytes "jobs") (pos 10) [] ((bytes "o", flying) ∷ [])

abbrev letters : Queue
letters = queue_with (bytes "jobs.dlq") (pos 10) [] []

abbrev two_queues : Broker (List Str)
two_queues = broker_with ((bytes "jobs", working) ∷ (bytes "jobs.dlq", letters) ∷ []) tracker

handle_nack-Moved_example :
    Moved
      (List Str)
      (bytes "jobs")
      (bytes "o")
      (letter (bytes "jobs") flying (pos 9))
      working
      letters
      (handle_nack (bytes "o") false (bytes "jobs") [] (pos 9) (two_queues, bytes "o" ∷ []))
unfolding lookup str_eq enqueue enqueue_direct try_deliver fate
handle_nack-Moved_example =
    handle_nack-Moved (bytes "o") false (bytes "jobs") (pos 9) two_queues (bytes "o" ∷ []) working
      letters flying (with_message (letter (bytes "jobs") flying (pos 9)) letters, none) refl refl
      refl refl (one-IsDistinct (letter (bytes "jobs") flying (pos 9)) (bytes "jobs.dlq") (pos 10))
      refl

-- A storage whose queues cannot be saved.
abbrev read_only : Storage (List Str)
read_only = record ids { save_queue = λ name config s. (s, some (storage_failed 1)) }

abbrev without_letters : Broker (List Str)
without_letters = record (broker_with ((bytes "jobs", working) ∷ []) tracker) {
  storage = some read_only;
}

unregistered : Unregistered (List Str) (bytes "mail") without_letters []
unfolding lookup str_eq save_config
unregistered = record { absent = refl; after = []; error = storage_failed 1; refused = refl }

Unregistered-letters : Unregistered (List Str) (bytes "jobs.dlq") without_letters []
unfolding lookup str_eq save_config
Unregistered-letters = record {
  absent = refl;
  after = [];
  error = storage_failed 1;
  refused = refl;
}

handle_nack-panics_example :
    handle_nack (bytes "o") false (bytes "jobs") [] (pos 9) (without_letters, []) ≡ none
unfolding lookup str_eq fate
handle_nack-panics_example =
    handle_nack-panics (bytes "o") false (bytes "jobs") (pos 9) without_letters [] working flying
      refl refl refl Unregistered-letters
