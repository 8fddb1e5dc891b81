-- ===== src/Broker/Examples.antt =====
-- Idempotency keys, groups and streams on which the theorems are applied.
use qwer_q.Common.{
  ℕ, ◌+◌, ◌≤◌, ◌≡◌, ◌↔◌, refl, arith, false, none, some, List, [], ◌∷◌, ◌++◌, length, ◌⊎◌,
  get_elem?,
}
use qwer_q.Common.Strings.{Str, bytes}
use qwer_q.Common.Dict.{lookup}
use qwer_q.Common.Int.{pos, ◌+ℤ◌}
use qwer_q.Types.{Message}
use qwer_q.Broker.Base.{duplicate_message}
use qwer_q.Broker.Dedup.{IdempotencyTracker, check}
use qwer_q.Broker.Dedup.Once.{checks, ticks, run, IsFree, check_once, check_iff}
use qwer_q.Broker.Group.{ConsumerGroup, Member, try_deliver, no_message}
use qwer_q.Broker.Group.Crash.{try_deliver-panics}
use qwer_q.Broker.Group.Settle.{Passed, try_deliver-Passed}
use qwer_q.Broker.Stream.{StreamConsumer, StreamQueue, StreamStorage, ok}
use qwer_q.Broker.Stream.Retention.{run_retention}
use qwer_q.Broker.Stream.Retention.Spin.{run_retention-spins}
use qwer_q.Broker.Stream.Sequence.{publish_all, from, publish_all-consecutive}
use qwer_q.Broker.Stream.Stall.{sequences, publish_all-stalled, publish_all-caught_up}

abbrev tracker : IdempotencyTracker
tracker = record { keys = []; ttl = pos 100; stopped = false }

check_once_example :
    (check (pos 90) (bytes "k") (
      run
        (check (pos 5) (bytes "k") tracker).0
        ((pos 50, ticks) ∷ (pos 60, checks (bytes "j")) ∷ []))).1
    ≡ some (duplicate_message (bytes "k"))
check_once_example =
    check_once tracker (pos 5) (bytes "k") ((pos 50, ticks) ∷ (pos 60, checks (bytes "j")) ∷ [])
      (pos 90) (λ e. cc) (unfold check lookup in refl)
      (unfold ◌+ℤ◌ in (omega arith, (omega arith, tt))) (unfold ◌+ℤ◌ in omega arith)

check_iff_example :
    (((check (pos 5) (bytes "k") tracker).1 ≡ none) ↔ IsFree (pos 5) (bytes "k") tracker)
    × (((check (pos 5) (bytes "k") tracker).1 ≡ none)
        ⊎ (check (pos 5) (bytes "k") tracker ≡ (tracker, some (duplicate_message (bytes "k")))))
check_iff_example = check_iff (pos 5) (bytes "k") tracker

abbrev idle : Str → Member
idle id = record { id = id; buf = []; vis_timeout = pos 30; last_heartbeat = pos 0 }

abbrev group_of : List Member → List ℕ → ConsumerGroup
group_of members messages = record {
  name = bytes "g";
  queue_name = bytes "jobs";
  members = members;
  next_idx = 0;
  messages = messages;
  in_flight = [];
  heartbeat_timeout = pos 10;
  store = λ p. record no_message { id = p ∷ []; visible_at = pos 1 };
  next_ptr = 5;
}

abbrev three : List Member
three = idle (bytes "x") ∷ idle (bytes "y") ∷ idle (bytes "z") ∷ []

try_deliver-panics_example : try_deliver (pos 10) (group_of three (4 ∷ [])) ≡ none
try_deliver-panics_example =
    try_deliver-panics (pos 10) 4 (group_of three (4 ∷ [])) (omega arith) (refl, (refl, (refl, tt)))
      refl refl

abbrev pair : ConsumerGroup
pair = group_of (idle (bytes "x") ∷ idle (bytes "y") ∷ []) (3 ∷ 4 ∷ [])

try_deliver-Passed_example : Passed pair (try_deliver (pos 10) pair)
try_deliver-Passed_example = try_deliver-Passed (pos 10) pair (omega arith)

-- A storage of nothing but the two ends of the stream.
abbrev ends : StreamStorage (ℕ × ℕ)
ends = record {
  save_stream_message = λ name seq m s. (s, none);
  load_stream_messages = λ name from limit s. ok [];
  save_consumer_offset = λ name group offset s. (s, none);
  load_consumer_offset = λ name group s. ok 0;
  get_stream_sequence = λ name s. ok s.1;
  delete_stream_messages_before = λ name seq s. (s, none);
  get_stream_message_by_timestamp = λ name at s. ok 0;
  get_stream_stats = λ name s. ok s;
}

abbrev stream_of : List StreamConsumer → StreamQueue (ℕ × ℕ)
stream_of consumers = record {
  name = bytes "log";
  next_seq = 7;
  consumers = consumers;
  storage = some ends;
  retention_max_age = pos 0;
  retention_max_bytes = pos 1000;
  next_ch = 1;
}

run_retention-spins_example : run_retention 1001 (pos 10) (stream_of []) (1, 6) ≡ none
run_retention-spins_example =
    run_retention-spins ends (1, 6) (stream_of []) (pos 10) 1 6 999 1000 refl refl refl refl
      (λ from limit above. refl) (omega arith) (omega arith) (omega arith) (omega arith)

abbrev consumer_at : ℕ → StreamConsumer
consumer_at offset = record { group = bytes "g"; ch = 0; buf = []; offset = offset }

abbrev two_messages : List Message
two_messages = no_message ∷ no_message ∷ []

publish_all-consecutive_example :
    let r = publish_all two_messages (stream_of [], (1, 6)) in
    (r.1 ≡ from 7 (length r.1)) × (r.0.0.next_seq ≡ 7 + length r.1) × (length r.1 ≤ 2)
publish_all-consecutive_example =
    publish_all-consecutive two_messages (stream_of [], (1, 6)) (omega arith)

publish_all-stalled_example :
    get_elem? (publish_all two_messages (stream_of (consumer_at 3 ∷ []), (1, 6))).0.0.consumers 0
    ≡ some (consumer_at 3)
publish_all-stalled_example =
    publish_all-stalled two_messages (stream_of (consumer_at 3 ∷ []), (1, 6)) 0 (consumer_at 3) refl
      (omega arith) (omega arith)

publish_all-caught_up_example :
    let r = publish_all two_messages (stream_of (consumer_at 7 ∷ []), (1, 6)) in
    (c' : StreamConsumer) × (get_elem? r.0.0.consumers 0 ≡ some c')
    × (sequences c'.buf ≡ [] ++ r.1)
    × (c'.offset ≡ r.0.0.next_seq)
publish_all-caught_up_example =
    publish_all-caught_up two_messages (stream_of (consumer_at 7 ∷ []), (1, 6)) 0 (consumer_at 7)
      refl refl (omega arith)
