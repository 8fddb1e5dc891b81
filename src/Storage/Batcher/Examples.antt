-- ===== src/Storage/Batcher/Examples.antt =====
-- The batcher on one request, with a database that is the list of its entries.
use qwer_q.Common.{true, none, List, [], ◌∷◌, ◌++◌, ◌≡◌, refl, arith}
use qwer_q.Common.Strings.{Str, bytes}
use qwer_q.Types.{Message}
use qwer_q.Storage.Badger.{blank}
use qwer_q.Storage.Batcher.{
  WriteBatch, WriteBatcher, new_write_batcher, request_of, drain, flush, flush_some, take_in,
  submit, close, stop, Reachable, start, after,
}
use qwer_q.Storage.Batcher.Answers.{answered, Reachable-answered}

abbrev entries : WriteBatch (List (Str × Str)) (List (Str × Str))
entries = record {
  new_write_batch = [];
  set = λ k v t. ((((k, v) ∷ t.0), t.1), none);
  flush = λ w d. (w ++ d, none);
  cancel = λ w d. d;
}

abbrev job : Message
job = blank (bytes "01") (bytes "jobs")

-- A request on channel 7 is taken in, and the batcher is closed.
abbrev taken : WriteBatcher (List (Str × Str))
taken = take_in (request_of job 7) (new_write_batcher [])

abbrev closing : WriteBatcher (List (Str × Str))
closing = record taken { done = true }

closing-Reachable : Reachable entries 2 closing
unfolding new_write_batcher
closing-Reachable =
    after taken closing
      (after (new_write_batcher []) taken (start [])
        (submit job 7 (new_write_batcher []) refl (omega arith)))
      (close taken refl)

stopped-Reachable : Reachable entries 2 (drain entries closing)
unfolding new_write_batcher
stopped-Reachable = after closing (drain entries closing) closing-Reachable (stop closing refl refl)

Reachable-answered_example : answered (drain entries closing) ≡ (drain entries closing).taken
unfolding new_write_batcher flush_some flush
Reachable-answered_example =
    Reachable-answered entries 2 (drain entries closing) (omega arith) stopped-Reachable refl
