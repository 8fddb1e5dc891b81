-- ===== src/Broker/Stream/Retention/Spin.antt =====
-- `start = seq - uint64(batchSize) + 1` wraps below 0. For a stream whose newest sequence is small
-- the scan then walks down from the top of the uint64 range instead of stopping.
use qwer_q.Common.{
  ℕ, zero, suc, ◌+◌, ◌-◌, ◌*◌, ◌%◌, ◌^◌, ◌<◌, ◌≤◌, ◌≡◌, refl, arith, false, none, some, [], ◌==◌,
  ◌&&◌, ◌∙◌,
}
use mathlib.Core.Bool.{and-false}
use qwer_q.Common.Strings.{Str}
use qwer_q.Common.Int.{ℤ, pos}
use qwer_q.Types.{Time}
use qwer_q.Broker.Stream.{ok, StreamStorage, StreamQueue}
use qwer_q.Broker.Stream.Retention.{
  running, scan, batch_start, weigh, after_batch, run_retention, by_size, by_age, scan_from,
  act_on_scan, is_zero,
}

module _ {S : Type 0} (st : StreamStorage S) (name : Str) (s : S) (oldest newest : ℕ)
    (stored : (from limit : ℕ) → newest < from → st.load_stream_messages name from limit s ≡ ok [])
    (oldest_pos : 1 ≤ oldest) (in_order : oldest ≤ newest) where
  -- A round above the newest message finds nothing and steps down by a batch.
  empty_round :
      (fuel max_bytes seq total : ℕ)
      → newest < batch_start oldest seq
      → oldest ≤ seq
      → scan (suc fuel) st name s max_bytes oldest seq total
        ≡ scan fuel st name s max_bytes oldest
            ((batch_start oldest seq + 2 ^ 64 - 1) % 2 ^ 64)
            total
  unfolding scan weigh after_batch
  empty_round fuel max_bytes seq total above inside =
      ground (arith, stored (batch_start oldest seq) 100 above)

  -- From a sequence so high that `fuel` batches do not reach the newest message the scan only walks.
  walk :
      (fuel max_bytes seq total : ℕ)
      → newest + 100 * fuel + 100 ≤ seq
      → seq < 2 ^ 64
      → scan fuel st name s max_bytes oldest seq total ≡ running
  walk zero max_bytes seq total low high = unfold scan in refl
  walk (suc fuel) max_bytes seq total low high =
      let start : batch_start oldest seq ≡ seq - 99 = ground arith in
      let next : (seq - 99 + 2 ^ 64 - 1) % 2 ^ 64 ≡ seq - 100 = omega arith in
      empty_round fuel max_bytes seq total (omega (arith, start)) (omega arith)
      ∙ rw (start, next) (walk fuel max_bytes (seq - 100) total (omega arith) (omega arith))

  -- When the newest sequence is below 99 the first round wraps to the top of the range, and the
  -- scan has not ended after any number of rounds below 2^64 / 100 - 3.
  scan_spins :
      (fuel max_bytes : ℕ)
      → newest < 99
      → 100 * fuel + 300 ≤ 2 ^ 64
      → scan (suc fuel) st name s max_bytes oldest newest 0 ≡ running
  scan_spins fuel max_bytes small bound =
      let start : batch_start oldest newest ≡ newest + 2 ^ 64 - 99 = ground arith in
      let next : (newest + 2 ^ 64 - 99 + 2 ^ 64 - 1) % 2 ^ 64 ≡ newest + 2 ^ 64 - 100 =
        omega arith in
      empty_round fuel max_bytes newest 0 (omega (arith, start)) in_order
      ∙ rw (start, next) (walk fuel max_bytes (newest + 2 ^ 64 - 100) 0 (omega arith) (omega arith))

by_size_running :
    {S : Type 0} (st : StreamStorage S) (sq : StreamQueue S) (s : S)
    (fuel max_bytes oldest newest : ℕ)
    → sq.retention_max_bytes ≡ pos (suc max_bytes)
    → st.get_stream_stats sq.name s ≡ ok (oldest, newest)
    → 1 ≤ oldest
    → scan fuel st sq.name s (suc max_bytes) oldest newest 0 ≡ running
    → by_size fuel sq st (s, none) ≡ none
unfolding by_size scan_from act_on_scan
by_size_running st sq s fuel max_bytes oldest newest limit stats low spins =
    ground (arith, limit, stats, spins)

no_age_limit :
    {S : Type 0} (now : Time) (sq : StreamQueue S) (st : StreamStorage S) (s : S)
    → sq.retention_max_age ≡ pos 0
    → by_age now sq st s ≡ (s, none)
unfolding by_age
no_age_limit now sq st s no_age = ground (arith, no_age)

some_limit :
    (age bytes : ℤ) (max_bytes : ℕ)
    → bytes ≡ pos (suc max_bytes)
    → is_zero age && is_zero bytes ≡ false
unfolding is_zero
some_limit age bytes max_bytes limit =
    let positive : (suc max_bytes == 0) ≡ false = ground arith in
    rw (limit, is_zero) (rw positive (and-false (is_zero age)))

-- `RunRetention` with a size limit and no age limit hangs on a stream whose newest sequence is
-- below 99, if the storage finds nothing above the newest sequence and the oldest is at least 1:
-- given one round more than any number that times 100, plus 300, is within 2^64, it has not
-- returned.
pub run_retention-spins :
    {S : Type 0} (st : StreamStorage S) (s : S) (sq : StreamQueue S) (now : Time)
    (oldest newest max_bytes fuel : ℕ)
    → sq.storage ≡ some st
    → sq.retention_max_age ≡ pos 0
    → sq.retention_max_bytes ≡ pos (suc max_bytes)
    → st.get_stream_stats sq.name s ≡ ok (oldest, newest)
    → ((from limit : ℕ) → newest < from → st.load_stream_messages sq.name from limit s ≡ ok [])
    → 1 ≤ oldest
    → oldest ≤ newest
    → newest < 99
    → 100 * fuel + 300 ≤ 2 ^ 64
    → run_retention (suc fuel) now sq s ≡ none
unfolding run_retention
run_retention-spins st s sq now oldest newest max_bytes fuel has no_age limit stats stored low order
      small bound =
    let spins =
      scan_spins st sq.name s oldest newest stored low order fuel (suc max_bytes) small bound in
    let ends = by_size_running st sq s (suc fuel) max_bytes oldest newest limit stats low spins in
    let limited = some_limit sq.retention_max_age sq.retention_max_bytes max_bytes limit in
    rw (has, run_retention) (rw limited (rw (no_age_limit now sq st s no_age) ends))
