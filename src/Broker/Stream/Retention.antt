-- ===== src/Broker/Stream/Retention.antt =====
-- internal/broker/stream.go: `RunRetention`.
pub mod Spin
use qwer_q.Common.{
  ℕ, zero, suc, ◌+◌, ◌-◌, ◌*◌, ◌/◌, ◌%◌, ◌^◌, ◌<◌, ◌≤◌, ◌≡◌, refl, arith, Bool, true, false, Option,
  none, some, List, [], ◌∷◌, ltb, leb, ◌==◌, ◌||◌, ◌&&◌, if◌then◌else◌, length,
}
use mathlib.Core.List.{reverse}
use qwer_q.Common.Strings.{Str}
use qwer_q.Common.Int.{ℤ, pos, negsuc, ◌+ℤ◌, pos_part, neg_part, lt_ℤ}
use qwer_q.Types.{Message, Time}
use qwer_q.Broker.Base.{Error}
use qwer_q.Broker.Stream.{Fallible, ok, failed, StreamStorage, StreamQueue}

abbrev pub batch_size : ℕ
batch_size = 100

-- How the scan from the newest message ends: everything can stay, everything below a sequence goes,
-- or the storage fails. `running` is no end: the rounds given are used up.
pub data Scan : Type 0 where
  keep_all running : Scan
  delete_up_to : ℕ → Scan
  scan_failed : Error → Scan

-- A batch from its newest message on: the total size, or the sequence behind the first message that
-- no longer fits.
weigh : ℕ → ℕ → List Message → ℕ × Option ℕ
weigh max_bytes total [] = (total, none)
weigh max_bytes total (m ∷ ms) =
    let total' = total + length m.payload in
    let rest = weigh max_bytes total' ms in
    if ltb max_bytes total' then (total', some ((m.sequence + 1) % 2 ^ 64)) else rest

-- The first sequence of the batch that ends at `seq`, in uint64 arithmetic, raised to `oldest`.
abbrev pub batch_start : ℕ → ℕ → ℕ
batch_start oldest seq =
    let start = (seq + 2 ^ 64 - batch_size + 1) % 2 ^ 64 in
    if ltb start oldest then oldest else start

-- One round's batch, and what the loop does then.
after_batch : ℕ → ℕ → Scan → ℕ × Option ℕ → Scan
after_batch oldest start next (total, some up_to) = delete_up_to up_to
after_batch oldest start next (total, none) = if leb start oldest then keep_all else next

-- `for seq := newest; seq >= oldest; { … }`, at most `fuel` rounds.
pub scan : {S : Type 0} → ℕ → StreamStorage S → Str → S → ℕ → ℕ → ℕ → ℕ → Scan
unfolding weigh after_batch
scan zero st name s max_bytes oldest seq total = running
scan (suc fuel) st name s max_bytes oldest seq total =
    let start = batch_start oldest seq in
    elim (ltb seq oldest) [
      | true ↦ keep_all
      | false ↦ elim (st.load_stream_messages name start batch_size s) [
        | failed e ↦ scan_failed e
        | ok msgs ↦
            let w = weigh max_bytes total (reverse msgs) in
            after_batch oldest start
              (scan fuel st name s max_bytes oldest ((start + 2 ^ 64 - 1) % 2 ^ 64) w.0) w
      ]
    ]

-- `UnixMilli`
abbrev pub unix_milli : Time → ℤ
unix_milli (pos n) = pos (n / 1000000)
unix_milli (negsuc n) = negsuc (n / 1000000)

minus : ℤ → ℤ
minus (pos zero) = pos 0
minus (pos (suc n)) = negsuc n
minus (negsuc n) = pos (suc n)

-- Deletes what lies before the first message that has not expired.
delete_expired : {S : Type 0} → StreamStorage S → Str → S → Fallible ℕ → S × Option Error
delete_expired st name s (failed e) = (s, some e)
delete_expired st name s (ok seq) =
    if ltb 0 seq then st.delete_stream_messages_before name seq s else (s, none)

-- The part for `maxAge`.
by_age : {S : Type 0} → Time → StreamQueue S → StreamStorage S → S → S × Option Error
unfolding delete_expired minus
by_age now sq st s =
    if lt_ℤ (pos 0) sq.retention_max_age
    then delete_expired st sq.name s (
        st.get_stream_message_by_timestamp sq.name (unix_milli (now +ℤ minus sq.retention_max_age))
          s)
    else (s, none)

-- What the scan's end leads to.
act_on_scan : {S : Type 0} → StreamStorage S → Str → S → Scan → Option (S × Option Error)
act_on_scan st name s keep_all = some (s, none)
act_on_scan st name s running = none
act_on_scan st name s (scan_failed e) = some (s, some e)
act_on_scan st name s (delete_up_to n) =
    if ltb 0 n then some (st.delete_stream_messages_before name n s) else some (s, none)

scan_from :
    {S : Type 0} → ℕ → StreamStorage S → Str → S → ℕ → Fallible (ℕ × ℕ) → Option (S × Option Error)
unfolding scan act_on_scan
scan_from fuel st name s max_bytes (failed e) = some (s, some e)
scan_from fuel st name s max_bytes (ok (oldest, newest)) =
    if oldest == 0
    then some (s, none)
    else act_on_scan st name s (scan fuel st name s max_bytes oldest newest 0)

-- The part for `maxBytes`; a negative limit is as none.
by_size :
    {S : Type 0}
    → ℕ
    → StreamQueue S
    → StreamStorage S
    → S × Option Error
    → Option (S × Option Error)
unfolding scan_from
by_size fuel sq st (s, some e) = some (s, some e)
by_size fuel sq st (s, none) =
    if lt_ℤ (pos 0) sq.retention_max_bytes
    then scan_from fuel st sq.name s (pos_part sq.retention_max_bytes)
        (st.get_stream_stats sq.name s)
    else some (s, none)

is_zero : ℤ → Bool
is_zero (pos n) = n == 0
is_zero (negsuc n) = false

-- `RunRetention`, with at most `fuel` rounds of the scan: `none` if they are used up.
pub run_retention : {S : Type 0} → ℕ → Time → StreamQueue S → S → Option (S × Option Error)
unfolding by_age by_size is_zero
run_retention fuel now sq s = elim sq.storage [
  | none ↦ some (s, none)
  | some st ↦
      if is_zero sq.retention_max_age && is_zero sq.retention_max_bytes
      then some (s, none)
      else by_size fuel sq st (by_age now sq st s)
]
