-- ===== src/Broker/Dedup.antt =====
-- internal/broker/dedup.go: idempotency keys with a time to live. The ticker of `cleaner` is the
-- caller of `cleanup`; each operation holds the lock from its clock reading to its end.
pub mod Once
use qwer_q.Common.{
  ℕ, ◌*◌, Bool, true, false, Option, none, some, List, [], ◌∷◌, leb, if◌then◌else◌, length,
}
use qwer_q.Common.Strings.{Str}
use qwer_q.Common.Dict.{Dict, lookup, insert}
use qwer_q.Common.Int.{ℤ, pos, ◌+ℤ◌, lt_ℤ}
use qwer_q.Types.{Time, Duration}
use qwer_q.Broker.Base.{Error, duplicate_message, second, is_before, is_after}

-- Five minutes.
abbrev pub default_idempotency_ttl : Duration
default_idempotency_ttl = pos (5 * 60 * second)

abbrev pub max_idempotency_keys : ℕ
max_idempotency_keys = 100000

pub record IdempotencyTracker : Type 0 where
  pub keys : Dict Time
  pub ttl : Duration
  pub stopped : Bool

-- `NewIdempotencyTracker`
pub new_idempotency_tracker : Duration → IdempotencyTracker
new_idempotency_tracker ttl = record {
  keys = [];
  ttl = if lt_ℤ (pos 0) ttl then ttl else default_idempotency_ttl;
  stopped = false;
}

-- `cleanupLocked`: the loop over the map deletes what has run out.
pub cleanup_locked : Time → Dict Time → Dict Time
cleanup_locked now [] = []
cleanup_locked now ((key, expiry) ∷ keys) =
    let rest = cleanup_locked now keys in if is_after now expiry then rest else (key, expiry) ∷ rest

pub cleanup : Time → IdempotencyTracker → IdempotencyTracker
cleanup now t = record t { keys = cleanup_locked now t.keys }

-- The key is recorded, after a forced cleanup when the map is at its capacity.
record_key : Time → Str → IdempotencyTracker → IdempotencyTracker
record_key now key t =
    let keys =
      if leb max_idempotency_keys (length t.keys) then cleanup_locked now t.keys else t.keys in
    record t { keys = insert key (now +ℤ t.ttl) keys }

is_live : Time → Option Time → Bool
is_live now none = false
is_live now (some expiry) = is_before now expiry

-- `Check`, with the error if it returns one. The empty key is no key.
unfoldable pub check : Time → Str → IdempotencyTracker → IdempotencyTracker × Option Error
unfolding record_key is_live
check now [] t = (t, none)
check now (c ∷ key) t =
    if is_live now (lookup (c ∷ key) t.keys)
    then (t, some (duplicate_message (c ∷ key)))
    else (record_key now (c ∷ key) t, none)

-- `Close`, which may be called again.
pub close : IdempotencyTracker → IdempotencyTracker
close t = record t { stopped = true }
