-- ===== src/Broker/Base.antt =====
-- What the queue kinds of internal/broker share: errors, failure policies, the hooks that the
-- handlers pass down, and the outcome of a negative acknowledgement.
use qwer_q.Common.{ℕ, Bool, true, false, Option, none, some, leb, if◌then◌else◌}
use qwer_q.Common.Strings.{Str}
use qwer_q.Common.Int.{lt_ℤ}
use qwer_q.Types.{Message, Time}

-- The sentinel errors of queue.go, broker.go and dedup.go, that of a stored entry which does not
-- decode, and the storage's, by a number.
pub data Error : Type 0 where
  queue_full memory_pressure unreadable : Error
  duplicate_message : Str → Error
  storage_failed : ℕ → Error
  joined : Error → Error → Error

-- `FailurePolicy`, a string: the three named values, and any other that a stored configuration holds.
pub data FailurePolicy : Type 0 where
  dlq drop infinite : FailurePolicy
  other : Str → FailurePolicy

abbrev pub default_max_retries : ℕ
default_max_retries = 5

-- A second, in nanoseconds.
abbrev pub second : ℕ
second = 1000000000

-- `a.After(b)` and `a.Before(b)`.
abbrev pub is_after : Time → Time → Bool
is_after a b = lt_ℤ b a

abbrev pub is_before : Time → Time → Bool
is_before a b = lt_ℤ a b

-- A `func(*Message) error` over the state that it changes, the storage.
abbrev pub Hook : Type 0 → Type 0
Hook S = Message → S → S × Option Error

-- The nil hook.
abbrev pub no_hook : {S : Type 0} → Hook S
no_hook m s = (s, none)

-- `NackResult`
pub record NackResult : Type 0 where
  pub found : Bool
  pub message : Option Message
  pub to_dlq : Bool
  pub dropped : Bool

abbrev pub not_found : NackResult
not_found = record { found = false; message = none; to_dlq = false; dropped = false }

abbrev pub dead_lettered : Message → NackResult
dead_lettered m = record { found = true; message = some m; to_dlq = true; dropped = false }

abbrev pub discarded : Message → NackResult
discarded m = record { found = true; message = some m; to_dlq = false; dropped = true }

abbrev pub requeued : Message → NackResult
requeued m = record { found = true; message = some m; to_dlq = false; dropped = false }

-- Which way a message goes: dead-lettered, discarded, or back.
pub data Fate : Type 0 where
  to_dlq to_drop to_requeue : Fate

-- The decision that `nackWithHooks` makes, in queue.go and in group.go: a message that is not to be
-- requeued, or has used up its attempts, leaves as the policy says; an unknown policy requeues.
unfoldable pub fate : Bool → FailurePolicy → ℕ → ℕ → Fate
fate false dlq attempt max_retries = to_dlq
fate false policy attempt max_retries = to_drop
fate true dlq attempt max_retries = if leb max_retries attempt then to_dlq else to_requeue
fate true drop attempt max_retries = if leb max_retries attempt then to_drop else to_requeue
fate true infinite attempt max_retries = to_requeue
fate true (other s) attempt max_retries = to_requeue
