-- ===== src/Types.antt =====
-- internal/types/message.go: the message that all parts share.
use qwer_q.Common.{ℕ, ◌-◌, ◌*◌}
use qwer_q.Common.Strings.{Str}
use qwer_q.Common.Dict.{Dict}
use qwer_q.Common.Int.{ℤ, negsuc}

-- A `time.Time`, in nanoseconds since 1970. A `time.Duration` is a number of nanoseconds too.
abbrev pub Time : Type 0
Time = ℤ

abbrev pub Duration : Type 0
Duration = ℤ

-- `time.Time{}`, the first instant of the year 1.
abbrev pub zero_time : Time
zero_time = negsuc (62135596800 * 1000000000 - 1)

pub record Message : Type 0 where
  pub id : Str
  pub queue : Str
  pub payload : Str
  pub headers : Dict Str
  pub attempt : ℕ
  pub published_at : Time
  pub visible_at : Time
  pub ordering_key : Str
  pub sequence : ℕ
