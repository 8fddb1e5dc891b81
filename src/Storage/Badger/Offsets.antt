-- ===== src/Storage/Badger/Offsets.antt =====
-- The consumer offsets of internal/storage/badger.go are read back.
use qwer_q.Common.{
  ℕ, ◌^◌, ◌<◌, Bool, true, false, ◌&&◌, Option, none, some, if◌then◌else◌, ◌≡◌, refl, ap, ◌∙◌,
}
use qwer_q.Common.Strings.{Str, str_eq}
use qwer_q.Common.Dict.{lookup}
use qwer_q.Broker.Stream.{ok}
use qwer_q.Storage.Badger.{
  Badger, offset_key, scanned, offset_in, save_consumer_offset, load_consumer_offset,
}
use qwer_q.Storage.Badger.Decimal.{decimal}
use qwer_q.Storage.Badger.Keys.{IsPlain, str_eq-colon}
use qwer_q.Storage.Badger.Laws.{written, IsBadger}
use qwer_q.Storage.Badger.Padding.{scan_decimal-decimal}
use qwer_q.Storage.Badger.Scan.{Entries}

str_eq-offset_key :
    (q r g h : Str)
    → IsPlain q
    → IsPlain r
    → str_eq (offset_key q g) (offset_key r h) ≡ (str_eq q r && str_eq g h)
unfolding str_eq
str_eq-offset_key q r g h p s = str_eq-colon q r g h p s

offset_in-if :
    (b c : Bool) (offset : ℕ) (v : Option Str)
    → offset < 2 ^ 64
    → b ≡ c
    → offset_in (if b then some (decimal offset) else v) ≡ (if c then ok offset else offset_in v)
unfolding offset_in scanned
offset_in-if true true offset v h e = rw (scan_decimal-decimal offset h) refl
offset_in-if false false offset v h e = refl
offset_in-if true false offset v h e = cc
offset_in-if false true offset v h e = cc

-- An offset below 2^64 that was saved is the one that is loaded for its queue and group, and no
-- other changes, where the names of the queues have no colon and the database keeps its laws.
pub load-save_consumer_offset :
    {D : Type 0} (db : Badger D) (q r g h : Str) (offset : ℕ) (d d' : D) (es : Entries)
    → IsBadger db
    → IsPlain q
    → IsPlain r
    → offset < 2 ^ 64
    → db.view d ≡ ok es
    → save_consumer_offset db q g offset d ≡ (d', none)
    → load_consumer_offset db r h d'
      ≡ (if str_eq q r && str_eq g h then ok offset else load_consumer_offset db r h d)
unfolding save_consumer_offset load_consumer_offset written
load-save_consumer_offset db q r g h offset d d' es laws p s b v e =
    let w = laws.committed _ d d' es v e in
    rw (w.viewed, v)
      (ap offset_in (w.holds (offset_key r h))
        ∙ offset_in-if _ _ offset (lookup (offset_key r h) es) b (str_eq-offset_key q r g h p s))
