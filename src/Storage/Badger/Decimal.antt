-- ===== src/Storage/Badger/Decimal.antt =====
-- The numbers in keys and values of internal/storage/badger.go: `%d`, `%020d` and `fmt.Sscanf` on
-- uint64.
use qwer_q.Common.{
  ℕ, zero, suc, ◌+◌, ◌-◌, ◌*◌, ◌/◌, ◌%◌, ◌^◌, Bool, ◌&&◌, ◌||◌, Option, none, some, [], ◌∷◌, ◌++◌,
  ltb, leb, ◌==◌, if◌then◌else◌,
}
use qwer_q.Common.Strings.{Str}

-- The last `n` digits, the highest first.
unfoldable pub padded : ℕ → ℕ → Str
padded zero v = []
padded (suc n) v = padded n (v / 10) ++ ((48 + v % 10) ∷ [])

-- `fmt.Sprintf("%020d", v)`: a uint64 has at most 20 digits.
abbrev pub padded_decimal : ℕ → Str
padded_decimal v = padded 20 v

-- The digits, of which `n` more may follow.
unfoldable pub decimal_digits : ℕ → ℕ → Str
decimal_digits zero v = (48 + v) ∷ []
decimal_digits (suc n) v =
    let higher = decimal_digits n (v / 10) in
    if ltb v 10 then (48 + v) ∷ [] else higher ++ ((48 + v % 10) ∷ [])

-- `fmt.Sprintf("%d", v)`
unfoldable pub decimal : ℕ → Str
unfolding decimal_digits
decimal v = decimal_digits 19 v

abbrev pub is_digit : ℕ → Bool
is_digit b = leb 48 b && leb b 57

-- The digits up to a byte that is none, on top of what was read.
unfoldable pub scan_digits : ℕ → Str → ℕ
scan_digits acc [] = acc
scan_digits acc (b ∷ s) = if is_digit b then scan_digits (10 * acc + (b - 48)) s else acc

-- A number has a digit at least, and fits 64 bits.
unfoldable pub scan_number : Str → Option ℕ
scan_number [] = none
scan_number (b ∷ s) =
    let v = scan_digits 0 (b ∷ s) in
    if is_digit b then (if ltb v (2 ^ 64) then some v else none) else none

-- The first byte, and 0 where there is none.
abbrev pub first_byte : Str → ℕ
first_byte [] = 0
first_byte (b ∷ s) = b

-- U+2000 to U+200A, U+2028, U+2029, U+202F, U+205F: the bytes behind 0xE2.
abbrev pub is_wide_blank : ℕ → ℕ → Bool
is_wide_blank c d =
    ((c == 0x80) && ((leb 0x80 d && leb d 0x8a) || ((d == 0xa8) || ((d == 0xa9) || (d == 0xaf)))))
    || ((c == 0x81) && (d == 0x9f))

-- What follows the first byte.
abbrev pub tail_of : Str → Str
tail_of [] = []
tail_of (b ∷ s) = s

-- How many bytes the white space in front has, a blank of `isSpace` in fmt/scan.go, in UTF-8; 0 if
-- there is none. A newline is none: it ends the scan with an error, behind a return as well.
unfoldable pub blank_width : ℕ → Str → ℕ
blank_width b s =
    let c = first_byte s in
    let d = first_byte (tail_of s) in
    if (b == 9) || ((b == 11) || ((b == 12) || ((b == 13) || (b == 32))))
    then 1
    else if (b == 0xc2) && ((c == 0x85) || (c == 0xa0))
    then 2
    else if (b == 0xe1) && ((c == 0x9a) && (d == 0x80))
    then 3
    else if (b == 0xe2) && is_wide_blank c d
    then 3
    else if (b == 0xe3) && ((c == 0x80) && (d == 0x80))
    then 3
    else 0

-- The scan of a number behind white space, of which `n` bytes are still to be passed over.
unfoldable pub scan_behind : ℕ → Str → Option ℕ
scan_behind n [] = none
scan_behind (suc n) (b ∷ s) = scan_behind n s
scan_behind zero (b ∷ s) =
    let behind = scan_behind (blank_width b s - 1) s in
    if blank_width b s == 0 then scan_number (b ∷ s) else behind

-- `fmt.Sscanf(s, "%d", &v)` with a uint64: white space in front is skipped, what follows the digits
-- is left.
unfoldable pub scan_decimal : Str → Option ℕ
unfolding scan_behind
scan_decimal s = scan_behind 0 s
