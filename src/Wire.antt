-- ===== src/Wire.antt =====
-- Go's encoding/binary, as internal/protocol and internal/storage use it: big-endian words and
-- variable-length integers. `int`, `uint32` and `uint64` conversions keep their wrap-around.
pub mod Laws
use qwer_q.Common.{
  ℕ, zero, suc, ◌+◌, ◌-◌, ◌*◌, ◌/◌, ◌%◌, ◌^◌, ◌<◌, Bool, true, false, ◌&&◌, Option, none, some,
  List, [], ◌∷◌, ◌++◌, ltb, ◌==◌, if◌then◌else◌, ◌>>=◌, length,
}
use qwer_q.Common.Strings.{Str}
use qwer_q.Common.Int.{ℤ, pos, negsuc, ◌<ℤ◌, ◌≤ℤ◌}

abbrev pub IsU32 : ℕ → Type 0
IsU32 v = v < 2 ^ 32

abbrev pub IsU64 : ℕ → Type 0
IsU64 v = v < 2 ^ 64

-- The values of an `int64`.
abbrev pub IsI64 : ℤ → Type 0
IsI64 (pos n) = n < 2 ^ 63
IsI64 (negsuc n) = n < 2 ^ 63

-- `binary.BigEndian.PutUint32`
abbrev pub put_uint32 : ℕ → Str
put_uint32 v = (v / 2 ^ 24 % 256) ∷ (v / 2 ^ 16 % 256) ∷ (v / 2 ^ 8 % 256) ∷ (v % 256) ∷ []

-- `binary.BigEndian.Uint32`, of four bytes.
abbrev pub uint32_of : ℕ → ℕ → ℕ → ℕ → ℕ
uint32_of a b c d = a * 2 ^ 24 + b * 2 ^ 16 + c * 2 ^ 8 + d

-- The groups of seven bits, lowest first; `k` more may follow the first.
uvarint_groups : ℕ → ℕ → Str
uvarint_groups zero x = x ∷ []
uvarint_groups (suc k) x =
    let more = uvarint_groups k (x / 128) in if ltb x 128 then x ∷ [] else (x % 128 + 128) ∷ more

-- `binary.AppendUvarint(nil, x)`. Ten groups hold 64 bits.
pub uvarint_bytes : ℕ → Str
unfolding uvarint_groups
uvarint_bytes x = uvarint_groups 9 x

-- `k` bytes may still be read; the last of ten holds one bit.
read_groups : ℕ → Str → Option (ℕ × ℕ)
read_groups k [] = none
read_groups zero (b ∷ rest) = none
read_groups (suc k) (b ∷ rest) =
    let more = read_groups k rest in
    if ltb b 128
    then (if (k == 0) && ltb 1 b then none else some (b, 1))
    else (more >>= λ r. some (b - 128 + 128 * r.0, r.1 + 1))

-- `binary.Uvarint`: the value with the number of bytes read, or `none` for a count that is not
-- positive (the buffer is too small, or the value does not fit 64 bits).
unfoldable pub read_uvarint : Str → Option (ℕ × ℕ)
unfolding read_groups
read_uvarint buf = read_groups 10 buf

-- `x << 1`, complemented for a negative `x`.
abbrev pub zig_zag : ℤ → ℕ
zig_zag (pos n) = 2 * n
zig_zag (negsuc n) = 2 * n + 1

abbrev pub un_zig_zag : ℕ → ℤ
un_zig_zag u = if u % 2 == 0 then pos (u / 2) else negsuc (u / 2)

-- `binary.AppendVarint(nil, x)` and `binary.Varint`.
abbrev pub varint_bytes : ℤ → Str
varint_bytes x = uvarint_bytes (zig_zag x)

pub read_varint : Str → Option (ℤ × ℕ)
read_varint buf = read_uvarint buf >>= λ r. some (un_zig_zag r.0, r.1)

-- `int(v)` of a `uint64`.
abbrev pub int_of : ℕ → ℤ
int_of v = if ltb v (2 ^ 63) then pos v else negsuc (2 ^ 64 - 1 - v)
