-- ===== src/Wire/Laws.antt =====
-- What is read back from what was written, and how many bytes it takes.
use qwer_q.Common.{
  ℕ, zero, suc, ◌+◌, ◌*◌, ◌/◌, ◌%◌, ◌^◌, ◌<◌, ◌≤◌, ◌≡◌, refl, arith, none, some, [], ◌∷◌, ◌++◌,
  length, Option-cases, inl, inr,
}
use qwer_q.Common.Strings.{Str, IsBytes}
use native.Mathlib.Nat.{pow-suc}
use qwer_q.Common.Int.{ℤ, pos, negsuc}
use qwer_q.Wire.{
  IsU32, IsU64, IsI64, uint32_of, uvarint_groups, uvarint_bytes, read_groups, read_uvarint,
  varint_bytes, read_varint,
}

pub uint32_of-put :
    (v : ℕ)
    → IsU32 v
    → uint32_of (v / 2 ^ 24 % 256) (v / 2 ^ 16 % 256) (v / 2 ^ 8 % 256) (v % 256) ≡ v
uint32_of-put v h = omega arith

read_groups-uvarint_groups :
    (k x : ℕ) (rest : Str)
    → x < 2 * 128 ^ k
    → read_groups (suc k) (uvarint_groups k x ++ rest) ≡ some (x, length (uvarint_groups k x))
unfolding read_groups uvarint_groups
read_groups-uvarint_groups zero x rest h = ground arith
read_groups-uvarint_groups (suc k) x rest h =
    ground (arith, read_groups-uvarint_groups k (x / 128) rest (omega arith))

-- A `uint64` is read back from its bytes, whatever follows them.
pub read_uvarint-uvarint_bytes :
    (x : ℕ) (rest : Str)
    → IsU64 x
    → read_uvarint (uvarint_bytes x ++ rest) ≡ some (x, length (uvarint_bytes x))
unfolding read_uvarint uvarint_bytes
read_uvarint-uvarint_bytes x rest h = read_groups-uvarint_groups 9 x rest (omega arith)

-- So is an `int64`.
pub read_varint-varint_bytes :
    (x : ℤ) (rest : Str)
    → IsI64 x
    → read_varint (varint_bytes x ++ rest) ≡ some (x, length (varint_bytes x))
unfolding read_varint
read_varint-varint_bytes (pos n) rest h =
    ground (arith, read_uvarint-uvarint_bytes (2 * n) rest (omega arith))
read_varint-varint_bytes (negsuc n) rest h =
    ground (arith, read_uvarint-uvarint_bytes (2 * n + 1) rest (omega arith))

uvarint_groups-IsBytes : (k x : ℕ) → x < 2 * 128 ^ k → IsBytes (uvarint_groups k x)
unfolding uvarint_groups
uvarint_groups-IsBytes zero x h = omega arith
uvarint_groups-IsBytes (suc k) x h =
    ground (arith, uvarint_groups-IsBytes k (x / 128) (omega arith))

pub uvarint_bytes-IsBytes : (x : ℕ) → IsU64 x → IsBytes (uvarint_bytes x)
unfolding uvarint_bytes
uvarint_bytes-IsBytes x h = uvarint_groups-IsBytes 9 x (omega arith)

-- What is read lies in the buffer and takes at least a byte.
read_groups_bounds :
    (k : ℕ) (buf : Str) (v n : ℕ) → read_groups k buf ≡ some (v, n) → (1 ≤ n) × (n ≤ length buf)
unfolding read_groups
read_groups_bounds k [] v n e = cc
read_groups_bounds zero (b ∷ rest) v n e = cc
read_groups_bounds (suc k) (b ∷ rest) v n e = elim (Option-cases (read_groups k rest)) [
  | inl q ↦ ground (arith, q)
  | inr ((w, m), q) ↦ ground (arith, q, read_groups_bounds k rest w m q)
]

pub read_uvarint_bounds :
    (buf : Str) (v n : ℕ) → read_uvarint buf ≡ some (v, n) → (1 ≤ n) × (n ≤ length buf)
unfolding read_uvarint
read_uvarint_bounds buf v n e = read_groups_bounds 10 buf v n e

uvarint_groups-length :
    (k x : ℕ) → (1 ≤ length (uvarint_groups k x)) × (length (uvarint_groups k x) ≤ k + 1)
unfolding uvarint_groups
uvarint_groups-length zero x = omega arith
uvarint_groups-length (suc k) x = ground (arith, uvarint_groups-length k (x / 128))

-- One byte at least, and ten at most (`binary.MaxVarintLen64`).
pub uvarint_bytes-length :
    (x : ℕ) → (1 ≤ length (uvarint_bytes x)) × (length (uvarint_bytes x) ≤ 10)
unfolding uvarint_bytes
uvarint_bytes-length x = omega (arith, uvarint_groups-length 9 x)

-- A byte below 128 stands for itself.
pub read_uvarint_small : (b : ℕ) (rest : Str) → b < 128 → read_uvarint (b ∷ rest) ≡ some (b, 1)
unfolding read_uvarint read_groups
read_uvarint_small b rest h = ground arith

read_groups-zero : (buf : Str) → read_groups zero buf ≡ none
unfolding read_groups
read_groups-zero [] = refl
read_groups-zero (b ∷ rest) = refl

pow_pos : (k : ℕ) → 1 ≤ 128 ^ k
pow_pos zero = omega arith
pow_pos (suc k) = omega (arith, pow_pos k, pow-suc 128 k)

read_groups_value :
    (k : ℕ) (buf : Str) (v n : ℕ)
    → IsBytes buf
    → read_groups (suc k) buf ≡ some (v, n)
    → v < 2 * 128 ^ k
unfolding read_groups
read_groups_value k [] v n bs e = cc
read_groups_value zero (b ∷ rest) v n bs e = elim (Option-cases (read_groups zero rest)) [
  | inl q ↦ ground (arith, q)
  | inr ((w, m), q) ↦ cc (q, read_groups-zero rest)
]
read_groups_value (suc k) (b ∷ rest) v n (hb, bs) e =
    elim (Option-cases (read_groups (suc k) rest)) [
      | inl q ↦ ground (arith, q, pow_pos k, pow-suc 128 k)
      | inr ((w, m), q) ↦
          ground (arith, q, read_groups_value k rest w m bs q, pow_pos k, pow-suc 128 k)
    ]

-- What is read of bytes is a `uint64`.
pub read_uvarint-IsU64 :
    (buf : Str) (v n : ℕ) → IsBytes buf → read_uvarint buf ≡ some (v, n) → IsU64 v
unfolding read_uvarint
read_uvarint-IsU64 buf v n bs e = omega (arith, read_groups_value 9 buf v n bs e)
