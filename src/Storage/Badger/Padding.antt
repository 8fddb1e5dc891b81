-- ===== src/Storage/Badger/Padding.antt =====
-- The padded numbers in the keys of internal/storage/badger.go are in the order of the numbers, and
-- numbers are read back.
use qwer_q.Common.{
  ℕ, zero, suc, ◌+◌, ◌-◌, ◌*◌, ◌/◌, ◌%◌, ◌^◌, ◌<◌, true, false, ◌&&◌, ◌||◌, some, [], ◌∷◌, ◌++◌,
  ltb, ◌==◌, ◌≡◌, refl, sym, ap, ◌∙◌, arith, length, length-append, All, Bool-cases, inl, inr,
  lt→ltb,
}
use qwer_q.Common.Strings.{Str, str_eq}
use qwer_q.Common.Order.{lt_bytes}
use qwer_q.Storage.Badger.Decimal.{
  padded, padded_decimal, decimal, decimal_digits, is_digit, scan_digits, scan_number, scan_behind,
  scan_decimal, blank_width,
}

length-padded : (n v : ℕ) → length (padded n v) ≡ n
unfolding padded
length-padded zero v = refl
length-padded (suc n) v =
    omega (arith, length-append (padded n (v / 10)) ((48 + v % 10) ∷ []), length-padded n (v / 10))

lt_bytes-snoc :
    (p q : Str) (x y : ℕ)
    → length p ≡ length q
    → lt_bytes (p ++ (x ∷ [])) (q ++ (y ∷ [])) ≡ (lt_bytes p q || (str_eq p q && ltb x y))
unfolding lt_bytes str_eq
lt_bytes-snoc [] [] x y e = ground arith
lt_bytes-snoc [] (b ∷ q) x y e = absurd (omega arith)
lt_bytes-snoc (a ∷ p) [] x y e = absurd (omega arith)
lt_bytes-snoc (a ∷ p) (b ∷ q) x y e = ground (arith, lt_bytes-snoc p q x y)

str_eq-snoc :
    (p q : Str) (x y : ℕ)
    → length p ≡ length q
    → str_eq (p ++ (x ∷ [])) (q ++ (y ∷ [])) ≡ (str_eq p q && (x == y))
unfolding str_eq
str_eq-snoc [] [] x y e = ground arith
str_eq-snoc [] (b ∷ q) x y e = absurd (omega arith)
str_eq-snoc (a ∷ p) [] x y e = absurd (omega arith)
str_eq-snoc (a ∷ p) (b ∷ q) x y e = ground (arith, str_eq-snoc p q x y)

shift : (n a : ℕ) → a < 10 ^ suc n → a / 10 < 10 ^ n
shift n a h = omega arith

digit_eq : (a b : ℕ) → ((a / 10 == b / 10) && (48 + a % 10 == 48 + b % 10)) ≡ (a == b)
digit_eq a b = ground arith

digit_lt :
    (a b : ℕ)
    → (ltb (a / 10) (b / 10) || ((a / 10 == b / 10) && ltb (48 + a % 10) (48 + b % 10))) ≡ ltb a b
digit_lt a b = ground arith

same_length : (n a b : ℕ) → length (padded n a) ≡ length (padded n b)
same_length n a b = length-padded n a ∙ sym (length-padded n b)

pub str_eq-padded :
    (n a b : ℕ) → a < 10 ^ n → b < 10 ^ n → str_eq (padded n a) (padded n b) ≡ (a == b)
unfolding padded str_eq
str_eq-padded zero a b h k = ground arith
str_eq-padded (suc n) a b h k =
    str_eq-snoc (padded n (a / 10)) (padded n (b / 10)) (48 + a % 10) (48 + b % 10)
      (same_length n (a / 10) (b / 10))
    ∙ rw (str_eq-padded n (a / 10) (b / 10) (shift n a h) (shift n b k)) (digit_eq a b)

pub lt_bytes-padded :
    (n a b : ℕ) → a < 10 ^ n → b < 10 ^ n → lt_bytes (padded n a) (padded n b) ≡ ltb a b
unfolding padded lt_bytes
lt_bytes-padded zero a b h k = ground arith
lt_bytes-padded (suc n) a b h k =
    lt_bytes-snoc (padded n (a / 10)) (padded n (b / 10)) (48 + a % 10) (48 + b % 10)
      (same_length n (a / 10) (b / 10))
    ∙ rw
        (
          lt_bytes-padded n (a / 10) (b / 10) (shift n a h) (shift n b k),
          str_eq-padded n (a / 10) (b / 10) (shift n a h) (shift n b k),
        )
        (digit_lt a b)

abbrev IsDigits : Str → Type 0
IsDigits = All (λ b. is_digit b ≡ true)

All-snoc : (s : Str) (x : ℕ) → IsDigits s → is_digit x ≡ true → IsDigits (s ++ (x ∷ []))
All-snoc [] x h k = (k, tt)
All-snoc (a ∷ s) x h k = (h.0, All-snoc s x h.1 k)

digit_of : (d : ℕ) → d < 10 → is_digit (48 + d) ≡ true
digit_of d h = ground arith

padded-IsDigits : (n v : ℕ) → IsDigits (padded n v)
unfolding padded
padded-IsDigits zero v = tt
padded-IsDigits (suc n) v =
    All-snoc (padded n (v / 10)) (48 + v % 10) (padded-IsDigits n (v / 10))
      (digit_of (v % 10) (omega arith))

decimal_digits-IsDigits : (n v : ℕ) → v < 10 ^ suc n → IsDigits (decimal_digits n v)
unfolding decimal_digits
decimal_digits-IsDigits zero v h = (digit_of v (omega arith), tt)
decimal_digits-IsDigits (suc n) v h = elim (Bool-cases (ltb v 10)) [
  | inl b ↦ rw b (digit_of v (ground (arith, b)), tt)
  | inr b ↦ rw b (
      All-snoc (decimal_digits n (v / 10)) (48 + v % 10)
        (decimal_digits-IsDigits n (v / 10) (shift (suc n) v h)) (digit_of (v % 10) (omega arith)))
]

scan_digits-snoc :
    (acc : ℕ) (s : Str) (d : ℕ)
    → IsDigits s
    → d < 10
    → scan_digits acc (s ++ ((48 + d) ∷ [])) ≡ 10 * scan_digits acc s + d
unfolding scan_digits
scan_digits-snoc acc [] d h k = ground arith
scan_digits-snoc acc (a ∷ s) d h k = rw (h.0) (scan_digits-snoc (10 * acc + (a - 48)) s d h.1 k)

scan_digits-padded : (n v : ℕ) → v < 10 ^ n → scan_digits 0 (padded n v) ≡ v
unfolding padded scan_digits
scan_digits-padded zero v h = omega arith
scan_digits-padded (suc n) v h =
    scan_digits-snoc 0 (padded n (v / 10)) (v % 10) (padded-IsDigits n (v / 10)) (omega arith)
    ∙ omega (arith, scan_digits-padded n (v / 10) (shift n v h))

scan_digits-decimal : (n v : ℕ) → v < 10 ^ suc n → scan_digits 0 (decimal_digits n v) ≡ v
unfolding decimal_digits scan_digits
scan_digits-decimal zero v h = rw (digit_of v (omega arith)) (omega arith)
scan_digits-decimal (suc n) v h = elim (Bool-cases (ltb v 10)) [
  | inl b ↦ rw b (rw (digit_of v (ground (arith, b))) (omega arith))
  | inr b ↦ rw b (
      scan_digits-snoc 0 (decimal_digits n (v / 10)) (v % 10)
        (decimal_digits-IsDigits n (v / 10) (shift (suc n) v h)) (omega arith)
      ∙ omega (arith, scan_digits-decimal n (v / 10) (shift (suc n) v h)))
]

-- A character of ASCII above the blank is no white space.
no_blank : (b : ℕ) (s : Str) → 32 < b → b < 128 → blank_width b s ≡ 0
unfolding blank_width
no_blank b s l h = ground arith

pub scan_decimal-number :
    (b : ℕ) (s : Str) → 32 < b → b < 128 → scan_decimal (b ∷ s) ≡ scan_number (b ∷ s)
unfolding scan_decimal scan_behind
scan_decimal-number b s l h = rw (no_blank b s l h, scan_behind) refl

is_digit-range : (b : ℕ) → is_digit b ≡ true → (32 < b) × (b < 128)
is_digit-range b h = ground arith

scan_decimal-IsDigits :
    (s : Str)
    → IsDigits s
    → 0 < length s
    → scan_digits 0 s < 2 ^ 64
    → scan_decimal s ≡ some (scan_digits 0 s)
unfolding scan_number
scan_decimal-IsDigits [] h l k = absurd (omega arith)
scan_decimal-IsDigits (b ∷ s) h l k =
    let r = is_digit-range b h.0 in
    scan_decimal-number b s r.0 r.1 ∙ rw (h.0) (rw (lt→ltb (scan_digits 0 (b ∷ s)) (2 ^ 64) k) refl)

-- The sequence of a key is read back.
pub scan_decimal-padded : (v : ℕ) → v < 2 ^ 64 → scan_decimal (padded_decimal v) ≡ some v
scan_decimal-padded v h =
    let e = scan_digits-padded 20 v (omega arith) in
    scan_decimal-IsDigits (padded 20 v) (padded-IsDigits 20 v) (omega (arith, length-padded 20 v))
      (omega (arith, e))
    ∙ ap some e

length-decimal_digits : (n v : ℕ) → 0 < length (decimal_digits n v)
unfolding decimal_digits
length-decimal_digits zero v = omega arith
length-decimal_digits (suc n) v = elim (Bool-cases (ltb v 10)) [
  | inl b ↦ rw b (omega arith)
  | inr b ↦ rw b (omega (arith, length-append (decimal_digits n (v / 10)) ((48 + v % 10) ∷ [])))
]

-- An offset is read back.
pub scan_decimal-decimal : (v : ℕ) → v < 2 ^ 64 → scan_decimal (decimal v) ≡ some v
unfolding decimal
scan_decimal-decimal v h =
    let e = scan_digits-decimal 19 v (omega arith) in
    scan_decimal-IsDigits (decimal_digits 19 v) (decimal_digits-IsDigits 19 v (omega arith))
      (length-decimal_digits 19 v) (omega (arith, e))
    ∙ ap some e

below_255 : (s : Str) → IsDigits s → lt_bytes (255 ∷ []) s ≡ false
unfolding lt_bytes
below_255 [] h = refl
below_255 (b ∷ s) h = ground (arith, h.0)

-- A number stands below every key that goes on with the byte 255.
pub lt_bytes-255 : (n v : ℕ) → lt_bytes (255 ∷ []) (padded n v) ≡ false
lt_bytes-255 n v = below_255 (padded n v) (padded-IsDigits n v)
