-- ===== src/Storage/Badger/Keys.antt =====
-- The keys of internal/storage/badger.go tell queues apart whose names have no colon.
use qwer_q.Common.{◌&&◌, [], ◌∷◌, ◌++◌, ◌≡◌, refl, ◌≢◌, arith, All, length, drop, drop-append}
use qwer_q.Common.Strings.{Str, str_eq}
use qwer_q.Storage.Badger.{colon, queue_msgs, msg_key}
use qwer_q.Common.Order.{has_prefix, lt_bytes, lt_bytes-append}

-- A name without a colon.
abbrev pub IsPlain : Str → Type 0
IsPlain = All (λ b. b ≢ 58)

has_prefix-append_both : (p s t : Str) → has_prefix (p ++ s) (p ++ t) ≡ has_prefix s t
unfolding has_prefix
has_prefix-append_both [] s t = refl
has_prefix-append_both (a ∷ p) s t = ground (arith, has_prefix-append_both p s t)

-- Up to its colon, a plain name is read off.
has_prefix-colon :
    (q r i : Str) → IsPlain q → IsPlain r → has_prefix (q ++ colon) ((r ++ colon) ++ i) ≡ str_eq q r
unfolding has_prefix str_eq
has_prefix-colon [] [] i h k = refl
has_prefix-colon [] (b ∷ r) i h k = ground (arith, k.0)
has_prefix-colon (a ∷ q) [] i h k = ground (arith, h.0)
has_prefix-colon (a ∷ q) (b ∷ r) i h k = ground (arith, has_prefix-colon q r i h.1 k.1)

-- The prefix of a plain queue is on the keys of its own messages only.
pub has_prefix-msg_key :
    (q r i : Str) → IsPlain q → IsPlain r → has_prefix (queue_msgs q) (msg_key r i) ≡ str_eq q r
unfolding has_prefix
has_prefix-msg_key q r i h k = has_prefix-colon q r i h k

str_eq-append : (p s t : Str) → str_eq (p ++ s) (p ++ t) ≡ str_eq s t
unfolding str_eq
str_eq-append [] s t = refl
str_eq-append (a ∷ p) s t = ground (arith, str_eq-append p s t)

pub str_eq-colon :
    (q r i j : Str)
    → IsPlain q
    → IsPlain r
    → str_eq ((q ++ colon) ++ i) ((r ++ colon) ++ j) ≡ (str_eq q r && str_eq i j)
unfolding str_eq
str_eq-colon [] [] i j h k = ground arith
str_eq-colon [] (b ∷ r) i j h k = ground (arith, k.0)
str_eq-colon (a ∷ q) [] i j h k = ground (arith, h.0)
str_eq-colon (a ∷ q) (b ∷ r) i j h k = ground (arith, str_eq-colon q r i j h.1 k.1)

pub str_eq-msg_key :
    (q r i j : Str)
    → IsPlain q
    → IsPlain r
    → str_eq (msg_key q i) (msg_key r j) ≡ (str_eq q r && str_eq i j)
unfolding str_eq
str_eq-msg_key q r i j h k = str_eq-colon q r i j h k

pub str_eq-msg_key_same : (q i j : Str) → str_eq (msg_key q i) (msg_key q j) ≡ str_eq i j
str_eq-msg_key_same q i j = str_eq-append (queue_msgs q) i j

-- The identifier is read off the key.
pub drop-msg_key : (q i : Str) → drop (length (queue_msgs q)) (msg_key q i) ≡ i
drop-msg_key q i = drop-append (queue_msgs q) i

pub lt_bytes-msg_key : (q i j : Str) → lt_bytes (msg_key q i) (msg_key q j) ≡ lt_bytes i j
lt_bytes-msg_key q i j = lt_bytes-append (queue_msgs q) i j
