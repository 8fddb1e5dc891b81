-- ===== src/Common/Order.antt =====
-- Go's order of strings, byte by byte, in which github.com/dgraph-io/badger/v4 keeps its keys too.
use mathlib.Core.Path.{◌≡◌, refl}
use mathlib.Core.Logic.{◌⊎◌, inl, inr}
use mathlib.Core.Bool.{Bool, true, false, ◌&&◌}
use mathlib.Core.List.{List, [], ◌∷◌, ◌++◌}
use native.Mathlib.Omega.{arith}
use qwer_q.Common.Tests.{ltb, ◌==◌, if◌then◌else◌}
use qwer_q.Common.Strings.{Str}

-- `s < t`
unfoldable pub lt_bytes : Str → Str → Bool
lt_bytes [] [] = false
lt_bytes [] (b ∷ t) = true
lt_bytes (a ∷ s) [] = false
lt_bytes (a ∷ s) (b ∷ t) = if a == b then lt_bytes s t else ltb a b

-- `bytes.HasPrefix`, the prefix first.
unfoldable pub has_prefix : Str → Str → Bool
has_prefix [] t = true
has_prefix (a ∷ s) [] = false
has_prefix (a ∷ s) (b ∷ t) = (a == b) && has_prefix s t

pub lt_bytes_self : (s : Str) → lt_bytes s s ≡ false
unfolding lt_bytes
lt_bytes_self [] = refl
lt_bytes_self (a ∷ s) = ground (arith, lt_bytes_self s)

pub lt_bytes_trans : (s t u : Str) → lt_bytes s t ≡ true → lt_bytes t u ≡ true → lt_bytes s u ≡ true
unfolding lt_bytes
lt_bytes_trans s [] [] h k = cc
lt_bytes_trans [] t (c ∷ u) h k = refl
lt_bytes_trans s (b ∷ t) [] h k = cc
lt_bytes_trans (a ∷ s) [] (c ∷ u) h k = cc
lt_bytes_trans (a ∷ s) (b ∷ t) (c ∷ u) h k = ground (arith, lt_bytes_trans s t u)

pub lt_bytes_total : (s t : Str) → (lt_bytes s t ≡ true) ⊎ ((s ≡ t) ⊎ (lt_bytes t s ≡ true))
unfolding lt_bytes
lt_bytes_total [] [] = inr (inl refl)
lt_bytes_total [] (b ∷ t) = inl refl
lt_bytes_total (a ∷ s) [] = inr (inr refl)
lt_bytes_total (a ∷ s) (b ∷ t) = ground (arith, lt_bytes_total s t)

pub lt_bytes-append : (p s t : Str) → lt_bytes (p ++ s) (p ++ t) ≡ lt_bytes s t
unfolding lt_bytes
lt_bytes-append [] s t = refl
lt_bytes-append (a ∷ p) s t = ground (arith, lt_bytes-append p s t)

pub has_prefix-append : (p s : Str) → has_prefix p (p ++ s) ≡ true
unfolding has_prefix
has_prefix-append [] s = refl
has_prefix-append (a ∷ p) s = ground (arith, has_prefix-append p s)

pub has_prefix-eq_append : (p s : Str) → has_prefix p s ≡ true → (t : Str) × (s ≡ p ++ t)
unfolding has_prefix
has_prefix-eq_append [] s h = (s, refl)
has_prefix-eq_append (a ∷ p) [] h = cc
has_prefix-eq_append (a ∷ p) (b ∷ s) h =
    let (t, e) = has_prefix-eq_append p s (ground arith) in (t, ground (arith, e))

-- Nothing below a prefix starts with it.
pub has_prefix-below : (p s : Str) → lt_bytes s p ≡ true → has_prefix p s ≡ false
unfolding lt_bytes has_prefix
has_prefix-below [] [] h = cc
has_prefix-below [] (b ∷ s) h = cc
has_prefix-below (a ∷ p) [] h = refl
has_prefix-below (a ∷ p) (b ∷ s) h = ground (arith, has_prefix-below p s)

-- Once the keys have left the prefix, they do not come back to it.
pub has_prefix-left :
    (p s t : Str)
    → lt_bytes s p ≡ false
    → has_prefix p s ≡ false
    → lt_bytes s t ≡ true
    → has_prefix p t ≡ false
unfolding lt_bytes has_prefix
has_prefix-left [] s t h k l = cc
has_prefix-left (a ∷ p) [] t h k l = cc
has_prefix-left (a ∷ p) (b ∷ s) [] h k l = refl
has_prefix-left (a ∷ p) (b ∷ s) (c ∷ t) h k l = ground (arith, has_prefix-left p s t)

insert_string : Str → List Str → List Str
insert_string s [] = s ∷ []
insert_string s (t ∷ ts) =
    let rest = insert_string s ts in if lt_bytes t s then t ∷ rest else s ∷ (t ∷ ts)

-- `sort.Strings`
unfoldable pub sort_strings : List Str → List Str
unfolding insert_string
sort_strings [] = []
sort_strings (s ∷ ts) = insert_string s (sort_strings ts)
