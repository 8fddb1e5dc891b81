-- ===== src/Storage/Badger/Scan.antt =====
-- Iterators of github.com/dgraph-io/badger/v4 over the entries of a read transaction, which come in
-- the order of their keys, and what a sweep over one prefix sees of them.
use qwer_q.Common.{
  ℕ, zero, suc, ◌≤◌, true, false, Option, none, some, [], ◌∷◌, if◌then◌else◌, ◌≡◌, refl, ap, sym,
  subst, ◌∙◌, inl, inr, arith, All, length, drop, Bool-cases,
}
use qwer_q.Common.Strings.{Str, str_eq, str_eq_iff, str_eq_self}
use qwer_q.Common.Dict.{Dict, lookup}
use qwer_q.Common.Order.{
  lt_bytes, has_prefix, lt_bytes_self, lt_bytes_trans, lt_bytes_total, has_prefix-below,
  has_prefix-left,
}

abbrev pub Entries : Type 0
Entries = Dict Str

-- `it.Seek(from)`: the entries from there on.
unfoldable pub seek : Str → Entries → Entries
seek from [] = []
seek from ((k, v) ∷ es) = if lt_bytes k from then seek from es else (k, v) ∷ es

-- The loop `it.ValidForPrefix(p); it.Next()`.
unfoldable pub while_prefix : Str → Entries → Entries
while_prefix p [] = []
while_prefix p ((k, v) ∷ es) = if has_prefix p k then (k, v) ∷ while_prefix p es else []

-- The loop `it.Seek(p); it.ValidForPrefix(p); it.Next()`.
unfoldable pub scan : Str → Entries → Entries
scan p es = while_prefix p (seek p es)

abbrev pub later : Str × Str → Option (Str × Str) → Str × Str
later e none = e
later e (some l) = l

-- `it.Seek(from)` of a reverse iterator, and the entry there: the last that is not above `from`.
unfoldable pub seek_back : Str → Entries → Option (Str × Str)
seek_back from [] = none
seek_back from ((k, v) ∷ es) =
    let rest = seek_back from es in if lt_bytes from k then none else some (later (k, v) rest)

abbrev pub Above : Str → Entries → Type 0
Above k = All (λ e. lt_bytes k e.0 ≡ true)

-- In the order of the keys, no key twice.
abbrev pub IsSorted : Entries → Type 0
IsSorted [] = Unit
IsSorted ((k, v) ∷ es) = Above k es × IsSorted es

-- The entries with the prefix, in a sorted list the ones that `scan` sees.
unfoldable pub under : Str → Entries → Entries
under p [] = []
under p ((k, v) ∷ es) = if has_prefix p k then (k, v) ∷ under p es else under p es

pub Above-trans : (j k : Str) (es : Entries) → lt_bytes j k ≡ true → Above k es → Above j es
Above-trans j k [] h a = tt
Above-trans j k ((i, v) ∷ es) h a = (lt_bytes_trans j k i h a.0, Above-trans j k es h a.1)

under-left :
    (p k : Str) (es : Entries)
    → lt_bytes k p ≡ false
    → has_prefix p k ≡ false
    → Above k es
    → under p es ≡ []
unfolding under
under-left p k [] h n a = refl
under-left p k ((i, v) ∷ es) h n a =
    ground (arith, has_prefix-left p k i h n a.0, under-left p k es h n a.1)

pub not_below : (p j k : Str) → lt_bytes j p ≡ false → lt_bytes j k ≡ true → lt_bytes k p ≡ false
not_below p j k h l = elim (Bool-cases (lt_bytes k p)) [
  | inl b ↦ absurd (cc (lt_bytes_trans j k p l b, h))
  | inr b ↦ b
]

while_prefix-under :
    (p k : Str) (v : Str) (es : Entries)
    → lt_bytes k p ≡ false
    → IsSorted ((k, v) ∷ es)
    → while_prefix p ((k, v) ∷ es) ≡ under p ((k, v) ∷ es)
unfolding while_prefix under
while_prefix-under p k v [] h s = refl
while_prefix-under p k v ((i, w) ∷ es) h s = elim (Bool-cases (has_prefix p k)) [
  | inl b ↦ rw b (ap (◌∷◌ (k, v)) (while_prefix-under p i w es (not_below p k i h s.0.0) s.1))
  | inr b ↦ rw b (sym (under-left p k ((i, w) ∷ es) h b s.0))
]

pub scan-under : (p : Str) (es : Entries) → IsSorted es → scan p es ≡ under p es
unfolding scan seek under while_prefix
scan-under p [] s = refl
scan-under p ((i, v) ∷ es) s = elim (Bool-cases (lt_bytes i p)) [
  | inl b ↦ rw b (rw (has_prefix-below p i b) (scan-under p es s.1))
  | inr b ↦ rw b (while_prefix-under p i v es b s)
]

module _ where
  pub lookup-head : (k v : Str) (es : Entries) → lookup k ((k, v) ∷ es) ≡ some v
  unfolding lookup
  lookup-head k v es = rw (str_eq_self k) refl

  pub lookup-tail :
      (i k v : Str) (es : Entries) → str_eq i k ≡ false → lookup k ((i, v) ∷ es) ≡ lookup k es
  unfolding lookup
  lookup-tail i k v es b = rw b refl

  pub lookup-Above : (k : Str) (es : Entries) → Above k es → lookup k es ≡ none
  unfolding lookup
  lookup-Above k [] a = refl
  lookup-Above k ((i, v) ∷ es) a =
      ground (arith, lookup-Above k es a.1, str_eq_iff i k, lt_bytes_self k, a.0)

  pub Above-lookup :
      (i k v : Str) (es : Entries) → Above i es → lookup k es ≡ some v → lt_bytes i k ≡ true
  unfolding lookup
  Above-lookup i k v [] a e = cc
  Above-lookup i k v ((j, w) ∷ es) a e = elim (Bool-cases (str_eq j k)) [
    | inl b ↦ ap (lt_bytes i) (sym ((str_eq_iff j k).0 b)) ∙ a.0
    | inr b ↦ Above-lookup i k v es a.1 (sym (lookup-tail j k w es b) ∙ e)
  ]

  -- What the tail of sorted entries holds, they hold.
  pub lookup-skip :
      (i w k v : Str) (es : Entries)
      → Above i es
      → lookup k es ≡ some v
      → lookup k ((i, w) ∷ es) ≡ some v
  lookup-skip i w k v es a e = elim (Bool-cases (str_eq i k)) [
    | inl b ↦ absurd (cc (e, lookup-Above i es a, ap (λ j. lookup j es) ((str_eq_iff i k).0 b)))
    | inr b ↦ lookup-tail i k w es b ∙ e
  ]

  pub lookup-under :
      (p k : Str) (es : Entries)
      → lookup k (under p es) ≡ (if has_prefix p k then lookup k es else none)
  unfolding lookup under
  lookup-under p k [] = ground arith
  lookup-under p k ((i, v) ∷ es) = ground (arith, str_eq_iff i k, lookup-under p k es)

  pub lookup-under_in :
      (p k : Str) (es : Entries) → has_prefix p k ≡ true → lookup k (under p es) ≡ lookup k es
  lookup-under_in p k es h = lookup-under p k es ∙ rw h refl

  pub lookup-under_out :
      (p k : Str) (es : Entries) → has_prefix p k ≡ false → lookup k (under p es) ≡ none
  lookup-under_out p k es h = lookup-under p k es ∙ rw h refl

  pub under_nothing :
      (p k : Str) (es : Entries) → under p es ≡ [] → has_prefix p k ≡ true → lookup k es ≡ none
  under_nothing p k es e h = sym (lookup-under_in p k es h) ∙ ap (lookup k) e ∙ lookup-Above k [] tt

  pub length-under : (p : Str) (es : Entries) → length (under p es) ≤ length es
  unfolding under
  length-under p [] = omega arith
  length-under p ((i, v) ∷ es) = ground (arith, length-under p es)

  under-Above : (p k : Str) (es : Entries) → Above k es → Above k (under p es)
  unfolding under
  under-Above p k [] a = tt
  under-Above p k ((i, v) ∷ es) a = elim (Bool-cases (has_prefix p i)) [
    | inl b ↦ rw b (a.0, under-Above p k es a.1)
    | inr b ↦ rw b (under-Above p k es a.1)
  ]

  pub under-IsSorted : (p : Str) (es : Entries) → IsSorted es → IsSorted (under p es)
  unfolding under
  under-IsSorted p [] s = tt
  under-IsSorted p ((i, v) ∷ es) s = elim (Bool-cases (has_prefix p i)) [
    | inl b ↦ rw b (under-Above p i es s.0, under-IsSorted p es s.1)
    | inr b ↦ rw b (under-IsSorted p es s.1)
  ]

  pub drop-Above : (n : ℕ) (k : Str) (es : Entries) → Above k es → Above k (drop n es)
  drop-Above zero k es a = a
  drop-Above (suc n) k [] a = tt
  drop-Above (suc n) k (e ∷ es) a = drop-Above n k es a.1

  pub drop-IsSorted : (n : ℕ) (es : Entries) → IsSorted es → IsSorted (drop n es)
  drop-IsSorted zero es s = s
  drop-IsSorted (suc n) [] s = tt
  drop-IsSorted (suc n) (e ∷ es) s = drop-IsSorted n es s.1

-- A sorted list does not hold what stands below its head.
missing :
    (i j v w : Str) (xs ys : Entries)
    → lt_bytes i j ≡ true
    → IsSorted ((j, w) ∷ ys)
    → ((k : Str) → lookup k ((i, v) ∷ xs) ≡ lookup k ((j, w) ∷ ys))
    → ⊥
missing i j v w xs ys l t h =
    cc (sym (lookup-head i v xs) ∙ h i ∙ lookup-Above i ((j, w) ∷ ys) (l, Above-trans i j ys l t.0))

tails :
    (i v w : Str) (xs ys : Entries)
    → IsSorted ((i, v) ∷ xs)
    → IsSorted ((i, w) ∷ ys)
    → ((k : Str) → lookup k ((i, v) ∷ xs) ≡ lookup k ((i, w) ∷ ys))
    → (k : Str) → lookup k xs ≡ lookup k ys
tails i v w xs ys s t h k = elim (Bool-cases (str_eq i k)) [
  | inl b ↦
      subst (λ k. lookup k xs ≡ lookup k ys) ((str_eq_iff i k).0 b)
        (lookup-Above i xs s.0 ∙ sym (lookup-Above i ys t.0))
  | inr b ↦ sym (lookup-tail i k v xs b) ∙ h k ∙ lookup-tail i k w ys b
]

heads :
    (i v w : Str) (xs ys : Entries)
    → ((k : Str) → lookup k ((i, v) ∷ xs) ≡ lookup k ((i, w) ∷ ys))
    → v ≡ w
heads i v w xs ys h = cc (sym (lookup-head i v xs) ∙ h i ∙ lookup-head i w ys)

-- Sorted entries are known by what they hold.
pub sorted_ext :
    (xs ys : Entries)
    → IsSorted xs
    → IsSorted ys
    → ((k : Str) → lookup k xs ≡ lookup k ys)
    → xs ≡ ys
sorted_ext [] [] s t h = refl
sorted_ext [] ((j, w) ∷ ys) s t h = absurd (cc (h j, lookup-head j w ys, lookup-Above j [] tt))
sorted_ext ((i, v) ∷ xs) [] s t h = absurd (cc (h i, lookup-head i v xs, lookup-Above i [] tt))
sorted_ext ((i, v) ∷ xs) ((j, w) ∷ ys) s t h = elim (lt_bytes_total i j) [
  | inl l ↦ absurd (missing i j v w xs ys l t h)
  | inr (inl e) ↦
      subst
        (λ j.
          IsSorted ((j, w) ∷ ys)
          → ((k : Str) → lookup k ((i, v) ∷ xs) ≡ lookup k ((j, w) ∷ ys))
          → ((i, v) ∷ xs) ≡ ((j, w) ∷ ys))
        e (λ t h. cc (heads i v w xs ys h, sorted_ext xs ys s.1 t.1 (tails i v w xs ys s t h))) t h
  | inr (inr l) ↦ absurd (missing j i w v ys xs l s (λ k. sym (h k)))
]
