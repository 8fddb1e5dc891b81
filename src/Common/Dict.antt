-- ===== src/Common/Dict.antt =====
-- A Go map with string keys, as an association list. `delete` leaves no entry of the key.
use Prim.Native.Nat.{◌≤◌}
use mathlib.Core.Path.{◌≡◌, refl, subst}
use mathlib.Core.Logic.{inl, inr}
use mathlib.Core.Bool.{Bool}
use mathlib.Core.List.{List, [], ◌∷◌}
use mathlib.Core.Option.{Option, none, some}
use native.Mathlib.Omega.{arith}
use qwer_q.Common.Tests.{if◌then◌else◌, is_some, Bool-cases}
use qwer_q.Common.Lists.{length}
use qwer_q.Common.Strings.{Str, str_eq, str_eq_iff, str_eq_self}

abbrev pub Dict {ℓ} : Type ℓ → Type ℓ
Dict V = List (Str × V)

module _ {ℓ} {V : Type ℓ} where
  unfoldable pub lookup : Str → Dict V → Option V
  lookup k [] = none
  lookup k ((j, v) ∷ m) = if str_eq j k then some v else lookup k m

  unfoldable pub insert : Str → V → Dict V → Dict V
  insert k v [] = (k, v) ∷ []
  insert k v ((j, w) ∷ m) = if str_eq j k then (k, v) ∷ m else (j, w) ∷ insert k v m

  unfoldable pub delete : Str → Dict V → Dict V
  delete k [] = []
  delete k ((j, v) ∷ m) = if str_eq j k then delete k m else (j, v) ∷ delete k m

  abbrev pub contains : Str → Dict V → Bool
  contains k m = is_some (lookup k m)

  abbrev pub keys : Dict V → List Str
  keys [] = []
  keys ((k, v) ∷ m) = k ∷ keys m

  pub lookup-insert :
      (j k : Str) (v : V) (m : Dict V)
      → lookup j (insert k v m) ≡ (if str_eq k j then some v else lookup j m)
  unfolding lookup insert
  lookup-insert j k v [] = refl
  lookup-insert j k v ((i, w) ∷ m) =
      ground (arith, str_eq_iff i k, str_eq_iff i j, str_eq_iff k j, lookup-insert j k v m)

  pub lookup-delete :
      (j k : Str) (m : Dict V) → lookup j (delete k m) ≡ (if str_eq k j then none else lookup j m)
  unfolding lookup delete
  lookup-delete j k [] = ground arith
  lookup-delete j k ((i, w) ∷ m) =
      ground (arith, str_eq_iff i k, str_eq_iff i j, str_eq_iff k j, lookup-delete j k m)

  pub lookup-insert_self : (k : Str) (v : V) (m : Dict V) → lookup k (insert k v m) ≡ some v
  lookup-insert_self k v m = simp (lookup-insert, str_eq_self)

  pub length-delete : (k : Str) (m : Dict V) → length (delete k m) ≤ length m
  unfolding delete
  length-delete k [] = omega arith
  length-delete k ((i, w) ∷ m) = ground (arith, length-delete k m)

  -- Every value of the map has the property.
  abbrev pub AllValues {κ} : (V → Type κ) → Dict V → Type κ
  AllValues P [] = Unit {κ}
  AllValues P ((k, v) ∷ m) = P v × AllValues P m

  pub AllValues-lookup {κ} :
      (P : V → Type κ) (k : Str) (v : V) (m : Dict V) → AllValues P m → lookup k m ≡ some v → P v
  unfolding lookup
  AllValues-lookup P k v [] h e = cc
  AllValues-lookup P k v ((j, w) ∷ m) h e = elim (Bool-cases (str_eq j k)) [
    | inl b ↦ subst P (ground (arith, b)) h.0
    | inr b ↦ AllValues-lookup P k v m h.1 (ground (arith, b))
  ]

  pub AllValues-insert {κ} :
      (P : V → Type κ) (k : Str) (v : V) (m : Dict V)
      → P v
      → AllValues P m
      → AllValues P (insert k v m)
  unfolding insert
  AllValues-insert P k v [] p h = (p, tt)
  AllValues-insert P k v ((j, w) ∷ m) p h = elim (Bool-cases (str_eq j k)) [
    | inl b ↦ rw b (p, h.1)
    | inr b ↦ rw b (h.0, AllValues-insert P k v m p h.1)
  ]

  pub AllValues-imp {κ μ} :
      (P : V → Type κ) (Q : V → Type μ) (m : Dict V)
      → ((v : V) → P v → Q v)
      → AllValues P m
      → AllValues Q m
  AllValues-imp P Q [] f h = tt
  AllValues-imp P Q ((k, v) ∷ m) f h = (f v h.0, AllValues-imp P Q m f h.1)
