-- ===== src/Storage/Badger/Memory.antt =====
-- A database in memory, the list of all its writes, the last one first: it has the behaviour that
-- `Laws` asks of BadgerDB, and serves the examples.
use qwer_q.Common.{
  true, false, none, some, List, [], ◌∷◌, if◌then◌else◌, ◌≡◌, refl, ap, ◌∙◌, subst, inl, inr, arith,
  Bool-cases,
}
use qwer_q.Common.Strings.{Str, str_eq, str_eq_iff}
use qwer_q.Common.Dict.{lookup, delete, lookup-delete}
use qwer_q.Broker.Stream.{ok}
use qwer_q.Storage.Badger.{Badger, Write, txn_set, txn_delete}
use qwer_q.Storage.Badger.Laws.{written, IsBadger}
use qwer_q.Common.Order.{lt_bytes, lt_bytes_self, lt_bytes_total}
use qwer_q.Storage.Badger.Scan.{Entries, Above, IsSorted, Above-trans}

-- An entry at its place.
put : Str → Str → Entries → Entries
put k v [] = (k, v) ∷ []
put k v ((j, w) ∷ es) =
    let rest = put k v es in
    if lt_bytes j k
    then (j, w) ∷ rest
    else if lt_bytes k j
    then (k, v) ∷ ((j, w) ∷ es)
    else (k, v) ∷ es

replay : List Write → Entries
unfolding put delete
replay [] = []
replay (txn_set k v ∷ ws) = put k v (replay ws)
replay (txn_delete k ∷ ws) = delete k (replay ws)

-- The writes of a transaction, in their order.
commit : List Write → List Write → List Write
commit [] d = d
commit (w ∷ ws) d = commit ws (w ∷ d)

unfoldable pub memory : Badger (List Write)
unfolding replay commit
memory = record { view = λ d. ok (replay d); update = λ ws d. (commit ws d, none) }

same : (j k : Str) → lt_bytes j k ≡ false → lt_bytes k j ≡ false → j ≡ k
same j k b c = elim (lt_bytes_total j k) [
  | inl l ↦ absurd (cc (l, b))
  | inr (inl e) ↦ e
  | inr (inr l) ↦ absurd (cc (l, c))
]

-- An entry behind another one hides none of it.
apart :
    (i j k v w : Str) (es : Entries)
    → lt_bytes j k ≡ true
    → (if str_eq j i then some w else if str_eq k i then some v else lookup i es)
      ≡ (if str_eq k i then some v else if str_eq j i then some w else lookup i es)
apart i j k v w es b =
    ground (arith, str_eq_iff j i, str_eq_iff k i, str_eq_iff j k, lt_bytes_self j)

replaced :
    (i j k v w : Str) (es : Entries)
    → j ≡ k
    → (if str_eq k i then some v else lookup i es)
      ≡ (if str_eq k i then some v else if str_eq j i then some w else lookup i es)
replaced i j k v w es e = ground (arith, e)

put-Above : (i k v : Str) (es : Entries) → lt_bytes i k ≡ true → Above i es → Above i (put k v es)
unfolding put
put-Above i k v [] h a = (h, tt)
put-Above i k v ((j, w) ∷ es) h a = elim (Bool-cases (lt_bytes j k)) [
  | inl b ↦ rw b (a.0, put-Above i k v es h a.1)
  | inr b ↦ elim (Bool-cases (lt_bytes k j)) [
    | inl c ↦ rw b (rw c (h, a))
    | inr c ↦ rw b (rw c (h, a.1))
  ]
]

put-IsSorted : (k v : Str) (es : Entries) → IsSorted es → IsSorted (put k v es)
unfolding put
put-IsSorted k v [] s = (tt, tt)
put-IsSorted k v ((j, w) ∷ es) s = elim (Bool-cases (lt_bytes j k)) [
  | inl b ↦ rw b (put-Above j k v es b s.0, put-IsSorted k v es s.1)
  | inr b ↦ elim (Bool-cases (lt_bytes k j)) [
    | inl c ↦ rw b (rw c ((c, Above-trans k j es c s.0), s))
    | inr c ↦ rw b (rw c (subst (λ k. Above k es) (same j k b c) s.0, s.1))
  ]
]

delete-Above : (i k : Str) (es : Entries) → Above i es → Above i (delete k es)
unfolding delete
delete-Above i k [] a = tt
delete-Above i k ((j, w) ∷ es) a = elim (Bool-cases (str_eq j k)) [
  | inl b ↦ rw b (delete-Above i k es a.1)
  | inr b ↦ rw b (a.0, delete-Above i k es a.1)
]

delete-IsSorted : (k : Str) (es : Entries) → IsSorted es → IsSorted (delete k es)
unfolding delete
delete-IsSorted k [] s = tt
delete-IsSorted k ((j, w) ∷ es) s = elim (Bool-cases (str_eq j k)) [
  | inl b ↦ rw b (delete-IsSorted k es s.1)
  | inr b ↦ rw b (delete-Above j k es s.0, delete-IsSorted k es s.1)
]

lookup-put :
    (i k v : Str) (es : Entries)
    → lookup i (put k v es) ≡ (if str_eq k i then some v else lookup i es)
unfolding lookup put
lookup-put i k v [] = refl
lookup-put i k v ((j, w) ∷ es) = elim (Bool-cases (lt_bytes j k)) [
  | inl b ↦ rw b (rw (lookup-put i k v es) (apart i j k v w es b))
  | inr b ↦ elim (Bool-cases (lt_bytes k j)) [
    | inl c ↦ rw b (rw c refl)
    | inr c ↦ rw b (rw c (replaced i j k v w es (same j k b c)))
  ]
]

replay-IsSorted : (d : List Write) → IsSorted (replay d)
unfolding replay
replay-IsSorted [] = tt
replay-IsSorted (txn_set k v ∷ ws) = put-IsSorted k v (replay ws) (replay-IsSorted ws)
replay-IsSorted (txn_delete k ∷ ws) = delete-IsSorted k (replay ws) (replay-IsSorted ws)

lookup-commit :
    (ws d : List Write) (k : Str)
    → lookup k (replay (commit ws d)) ≡ written ws k (lookup k (replay d))
unfolding commit replay written
lookup-commit [] d k = refl
lookup-commit (txn_set j v ∷ ws) d k =
    lookup-commit ws (txn_set j v ∷ d) k ∙ ap (written ws k) (lookup-put k j v (replay d))
lookup-commit (txn_delete j ∷ ws) d k =
    lookup-commit ws (txn_delete j ∷ d) k ∙ ap (written ws k) (lookup-delete k j (replay d))

pub memory-IsBadger : IsBadger memory
unfolding memory
memory-IsBadger = record {
  sorted = λ d es e. subst IsSorted (cc e) (replay-IsSorted d);
  committed = λ ws d d' es v u. record {
    entries = replay (commit ws d);
    viewed = cc u;
    holds = λ k. lookup-commit ws d k ∙ cc v;
  };
  discarded = λ ws d d' e u. cc u;
}
