-- ===== src/Storage/Badger/Sweep.antt =====
-- `DeleteQueueMessages` of internal/storage/badger.go comes to an end, in one round for each
-- `delete_batch_size` entries and one more.
use qwer_q.Common.{
  ℕ, zero, suc, ◌*◌, ◌≤◌, true, false, Option, none, some, List, [], ◌∷◌, map, if◌then◌else◌, ◌≡◌,
  refl, sym, ap, ◌∙◌, subst, inl, inr, ◌⊎◌, arith, length, take, drop, length-drop, Bool-cases,
}
use qwer_q.Common.Strings.{Str, str_eq, str_eq_iff}
use qwer_q.Common.Dict.{lookup, keys}
use qwer_q.Broker.Base.{Error}
use qwer_q.Broker.Stream.{ok}
use qwer_q.Storage.Badger.{
  Badger, Write, txn_delete, delete_batch_size, batch, after_round, delete_keys, delete_batches,
}
use qwer_q.Storage.Badger.Laws.{written, IsBadger, Shows, written-delete_none}
use qwer_q.Common.Order.{has_prefix}
use qwer_q.Storage.Badger.Scan.{
  Entries, IsSorted, under, scan-under, lookup-under, under-IsSorted, drop-IsSorted, lookup-Above,
  drop-Above, under_nothing, sorted_ext,
}

-- Deleting the first keys of sorted entries drops the first entries.
lookup-drop :
    (n : ℕ) (xs : Entries) (k : Str)
    → IsSorted xs
    → lookup k (drop n xs) ≡ written (map txn_delete (take n (keys xs))) k (lookup k xs)
unfolding lookup written
lookup-drop zero xs k s = refl
lookup-drop (suc n) [] k s = refl
lookup-drop (suc n) ((i, v) ∷ xs) k s = elim (Bool-cases (str_eq i k)) [
  | inl b ↦ rw b (
      subst (λ k. lookup k (drop n xs) ≡ none) ((str_eq_iff i k).0 b)
        (lookup-Above i (drop n xs) (drop-Above n i xs s.0))
      ∙ sym (written-delete_none (take n (keys xs)) k))
  | inr b ↦ rw b (lookup-drop n xs k s.1)
]

-- Keys under a prefix are deleted, and no other.
written-under :
    (p : Str) (n : ℕ) (es : Entries) (k : Str) (v : Option Str)
    → has_prefix p k ≡ false
    → written (map txn_delete (take n (keys (under p es)))) k v ≡ v
unfolding written under
written-under p zero es k v h = refl
written-under p (suc n) [] k v h = refl
written-under p (suc n) ((i, w) ∷ es) k v h = elim (Bool-cases (has_prefix p i)) [
  | inl b ↦ rw b (elim (Bool-cases (str_eq i k)) [
    | inl c ↦ absurd (cc (b, h, ap (has_prefix p) ((str_eq_iff i k).0 c)))
    | inr c ↦ rw c (written-under p n es k v h)
  ])
  | inr b ↦ rw b (written-under p (suc n) es k v h)
]

-- Deletions leave a key's value, or nothing.
written-delete :
    (ks : List Str) (k : Str) (v : Option Str)
    → (written (map txn_delete ks) k v ≡ v) ⊎ (written (map txn_delete ks) k v ≡ none)
unfolding written
written-delete [] k v = inl refl
written-delete (j ∷ ks) k v = elim (Bool-cases (str_eq j k)) [
  | inl b ↦ inr (rw (b, written) (written-delete_none ks k))
  | inr b ↦ rw (b, written) (written-delete ks k v)
]

-- The transaction of a round.
abbrev round : Str → Entries → List Write
round p es = map txn_delete (batch p es)

-- The same, in the entries under the prefix.
abbrev deletes : Str → Entries → List Write
deletes p es = map txn_delete (take delete_batch_size (keys (under p es)))

lookup-drop-under :
    (p : Str) (es : Entries) (k : Str)
    → IsSorted es
    → (if has_prefix p k then written (deletes p es) k (lookup k es) else none)
      ≡ lookup k (drop delete_batch_size (under p es))
lookup-drop-under p es k s = sym (
    lookup-drop delete_batch_size (under p es) k (under-IsSorted p es s)
    ∙ ap (written (deletes p es) k) (lookup-under p k es)
    ∙ elim (Bool-cases (has_prefix p k)) [
      | inl b ↦ rw b refl
      | inr b ↦ rw b (written-delete_none (take delete_batch_size (keys (under p es))) k)
    ])

no_keys : (xs : Entries) → take delete_batch_size (keys xs) ≡ [] → xs ≡ []
no_keys [] e = refl
no_keys (x ∷ xs) e = cc

no_length : (xs : Entries) → length xs ≤ 0 → xs ≡ []
no_length [] h = refl
no_length (x ∷ xs) h = absurd (omega arith)

-- The state that a call leaves shows nothing under the prefix, and all else.
pub record Cleared {D : Type 0} (db : Badger D) (p : Str) (es : Entries) (d : D) : Type 0 where
  pub entries : Entries
  pub viewed : db.view d ≡ ok entries
  pub holds : (k : Str) → lookup k entries ≡ (if has_prefix p k then none else lookup k es)

-- The state that a call leaves shows each entry as it was, but for some under the prefix, which are
-- gone.
pub record Partly {D : Type 0} (db : Badger D) (p : Str) (es : Entries) (d : D) : Type 0 where
  pub entries : Entries
  pub viewed : db.view d ≡ ok entries
  pub holds :
      (k : Str)
      → (lookup k entries ≡ lookup k es) ⊎ ((has_prefix p k ≡ true) × (lookup k entries ≡ none))

-- Where nothing is under the prefix, nothing changes.
kept :
    (p : Str) (es : Entries)
    → under p es ≡ []
    → (k : Str) → lookup k es ≡ (if has_prefix p k then none else lookup k es)
kept p es e k = elim (Bool-cases (has_prefix p k)) [
  | inl b ↦ rw b (under_nothing p k es e b)
  | inr b ↦ rw b refl
]

module _ {D : Type 0} (db : Badger D) (laws : IsBadger db) where
  holds-deletes :
      (p : Str) (es : Entries) (d' : D)
      → IsSorted es
      → (r : Shows db (round p es) es d') (k : Str)
      → lookup k r.entries ≡ written (deletes p es) k (lookup k es)
  holds-deletes p es d' s r k =
      r.holds k
      ∙ ap (λ xs. written (map txn_delete (take delete_batch_size (keys xs))) k (lookup k es))
          (scan-under p es s)

  -- What one round leaves under the prefix.
  under-round :
      (p : Str) (es : Entries) (d' : D)
      → IsSorted es
      → (r : Shows db (round p es) es d') → under p r.entries ≡ drop delete_batch_size (under p es)
  under-round p es d' s r =
      sorted_ext (under p r.entries) (drop delete_batch_size (under p es))
        (under-IsSorted p r.entries (laws.sorted d' r.entries r.viewed))
        (drop-IsSorted delete_batch_size (under p es) (under-IsSorted p es s))
        λ k.
          lookup-under p k r.entries
          ∙ ap (λ v. if has_prefix p k then v else none) (holds-deletes p es d' s r k)
          ∙ lookup-drop-under p es k s

  -- A round leaves the keys without the prefix alone.
  round-others :
      (p : Str) (es : Entries) (d' : D)
      → IsSorted es
      → (r : Shows db (round p es) es d') (k : Str) → has_prefix p k ≡ false
      → lookup k r.entries ≡ lookup k es
  round-others p es d' s r k h =
      holds-deletes p es d' s r k ∙ written-under p delete_batch_size es k (lookup k es) h

  -- A round deletes under the prefix alone.
  round-Partly :
      (p : Str) (es : Entries) (d' : D)
      → IsSorted es
      → (r : Shows db (round p es) es d') (k : Str)
      → (lookup k r.entries ≡ lookup k es) ⊎ ((has_prefix p k ≡ true) × (lookup k r.entries ≡ none))
  round-Partly p es d' s r k = elim (Bool-cases (has_prefix p k)) [
    | inr b ↦ inl (round-others p es d' s r k b)
    | inl b ↦ elim (written-delete (batch p es) k (lookup k es)) [
      | inl e ↦ inl (r.holds k ∙ e)
      | inr e ↦ inr (b, r.holds k ∙ e)
    ]
  ]

  -- The result of the call: it cleared the prefix, or a transaction failed on the way.
  abbrev pub Swept : Str → Entries → Option (D × Option Error) → Type 0
  Swept p es r =
      ((d : D) × (r ≡ some (d, none)) × Cleared db p es d)
      ⊎ ((d : D) × (e : Error) × (r ≡ some (d, some e)) × Partly db p es d)

  delete_batches-view :
      (n : ℕ) (p : Str) (d : D) (es : Entries)
      → db.view d ≡ ok es
      → delete_batches db (suc n) p d ≡ delete_keys db (delete_batches db n p) (batch p es) d
  unfolding delete_batches delete_keys
  delete_batches-view n p d es v = rw (v, delete_batches) refl

  -- No key is found only where nothing is left.
  nothing_left : (p : Str) (es : Entries) → IsSorted es → batch p es ≡ [] → under p es ≡ []
  nothing_left p es s e =
      no_keys (under p es)
        (sym (ap (λ xs. take delete_batch_size (keys xs)) (scan-under p es s)) ∙ e)

  cleared_next :
      (p : Str) (es es' : Entries)
      → ((k : Str) → has_prefix p k ≡ false → lookup k es' ≡ lookup k es)
      → ((k : Str)
          → (lookup k es' ≡ lookup k es) ⊎ ((has_prefix p k ≡ true) × (lookup k es' ≡ none)))
      → (r : Option (D × Option Error)) → Swept p es' r
      → Swept p es r
  cleared_next p es es' h g r (inl (d, e, c)) = inl (
    d,
    e,
    record {
      entries = c.entries;
      viewed = c.viewed;
      holds = λ k. elim (Bool-cases (has_prefix p k)) [
        | inl b ↦ c.holds k ∙ rw b refl
        | inr b ↦ c.holds k ∙ rw b (h k b)
      ];
    },
  )
  cleared_next p es es' h g r (inr (d, x, e, c)) = inr (
    d,
    x,
    e,
    record {
      entries = c.entries;
      viewed = c.viewed;
      holds = λ k. elim (c.holds k) [
        | inr gone ↦ inr gone
        | inl same ↦ elim (g k) [ inl e ↦ inl (same ∙ e) | inr (b, e) ↦ inr (b, same ∙ e) ]
      ];
    },
  )

  -- The rounds that may follow a round on `es`.
  abbrev Continues : Str → Entries → (D → Option (D × Option Error)) → Type 0
  Continues p es continue =
      (d : D) (es' : Entries)
      → db.view d ≡ ok es'
      → under p es' ≡ drop delete_batch_size (under p es)
      → Swept p es' (continue d)

  after_round-Swept :
      (p : Str) (d : D) (es : Entries) (continue : D → Option (D × Option Error))
      → db.view d ≡ ok es
      → Continues p es continue
      → (r : D × Option Error) → db.update (round p es) d ≡ r
      → Swept p es (after_round continue r)
  unfolding after_round
  after_round-Swept p d es continue v c (d', some e) u = inr (
    d',
    e,
    refl,
    record {
      entries = es;
      viewed = laws.discarded (round p es) d d' e u ∙ v;
      holds = λ k. inl refl;
    },
  )
  after_round-Swept p d es continue v c (d', none) u =
      let s = laws.sorted d es v in
      let r = laws.committed (round p es) d d' es v u in
      cleared_next p es r.entries (round-others p es d' s r) (round-Partly p es d' s r)
        (continue d') (c d' r.entries r.viewed (under-round p es d' s r))

  delete_keys-Swept :
      (p : Str) (d : D) (es : Entries) (continue : D → Option (D × Option Error))
      → db.view d ≡ ok es
      → Continues p es continue
      → (ks : List Str) → batch p es ≡ ks
      → Swept p es (delete_keys db continue ks d)
  unfolding delete_keys
  delete_keys-Swept p d es continue v c [] e = inl (
    d,
    refl,
    record {
      entries = es;
      viewed = v;
      holds = kept p es (nothing_left p es (laws.sorted d es v) e);
    },
  )
  delete_keys-Swept p d es continue v c (k ∷ ks) e =
      after_round-Swept p d es continue v c (db.update (map txn_delete (k ∷ ks)) d)
        (ap (λ ks. db.update (map txn_delete ks) d) e)

  no_batch : (p : Str) (es : Entries) → IsSorted es → length (under p es) ≤ 0 → batch p es ≡ []
  no_batch p es s h =
      ap (λ xs. take delete_batch_size (keys xs)) (scan-under p es s ∙ no_length (under p es) h)

  done :
      (p : Str) (continue : D → Option (D × Option Error)) (d : D) (es : Entries)
      → db.view d ≡ ok es
      → length (under p es) ≤ 0
      → Swept p es (delete_keys db continue [] d)
  unfolding delete_keys
  done p continue d es v h =
      inl
        (d, refl, record { entries = es; viewed = v; holds = kept p es (no_length (under p es) h) })

  -- On a database that keeps its laws `DeleteQueueMessages` comes to an end within one round for
  -- each `delete_batch_size` entries of the prefix, and one more: it has deleted what is under the
  -- prefix and nothing else, or a transaction failed, and each entry is as it was or is gone, those
  -- without the prefix all as they were.
  pub delete_batches-Swept :
      (n : ℕ) (p : Str) (d : D) (es : Entries)
      → db.view d ≡ ok es
      → length (under p es) ≤ n * delete_batch_size
      → Swept p es (delete_batches db (suc n) p d)
  delete_batches-Swept zero p d es v h =
      subst (Swept p es) (sym (delete_batches-view zero p d es v)) (
        subst (λ ks. Swept p es (delete_keys db (delete_batches db 0 p) ks d))
          (sym (no_batch p es (laws.sorted d es v) h)) (done p (delete_batches db 0 p) d es v h))
  delete_batches-Swept (suc n) p d es v h =
      subst (Swept p es) (sym (delete_batches-view (suc n) p d es v)) (
        delete_keys-Swept p d es (delete_batches db (suc n) p) v
          (λ d' es' v' e.
            delete_batches-Swept n p d' es' v'
              (omega (arith, ap length e, length-drop delete_batch_size (under p es), h)))
          (batch p es) refl)
