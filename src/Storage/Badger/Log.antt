-- ===== src/Storage/Badger/Log.antt =====
-- The log of one stream in the entries of internal/storage/badger.go, and the sequence that
-- `GetStreamSequence` reads off its last key.
use qwer_q.Common.{
  ℕ, zero, suc, ◌^◌, ◌<◌, true, false, none, some, [], ◌∷◌, ◌++◌, ◌≡◌, refl, sym, ap, ◌∙◌, subst,
  inl, inr, ◌⊎◌, arith, ltb, drop-append, Bool-cases, Option-cases, ltb→lt,
}
use qwer_q.Common.Strings.{Str, str_eq, str_eq_iff}
use qwer_q.Common.Dict.{lookup}
use qwer_q.Broker.Stream.{ok}
use qwer_q.Storage.Badger.{Badger, scanned}
use qwer_q.Storage.Badger.Decimal.{padded_decimal, scan_decimal}
use qwer_q.Storage.Badger.Laws.{IsBadger}
use qwer_q.Common.Order.{
  lt_bytes, has_prefix, lt_bytes_trans, lt_bytes_total, lt_bytes-append, has_prefix-append,
  has_prefix-below, has_prefix-left,
}
use qwer_q.Storage.Badger.Padding.{lt_bytes-padded, scan_decimal-padded, lt_bytes-255}
use qwer_q.Storage.Badger.Scan.{
  Entries, IsSorted, seek_back, not_below, lookup-skip, Above-lookup, lookup-head, lookup-tail,
  lookup-Above,
}
use qwer_q.Storage.Badger.Streams.{
  stream_msgs, stream_key, sequence_in, sequence_at, get_stream_sequence,
}

prefix_not_below : (p j : Str) → has_prefix p j ≡ true → lt_bytes j p ≡ false
prefix_not_below p j h = elim (Bool-cases (lt_bytes j p)) [
  | inl b ↦ absurd (cc (has_prefix-below p j b, h))
  | inr b ↦ b
]

-- What stands between two keys, the lower one and a longer string with a prefix, has it too.
pub has_prefix-between :
    (p j k x : Str)
    → has_prefix p j ≡ true
    → lt_bytes j k ≡ true
    → lt_bytes (p ++ x) k ≡ false
    → has_prefix p k ≡ true
has_prefix-between p j k x h l n = elim (Bool-cases (has_prefix p k)) [
  | inl b ↦ b
  | inr b ↦ elim (lt_bytes_total k (p ++ x)) [
    | inl m ↦ absurd (
        cc (
          has_prefix-left p k (p ++ x) (not_below p j k (prefix_not_below p j h) l) b m,
          has_prefix-append p x,
        ))
    | inr (inl e) ↦ ap (has_prefix p) e ∙ has_prefix-append p x
    | inr (inr m) ↦ absurd (cc (m, n))
  ]
]

-- What a reverse seek stands at is an entry.
pub seek_back-lookup :
    (t : Str) (es : Entries) (k v : Str)
    → IsSorted es
    → seek_back t es ≡ some (k, v)
    → lookup k es ≡ some v
unfolding seek_back
seek_back-lookup t [] k v s e = cc
seek_back-lookup t ((i, w) ∷ es) k v s e = elim (Bool-cases (lt_bytes t i)) [
  | inl b ↦ absurd (cc (e, b))
  | inr b ↦ elim (Option-cases (seek_back t es)) [
    | inl n ↦
        let f : some (i, w) ≡ some (k, v) = sym (rw b (rw n refl)) ∙ e in cc (lookup-head i w es, f)
    | inr ((j, u), n) ↦
        let f : some (j, u) ≡ some (k, v) = sym (rw b (rw n refl)) ∙ e in
        lookup-skip i w k v es s.0 (seek_back-lookup t es k v s.1 (n ∙ f))
  ]
]

seek_back-above :
    (t : Str) (es : Entries)
    → ((j u : Str) → lookup j es ≡ some u → lt_bytes t j ≡ true)
    → seek_back t es ≡ none
unfolding seek_back
seek_back-above t [] a = refl
seek_back-above t ((j, u) ∷ es) a = rw (a j u (lookup-head j u es)) refl

-- A target that is not below a key is not below the keys before it.
pub target : (t i k : Str) → lt_bytes t k ≡ false → lt_bytes i k ≡ true → lt_bytes t i ≡ false
target t i k h l = elim (Bool-cases (lt_bytes t i)) [
  | inl b ↦ absurd (cc (lt_bytes_trans t i k b l, h))
  | inr b ↦ b
]

-- It stands at the last entry that is not above its target.
seek_back-last :
    (t : Str) (es : Entries) (k v : Str)
    → IsSorted es
    → lookup k es ≡ some v
    → lt_bytes t k ≡ false
    → ((j w : Str) → lookup j es ≡ some w → lt_bytes k j ≡ true → lt_bytes t j ≡ true)
    → seek_back t es ≡ some (k, v)
unfolding seek_back
seek_back-last t [] k v s e h a = absurd (cc (e, lookup-Above k [] tt))
seek_back-last t ((i, w) ∷ es) k v s e h a = elim (Bool-cases (str_eq i k)) [
  | inl b ↦
      let f = (str_eq_iff i k).0 b in
      let g : some w ≡ some v = sym (lookup-head i w es) ∙ ap (λ k. lookup k ((i, w) ∷ es)) f ∙ e in
      rw
        (
          ap (lt_bytes t) f ∙ h,
          seek_back-above t es λ j u r.
              a j u (lookup-skip i w j u es s.0 r)
                (subst (λ k. lt_bytes k j ≡ true) f (Above-lookup i j u es s.0 r)),
        )
        (cc (f, g))
  | inr b ↦
      let f = sym (lookup-tail i k w es b) ∙ e in
      rw
        (
          target t i k h (Above-lookup i k v es s.0 f),
          seek_back-last t es k v s.1 f h λ j u r. a j u (lookup-skip i w j u es s.0 r),
        )
        refl
]

-- The log of a stream up to `next`: what stands under its prefix is keyed by sequences below, and
-- the last of them is there, unless the log is empty.
pub record Log (queue : Str) (next : ℕ) (es : Entries) : Type 0 where
  pub within :
      (k v : Str)
      → lookup k es ≡ some v
      → has_prefix (stream_msgs queue) k ≡ true
      → (s : ℕ) × (k ≡ stream_key queue s) × (s < next)
  pub newest :
      ((next ≡ 1) × ((k : Str) → has_prefix (stream_msgs queue) k ≡ true → lookup k es ≡ none))
      ⊎ ((s : ℕ) × (v : Str) × (next ≡ suc s) × (0 < s) × (lookup (stream_key queue s) es ≡ some v))

-- The sequence below `next`.
abbrev pub below_next : ℕ → ℕ
below_next zero = 0
below_next (suc s) = s

stream_key-last :
    (queue : Str) (s : ℕ) → lt_bytes (stream_msgs queue ++ (255 ∷ [])) (stream_key queue s) ≡ false
stream_key-last queue s =
    lt_bytes-append (stream_msgs queue) (255 ∷ []) (padded_decimal s) ∙ lt_bytes-255 20 s

lt_bytes-stream_key :
    (queue : Str) (r s : ℕ)
    → r < 2 ^ 64
    → s < 2 ^ 64
    → lt_bytes (stream_key queue r) (stream_key queue s) ≡ ltb r s
lt_bytes-stream_key queue r s h k =
    lt_bytes-append (stream_msgs queue) (padded_decimal r) (padded_decimal s)
    ∙ lt_bytes-padded 20 r s (omega arith) (omega arith)

sequence_in-stream_key :
    (queue : Str) (s : ℕ) → s < 2 ^ 64 → sequence_in queue (stream_key queue s) ≡ ok s
unfolding scanned
sequence_in-stream_key queue s h =
    ap (λ k. scanned (scan_decimal k)) (drop-append (stream_msgs queue) (padded_decimal s))
    ∙ ap scanned (scan_decimal-padded s h)

-- Nothing of a log stands above its newest entry.
above_newest :
    (queue : Str) (s : ℕ) (es : Entries)
    → s < 2 ^ 64
    → Log queue (suc s) es
    → (j w : Str) → lookup j es ≡ some w
    → lt_bytes (stream_key queue s) j ≡ true
    → lt_bytes (stream_msgs queue ++ (255 ∷ [])) j ≡ true
above_newest queue s es h l j w e k =
    elim (Bool-cases (lt_bytes (stream_msgs queue ++ (255 ∷ [])) j)) [
      | inl b ↦ b
      | inr b ↦
          let p =
            has_prefix-between (stream_msgs queue) (stream_key queue s) j (255 ∷ [])
              (has_prefix-append (stream_msgs queue) (padded_decimal s)) k b in
          let (r, f, g) = l.within j w e p in
          let c : ltb s r ≡ true =
            sym (lt_bytes-stream_key queue s r h (omega arith))
            ∙ ap (lt_bytes (stream_key queue s)) (sym f)
            ∙ k in
          absurd (omega (arith, ltb→lt s r c))
    ]

sequence_at-none : (queue : Str) → sequence_at queue none ≡ ok 0
unfolding sequence_at
sequence_at-none queue = refl

sequence_at-other :
    (queue k v : Str)
    → has_prefix (stream_msgs queue) k ≡ false
    → sequence_at queue (some (k, v)) ≡ ok 0
unfolding sequence_at
sequence_at-other queue k v h = rw h refl

sequence_at-own :
    (queue v : Str) (s : ℕ) → s < 2 ^ 64 → sequence_at queue (some (stream_key queue s, v)) ≡ ok s
unfolding sequence_at
sequence_at-own queue v s h =
    rw (has_prefix-append (stream_msgs queue) (padded_decimal s)) (sequence_in-stream_key queue s h)

-- An iterator that does not stand in the stream shows an empty one.
sequence_at-empty :
    (queue t : Str) (es : Entries)
    → IsSorted es
    → ((k : Str) → has_prefix (stream_msgs queue) k ≡ true → lookup k es ≡ none)
    → sequence_at queue (seek_back t es) ≡ ok 0
sequence_at-empty queue t es o n = elim (Option-cases (seek_back t es)) [
  | inl e ↦ ap (sequence_at queue) e ∙ sequence_at-none queue
  | inr ((k, v), e) ↦ elim (Bool-cases (has_prefix (stream_msgs queue) k)) [
    | inl b ↦ absurd (cc (seek_back-lookup t es k v o e, n k b))
    | inr b ↦ ap (sequence_at queue) e ∙ sequence_at-other queue k v b
  ]
]

sequence_at-log :
    (queue : Str) (next : ℕ) (es : Entries)
    → IsSorted es
    → next < 2 ^ 64
    → Log queue next es
    → sequence_at queue (seek_back (stream_msgs queue ++ (255 ∷ [])) es) ≡ ok (below_next next)
sequence_at-log queue next es o h l = elim l.newest [
  | inl (e, n) ↦
      sequence_at-empty queue (stream_msgs queue ++ (255 ∷ [])) es o n
      ∙ ap (λ n. ok (below_next n)) (sym e)
  | inr (s, v, e, pos, f) ↦
      ap (sequence_at queue) (
        seek_back-last (stream_msgs queue ++ (255 ∷ [])) es (stream_key queue s) v o f
          (stream_key-last queue s)
          (above_newest queue s es (omega arith) (subst (λ n. Log queue n es) e l)))
      ∙ sequence_at-own queue v s (omega arith)
      ∙ ap (λ n. ok (below_next n)) (sym e)
]

-- `GetStreamSequence` gives the sequence below `next`, which is the newest one, or 0.
pub get_stream_sequence-Log :
    {D : Type 0} (db : Badger D) (queue : Str) (next : ℕ) (d : D) (es : Entries)
    → IsBadger db
    → db.view d ≡ ok es
    → next < 2 ^ 64
    → Log queue next es
    → get_stream_sequence db queue d ≡ ok (below_next next)
unfolding get_stream_sequence
get_stream_sequence-Log db queue next d es laws v h l =
    rw v (sequence_at-log queue next es (laws.sorted d es v) h l)
