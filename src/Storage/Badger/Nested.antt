-- ===== src/Storage/Badger/Nested.antt =====
-- Names with a colon in internal/storage/badger.go: the prefix of one queue is on the keys of
-- another.
use qwer_q.Common.{
  ℕ, suc, ◌*◌, ◌<◌, ◌≤◌, Bool, true, false, ltb, ◌&&◌, none, some, [], ◌∷◌, ◌++◌, ◌≡◌, refl, sym,
  ap, ◌∙◌, subst, inl, inr, ◌⊎◌, arith, length, drop-append, Bool-cases, Option-cases,
}
use qwer_q.Common.Strings.{Str, str_eq, str_eq_iff}
use qwer_q.Common.Dict.{lookup}
use qwer_q.Broker.Base.{Error, unreadable}
use qwer_q.Broker.Stream.{ok, failed, new_stream_queue, restored_seq}
use qwer_q.Storage.Badger.{
  Badger, Json, colon, scanned, queue_msgs, msg_key, delete_queue_messages, delete_batch_size,
}
use qwer_q.Storage.Badger.Decimal.{padded_decimal, scan_number, scan_decimal}
use qwer_q.Storage.Badger.Padding.{scan_decimal-number}
use qwer_q.Storage.Badger.Laws.{IsBadger}
use qwer_q.Storage.Badger.Log.{target, seek_back-lookup, has_prefix-between}
use qwer_q.Common.Order.{
  lt_bytes, has_prefix, lt_bytes_self, lt_bytes_trans, lt_bytes_total, lt_bytes-append,
  has_prefix-append, has_prefix-eq_append,
}
use qwer_q.Storage.Badger.Scan.{
  Entries, IsSorted, under, seek_back, lookup-head, lookup-tail, lookup-Above, lookup-skip,
  Above-lookup,
}
use qwer_q.Storage.Badger.Sweep.{delete_batches-Swept}
use qwer_q.Storage.Badger.Streams.{
  stream_msgs, stream_key, sequence_in, sequence_at, get_stream_sequence, badger_stream_storage,
}
use mathlib.Core.List.{append_assoc}

-- The name of a queue that is named within another's.
abbrev pub nested : Str → Str → Str
nested outer inner = outer ++ (colon ++ inner)

-- A reverse seek below which a key stands finds one that is not before that key.
record Found (t k : Str) (es : Entries) : Type 0 where
  key : Str
  value : Str
  sought : seek_back t es ≡ some (key, value)
  held : lookup key es ≡ some value
  not_before : lt_bytes key k ≡ false
  not_above : lt_bytes t key ≡ false

seek_back-not_above :
    (t : Str) (es : Entries) (j u : Str) → seek_back t es ≡ some (j, u) → lt_bytes t j ≡ false
unfolding seek_back
seek_back-not_above t [] j u e = cc
seek_back-not_above t ((i, w) ∷ es) j u e = elim (Bool-cases (lt_bytes t i)) [
  | inl b ↦ absurd (cc (e, b))
  | inr b ↦ elim (Option-cases (seek_back t es)) [
    | inl n ↦ let f : some (i, w) ≡ some (j, u) = sym (rw b (rw n refl)) ∙ e in cc (f, b)
    | inr ((k, v), n) ↦
        let f : some (k, v) ≡ some (j, u) = sym (rw b (rw n refl)) ∙ e in
        seek_back-not_above t es j u (n ∙ f)
  ]
]

not_after : (i j : Str) → lt_bytes i j ≡ true → lt_bytes j i ≡ false
not_after i j h = elim (Bool-cases (lt_bytes j i)) [
  | inl b ↦ absurd (cc (lt_bytes_trans i j i h b, lt_bytes_self i))
  | inr b ↦ b
]

seek_back-Found :
    (t k v : Str) (es : Entries)
    → IsSorted es
    → lookup k es ≡ some v
    → lt_bytes t k ≡ false
    → Found t k es
unfolding seek_back
seek_back-Found t k v [] s e h = absurd (cc (e, lookup-Above k [] tt))
seek_back-Found t k v ((i, w) ∷ es) s e h = elim (Bool-cases (str_eq i k)) [
  | inl b ↦
      let f = (str_eq_iff i k).0 b in
      let g = ap (lt_bytes t) f ∙ h in
      subst (λ k. Found t k ((i, w) ∷ es)) f
        (elim (Option-cases (seek_back t es)) [
          | inl n ↦ record {
            key = i;
            value = w;
            sought = rw (g, n) refl;
            held = lookup-head i w es;
            not_before = lt_bytes_self i;
            not_above = g;
          }
          | inr ((j, u), n) ↦
              let r = seek_back-lookup t es j u s.1 n in
              record {
                key = j;
                value = u;
                sought = rw (g, n) refl;
                held = lookup-skip i w j u es s.0 r;
                not_before = not_after i j (Above-lookup i j u es s.0 r);
                not_above = seek_back-not_above t es j u n;
              }
        ])
  | inr b ↦
      let f = sym (lookup-tail i k w es b) ∙ e in
      let r = seek_back-Found t k v es s.1 f h in
      record {
        key = r.key;
        value = r.value;
        sought = rw (target t i k h (Above-lookup i k v es s.0 f), r.sought) refl;
        held = lookup-skip i w r.key r.value es s.0 r.held;
        not_before = r.not_before;
        not_above = r.not_above;
      }
]

-- Keys of ASCII characters.
abbrev pub all_ascii : Str → Bool
all_ascii [] = true
all_ascii (b ∷ s) = ltb b 128 && all_ascii s

abbrev pub ascii_keys : Entries → Bool
ascii_keys [] = true
ascii_keys ((k, v) ∷ es) = all_ascii k && ascii_keys es

all_ascii-append : (s t : Str) → all_ascii (s ++ t) ≡ true → all_ascii t ≡ true
all_ascii-append [] t h = h
all_ascii-append (b ∷ s) t h = all_ascii-append s t (ground (arith, h))

all_ascii-lookup :
    (k v : Str) (es : Entries) → ascii_keys es ≡ true → lookup k es ≡ some v → all_ascii k ≡ true
unfolding lookup
all_ascii-lookup k v [] a e = cc
all_ascii-lookup k v ((j, w) ∷ es) a e = elim (Bool-cases (str_eq j k)) [
  | inl b ↦ ap all_ascii (sym ((str_eq_iff j k).0 b)) ∙ ground (arith, a)
  | inr b ↦ all_ascii-lookup k v es (ground (arith, a)) (rw (b, lookup) at e)
]

not_number : (b : ℕ) (s : Str) → 57 < b → b < 128 → scan_decimal (b ∷ s) ≡ none
unfolding scan_number
not_number b s h l = scan_decimal-number b s (omega arith) l ∙ ground arith

letter :
    (x : Str) (b : ℕ) (s : Str)
    → 57 < b
    → all_ascii x ≡ true
    → lt_bytes x (b ∷ s) ≡ false
    → scan_decimal x ≡ none
unfolding lt_bytes
letter [] b s h a l = cc
letter (c ∷ x) b s h a l = not_number c x (ground arith) (ground (arith, a))

-- What does not stand before a letter starts with one.
sequence_at-letter :
    (queue k v s : Str) (b : ℕ)
    → 57 < b
    → has_prefix (stream_msgs queue) k ≡ true
    → all_ascii k ≡ true
    → lt_bytes k (stream_msgs queue ++ (b ∷ s)) ≡ false
    → sequence_at queue (some (k, v)) ≡ failed unreadable
unfolding sequence_at scanned
sequence_at-letter queue k v s b h p a l =
    let (x, e) = has_prefix-eq_append (stream_msgs queue) k p in
    rw p (
      ap (λ k. sequence_in queue k) e
      ∙ ap (λ x. scanned (scan_decimal x)) (drop-append (stream_msgs queue) x)
      ∙ ap scanned (
          letter x b s h (all_ascii-append (stream_msgs queue) x (ap all_ascii (sym e) ∙ a)) (
            sym (lt_bytes-append (stream_msgs queue) x (b ∷ s))
            ∙ ap (λ k. lt_bytes k (stream_msgs queue ++ (b ∷ s))) (sym e)
            ∙ l)))

Found-prefix :
    (p x : Str) (b : ℕ) (es : Entries) (f : Found (p ++ (255 ∷ [])) (p ++ (b ∷ x)) es)
    → has_prefix p f.key ≡ true
Found-prefix p x b es f = elim (lt_bytes_total f.key (p ++ (b ∷ x))) [
  | inl l ↦ absurd (cc (l, f.not_before))
  | inr (inl e) ↦ ap (has_prefix p) e ∙ has_prefix-append p (b ∷ x)
  | inr (inr l) ↦
      has_prefix-between p (p ++ (b ∷ x)) f.key (255 ∷ []) (has_prefix-append p (b ∷ x)) l
        f.not_above
]

below_255 : (b : ℕ) (x : Str) → b < 255 → lt_bytes (255 ∷ []) (b ∷ x) ≡ false
unfolding lt_bytes
below_255 b x h = ground arith

get_stream_sequence-letter :
    {D : Type 0} (db : Badger D) (queue : Str) (b : ℕ) (x v : Str) (d : D) (es : Entries)
    → IsBadger db
    → db.view d ≡ ok es
    → 57 < b
    → ascii_keys es ≡ true
    → lookup (stream_msgs queue ++ (b ∷ x)) es ≡ some v
    → get_stream_sequence db queue d ≡ failed unreadable
unfolding get_stream_sequence
get_stream_sequence-letter db queue b x v d es laws w h a e =
    let here =
      all_ascii-append (stream_msgs queue) (b ∷ x)
        (all_ascii-lookup (stream_msgs queue ++ (b ∷ x)) v es a e) in
    let low : b < 255 = ground (arith, here) in
    let f =
      seek_back-Found (stream_msgs queue ++ (255 ∷ [])) (stream_msgs queue ++ (b ∷ x)) v es
        (laws.sorted d es w) e
        (lt_bytes-append (stream_msgs queue) (255 ∷ []) (b ∷ x) ∙ below_255 b x low) in
    rw w (
      ap (sequence_at queue) f.sought
      ∙ sequence_at-letter queue f.key f.value x b h (Found-prefix (stream_msgs queue) x b es f)
          (all_ascii-lookup f.key f.value es a f.held) f.not_before)

stream_key-nested :
    (outer inner : Str) (s : ℕ)
    → stream_key (nested outer inner) s
      ≡ stream_msgs outer ++ (inner ++ (colon ++ padded_decimal s))
stream_key-nested outer inner s = simp append_assoc

-- On a database that keeps its laws and has keys of ASCII characters alone, a message that is
-- stored of a stream whose name is the name of another, a colon, and a text whose first byte is
-- above the digits, makes the other stream start again at sequence 1, whatever its own log holds.
pub new_stream_queue-restarts :
    {D : Type 0} (db : Badger D) (json : Json) (queue inner v : Str) (b seq : ℕ) (d : D)
    (es : Entries)
    → IsBadger db
    → db.view d ≡ ok es
    → 57 < b
    → ascii_keys es ≡ true
    → lookup (stream_key (nested queue (b ∷ inner)) seq) es ≡ some v
    → (new_stream_queue queue (some (badger_stream_storage db json)) d).next_seq ≡ 1
unfolding new_stream_queue badger_stream_storage restored_seq
new_stream_queue-restarts db json queue inner v b seq d es laws w h l e = ap restored_seq (
    get_stream_sequence-letter db queue b (inner ++ (colon ++ padded_decimal seq)) v d es laws w h l
      (ap (λ k. lookup k es) (sym (stream_key-nested queue (b ∷ inner) seq)) ∙ e))

msg_key-nested :
    (outer inner id : Str)
    → msg_key (nested outer inner) id ≡ queue_msgs outer ++ (inner ++ (colon ++ id))
msg_key-nested outer inner id = simp append_assoc

-- Deleting the messages of a queue deletes those of the queues named within its name.
pub delete_queue_messages-nested :
    {D : Type 0} (db : Badger D) (n : ℕ) (queue inner id : Str) (d : D) (es : Entries)
    → IsBadger db
    → db.view d ≡ ok es
    → length (under (queue_msgs queue) es) ≤ n * delete_batch_size
    → ((d' : D) × (es' : Entries) × (delete_queue_messages db (suc n) queue d ≡ some (d', none))
        × (db.view d' ≡ ok es')
        × (lookup (msg_key (nested queue inner) id) es' ≡ none))
      ⊎ ((d' : D) × (e : Error) × (delete_queue_messages db (suc n) queue d ≡ some (d', some e)))
delete_queue_messages-nested db n queue inner id d es laws v h =
    elim (delete_batches-Swept db laws n (queue_msgs queue) d es v h) [
      | inl (d', e, c) ↦ inl (
        d',
        c.entries,
        e,
        c.viewed,
        c.holds (msg_key (nested queue inner) id)
            ∙ rw
                (ap (has_prefix (queue_msgs queue)) (msg_key-nested queue inner id)
                  ∙ has_prefix-append (queue_msgs queue) (inner ++ (colon ++ id)))
                refl,
      )
      | inr (d', x, e, c) ↦ inr (d', x, e)
    ]
