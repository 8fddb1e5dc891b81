-- ===== src/Storage/Badger/Load.antt =====
-- `LoadMessages` of internal/storage/badger.go gives back what is stored of a queue.
use qwer_q.Common.{
  Bool, true, false, ◌&&◌, Option, none, some, List, [], ◌∷◌, map, if◌then◌else◌, ◌≡◌, refl, sym,
  ap, ◌∙◌, subst, inl, inr, ◌⊎◌, All, Bool-cases, Option-cases,
}
use qwer_q.Common.Strings.{Str, str_eq, str_eq_iff}
use qwer_q.Common.Dict.{lookup}
use qwer_q.Types.{Message}
use qwer_q.Broker.Stream.{Fallible, ok}
use qwer_q.Storage.Codec.{encode_message}
use qwer_q.Storage.Codec.RoundTrip.{IsStorable, decode_message-encode_message}
use qwer_q.Storage.Badger.{
  Badger, Json, queue_msgs, msg_key, blank, readable, load_entry, collect, load_messages,
}
use qwer_q.Storage.Badger.Keys.{IsPlain, str_eq-msg_key_same, drop-msg_key, lt_bytes-msg_key}
use qwer_q.Storage.Badger.Laws.{IsBadger}
use qwer_q.Common.Order.{has_prefix, has_prefix-append, has_prefix-eq_append, lt_bytes}
use qwer_q.Storage.Badger.Refine.{
  Store, StoreCall, save, remove, clear, promised, Implements, encoded,
}
use qwer_q.Storage.Badger.Scan.{
  Entries, IsSorted, Above, under, scan-under, under-IsSorted, lookup-under_in, lookup-under_out,
  lookup-head, lookup-tail, lookup-Above,
}

-- The first message with the identifier.
unfoldable pub find : Str → List Message → Option Message
find i [] = none
find i (m ∷ ms) = if str_eq m.id i then some m else find i ms

-- In the order of the identifiers, none twice.
abbrev pub Ordered : List Message → Type 0
Ordered [] = Unit
Ordered (m ∷ ms) = All (λ n. lt_bytes m.id n.id ≡ true) ms × Ordered ms

-- What is stored under a queue and an identifier has them, and can be written.
abbrev pub IsStored : Store → Type 0
IsStored a = (q i : Str) (m : Message) → a q i ≡ some m → IsStorable m × (m.queue ≡ q) × (m.id ≡ i)

-- Calls that save what can be written keep that so.
abbrev pub CanWrite : StoreCall → Type 0
CanWrite (save m) = IsStorable m
CanWrite (remove q i) = Unit
CanWrite (clear q) = Unit

chosen :
    (b : Bool) (v x : Option Message) (m : Message)
    → (if b then v else x) ≡ some m
    → ((b ≡ true) × (v ≡ some m)) ⊎ (x ≡ some m)
chosen true v x m e = inl (refl, e)
chosen false v x m e = inr e

both_true : (b c : Bool) → (b && c) ≡ true → (b ≡ true) × (c ≡ true)
both_true true true h = (refl, refl)
both_true true false h = (refl, h)
both_true false c h = (h, cc)

pub promised-IsStored :
    (c : StoreCall) (a : Store) → CanWrite c → IsStored a → IsStored (promised c a)
unfolding promised
promised-IsStored (save n) a w s q i m e =
    elim (chosen (str_eq n.queue q && str_eq n.id i) (some n) (a q i) m e) [
      | inl (b, f) ↦
          let (x, y) = both_true (str_eq n.queue q) (str_eq n.id i) b in
          let g : n ≡ m = cc f in
          (
            subst IsStorable g w,
            ap (λ m. m.queue) (sym g) ∙ (str_eq_iff n.queue q).0 x,
            ap (λ m. m.id) (sym g) ∙ (str_eq_iff n.id i).0 y,
          )
      | inr f ↦ s q i m f
    ]
promised-IsStored (remove r j) a w s q i m e =
    elim (chosen (str_eq r q && str_eq j i) none (a q i) m e) [
      | inl (b, f) ↦ absurd (cc f)
      | inr f ↦ s q i m f
    ]
promised-IsStored (clear r) a w s q i m e = elim (chosen (str_eq r q) none (a q i) m e) [
  | inl (b, f) ↦ absurd (cc f)
  | inr f ↦ s q i m f
]

abbrev entry : Str → Message → Str × Str
entry q m = (msg_key q m.id, encode_message m)

-- An entry of the queue with what it holds.
abbrev Holding : Str → Store → Str × Str → Type 0
Holding q a e =
    (m : Message) × (e.0 ≡ msg_key q m.id) × (e.1 ≡ encode_message m) × (a q m.id ≡ some m)

load_entry-entry :
    (json : Json) (q : Str) (m : Message)
    → IsStorable m
    → m.queue ≡ q
    → load_entry json q (entry q m) ≡ ok m
unfolding load_entry readable
load_entry-entry json q m s e =
    ap readable (decode_message-encode_message json.unmarshal_legacy m (blank _ q) s)
    ∙ ap (λ i. ok (record m { id = i; queue = q })) (drop-msg_key q m.id)
    ∙ ap (λ r. ok (record m { queue = r })) (sym e)

All-sorted :
    (P : Str × Str → Type 0) (es : Entries)
    → IsSorted es
    → ((k v : Str) → lookup k es ≡ some v → P (k, v))
    → All P es
All-sorted P [] s h = tt
All-sorted P ((k, v) ∷ es) s h = (
  h k v (lookup-head k v es),
  All-sorted P es s.1 λ j w e. elim (Bool-cases (str_eq k j)) [
    | inl b ↦ absurd (cc (e, lookup-Above k es s.0, ap (λ j. lookup j es) ((str_eq_iff k j).0 b)))
    | inr b ↦ h j w (lookup-tail k j v es b ∙ e)
  ],
)

-- Each entry under the queue's prefix holds one of its messages.
Holding-under :
    (q : Str) (a : Store) (es : Entries)
    → IsPlain q
    → IsStored a
    → ((i : Str) → lookup (msg_key q i) es ≡ encoded (a q i))
    → (k v : Str) → lookup k (under (queue_msgs q) es) ≡ some v
    → Holding q a (k, v)
Holding-under q a es p s h k v e = elim (Bool-cases (has_prefix (queue_msgs q) k)) [
  | inl b ↦
      let (i, c) = has_prefix-eq_append (queue_msgs q) k b in
      let f : encoded (a q i) ≡ some v =
        sym (h i)
        ∙ sym (ap (λ k. lookup k es) c)
        ∙ sym (lookup-under_in (queue_msgs q) k es b)
        ∙ e in
      elim (Option-cases (a q i)) [
        | inl n ↦ absurd (cc (f, ap encoded n))
        | inr (m, g) ↦
            let (st, eq, ei) = s q i m g in
            (m, c ∙ ap (msg_key q) (sym ei), cc (sym f ∙ ap encoded g), ap (a q) ei ∙ g)
      ]
  | inr b ↦ absurd (cc (lookup-under_out (queue_msgs q) k es b, e))
]

-- What the loop gives for entries that hold the messages.
record Loaded (json : Json) (q : Str) (a : Store) (xs : Entries) : Type 0 where
  messages : List Message
  collected : collect (load_entry json q) xs ≡ ok messages
  entries : xs ≡ map (entry q) messages
  stored : All (λ m. a q m.id ≡ some m) messages

collect-cons :
    {A B : Type 0} (f : A → Fallible B) (x : A) (y : B) (xs : List A) (ys : List B)
    → f x ≡ ok y
    → collect f xs ≡ ok ys
    → collect f (x ∷ xs) ≡ ok (y ∷ ys)
unfolding collect
collect-cons f x y xs ys e h = rw e (rw h refl)

collect-Loaded :
    (json : Json) (q : Str) (a : Store) (xs : Entries)
    → IsStored a
    → All (Holding q a) xs
    → Loaded json q a xs
unfolding collect
collect-Loaded json q a [] s h = record {
  messages = [];
  collected = refl;
  entries = refl;
  stored = tt;
}
collect-Loaded json q a ((k, v) ∷ xs) s ((m, ek, ev, h), hs) =
    let r = collect-Loaded json q a xs s hs in
    let (st, eq, ei) = s q m.id m h in
    record {
      messages = m ∷ r.messages;
      collected =
          collect-cons (load_entry json q) (k, v) m xs r.messages
            (ap (load_entry json q) (cc (ek, ev)) ∙ load_entry-entry json q m st eq) r.collected;
      entries = cc (ek, ev, r.entries);
      stored = (h, r.stored);
    }

lookup-map-entry :
    (q i : Str) (ms : List Message) → lookup (msg_key q i) (map (entry q) ms) ≡ encoded (find i ms)
unfolding lookup find
lookup-map-entry q i [] = refl
lookup-map-entry q i (m ∷ ms) = elim (Bool-cases (str_eq m.id i)) [
  | inl b ↦ rw (str_eq-msg_key_same q m.id i ∙ b, b) refl
  | inr b ↦ rw (str_eq-msg_key_same q m.id i ∙ b, b) (lookup-map-entry q i ms)
]

find-stored :
    (q i : Str) (a : Store) (m : Message) (ms : List Message)
    → All (λ m. a q m.id ≡ some m) ms
    → find i ms ≡ some m
    → a q i ≡ some m
unfolding find
find-stored q i a m [] h e = cc
find-stored q i a m (n ∷ ms) h e = elim (Bool-cases (str_eq n.id i)) [
  | inl b ↦ subst (λ i. a q i ≡ some m) ((str_eq_iff n.id i).0 b) (h.0 ∙ sym (rw b refl) ∙ e)
  | inr b ↦ find-stored q i a m ms h.1 (sym (rw b refl) ∙ e)
]

below :
    (q : Str) (m : Message) (ms : List Message)
    → Above (msg_key q m.id) (map (entry q) ms)
    → All (λ n. lt_bytes m.id n.id ≡ true) ms
below q m [] a = tt
below q m (n ∷ ms) a = (sym (lt_bytes-msg_key q m.id n.id) ∙ a.0, below q m ms a.1)

Ordered-entries : (q : Str) (ms : List Message) → IsSorted (map (entry q) ms) → Ordered ms
Ordered-entries q [] s = tt
Ordered-entries q (m ∷ ms) s = (below q m ms s.0, Ordered-entries q ms s.1)

agree :
    (x y : Option Message)
    → encoded x ≡ encoded y
    → ((m : Message) → x ≡ some m → y ≡ some m)
    → x ≡ y
agree none none e h = refl
agree none (some m) e h = cc
agree (some m) y e h = sym (h m refl)

-- The result of a load: the messages stored of the queue, each once, in the order of identifiers.
pub record Reloads {D : Type 0} (db : Badger D) (json : Json) (q : Str) (a : Store) (d : D)
    : Type 0 where
  pub messages : List Message
  pub loaded : load_messages db json q d ≡ ok messages
  pub ordered : Ordered messages
  pub complete : (i : Str) → find i messages ≡ a q i

module _ {D : Type 0} (db : Badger D) (laws : IsBadger db) (json : Json) where
  load_messages-under :
      (q : Str) (d : D) (es : Entries)
      → db.view d ≡ ok es
      → load_messages db json q d ≡ collect (load_entry json q) (under (queue_msgs q) es)
  unfolding load_messages
  load_messages-under q d es v =
      rw v (ap (collect (load_entry json q)) (scan-under (queue_msgs q) es (laws.sorted d es v)))

  -- Where the messages stored are in the ranges of their types and the database keeps its laws,
  -- `LoadMessages` of a queue whose name has no colon succeeds, and gives back exactly the messages
  -- that are stored of it, each decoded from its entry with the identifier and the queue of its key.
  pub load_messages-Reloads :
      (q : Str) (d : D) (a : Store)
      → IsPlain q
      → IsStored a
      → Implements db d a
      → Reloads db json q a d
  load_messages-Reloads q d a p s r =
      let es = r.entries in
      let held : (i : Str) → lookup (msg_key q i) es ≡ encoded (a q i) = λ i. r.holds (q, p) i in
      let sorted = under-IsSorted (queue_msgs q) es (laws.sorted d es r.viewed) in
      let l = collect-Loaded json q a (under (queue_msgs q) es) s (
        All-sorted (Holding q a) (under (queue_msgs q) es) sorted
          (Holding-under q a es p s held)) in
      record {
        messages = l.messages;
        loaded = load_messages-under q d es r.viewed ∙ l.collected;
        ordered = Ordered-entries q l.messages (subst IsSorted l.entries sorted);
        complete = λ i.
            agree (find i l.messages) (a q i)
              (sym (lookup-map-entry q i l.messages)
                ∙ ap (lookup (msg_key q i)) (sym l.entries)
                ∙ lookup-under_in (queue_msgs q) (msg_key q i) es
                    (has_prefix-append (queue_msgs q) i)
                ∙ held i)
              (λ m. find-stored q i a m l.messages l.stored);
      }
