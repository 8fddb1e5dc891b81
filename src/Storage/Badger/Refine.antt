-- ===== src/Storage/Badger/Refine.antt =====
-- The abstract view of the messages that internal/storage/badger.go keeps, and how the operations
-- implement it: for each queue a map from identifiers to messages, where names have no colon.
use qwer_q.Common.{
  ℕ, suc, ◌≤◌, ◌*◌, Bool, true, false, ◌&&◌, Option, none, some, List, if◌then◌else◌, ◌≡◌, refl,
  sym, ◌∙◌, inl, inr, ◌⊎◌, arith, length, Bool-cases, Option-cases,
}
use qwer_q.Common.Strings.{Str, str_eq, str_eq_iff}
use qwer_q.Common.Dict.{lookup}
use qwer_q.Types.{Message}
use qwer_q.Broker.Base.{Error}
use qwer_q.Broker.Stream.{ok}
use qwer_q.Storage.Codec.{encode_message}
use qwer_q.Storage.Badger.{
  Badger, Write, queue_msgs, msg_key, save_message, delete_message, delete_queue_messages,
  delete_batch_size,
}
use qwer_q.Storage.Badger.Keys.{IsPlain, has_prefix-msg_key, str_eq-msg_key}
use qwer_q.Storage.Badger.Laws.{written, IsBadger}
use qwer_q.Storage.Badger.Scan.{Entries, length-under}
use qwer_q.Storage.Badger.Sweep.{Cleared, Partly, delete_batches-Swept}

-- What is stored: of each queue, the message with an identifier.
abbrev pub Store : Type 0
Store = Str → Str → Option Message

-- The calls that change what is stored.
pub data StoreCall : Type 0 where
  save : Message → StoreCall
  remove : Str → Str → StoreCall
  clear : Str → StoreCall

-- What the calls promise.
unfoldable pub promised : StoreCall → Store → Store
promised (save m) a q i = if str_eq m.queue q && str_eq m.id i then some m else a q i
promised (remove r j) a q i = if str_eq r q && str_eq j i then none else a q i
promised (clear r) a q i = if str_eq r q then none else a q i

abbrev pub queue_of : StoreCall → Str
queue_of (save m) = m.queue
queue_of (remove q i) = q
queue_of (clear q) = q

-- The calls on the database; `fuel` is for the rounds of `DeleteQueueMessages`.
unfoldable pub call : {D : Type 0} → Badger D → ℕ → StoreCall → D → Option (D × Option Error)
call db fuel (save m) d = some (save_message db m d)
call db fuel (remove q i) d = some (delete_message db q i d)
call db fuel (clear q) d = delete_queue_messages db fuel q d

abbrev pub encoded : Option Message → Option Str
encoded none = none
encoded (some m) = some (encode_message m)

abbrev pub PlainName : Type 0
PlainName = (q : Str) × IsPlain q

-- The entries hold what is stored, under the keys of the plain queues.
abbrev pub Holds : Entries → Store → Type 0
Holds es a = (q : PlainName) (i : Str) → lookup (msg_key q.0 i) es ≡ encoded (a q.0 i)

-- A state whose entries hold it.
pub record Implements {D : Type 0} (db : Badger D) (d : D) (a : Store) : Type 0 where
  pub entries : Entries
  pub viewed : db.view d ≡ ok entries
  pub holds : Holds entries a

-- One key's entry, where the code's test and the promise's agree.
changed :
    (b c : Bool) (v x : Option Message) (w : Option Str)
    → b ≡ c
    → w ≡ encoded x
    → (if b then encoded v else w) ≡ encoded (if c then v else x)
changed true true v x w e h = refl
changed false false v x w e h = h
changed true false v x w e h = cc
changed false true v x w e h = cc

module _ {D : Type 0} (db : Badger D) (laws : IsBadger db) where
  pub save-Implements :
      (m : Message) (d d' : D) (a : Store)
      → IsPlain m.queue
      → Implements db d a
      → save_message db m d ≡ (d', none)
      → Implements db d' (promised (save m) a)
  unfolding save_message promised written
  save-Implements m d d' a p r e =
      let s = laws.committed _ d d' r.entries r.viewed e in
      record {
        entries = s.entries;
        viewed = s.viewed;
        holds = λ (q, h) i.
            s.holds (msg_key q i)
            ∙ changed _ _ (some m) (a q i) (lookup (msg_key q i) r.entries)
                (str_eq-msg_key m.queue q m.id i p h) (r.holds (q, h) i);
      }

  remove-Implements :
      (q j : Str) (d d' : D) (a : Store)
      → IsPlain q
      → Implements db d a
      → delete_message db q j d ≡ (d', none)
      → Implements db d' (promised (remove q j) a)
  unfolding delete_message promised written
  remove-Implements q j d d' a p r e =
      let s = laws.committed _ d d' r.entries r.viewed e in
      record {
        entries = s.entries;
        viewed = s.viewed;
        holds = λ (r', h) i.
            s.holds (msg_key r' i)
            ∙ changed _ _ none (a r' i) (lookup (msg_key r' i) r.entries)
                (str_eq-msg_key q r' j i p h) (r.holds (r', h) i);
      }

  clear-Implements :
      (q : Str) (d d' : D) (a : Store)
      → IsPlain q
      → (r : Implements db d a) → Cleared db (queue_msgs q) r.entries d'
      → Implements db d' (promised (clear q) a)
  unfolding promised
  clear-Implements q d d' a p r c = record {
    entries = c.entries;
    viewed = c.viewed;
    holds = λ (q', h) i. elim (Bool-cases (str_eq q q')) [
      | inl b ↦ rw b (c.holds (msg_key q' i) ∙ rw (has_prefix-msg_key q q' i p h ∙ b) refl)
      | inr b ↦
          rw b (c.holds (msg_key q' i) ∙ rw (has_prefix-msg_key q q' i p h ∙ b) (r.holds (q', h) i))
    ];
  }

  -- What is left of what was stored, when a clearing of the queue has failed on the way.
  pub record Left (q : Str) (d : D) (a : Store) : Type 0 where
    pub store : Store
    pub implemented : Implements db d store
    pub kept : (r i : Str) → (store r i ≡ a r i) ⊎ ((r ≡ q) × (store r i ≡ none))

  Partly-Left :
      (q : Str) (d' : D) (a : Store)
      → IsPlain q
      → (es : Entries) → Holds es a
      → Partly db (queue_msgs q) es d'
      → Left q d' a
  Partly-Left q d' a p es h c = record {
    store = store;
    implemented = record {
      entries = c.entries;
      viewed = c.viewed;
      holds = λ (r, l) i. elim (Bool-cases (str_eq q r)) [
        | inl b ↦ rw b (elim (Option-cases (lookup (msg_key r i) c.entries)) [
          | inl e ↦ rw e refl
          | inr (v, e) ↦ elim (c.holds (msg_key r i)) [
            | inl same ↦ rw e (sym e ∙ same ∙ h (r, l) i)
            | inr (w, gone) ↦ absurd (cc (e, gone))
          ]
        ])
        | inr b ↦ elim (c.holds (msg_key r i)) [
          | inl same ↦ rw b (same ∙ h (r, l) i)
          | inr (w, gone) ↦ absurd (cc (w, has_prefix-msg_key q r i p l, b))
        ]
      ];
    };
    kept = λ r i. elim (Bool-cases (str_eq q r)) [
      | inr b ↦ inl (rw b refl)
      | inl b ↦ elim (Option-cases (lookup (msg_key r i) c.entries)) [
        | inl e ↦ inr (sym ((str_eq_iff q r).0 b), rw (b, e) refl)
        | inr (v, e) ↦ inl (rw (b, e) refl)
      ]
    ];
  }
    where
      store : Store
      store r i =
          if str_eq q r
          then (elim (lookup (msg_key r i) c.entries) [ none ↦ none | some v ↦ a r i ])
          else a r i

  -- A single transaction that fails leaves what is stored, and a clearing a part of it.
  abbrev pub Kept : StoreCall → D → Store → Type 0
  Kept (save m) d a = Implements db d a
  Kept (remove q i) d a = Implements db d a
  Kept (clear q) d a = Left q d a

  -- A call ends: it has done what it promises, or returns an error.
  abbrev pub Simulates : StoreCall → Store → Option (D × Option Error) → Type 0
  Simulates c a r =
      ((d : D) × (r ≡ some (d, none)) × Implements db d (promised c a))
      ⊎ ((d : D) × (e : Error) × (r ≡ some (d, some e)) × Kept c d a)

  discarded-Implements :
      (ws : List Write) (d d' : D) (e : Error) (a : Store)
      → Implements db d a
      → db.update ws d ≡ (d', some e)
      → Implements db d' a
  discarded-Implements ws d d' e a r u = record {
    entries = r.entries;
    viewed = laws.discarded ws d d' e u ∙ r.viewed;
    holds = r.holds;
  }

  save-Simulates :
      (m : Message) (d : D) (a : Store)
      → IsPlain m.queue
      → Implements db d a
      → (r : D × Option Error) → save_message db m d ≡ r
      → Simulates (save m) a (some r)
  unfolding save_message
  save-Simulates m d a p i (d', none) u = inl (d', refl, save-Implements m d d' a p i u)
  save-Simulates m d a p i (d', some e) u = inr (d', e, refl, discarded-Implements _ d d' e a i u)

  remove-Simulates :
      (q j : Str) (d : D) (a : Store)
      → IsPlain q
      → Implements db d a
      → (r : D × Option Error) → delete_message db q j d ≡ r
      → Simulates (remove q j) a (some r)
  unfolding delete_message
  remove-Simulates q j d a p i (d', none) u = inl (d', refl, remove-Implements q j d d' a p i u)
  remove-Simulates q j d a p i (d', some e) u =
      inr (d', e, refl, discarded-Implements _ d d' e a i u)

  -- SaveMessage, DeleteMessage and DeleteQueueMessages implement the map from queues and identifiers
  -- to messages that they promise, where names of queues have no colon and the database keeps the
  -- laws of its transactions and iterators. A call that succeeds changes the map as it says. One
  -- that fails leaves a database that implements the same map, or for the deletion of a queue one
  -- that differs in some messages of that queue, which are gone. With one round for each
  -- `delete_batch_size` entries and one more it returns.
  pub call-Simulates :
      (n : ℕ) (c : StoreCall) (d : D) (a : Store)
      → IsPlain (queue_of c)
      → (i : Implements db d a) → length i.entries ≤ n * delete_batch_size
      → Simulates c a (call db (suc n) c d)
  unfolding call
  call-Simulates n (save m) d a p i h = save-Simulates m d a p i (save_message db m d) refl
  call-Simulates n (remove q j) d a p i h =
      remove-Simulates q j d a p i (delete_message db q j d) refl
  call-Simulates n (clear q) d a p i h =
      elim (delete_batches-Swept db laws n (queue_msgs q) d i.entries i.viewed
        (omega (arith, length-under (queue_msgs q) i.entries, h))) [
          | inl (d', e, c) ↦ inl (d', e, clear-Implements q d d' a p i c)
          | inr (d', e, k, c) ↦ inr (d', e, k, Partly-Left q d' a p i.entries i.holds c)
        ]
