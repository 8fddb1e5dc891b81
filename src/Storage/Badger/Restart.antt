-- ===== src/Storage/Badger/Restart.antt =====
-- A stream queue of internal/broker/stream.go on the storage of internal/storage/badger.go, and its
-- restart: `NewStreamQueue` goes on where the stored log ends.
use qwer_q.Common.{
  ℕ, zero, suc, ◌+◌, ◌^◌, ◌<◌, ◌≤◌, Option, none, some, List, [], ◌∷◌, if◌then◌else◌, ◌≡◌, refl,
  sym, ap, ◌∙◌, subst, inl, inr, arith, length, Bool-cases,
}
use qwer_q.Common.Strings.{Str, str_eq, str_eq_iff, str_eq_self}
use qwer_q.Common.Dict.{lookup}
use qwer_q.Types.{Message}
use qwer_q.Broker.Base.{Error}
use qwer_q.Broker.Stream.{
  Fallible, ok, failed, StreamQueue, StreamStorage, new_stream_queue, publish, publish_after,
  restored_seq,
}
use qwer_q.Broker.Stream.Sequence.{publish_all, publish-Numbered}
use qwer_q.Storage.Badger.{Badger, Json, txn_set, set_marshalled}
use qwer_q.Storage.Badger.Laws.{IsBadger, Shows, written}
use qwer_q.Storage.Badger.Log.{Log, below_next, get_stream_sequence-Log}
use qwer_q.Storage.Badger.Scan.{Entries}
use qwer_q.Storage.Badger.Streams.{stream_key, save_stream_message, badger_stream_storage}

-- The queue stands on the storage, and its next sequence is where the log ends.
pub record InStep {D : Type 0} (db : Badger D) (json : Json) (t : StreamQueue D × D) : Type 0 where
  pub storage : t.0.storage ≡ some (badger_stream_storage db json)
  pub entries : Entries
  pub viewed : db.view t.1 ≡ ok entries
  pub log : Log t.0.name t.0.next_seq entries

-- A message under the next sequence makes the log one longer.
Log-append :
    (queue val : Str) (next : ℕ) (es es' : Entries)
    → Log queue next es
    → ((k : Str)
        → lookup k es' ≡ (if str_eq (stream_key queue next) k then some val else lookup k es))
    → 0 < next
    → Log queue (suc next) es'
Log-append queue val next es es' l h p = record {
  within = λ k v e b. elim (Bool-cases (str_eq (stream_key queue next) k)) [
    | inl c ↦ (next, sym ((str_eq_iff (stream_key queue next) k).0 c), omega arith)
    | inr c ↦ let (s, f, g) = l.within k v (sym (h k ∙ rw c refl) ∙ e) b in (s, f, omega arith)
  ];
  newest = inr (
    next,
    val,
    refl,
    p,
    h (stream_key queue next) ∙ rw (str_eq_self (stream_key queue next)) refl,
  );
}

Log-positive : (queue : Str) (next : ℕ) (es : Entries) → Log queue next es → 0 < next
Log-positive queue next es l = elim l.newest [
  | inl (e, n) ↦ omega (arith, e)
  | inr (s, v, e, p, f) ↦ omega (arith, e)
]

restored_below : (n : ℕ) → n < 2 ^ 64 → 0 < n → restored_seq (ok (below_next n)) ≡ n
unfolding restored_seq
restored_below zero h p = absurd (omega arith)
restored_below (suc zero) h p = refl
restored_below (suc (suc n)) h p = omega arith

module _ {D : Type 0} (db : Badger D) (laws : IsBadger db) (json : Json) where
  -- A write that succeeds has set its key, and one that fails has changed nothing.
  set_marshalled-Shows :
      (key : Str) (d d' : D) (es : Entries) (r : Fallible Str)
      → db.view d ≡ ok es
      → set_marshalled db key d r ≡ (d', none)
      → (val : Str) × Shows db (txn_set key val ∷ []) es d'
  unfolding set_marshalled
  set_marshalled-Shows key d d' es (failed e) v h = cc
  set_marshalled-Shows key d d' es (ok val) v h = (val, laws.committed _ d d' es v h)

  set_marshalled-unchanged :
      (key : Str) (d d' : D) (e : Error) (r : Fallible Str)
      → set_marshalled db key d r ≡ (d', some e)
      → db.view d' ≡ db.view d
  unfolding set_marshalled
  set_marshalled-unchanged key d d' e (failed err) h = ap db.view (cc h)
  set_marshalled-unchanged key d d' e (ok val) h = laws.discarded _ d d' e h

  -- What follows the save keeps the queue in step, whether the save succeeded or not.
  publish_after-InStep :
      (m n : Message) (sq : StreamQueue D) (d : D)
      → InStep db json (sq, d)
      → sq.next_seq + 1 < 2 ^ 64
      → (o : D × Option Error) → save_stream_message db json sq.name sq.next_seq n d ≡ o
      → InStep db json (publish_after m sq o).0
  unfolding publish_after save_stream_message written
  publish_after-InStep m n sq d i h (d', none) e =
      let (val, s) =
        set_marshalled-Shows (stream_key sq.name sq.next_seq) d d' i.entries
          (json.marshal_message n) i.viewed e in
      let grown =
        Log-append sq.name val sq.next_seq i.entries s.entries i.log s.holds
          (Log-positive sq.name sq.next_seq i.entries i.log) in
      record {
        storage = i.storage;
        entries = s.entries;
        viewed = s.viewed;
        log = subst (λ n. Log sq.name n s.entries) (omega arith) grown;
      }
  publish_after-InStep m n sq d i h (d', some err) e = record {
    storage = i.storage;
    entries = i.entries;
    viewed =
        set_marshalled-unchanged (stream_key sq.name sq.next_seq) d d' err (json.marshal_message n)
          e
        ∙ i.viewed;
    log = i.log;
  }

  publish-InStep :
      (m : Message) (t : StreamQueue D × D)
      → InStep db json t
      → t.0.next_seq + 1 < 2 ^ 64
      → InStep db json (publish m t).0
  unfolding publish badger_stream_storage
  publish-InStep m (sq, d) i h =
      publish_after-InStep _ (record m { sequence = sq.next_seq }) sq d i h _
        (sym (
          ap
            (λ (st : Option (StreamStorage D)).
              let r : D × Option Error = elim st [
                | none ↦ (d, none)
                | some st ↦
                    st.save_stream_message sq.name sq.next_seq (record m { sequence = sq.next_seq })
                      d
              ] in
              r)
            i.storage))

  next_seq-publish :
      (m : Message) (t : StreamQueue D × D)
      → t.0.next_seq + 1 < 2 ^ 64
      → (publish m t).0.0.next_seq ≤ t.0.next_seq + 1
  next_seq-publish m t h = elim (publish-Numbered m t) [
    | inl (e, f) ↦ omega (arith, f)
    | inr (e, f, g) ↦ omega (arith, ap (λ q. q.next_seq) g)
  ]

  pub publish_all-InStep :
      (ms : List Message) (t : StreamQueue D × D)
      → InStep db json t
      → t.0.next_seq + length ms < 2 ^ 64
      → InStep db json (publish_all ms t).0 × ((publish_all ms t).0.0.next_seq < 2 ^ 64)
  unfolding publish_all
  publish_all-InStep [] t i h = (i, omega arith)
  publish_all-InStep (m ∷ ms) t i h =
      publish_all-InStep ms (publish m t).0 (publish-InStep m t i (omega arith))
        (omega (arith, next_seq-publish m t (omega arith)))

  -- A queue that is started again goes on with the next sequence of the old one.
  pub new_stream_queue-resumes :
      (sq : StreamQueue D) (d : D)
      → InStep db json (sq, d)
      → sq.next_seq < 2 ^ 64
      → (new_stream_queue sq.name (some (badger_stream_storage db json)) d).next_seq ≡ sq.next_seq
  unfolding new_stream_queue badger_stream_storage
  new_stream_queue-resumes sq d i h =
      ap restored_seq
        (get_stream_sequence-Log db sq.name sq.next_seq d i.entries laws i.viewed h i.log)
      ∙ restored_below sq.next_seq h (Log-positive sq.name sq.next_seq i.entries i.log)

  -- Whatever is published to a queue that is in step with its storage, with whatever saves failing,
  -- a queue of that name started on the storage afterwards goes on where the old one would, while
  -- the sequences stay below 2^64 and the database keeps its laws.
  pub publish_all-resumes :
      (ms : List Message) (t : StreamQueue D × D)
      → InStep db json t
      → t.0.next_seq + length ms < 2 ^ 64
      → let r = publish_all ms t in
        (new_stream_queue r.0.0.name (some (badger_stream_storage db json)) r.0.1).next_seq
        ≡ r.0.0.next_seq
  publish_all-resumes ms t i h =
      let (j, b) = publish_all-InStep ms t i h in
      new_stream_queue-resumes (publish_all ms t).0.0 (publish_all ms t).0.1 j b
