-- ===== src/Storage/Badger/Laws.antt =====
-- The documented behaviour of github.com/dgraph-io/badger/v4: iterators run in the order of the
-- keys, and a transaction writes all or nothing.
use qwer_q.Common.{Option, none, some, List, [], ◌∷◌, map, if◌then◌else◌, ◌≡◌, refl, arith}
use qwer_q.Common.Strings.{Str, str_eq}
use qwer_q.Common.Dict.{lookup}
use qwer_q.Broker.Base.{Error}
use qwer_q.Broker.Stream.{ok}
use qwer_q.Storage.Badger.{Badger, Write, txn_set, txn_delete}
use qwer_q.Storage.Badger.Scan.{Entries, IsSorted}

-- What the writes leave under a key that had `v`.
unfoldable pub written : List Write → Str → Option Str → Option Str
written [] k v = v
written (txn_set j w ∷ ws) k v = written ws k (if str_eq j k then some w else v)
written (txn_delete j ∷ ws) k v = written ws k (if str_eq j k then none else v)

-- The state after a transaction shows what it wrote.
pub record Shows {D : Type 0} (db : Badger D) (ws : List Write) (es : Entries) (d : D)
    : Type 0 where
  pub entries : Entries
  pub viewed : db.view d ≡ ok entries
  pub holds : (k : Str) → lookup k entries ≡ written ws k (lookup k es)

pub record IsBadger {D : Type 0} (db : Badger D) : Type 0 where
  pub sorted : (d : D) (es : Entries) → db.view d ≡ ok es → IsSorted es
  pub committed :
      (ws : List Write) (d d' : D) (es : Entries)
      → db.view d ≡ ok es
      → db.update ws d ≡ (d', none)
      → Shows db ws es d'
  pub discarded :
      (ws : List Write) (d d' : D) (e : Error)
      → db.update ws d ≡ (d', some e)
      → db.view d' ≡ db.view d

pub written-delete_none : (ks : List Str) (k : Str) → written (map txn_delete ks) k none ≡ none
unfolding written
written-delete_none [] k = refl
written-delete_none (j ∷ ks) k = ground (arith, written-delete_none ks k)
