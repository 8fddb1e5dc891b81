-- ===== src/Broker/Handlers/Retry.antt =====
-- A publish that a full queue refuses leaves no message behind, but uses up its idempotency key.
use qwer_q.Common.{◌≡◌, ◌≢◌, refl, true, Option, none, some, List, [], ap, ◌∙◌, All}
use qwer_q.Common.Strings.{Str}
use qwer_q.Common.Int.{◌<ℤ◌, ◌+ℤ◌}
use qwer_q.Types.{Message, Time}
use qwer_q.Broker.Base.{Error, queue_full, duplicate_message}
use qwer_q.Broker.Dedup.{IdempotencyTracker, check}
use qwer_q.Broker.Dedup.Once.{Call, run, check_once}
use qwer_q.Broker.Queue.{Queue, is_full, enqueue}
use qwer_q.Broker.Stream.{Fallible, failed}
use qwer_q.Broker.Registry.{Storage, Broker, check_memory_pressure, find_queue}
use qwer_q.Broker.Handlers.Published.{publish_found}
use qwer_q.Broker.Handlers.{
  PublishRequest, message_of, save_in, delete_in, check_key, roll_back, after_enqueue, after_save,
  handle_publish,
}

-- A save that succeeds is undone by the deletion of the message.
abbrev pub Undoes : {S : Type 0} → Option (Storage S) → Message → S → Type 0
Undoes storage m s =
    ((save_in storage m s).1 ≡ none)
    × (delete_in storage m.queue m.id (save_in storage m s).0 ≡ (s, none))

full_refuses :
    (m : Message) (now : Time) (q : Queue)
    → is_full q ≡ true
    → enqueue m now q ≡ some (q, some queue_full)
full_refuses m now q full = unfold enqueue in rw full

after_save-full :
    {S : Type 0} (m : Message) (now : Time) (q : Queue) (b : Broker S) (s : S)
    (o : S × Option Error)
    → is_full q ≡ true
    → o.1 ≡ none
    → delete_in b.storage m.queue m.id o.0 ≡ (s, none)
    → after_save m now q b o ≡ some ((b, s), failed queue_full)
unfolding after_save after_enqueue roll_back
after_save-full m now q b s (s', some e) full saved undone = cc
after_save-full m now q b s (s', none) full saved undone =
    rw (full_refuses m now q full, after_save) (ap some (ap (roll_back queue_full b) undone))

check_key-fresh :
    {S : Type 0} (now : Time) (key : Str) (b : Broker S) (t : IdempotencyTracker) (e : Option Error)
    → b.dedup ≡ some t
    → (check now key t).1 ≡ e
    → check_key now key b ≡ (record b { dedup = some (check now key t).0 }, e)
unfolding check_key
check_key-fresh now key b t e has outcome = rw (has, check_key) (rw outcome)

-- A publish that a full queue refuses, without memory pressure, changes neither the queues nor,
-- where a deletion undoes a save, the storage. Its idempotency key, if new and not empty, is
-- recorded all the same: a later publish with the key is refused as a duplicate until the time to
-- live is over, whatever the queues look like by then and whatever keys were checked in between.
pub handle_publish-burns_key :
    {S : Type 0} (req : PublishRequest) (id later_id : Str) (now later : Time)
    (b later_b : Broker S) (s later_s : S) (q : Queue) (t : IdempotencyTracker)
    (cs : List (Time × Call))
    → check_memory_pressure b ≡ none
    → check_memory_pressure later_b ≡ none
    → b.dedup ≡ some t
    → later_b.dedup ≡ some (run (check now req.idempotency_key t).0 cs)
    → All (λ c. c.0 <ℤ now +ℤ t.ttl) cs
    → req.idempotency_key ≢ []
    → (check now req.idempotency_key t).1 ≡ none
    → find_queue req.queue b ≡ some q
    → is_full q ≡ true
    → Undoes b.storage (message_of req id now) s
    → later <ℤ now +ℤ t.ttl
    → (handle_publish req id now (b, s)
        ≡ some
            ((record b { dedup = some (check now req.idempotency_key t).0 }, s), failed queue_full))
      × ((r : (Broker S × S) × Fallible Str) × (handle_publish req later_id later (later_b, later_s)
            ≡ some r)
          × (r.1 ≡ failed (duplicate_message req.idempotency_key)))
unfolding handle_publish
handle_publish-burns_key req id later_id now later b later_b s later_s q t cs fits later_fits has
      later_has between named fresh found full undoes before =
    let key = req.idempotency_key in
    let refused = check_once t now key cs later named fresh between before in
    let first = check_key-fresh now key b t none has fresh in
    let second =
      check_key-fresh later key later_b (run (check now key t).0 cs) (some (duplicate_message key))
        later_has refused in
    let b' = record b { dedup = some (check now key t).0 } in
    let t' = run (check now key t).0 cs in
    let m = message_of req id now in
    (
      rw (fits, handle_publish)
          (rw first (
            rw first (
              publish_found m now req.queue b' s q found
              ∙ after_save-full m now q b' s (save_in b.storage m s) full undoes.0 undoes.1))),
      (
        (
          (record later_b { dedup = some (check later key t').0 }, later_s),
          failed (duplicate_message key),
        ),
        rw (later_fits, handle_publish) (rw second (rw second refl)),
        refl,
      ),
    )
