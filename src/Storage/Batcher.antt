-- ===== src/Storage/Batcher.antt =====
-- internal/storage/batcher.go: the goroutine that gathers writes, as a machine whose steps are the
-- sends on its channels, the cases of its loop and `close`. The `WriteBatch` of
-- github.com/dgraph-io/badger/v4 is an interface; the timer may fire at any time, which includes the
-- times at which it does. A caller is known by the channel on which it waits.
pub mod Answers
mod Examples
use qwer_q.Common.{
  ℕ, ◌+◌, ◌*◌, ◌<◌, Bool, true, false, Option, none, some, List, [], ◌∷◌, ◌++◌, map, ◌≡◌, leb,
  if◌then◌else◌, length,
}
use qwer_q.Common.Strings.{Str}
use qwer_q.Types.{Message}
use qwer_q.Broker.Base.{Error}
use qwer_q.Storage.Codec.{encode_message}
use qwer_q.Storage.Badger.{msg_key}

-- `writeRequest`; `err` is the channel.
pub record WriteRequest : Type 0 where
  pub key : Str
  pub val : Str
  pub err : ℕ

-- `db.NewWriteBatch`, and the methods of a batch `W`. `Set` may commit what was set so far when a
-- transaction is full, so it changes the database too.
pub record WriteBatch (W D : Type 0) : Type 0 where
  pub new_write_batch : W
  pub set : Str → Str → W × D → (W × D) × Option Error
  pub flush : W → D → D × Option Error
  pub cancel : W → D → D

-- `writeBatcher` with the batch of its loop and the database. `closed` tells whether `inbox` is
-- closed; the loop has then ended. The channels that were answered, with the errors, the callers that
-- were refused, and the channels of the requests that were taken in are kept as a record.
pub record WriteBatcher (D : Type 0) : Type 0 where
  pub inbox : List WriteRequest
  pub batch : List WriteRequest
  pub done : Bool
  pub closed : Bool
  pub db : D
  pub answers : List (ℕ × Option Error)
  pub refused : List ℕ
  pub taken : List ℕ

-- `newWriteBatcher`
unfoldable pub new_write_batcher : {D : Type 0} → D → WriteBatcher D
new_write_batcher d = record {
  inbox = [];
  batch = [];
  done = false;
  closed = false;
  db = d;
  answers = [];
  refused = [];
  taken = [];
}

-- The request that `submit` makes.
abbrev pub request_of : Message → ℕ → WriteRequest
request_of msg err = record { key = msg_key msg.queue msg.id; val = encode_message msg; err = err }

-- The loop over the requests of `flush`, which stops at the first error.
unfoldable pub set_all :
    {W D : Type 0}
    → WriteBatch W D
    → List WriteRequest
    → (W × D) × Option Error
    → (W × D) × Option Error
set_all wb [] r = r
set_all wb (req ∷ reqs) (t, some e) = (t, some e)
set_all wb (req ∷ reqs) (t, none) = set_all wb reqs (wb.set req.key req.val t)

-- What follows the loop.
unfoldable pub finish : {W D : Type 0} → WriteBatch W D → (W × D) × Option Error → D × Option Error
finish wb ((w, d), some e) = (wb.cancel w d, some e)
finish wb ((w, d), none) = wb.flush w d

abbrev pub answer_all : List WriteRequest → Option Error → List (ℕ × Option Error)
answer_all batch e = map (λ r. (r.err, e)) batch

module _ {W D : Type 0} (wb : WriteBatch W D) where
  -- `flush`, of a whole batch, which is then empty.
  unfoldable pub flush : List WriteRequest → WriteBatcher D → WriteBatcher D
  flush batch s =
      let r = finish wb (set_all wb batch ((wb.new_write_batch, s.db), none)) in
      record s { batch = []; db = r.0; answers = s.answers ++ answer_all batch r.1 }

  -- A flush of a batch that may be empty.
  unfoldable pub flush_some : List WriteRequest → WriteBatcher D → WriteBatcher D
  unfolding flush
  flush_some [] s = record s { batch = [] }
  flush_some (r ∷ rs) s = flush (r ∷ rs) s

  -- The first case of `loop`, for the request at the head of the inbox.
  unfoldable pub receive : ℕ → WriteRequest → List WriteRequest → WriteBatcher D → WriteBatcher D
  unfolding flush
  receive max_size req rest s =
      let batch = s.batch ++ (req ∷ []) in
      let s' = record s { inbox = rest; batch = batch } in
      if leb max_size (length batch) then flush batch s' else s'

  -- The case of the timer.
  abbrev pub tick : WriteBatcher D → WriteBatcher D
  tick s = flush_some s.batch s

  -- The last case: the inbox is closed and drained.
  abbrev pub drain : WriteBatcher D → WriteBatcher D
  drain s = flush_some (s.batch ++ s.inbox) (record s { inbox = []; closed = true })

-- A request is sent on the inbox.
abbrev pub take_in : {D : Type 0} → WriteRequest → WriteBatcher D → WriteBatcher D
take_in req s = record s { inbox = s.inbox ++ (req ∷ []); taken = s.taken ++ (req.err ∷ []) }

-- A step. `submit` waits while the inbox is full, and may choose either case once `done` is closed;
-- on a closed inbox the send panics, which is no step.
pub data Step {W D : Type 0} (wb : WriteBatch W D) (max_size : ℕ)
    : WriteBatcher D → WriteBatcher D → Type 0 where
  submit :
      (msg : Message) (err : ℕ) (s : WriteBatcher D)
      → s.closed ≡ false
      → length s.inbox < max_size * 2
      → Step wb max_size s (take_in (request_of msg err) s)
  refuse :
      (err : ℕ) (s : WriteBatcher D)
      → s.done ≡ true
      → Step wb max_size s (record s { refused = s.refused ++ (err ∷ []) })
  collect :
      (req : WriteRequest) (rest : List WriteRequest) (s : WriteBatcher D)
      → s.closed ≡ false
      → s.inbox ≡ req ∷ rest
      → Step wb max_size s (receive wb max_size req rest s)
  fire : (s : WriteBatcher D) → s.closed ≡ false → Step wb max_size s (tick wb s)
  close : (s : WriteBatcher D) → s.done ≡ false → Step wb max_size s (record s { done = true })
  stop : (s : WriteBatcher D) → s.done ≡ true → s.closed ≡ false → Step wb max_size s (drain wb s)

-- The states that steps lead to from a new batcher.
pub data Reachable {W D : Type 0} (wb : WriteBatch W D) (max_size : ℕ)
    : WriteBatcher D → Type 0 where
  start : (d : D) → Reachable wb max_size (new_write_batcher d)
  after :
      (s t : WriteBatcher D)
      → Reachable wb max_size s
      → Step wb max_size s t
      → Reachable wb max_size t
