-- ===== src/Broker/Call/Examples.antt =====
-- A call with its reply, and a manager that is closed while a caller waits.
use qwer_q.Common.{Bool, if◌then◌else◌, ℕ, true, false, none, some, [], ◌∷◌, ◌≡◌, ◌≢◌, refl, ap}
use qwer_q.Common.Strings.{bytes, str_eq}
use qwer_q.Common.Dict.{lookup}
use qwer_q.Storage.Badger.{blank}
use qwer_q.Broker.Call.{
  call_timeout, CallManager, manager_of, begin_call, route, await, response, close,
}
use qwer_q.Types.{Message}
use qwer_q.Broker.Call.Replies.{begins, ends, replies, run, reply-arrives}
use qwer_q.Broker.Call.Closing.{close-crashes}

abbrev answer : Message
answer = blank (bytes "r") (bytes "_reply.1")

x-ne-y : bytes "x" ≢ bytes "y"
unfolding str_eq
x-ne-y e = let h : true ≡ false = ap (str_eq (bytes "x")) e in absurd (cc h)

reply-arrives_example :
    (cm : CallManager) × (called : CallManager) × (c : ℕ) × (waiting : CallManager)
    × (after : CallManager) × (run (begins (bytes "x") ∷ []) (manager_of (bytes "_reply.1") 0)
        ≡ some cm)
    × (begin_call (bytes "y") cm ≡ some (called, c))
    × (run (replies (bytes "x") answer ∷ ends (bytes "x") ∷ []) called ≡ some waiting)
    × (route (bytes "y") answer waiting ≡ some after)
    × ((timer : Bool)
        → await timer c after
          ≡ some (some (if timer then call_timeout else response answer.payload answer.headers)))
reply-arrives_example =
    reply-arrives (begins (bytes "x") ∷ []) (replies (bytes "x") answer ∷ ends (bytes "x") ∷ [])
      (bytes "y") (bytes "_reply.1") 0 answer (x-ne-y, (x-ne-y, tt))

abbrev one_waits : CallManager
one_waits = record (manager_of (bytes "_reply.1") 0) {
  pending = some ((bytes "x", 0) ∷ []);
  next_ch = 1;
}

close-crashes_example :
    (cm' : CallManager) × (close one_waits ≡ some cm')
    × (await false 0 cm' ≡ none)
    × (begin_call (bytes "y") cm' ≡ none)
unfolding lookup str_eq
close-crashes_example =
    close-crashes (bytes "x") (bytes "y") 0 ((bytes "x", 0) ∷ []) one_waits
      (record { here = refl; distinct = (tt, tt); idle = (refl, tt) }) refl refl
