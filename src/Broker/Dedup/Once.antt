-- ===== src/Broker/Dedup/Once.antt =====
-- A key that was let through is refused until its time to live is over, whatever else happens.
use qwer_q.Common.{
  ◌≡◌, ◌≢◌, refl, ap, ◌↔◌, Option-cases, arith, true, false, none, some, List, [], ◌∷◌, All,
  Bool-cases, ltb→lt, inl, inr, ◌⊎◌,
}
use qwer_q.Common.Strings.{Str, str_eq, Str-cases}
use qwer_q.Common.Dict.{Dict, lookup, lookup-insert, lookup-insert_self}
use qwer_q.Common.Int.{◌+ℤ◌, lt_ℤ, ◌<ℤ◌, ◌≤ℤ◌}
use qwer_q.Types.{Time}
use qwer_q.Broker.Base.{duplicate_message}
use qwer_q.Broker.Dedup.{IdempotencyTracker, cleanup_locked, cleanup, record_key, is_live, check}

lookup-cleanup_locked_live :
    (now : Time) (key : Str) (expiry : Time) (keys : Dict Time)
    → now ≤ℤ expiry
    → lookup key keys ≡ some expiry
    → lookup key (cleanup_locked now keys) ≡ some expiry
unfolding lookup cleanup_locked
lookup-cleanup_locked_live now key expiry [] h e = cc
lookup-cleanup_locked_live now key expiry ((j, t) ∷ keys) h e =
    ground (arith, lookup-cleanup_locked_live now key expiry keys h)

is_live_before : (now expiry : Time) → now <ℤ expiry → is_live now (some expiry) ≡ true
unfolding is_live
is_live_before now expiry h = ground arith

-- A call of the tracker: a publish that brings a key, or the cleaner's tick.
pub data Call : Type 0 where
  checks : Str → Call
  ticks : Call

pub step : IdempotencyTracker → Time × Call → IdempotencyTracker
step t (now, checks key) = (check now key t).0
step t (now, ticks) = cleanup now t

pub run : IdempotencyTracker → List (Time × Call) → IdempotencyTracker
run t [] = t
run t (c ∷ cs) = run (step t c) cs

record_key_keeps :
    (now : Time) (k : Str) (t : IdempotencyTracker) (key : Str) (expiry : Time)
    → str_eq k key ≡ false
    → now ≤ℤ expiry
    → lookup key t.keys ≡ some expiry
    → lookup key (record_key now k t).keys ≡ some expiry
unfolding record_key
record_key_keeps now k t key expiry miss h e =
    rw (lookup-insert key k (now +ℤ t.ttl), miss)
      (ground (arith, lookup-cleanup_locked_live now key expiry t.keys h e))

check_live :
    (now : Time) (key : Str) (t : IdempotencyTracker) (expiry : Time)
    → key ≢ []
    → lookup key t.keys ≡ some expiry
    → now <ℤ expiry
    → check now key t ≡ (t, some (duplicate_message key))
unfolding check
check_live now [] t expiry named e h = absurd (named refl)
check_live now (c ∷ key) t expiry named e h = rw (e, is_live_before now expiry h)

step_keeps :
    (t : IdempotencyTracker) (c : Time × Call) (key : Str) (expiry : Time)
    → c.0 <ℤ expiry
    → lookup key t.keys ≡ some expiry
    → lookup key (step t c).keys ≡ some expiry
unfolding step cleanup
step_keeps t (now, checks []) key expiry h e = unfold check in e
step_keeps t (now, checks (c ∷ other)) key expiry h e = elim (Str-cases (c ∷ other) key) [
  | inl (_, same) ↦
      let held : lookup (c ∷ other) t.keys ≡ some expiry = rw same e in
      rw (check_live now (c ∷ other) t expiry (λ p. cc) held h, step) e
  | inr (miss, _) ↦
      unfold check in
      ground (arith, e, record_key_keeps now (c ∷ other) t key expiry miss (omega arith) e)
]
step_keeps t (now, ticks) key expiry h e =
    lookup-cleanup_locked_live now key expiry t.keys (omega arith) e

run_keeps :
    (t : IdempotencyTracker) (cs : List (Time × Call)) (key : Str) (expiry : Time)
    → All (λ c. c.0 <ℤ expiry) cs
    → lookup key t.keys ≡ some expiry
    → lookup key (run t cs).keys ≡ some expiry
unfolding run
run_keeps t [] key expiry h e = e
run_keeps t (c ∷ cs) key expiry (h, hs) e =
    run_keeps (step t c) cs key expiry hs (step_keeps t c key expiry h e)

record_key_records :
    (now : Time) (key : Str) (t : IdempotencyTracker)
    → lookup key (record_key now key t).keys ≡ some (now +ℤ t.ttl)
unfolding record_key
record_key_records now key t = lookup-insert_self key (now +ℤ t.ttl) _

check_records :
    (now : Time) (key : Str) (t : IdempotencyTracker)
    → key ≢ []
    → (check now key t).1 ≡ none
    → lookup key (check now key t).0.keys ≡ some (now +ℤ t.ttl)
unfolding check
check_records now [] t named fresh = absurd (named refl)
check_records now (c ∷ key) t named fresh = ground (arith, record_key_records now (c ∷ key) t)

-- A key that is not empty and was let through at `now` is refused at every later check before `now
-- + ttl`, whatever checks of any keys and cleanups come between, at times before that too.
pub check_once :
    (t : IdempotencyTracker) (now : Time) (key : Str) (cs : List (Time × Call)) (later : Time)
    → key ≢ []
    → (check now key t).1 ≡ none
    → All (λ c. c.0 <ℤ now +ℤ t.ttl) cs
    → later <ℤ now +ℤ t.ttl
    → (check later key (run (check now key t).0 cs)).1 ≡ some (duplicate_message key)
check_once t now key cs later named fresh before h =
    ap (λ r. r.1)
      (check_live later key _ _ named
        (run_keeps _ cs key _ before (check_records now key t named fresh)) h)

-- No time of this key is still to come.
abbrev pub IsFree : Time → Str → IdempotencyTracker → Type 0
IsFree now key t = (key ≡ []) ⊎ ((expiry : Time) → lookup key t.keys ≡ some expiry → expiry ≤ℤ now)

-- A key is let through exactly when it is empty, not recorded, or its time has come; and a refusal
-- names the key and changes nothing.
pub check_iff :
    (now : Time) (key : Str) (t : IdempotencyTracker)
    → (((check now key t).1 ≡ none) ↔ IsFree now key t)
      × (((check now key t).1 ≡ none) ⊎ (check now key t ≡ (t, some (duplicate_message key))))
check_iff now [] t = unfold check in ((λ _. inl refl, λ _. refl), inl refl)
check_iff now (c ∷ key) t = elim (Option-cases (lookup (c ∷ key) t.keys)) [
  | inl q ↦
      let passes : (check now (c ∷ key) t).1 ≡ none = unfold check is_live in rw q in
      ((λ _. inr (λ x e. cc), λ _. passes), inl passes)
  | inr (x, q) ↦ elim (Bool-cases (lt_ℤ now x)) [
    | inl live ↦
        let refused = check_live now (c ∷ key) t x (λ p. cc) q (ltb→lt _ _ live) in
        (
          (
            λ p. cc,
            λ d. elim d [ inl e ↦ cc | inr f ↦ absurd (omega (arith, ltb→lt _ _ live, f x q)) ],
          ),
          inr refused,
        )
    | inr over ↦
        let passes : (check now (c ∷ key) t).1 ≡ none = unfold check is_live in ground (arith, q) in
        let late : x ≤ℤ now = ground arith in
        ((λ _. inr (λ y e. let same : y ≡ x = cc in rw same late), λ _. passes), inl passes)
  ]
]
