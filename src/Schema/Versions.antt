-- ===== src/Schema/Versions.antt =====
-- The versions of internal/schema/schema.go count the registrations of a queue, and the last of them
-- is the one that payloads are checked by.
use qwer_q.Common.{
  ℕ, ◌+◌, ◌^◌, ◌<◌, Bool, true, false, Option, none, some, List, [], ◌∷◌, if◌then◌else◌, ◌≡◌, refl,
  ap, ◌∙◌, inl, inr, arith, length,
}
use qwer_q.Common.Strings.{Str, str_eq, Str-cases}
use qwer_q.Common.Dict.{lookup, lookup-insert}
use qwer_q.Types.{Time}
use qwer_q.Schema.{
  Protobuf, SchemaError, validation_failed, Parsed, ok, err, Schema, Registry, parse_descriptor,
  next_version, store_schema, register, validate,
}

-- The arguments of a registration.
pub record Registration : Type 0 where
  pub queue : Str
  pub descriptor : Str
  pub message_type : Str
  pub at : Time

abbrev is_ok : {A : Type 0} → Parsed A → Bool
is_ok (ok a) = true
is_ok (err e) = false

-- The version that a queue is at, 0 without a schema.
abbrev pub version_of : {M : Type 0} → Option (Schema M) → ℕ
version_of none = 0
version_of (some s) = s.version

next_version_lem :
    {M : Type 0} (o : Option (Schema M))
    → version_of o + 1 < 2 ^ 32
    → next_version o ≡ 1 + version_of o
unfolding next_version
next_version_lem none h = refl
next_version_lem (some s) h = omega arith

module _ {M : Type 0} (pb : Protobuf M) where
  -- The registrations, one after the other.
  unfoldable pub register_all : List Registration → Registry M → Registry M
  register_all [] r = r
  register_all (g ∷ gs) r =
      register_all gs (register pb g.queue g.descriptor g.message_type g.at r).0

  -- How many of them are of the queue and parse.
  unfoldable pub accepted : Str → List Registration → ℕ
  accepted queue [] = 0
  accepted queue (g ∷ gs) =
      (if str_eq g.queue queue
        then (if is_ok (parse_descriptor pb g.descriptor g.message_type) then 1 else 0)
        else 0)
      + accepted queue gs

  version-store_schema :
      (g : Registration) (queue : Str) (r : Registry M) (p : Parsed M)
      → version_of (lookup queue r) + 1 < 2 ^ 32
      → version_of (lookup queue (store_schema pb g.queue g.descriptor g.message_type g.at r p).0)
        ≡ (if str_eq g.queue queue then (if is_ok p then 1 else 0) else 0)
          + version_of (lookup queue r)
  unfolding store_schema
  version-store_schema g queue r (err e) h = ground arith
  version-store_schema g queue r (ok m) h = elim (Str-cases g.queue queue) [
    | inl (b, f) ↦
        rw (lookup-insert, b)
          (ap (λ q. next_version (lookup q r)) f ∙ next_version_lem (lookup queue r) h)
    | inr (b, f) ↦ rw (lookup-insert, b) (omega arith)
  ]

  version-register :
      (g : Registration) (queue : Str) (r : Registry M)
      → version_of (lookup queue r) + 1 < 2 ^ 32
      → version_of (lookup queue (register pb g.queue g.descriptor g.message_type g.at r).0)
        ≡ accepted queue (g ∷ []) + version_of (lookup queue r)
  unfolding register accepted
  version-register g queue r h =
      version-store_schema g queue r (parse_descriptor pb g.descriptor g.message_type) h
      ∙ omega arith

  -- While it stays below 2^32, the version of a queue counts its registrations that parse: those
  -- that do not, and those of other queues, leave it.
  pub version-register_all :
      (gs : List Registration) (queue : Str) (r : Registry M)
      → version_of (lookup queue r) + length gs < 2 ^ 32
      → version_of (lookup queue (register_all gs r))
        ≡ accepted queue gs + version_of (lookup queue r)
  unfolding register_all accepted
  version-register_all [] queue r h = omega arith
  version-register_all (g ∷ gs) queue r h =
      let r' = (register pb g.queue g.descriptor g.message_type g.at r).0 in
      let one = version-register g queue r (omega arith) in
      version-register_all gs queue r' (ground (arith, one)) ∙ omega (arith, one)

  abbrev pub in_force : Str → Str → Str → Registry M → Parsed M → Option SchemaError
  in_force queue payload registered r (err e) = validate pb queue payload r
  in_force queue payload registered r (ok m) =
      if str_eq registered queue
      then (if pb.unmarshals m payload then none else some validation_failed)
      else validate pb queue payload r

  validate-store_schema :
      (g : Registration) (queue payload : Str) (r : Registry M) (p : Parsed M)
      → validate pb queue payload (store_schema pb g.queue g.descriptor g.message_type g.at r p).0
        ≡ in_force queue payload g.queue r p
  unfolding store_schema validate
  validate-store_schema g queue payload r (err e) = refl
  validate-store_schema g queue payload r (ok m) = elim (Str-cases g.queue queue) [
    | inl (b, f) ↦ rw (lookup-insert, b, validate) refl
    | inr (b, f) ↦ rw (lookup-insert, b, validate) refl
  ]

  -- A payload is checked by the schema that was registered last for its queue: where a registration
  -- parses, it is in force, and it leaves the schemas of other queues, and where it does not, nothing
  -- changes.
  pub validate-register :
      (g : Registration) (queue payload : Str) (r : Registry M)
      → validate pb queue payload (register pb g.queue g.descriptor g.message_type g.at r).0
        ≡ in_force queue payload g.queue r (parse_descriptor pb g.descriptor g.message_type)
  unfolding register
  validate-register g queue payload r =
      validate-store_schema g queue payload r (parse_descriptor pb g.descriptor g.message_type)
