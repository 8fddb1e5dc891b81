-- ===== src/Schema.antt =====
-- internal/schema/schema.go: the schemas of the queues. What google.golang.org/protobuf does with
-- descriptors is an interface.
pub mod Versions
mod Examples
use qwer_q.Common.{ℕ, ◌+◌, ◌%◌, ◌^◌, Bool, Option, none, some, List, if◌then◌else◌}
use qwer_q.Common.Strings.{Str}
use qwer_q.Common.Order.{sort_strings}
use qwer_q.Common.Dict.{Dict, lookup, insert, keys}
use qwer_q.Types.{Time}

-- `proto.Unmarshal` into a `FileDescriptorSet`, `protodesc.NewFiles`, `FindDescriptorByName`, the type
-- assertion to a message's descriptor `M`, and `proto.Unmarshal` into a dynamic message of it.
pub record Protobuf (M : Type 0) : Type 1 where
  pub FileSet : Type 0
  pub Files : Type 0
  pub Descriptor : Type 0
  pub unmarshal_set : Str → Option FileSet
  pub new_files : FileSet → Option Files
  pub find_descriptor : Files → Str → Option Descriptor
  pub as_message : Descriptor → Option M
  pub unmarshals : M → Str → Bool

pub data SchemaError : Type 0 where
  schema_not_found invalid_descriptor message_type_not_found validation_failed : SchemaError

pub data Parsed {ℓ} (A : Type ℓ) : Type ℓ where
  ok : A → Parsed A
  err : SchemaError → Parsed A

infixl 5 ◌>>=◌
abbrev pub ◌>>=◌ {ℓ κ} : {A : Type ℓ} {B : Type κ} → Parsed A → (A → Parsed B) → Parsed B
ok a >>= f = f a
err e >>= f = err e

-- A step that fails with the error.
abbrev pub or_else : {A : Type 0} → SchemaError → Option A → Parsed A
or_else e none = err e
or_else e (some a) = ok a

pub record Schema (M : Type 0) : Type 0 where
  pub queue : Str
  pub message_type : Str
  pub descriptor : Str
  pub version : ℕ
  pub created_at : Time
  pub msg_desc : M

-- `Registry`
abbrev pub Registry : Type 0 → Type 0
Registry M = Dict (Schema M)

-- The version that follows the one there is.
unfoldable pub next_version : {M : Type 0} → Option (Schema M) → ℕ
next_version none = 1
next_version (some existing) = (existing.version + 1) % 2 ^ 32

module _ {M : Type 0} (pb : Protobuf M) where
  -- `parseDescriptor`
  unfoldable pub parse_descriptor : Str → Str → Parsed M
  parse_descriptor descriptor message_type =
      or_else invalid_descriptor (pb.unmarshal_set descriptor) >>= λ fds.
      or_else invalid_descriptor (pb.new_files fds) >>= λ files.
      or_else message_type_not_found (pb.find_descriptor files message_type) >>= λ desc.
      or_else message_type_not_found (pb.as_message desc)

  -- What follows the parsing in `Register`.
  unfoldable pub store_schema :
      Str → Str → Str → Time → Registry M → Parsed M → Registry M × Parsed ℕ
  store_schema queue descriptor message_type now r (err e) = (r, err e)
  store_schema queue descriptor message_type now r (ok m) =
      let version = next_version (lookup queue r) in
      (
        insert queue
            (record {
              queue = queue;
              message_type = message_type;
              descriptor = descriptor;
              version = version;
              created_at = now;
              msg_desc = m;
            })
            r,
        ok version,
      )

  -- `Register`
  unfoldable pub register : Str → Str → Str → Time → Registry M → Registry M × Parsed ℕ
  register queue descriptor message_type now r =
      store_schema queue descriptor message_type now r (parse_descriptor descriptor message_type)

  -- `Get`
  unfoldable pub get : Str → Registry M → Parsed (Schema M)
  get queue r = or_else schema_not_found (lookup queue r)

  -- `Validate`: a queue without a schema takes every payload.
  unfoldable pub validate : Str → Str → Registry M → Option SchemaError
  validate queue payload r = elim (lookup queue r) [
    | none ↦ none
    | some schema ↦ if pb.unmarshals schema.msg_desc payload then none else some validation_failed
  ]

  -- `CheckCompatibility`: no more than the parsing.
  unfoldable pub check_compatibility : Str → Str → Str → Parsed Bool
  check_compatibility queue descriptor message_type =
      parse_descriptor descriptor message_type >>= λ m. ok Bool.true

-- `List`
pub list : {M : Type 0} → Registry M → List Str
list r = sort_strings (keys r)
