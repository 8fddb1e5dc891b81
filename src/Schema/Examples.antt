-- ===== src/Schema/Examples.antt =====
-- Registrations with descriptors that all parse but the empty one.
use qwer_q.Common.{◌+◌, true, none, some, [], ◌∷◌, ◌≡◌, arith}
use qwer_q.Common.Strings.{bytes}
use qwer_q.Common.Dict.{lookup}
use qwer_q.Common.Int.{pos}
use qwer_q.Schema.{Protobuf}
use qwer_q.Schema.Versions.{Registration, version_of, register_all, accepted, version-register_all}

abbrev any : Protobuf Unit
any = record {
  FileSet = Unit;
  Files = Unit;
  Descriptor = Unit;
  unmarshal_set = λ s. elim s [ [] ↦ none | b ∷ t ↦ some tt ];
  new_files = λ s. some tt;
  find_descriptor = λ f n. some tt;
  as_message = λ d. some tt;
  unmarshals = λ m p. true;
}

abbrev jobs : Registration
jobs = record {
  queue = bytes "jobs";
  descriptor = bytes "d";
  message_type = bytes "Job";
  at = pos 0;
}

version-register_all_example :
    version_of (lookup (bytes "jobs") (register_all any (jobs ∷ jobs ∷ []) []))
    ≡ accepted any (bytes "jobs") (jobs ∷ jobs ∷ [])
      + version_of {M = Unit} (lookup (bytes "jobs") [])
unfolding lookup
version-register_all_example =
    version-register_all any (jobs ∷ jobs ∷ []) (bytes "jobs") [] (omega arith)
