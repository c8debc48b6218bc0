-- ===== src/Planning/Evaluators.antt =====
-- crates/pantheon-core/src/planning/evaluators.rs: evaluator references and their versions.
use pantheon.Base.{
  Option, none, some, List, [], ◌∷◌, Text, text, text_eq, if◌then◌else◌, Result, ok, ◌>>=◌,
}
use pantheon.Config.Value.{Value, get}
use pantheon.Config.Parse.Scanner.{ParseError}
use pantheon.Config.Parse.Grammar.{parse}
use pantheon.Config.Fields.{as_string, as_array}

-- `RegistryResolver`: the references and their current versions
abbrev pub RegistryResolver : Type 0
RegistryResolver = List (Text × Text)

-- an entry without the two strings is passed over
unfoldable pub read_refs : List Value → RegistryResolver
read_refs [] = []
read_refs (entry ∷ refs) =
    let rest = read_refs refs in
    elim (as_string (get entry (text "ref"))) [
      | none ↦ rest
      | some reference ↦ elim (as_string (get entry (text "currentVersion"))) [
        | none ↦ rest
        | some version ↦ (reference, version) ∷ rest
      ]
    ]

unfoldable pub from_canonical_json : Text → Result ParseError RegistryResolver
unfolding read_refs
from_canonical_json source = do
  value ← parse source
  ok (elim (as_array (get value (text "refs"))) [ none ↦ [] | some refs ↦ read_refs refs ])

unfoldable pub resolve : RegistryResolver → Text → Option Text
resolve [] reference = none
resolve ((candidate, version) ∷ entries) reference =
    if text_eq candidate reference then some version else resolve entries reference
