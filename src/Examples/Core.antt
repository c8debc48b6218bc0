-- ===== src/Examples/Core.antt =====
-- The properties of crates/pantheon-core at concrete inputs.
use pantheon.Base.{
  ◌<◌, ◌≡◌, ◌≢◌, ◌↔◌, refl, true, none, some, List, [], ◌∷◌, map, Text, text, All, Any, ok, arith,
}
use mathlib.Core.List.{Permᴰ}
use pantheon.Base.Int.{pos, negsuc}
use pantheon.Config.Value.{Value, null, integer, string, object, array_of, entry, end, IsCanonical}
use pantheon.Config.Canonical.{write_canonical}
use pantheon.Config.Digest.{IsDigest, display, from_display, from_display-display}
use pantheon.Config.Parse.Grammar.{parse}
use pantheon.Config.Parse.Strings.{escape_at}
use pantheon.Config.Parse.Escapes.{escape_at-plus}
use pantheon.Config.Roundtrip.Values.{parse-write_canonical}
use pantheon.Artifact.Path.{from_bytes, split, check_components, check_component}
use pantheon.Artifact.Path.Rules.{IsRepositoryPath, from_bytes_iff}
use pantheon.Artifact.Manifest.{
  encode_path, decode_manifest_string, from_manifest_string, to_manifest_string,
}
use pantheon.Artifact.Manifest.Roundtrip.{decode-encode_path, from_manifest-to_manifest}
use pantheon.Planning.Scope.{Pattern, literal, one, many, authorizes, compile_pattern}
use pantheon.Planning.Scope.Matching.{Covers, authorizes_iff}
use pantheon.Planning.Scope.Grammar.{spell_pattern, IsSegment, compile_pattern_iff}
use pantheon.Base.SortBy.{sort_by, IsDistinct}
use pantheon.Config.Digest.{Hasher, value_digest}
use pantheon.Artifact.Changeset.{
  regular, executable, EntryState, present, add, delete, ChangesetEntry, new_entry, FinalEntry,
  sort_key, new_state, final_value, changeset_manifest, RevisionState,
}
use pantheon.Artifact.Changeset.Capture.{
  entry_key, IsChange, new_state_iff, new_state-perm, changeset_manifest-perm, new_entry_iff,
}
use pantheon.Scheduling.{
  GoalFairness, SchedulableTask, candidate, last_served, service_order, select_service,
}
use pantheon.Scheduling.Fairness.{
  IsBefore, service_order-perm, service_order-Perm, select_service-least,
}
use pantheon.Examples.{filled}

abbrev document : Value
document = object (
    entry (text "a\n") (array_of (integer (pos 10) ∷ integer (negsuc 0) ∷ null ∷ []))
      (entry (text "b") (string (text "x\"y")) end))

document-IsCanonical : IsCanonical document
document-IsCanonical = ground arith

parse-write_canonical_example : parse (write_canonical document) ≡ ok document
parse-write_canonical_example = parse-write_canonical document document-IsCanonical

filled-IsDigest : IsDigest (filled 32)
filled-IsDigest = record { width = refl; bytes = ground arith }

from_display-display_example : from_display (display (filled 32)) ≡ some (filled 32)
from_display-display_example = from_display-display (filled 32) filled-IsDigest

abbrev path : Text
path = text "src/a%b"

from_bytes_iff_example : (from_bytes path ≡ ok path) ↔ ((path ≡ path) × IsRepositoryPath path)
from_bytes_iff_example = from_bytes_iff path path

-- not UTF-8
abbrev raw : Text
raw = 255 ∷ text "/a"

raw-bytes : All (λ b. b < 256) raw
raw-bytes = ground arith

decode-encode_path_example : decode_manifest_string (encode_path raw) ≡ some raw
decode-encode_path_example = decode-encode_path raw raw-bytes

raw-accepted : from_bytes raw ≡ ok raw
unfolding from_bytes check_components check_component split
raw-accepted = refl

from_manifest-to_manifest_example : from_manifest_string (to_manifest_string raw) ≡ ok raw
from_manifest-to_manifest_example = from_manifest-to_manifest raw raw-bytes raw-accepted

abbrev pattern_ : Pattern
pattern_ = literal (text "src") ∷ many ∷ one ∷ []

authorizes_iff_example :
    (authorizes (pattern_ ∷ []) path ≡ true) ↔ Any (λ p. Covers p (split b'/' path)) (pattern_ ∷ [])
authorizes_iff_example = authorizes_iff (pattern_ ∷ []) path

compile_pattern_iff_example : (compile_pattern (text "workspace://src/**/*") ≡ ok pattern_) ↔ (
    (text "workspace://src/**/*" ≡ spell_pattern pattern_)
    × (pattern_ ≢ [])
    × All IsSegment pattern_)
compile_pattern_iff_example = compile_pattern_iff (text "workspace://src/**/*") pattern_

abbrev goals : List GoalFairness
goals =
    (record { goal_id = text "g1"; last_served_sequence = some (pos 7) })
    ∷ (record { goal_id = text "g2"; last_served_sequence = none })
    ∷ []

abbrev task_a : SchedulableTask
task_a = record { task_id = text "a"; goal_id = text "g1"; eligible_since = pos 1 }

abbrev task_b : SchedulableTask
task_b = record { task_id = text "b"; goal_id = text "g2"; eligible_since = pos 5 }

service_order-perm_example :
    service_order goals (task_a ∷ task_b ∷ []) ≡ service_order goals (task_b ∷ task_a ∷ [])
service_order-perm_example = service_order-perm goals (Permᴰ.swap refl refl)

service_order-Perm_example :
    Permᴰ
      (service_order goals (task_a ∷ task_b ∷ []))
      ((text "g1", text "a") ∷ (text "g2", text "b") ∷ [])
service_order-Perm_example = service_order-Perm goals (task_a ∷ task_b ∷ [])

selected : select_service goals (task_a ∷ task_b ∷ []) ≡ some (text "g2", text "b")
unfolding select_service service_order candidate last_served
selected = refl

select_service-least_example :
    Any
      (λ t.
        (◌≡◌ {A = Text × Text} (t.goal_id, t.task_id) (text "g2", text "b"))
        × All (λ u. ¬ IsBefore goals u t) (task_a ∷ task_b ∷ []))
      (task_a ∷ task_b ∷ [])
select_service-least_example =
    select_service-least goals (task_a ∷ task_b ∷ []) (text "g2", text "b") selected

abbrev file_a : FinalEntry
file_a = record { path = text "src/a"; kind = regular; blob = filled 32; size = 4 }

abbrev file_b : FinalEntry
file_b = record { path = text "src/b"; kind = executable; blob = filled 32; size = 2 }

-- a hash function for the examples
abbrev same_bytes : Hasher
same_bytes t = t

files-IsDistinct : IsDistinct sort_key (file_b ∷ file_a ∷ [])
files-IsDistinct = ground arith

abbrev captured : RevisionState
captured = record {
  entries = sort_by sort_key (file_b ∷ file_a ∷ []);
  digest =
      value_digest same_bytes
        (array_of (map final_value (sort_by sort_key (file_b ∷ file_a ∷ []))));
}

new_state_iff_example :
    (new_state same_bytes (file_b ∷ file_a ∷ []) ≡ ok captured)
    ↔ (IsDistinct sort_key (file_b ∷ file_a ∷ []) × (captured ≡ captured))
new_state_iff_example = new_state_iff same_bytes (file_b ∷ file_a ∷ []) captured

new_state-perm_example :
    new_state same_bytes (file_b ∷ file_a ∷ []) ≡ new_state same_bytes (file_a ∷ file_b ∷ [])
new_state-perm_example = new_state-perm same_bytes (Permᴰ.swap refl refl) files-IsDistinct

abbrev change_a : ChangesetEntry
change_a = record {
  path = text "src/a";
  operation = add;
  before = EntryState.absent;
  after = present regular (filled 32) 4;
}

abbrev change_b : ChangesetEntry
change_b = record {
  path = text "src/b";
  operation = delete;
  before = present regular (filled 32) 4;
  after = EntryState.absent;
}

changes-IsDistinct : IsDistinct entry_key (change_b ∷ change_a ∷ [])
changes-IsDistinct = ground arith

changeset_manifest-perm_example :
    changeset_manifest (text "r") (text "c") (filled 32) (change_b ∷ change_a ∷ [])
    ≡ changeset_manifest (text "r") (text "c") (filled 32) (change_a ∷ change_b ∷ [])
changeset_manifest-perm_example =
    changeset_manifest-perm (text "r") (text "c") (filled 32) (Permᴰ.swap refl refl)
      changes-IsDistinct

new_entry_iff_example :
    (new_entry (text "src/a") add EntryState.absent (present regular (filled 32) 4) ≡ ok change_a)
    ↔ (IsChange add EntryState.absent (present regular (filled 32) 4)
        × (change_a ≡ record {
          path = text "src/a";
          operation = add;
          before = EntryState.absent;
          after = present regular (filled 32) 4;
        }))
new_entry_iff_example =
    new_entry_iff (text "src/a") add EntryState.absent (present regular (filled 32) 4) change_a

escape_at-plus_example :
    escape_at (b'+' ∷ b'0' ∷ b'4' ∷ b'1' ∷ []) 3 ≡ escape_at (b'0' ∷ b'0' ∷ b'4' ∷ b'1' ∷ []) 3
escape_at-plus_example = escape_at-plus b'0' b'4' b'1' [] 3
