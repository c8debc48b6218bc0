-- ===== src/Artifact/Changeset.antt =====
-- crates/pantheon-core/src/artifact.rs: changeset entries, the captured state of a workspace and the
-- manifest of a changeset. A size is a `u64` and is written as an `i64`.
pub mod Capture
use pantheon.Base.{
  ℕ, ◌+◌, ◌-◌, ◌*◌, ◌^◌, ◌≡◌, Bool, true, false, ◌&&◌, not, Option, none, some, List, [], ◌∷◌, ◌++◌,
  map, Text, text, text_eq, ltb, if◌then◌else◌, find?, Result, ok, err,
}
use pantheon.Base.Int.{ℤ, pos, negsuc}
use pantheon.Base.SortBy.{sort_by}
use pantheon.Config.Value.{Value, string, integer, array_of, object_of}
use pantheon.Config.Canonical.{write_canonical}
use pantheon.Config.Digest.{Digest, Hasher, value_digest, display}
use pantheon.Artifact.Manifest.{to_manifest_string}

pub data EntryKind : Type 0 where
  regular executable symlink : EntryKind

unfoldable pub kind_text : EntryKind → Text
kind_text regular = text "regular"
kind_text executable = text "executable"
kind_text symlink = text "symlink"

unfoldable pub parse_kind : Text → Option EntryKind
parse_kind t =
    if text_eq t (text "regular")
    then some regular
    else if text_eq t (text "executable")
    then some executable
    else if text_eq t (text "symlink")
    then some symlink
    else none

pub data EntryState : Type 0 where
  absent : EntryState
  present : EntryKind → Digest → ℕ → EntryState

-- `size as i64`
unfoldable pub as_i64 : ℕ → ℤ
as_i64 n = if ltb n (2 ^ 63) then pos n else negsuc (2 ^ 64 - 1 - n)

unfoldable pub state_value : EntryState → Value
state_value absent = object_of ((text "state", string (text "absent")) ∷ [])
state_value (present kind blob size) = object_of (
    (text "state", string (text "present"))
    ∷ (text "mode", string (kind_text kind))
    ∷ (text "blob", string (display blob))
    ∷ (text "size", integer (as_i64 size))
    ∷ [])

pub data Operation : Type 0 where
  add modify delete : Operation

unfoldable pub operation_text : Operation → Text
operation_text add = text "add"
operation_text modify = text "modify"
operation_text delete = text "delete"

pub record ChangesetEntry : Type 0 where
  pub path : Text
  pub operation : Operation
  pub before : EntryState
  pub after : EntryState

pub data ChangesetError : Type 0 where
  -- the manifest spelling of the path
  named_twice : Text → ChangesetError
  operation_state_mismatch : Text → ChangesetError

abbrev pub is_present : EntryState → Bool
is_present absent = false
is_present (present _ _ _) = true

unfoldable pub describe : EntryState → Text
describe absent = text "absent"
describe (present kind _ _) = text "present (" ++ kind_text kind ++ text ")"

unfoldable pub agrees : Operation → EntryState → EntryState → Bool
agrees add before after = not (is_present before) && is_present after
agrees modify before after = is_present before && is_present after
agrees delete before after = is_present before && not (is_present after)

unfoldable pub new_entry :
    Text → Operation → EntryState → EntryState → Result ChangesetError ChangesetEntry
new_entry path operation before after =
    if agrees operation before after
    then ok (record { path = path; operation = operation; before = before; after = after })
    else err (
        operation_state_mismatch (
          operation_text operation
          ++ text " claims before "
          ++ describe before
          ++ text " and after "
          ++ describe after))

unfoldable pub entry_value : ChangesetEntry → Value
entry_value e = object_of (
    (text "path", string (to_manifest_string e.path))
    ∷ (text "operation", string (operation_text e.operation))
    ∷ (text "before", state_value e.before)
    ∷ (text "after", state_value e.after)
    ∷ [])

pub record FinalEntry : Type 0 where
  pub path : Text
  pub kind : EntryKind
  pub blob : Digest
  pub size : ℕ

abbrev pub sort_key : FinalEntry → Text
sort_key e = e.path

-- `RevisionState`: its entries in the order of their paths, and their digest
pub record RevisionState : Type 0 where
  pub entries : List FinalEntry
  pub digest : Digest

-- the second of the first two neighbours with one path
unfoldable pub find_duplicate : List FinalEntry → Option Text
find_duplicate [] = none
find_duplicate (a ∷ []) = none
find_duplicate (a ∷ b ∷ l) =
    let rest = find_duplicate (b ∷ l) in if text_eq a.path b.path then some b.path else rest

unfoldable pub final_value : FinalEntry → Value
final_value e = object_of (
    (text "path", string (to_manifest_string e.path))
    ∷ (text "mode", string (kind_text e.kind))
    ∷ (text "blob", string (display e.blob))
    ∷ (text "size", integer (as_i64 e.size))
    ∷ [])

-- behind the search for a duplicate
unfoldable pub seal_sorted :
    Hasher → List FinalEntry → Option Text → Result ChangesetError RevisionState
seal_sorted sha256 entries (some duplicate) = err (named_twice (to_manifest_string duplicate))
seal_sorted sha256 entries none = ok (record {
  entries = entries;
  digest = value_digest sha256 (array_of (map final_value entries));
})

unfoldable pub new_state : Hasher → List FinalEntry → Result ChangesetError RevisionState
new_state sha256 entries =
    let sorted = sort_by sort_key entries in seal_sorted sha256 sorted (find_duplicate sorted)

unfoldable pub state_json : RevisionState → Text
state_json s = write_canonical (
    object_of (
      (text "schemaVersion", integer (pos 1))
      ∷ (text "entries", array_of (map final_value s.entries))
      ∷ []))

unfoldable pub changeset_manifest : Text → Text → Digest → List ChangesetEntry → Value
changeset_manifest repository base_commit revision entries = object_of (
    (text "schemaVersion", integer (pos 1))
    ∷ (text "artifactKind", string (text "code.changeset"))
    ∷ (text "repository", string repository)
    ∷ (text "baseCommit", string base_commit)
    ∷ (text "workspaceRevision", string (display revision))
    ∷ (text "entries", array_of (map entry_value (sort_by (λ e. e.path) entries)))
    ∷ [])
