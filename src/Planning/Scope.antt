-- ===== src/Planning/Scope.antt =====
-- crates/pantheon-core/src/planning/scope.rs: patterns over the components of a path.
pub mod Matching
pub mod Grammar
use pantheon.Base.{
  ℕ, ◌≡◌, Bool, true, false, ◌&&◌, ◌||◌, not, Option, none, some, List, [], ◌∷◌, Text, text, ◌==◌,
  if◌then◌else◌, any, is_nil, text_eq, strip_prefix, Result, ok, err, ◌>>=◌, collect,
}
use pantheon.Artifact.Path.{split, contains_byte}

pub data Segment : Type 0 where
  literal : Text → Segment
  one many : Segment

abbrev pub Pattern : Type 0
Pattern = List Segment

pub data ScopeReason : Type 0 where
  no_scheme no_path empty_component partial_wildcard : ScopeReason

-- the refused pattern and why
pub record ScopeError : Type 0 where
  pub pattern : Text
  pub reason : ScopeReason

abbrev pub scheme : Text
scheme = text "workspace://"

unfoldable pub compile_piece : Text → Result ScopeReason Segment
compile_piece piece =
    if text_eq piece []
    then err empty_component
    else if text_eq piece (text "**")
    then ok many
    else if text_eq piece (text "*")
    then ok one
    else if contains_byte b'*' piece
    then err partial_wildcard
    else ok (literal piece)

unfoldable pub compile_pattern : Text → Result ScopeError Pattern
compile_pattern pattern = elim (strip_prefix scheme pattern) [
  | none ↦ err (record { pattern = pattern; reason = no_scheme })
  | some rest ↦ elim (is_nil rest) [
    | true ↦ err (record { pattern = pattern; reason = no_path })
    | false ↦ elim (collect compile_piece (split b'/' rest)) [
      | ok segments ↦ ok segments
      | err reason ↦ err (record { pattern = pattern; reason = reason })
    ]
  ]
]

-- `WorkspaceScope`: its compiled patterns
abbrev pub WorkspaceScope : Type 0
WorkspaceScope = List Pattern

unfoldable pub compile : List Text → Result ScopeError WorkspaceScope
compile = collect compile_pattern

unfoldable pub is_empty : WorkspaceScope → Bool
is_empty = is_nil

-- `**` takes no component, or one and stands again
unfoldable pub matches_from : Pattern → List Text → Bool
matches_from [] [] = true
matches_from [] (_ ∷ _) = false
matches_from (literal l ∷ p) [] = false
matches_from (literal l ∷ p) (c ∷ cs) = text_eq c l && matches_from p cs
matches_from (one ∷ p) [] = false
matches_from (one ∷ p) (c ∷ cs) = matches_from p cs
matches_from (many ∷ p) [] = matches_from p []
matches_from (many ∷ p) (c ∷ cs) = matches_from p (c ∷ cs) || matches_from (many ∷ p) cs

unfoldable pub authorizes : WorkspaceScope → Text → Bool
authorizes scope path = any (λ p. matches_from p (split b'/' path)) scope
