-- ===== src/Lib.antt =====
-- Pantheon's deterministic control plane: the pure core of `pantheon-core` and the authoritative
-- transactions of `pantheon-store`.
--
-- Base: names of the libraries passed on, Boolean tests, lists over the native numbers, `Ord` as an
--   interface with instances for numbers, integers, pairs and lists, `slice::sort`, and `Result`. A text is
--   the list of its UTF-8 bytes. Base.Accepts says when a chain of checks accepts and what it then
--   ensures; Base.SortWith is `sort_by` and `dedup`; Base.Weak is a comparison that is a weak order.
-- Config (crates/pantheon-core/src/config): documents and their digests.
--   Config.Value, Config.Canonical: canonical.rs, the value type with its sorted map and the canonical writer
--     (`write_canonical`, `write_canonical_string`). A value, its arrays and its maps are three data types.
--   Config.Parse: parse.rs. `Parser` is the rest of the text and its offset; each method is a function
--     that returns the value and the parser behind it. The recursion runs on fuel, for which `parse` gives
--     twice the length of the text and one: an element takes two steps and at least one byte. Config.Roundtrip
--     proves the fuel enough for what the canonical writer wrote.
--   Config.Digest: digest.rs. The hash function is a parameter (`Hasher`) wherever a digest is taken.
--   Config.Model, Config.Revision: model.rs and revision.rs, the six components of a configuration,
--     their documents and the digests of a revision. A `u32` is a natural number, an `i64` an integer.
--   Config.Fields, Config.Reader, Config.Error: how the fields of a document are read (the decoders of
--     planning/ and model.rs, and reader.rs), and why a configuration is refused (error.rs). A message is
--     a constructor with the values that the source prints in it.
--   Config.Compile: compile.rs, a module for each component; a loop over the entries of an array is
--     `read_entries`, which hands the identities already seen from entry to entry. Config.Validate:
--     validate.rs. Linked describes what validation establishes; Compile.Safe and Compile.Compiled carry
--     that and the compiler's own checks to `compile`.
-- Artifact (crates/pantheon-core/src/artifact.rs): `RepositoryPath` and its manifest spelling. An accepted
--   path is the byte string itself. Artifact.Changeset: changeset entries, `RevisionState::new` and
--   `changeset_manifest`, with the hash function as a parameter.
-- Planning.Scope (crates/pantheon-core/src/planning/scope.rs): the patterns that a Task may write under.
--   Matching gives patterns a meaning as a relation; Grammar describes the accepted spellings.
-- Planning.Goal, Planning.Task, Planning.Proposal, Planning.Evaluators (crates/pantheon-core/src/planning):
--   goal.rs, task.rs, proposal.rs and evaluators.rs, the documents and their readers, and the phases.
-- Planning.Direct, Planning.Validate: direct.rs, the deterministic planner, and validate.rs. Admission
--   describes the proposals that are accepted, Ceiling the specification that results, and
--   Direct.Servable the Goals whose plan is accepted. `trim().is_empty()` is `is_blank`: every character
--   is of the Unicode property White_Space, tested on its UTF-8 bytes.
-- Fabric (crates/pantheon-core/src/execution.rs): Request has the binding, the descriptor, the request, the
--   offer and their documents; Resolution `resolve_agents` and `build_execution_request`; Candidate
--   `validate_execution_candidate`; Selection `select_execution_candidate`, where `Iterator::min_by` keeps
--   the first of the least. Launch follows a requirement of an Agent from the resolution to the
--   offer; Resolution.Wired composes the compiler's guarantees with the resolution, and
--   Resolution.Causes says what each reason of a rejection means.
-- Scheduling (crates/pantheon-core/src/scheduling.rs): the order in which Tasks are served.
-- Store (crates/pantheon-store/src): authoritative transactions.
--   Store.Tables, Store.Database: the rows of the tables (migrations.rs has the schema) and `Tx`, the body
--     of a transaction, which commits on success and rolls back on an error (transaction.rs). SQLite is the
--     lists of the rows; a CHECK on a text or a hash, or a uniqueness constraint, that an INSERT may meet
--     is a test with an error of its own; SQLite's `length` of a text is `text_length`. An UPDATE's row is not
--     tested again: a credential verifier is any text in the model, and the 32 bytes that the source's type
--     gives it are tested by the INSERT alone. Numbers of
--     the database are natural numbers, so their overflow at 2^63 is not modelled.
--   Store.Journal: command.rs, the event journal and the command ledger. `execute` is one command.
--     The columns of an event are the ones that order it and name its command; its random id is left out.
--     History is any sequence of committed transactions, along which the ledger remembers a command.
--   Store.Lineage: execution.rs. Revisioned is `Writer::update_revisioned_by`, with
--     an assignment to a column as a constructor of the table's own data type; Creation is `create_attempt`,
--     Authority `rekey_agent_control_session` and `mark_launch_contact`, Outcome
--     `record_execution_observation` and `conclude_run`. A message that prints a number leaves it out.
--     Stable says what an assertion must withstand, Preserved that every operation then keeps it, and
--     Fencing and Attempts apply both to sequences of operations; Swap and Boundary are about single ones.
-- Examples: the properties at concrete inputs.
--
-- Not modelled: the candidate, context, workspace and sandbox documents, the other stores, the engine's
-- controllers, and what reaches the host (content-addressed storage, Git, the sandbox, sockets, the command
-- line).
mod Base
mod Examples
pub mod Config
pub mod Artifact
pub mod Planning
pub mod Store
pub mod Scheduling
pub mod Fabric
