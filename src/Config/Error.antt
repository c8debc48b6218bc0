-- ===== src/Config/Error.antt =====
-- crates/pantheon-core/src/config/error.rs: why a configuration is refused. The values that stand in
-- a detail are the constructor's arguments.
use pantheon.Base.{Text, text}
use pantheon.Base.Int.{ℤ}
use pantheon.Config.Parse.Scanner.{ParseError}
use pantheon.Config.Model.Agents.{LogicalAgentVersion}

-- the details of `InvalidValue`
pub data Detail : Type 0 where
  expected_kind : Text → Text → Detail
  empty_text no_values too_long unfit_version no_executable : Detail
  not_positive : ℤ → Detail
  not_an_action unknown_key unknown_tie_break unknown_class unknown_network : Text → Detail
  unknown_evaluator_kind unknown_effect unknown_field : Text → Detail

-- the details of `IncompatibleCombination`
pub data Incompatibility : Type 0 where
  several_current : Text → Incompatibility
  missing_guarantee not_isolating not_guaranteed : Text → Text → Text → Incompatibility
  pinned_and_excluded : LogicalAgentVersion → Incompatibility
  mandatory_dropped : Text → Incompatibility

pub data ConfigError : Type 0 where
  malformed : ParseError → ConfigError
  missing_field : Text → ConfigError
  invalid_value : Text → Detail → ConfigError
  duplicate_identity : Text → Text → ConfigError
  duplicate_agent unknown_agent : LogicalAgentVersion → ConfigError
  unknown_reference : Text → Text → Text → ConfigError
  incompatible_combination : Incompatibility → ConfigError
  agent_declares_denied : Text → ConfigError
  rule_permits_denied : ConfigError

unfoldable pub kind : ConfigError → Text
kind (malformed _) = text "malformed"
kind (missing_field _) = text "missing-field"
kind (invalid_value _ _) = text "invalid-value"
kind (duplicate_identity _ _) = text "duplicate-identity"
kind (duplicate_agent _) = text "duplicate-identity"
kind (unknown_agent _) = text "unknown-reference"
kind (unknown_reference _ _ _) = text "unknown-reference"
kind (incompatible_combination _) = text "incompatible-combination"
kind (agent_declares_denied _) = text "hard-policy-violation"
kind rule_permits_denied = text "hard-policy-violation"
