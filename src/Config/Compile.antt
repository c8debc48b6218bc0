-- ===== src/Config/Compile.antt =====
-- crates/pantheon-core/src/config/compile.rs: a configuration document compiled and validated.
pub mod Policy
pub mod Agents
pub mod Routing
pub mod Execution
pub mod Context
pub mod Safe
pub mod Compiled
use pantheon.Base.{[], Text, text, Result, ok, err, ◌>>=◌, ◌>>◌}
use pantheon.Config.Value.{Value}
use pantheon.Config.Parse.Scanner.{ParseError}
use pantheon.Config.Parse.Grammar.{parse}
use pantheon.Config.Error.{ConfigError, malformed}
use pantheon.Config.Reader.{field}
use pantheon.Config.Revision.{CompiledConfiguration}
use pantheon.Config.Validate.{cross_references}
use pantheon.Config.Compile.Agents.{agents}
use pantheon.Config.Compile.Routing.{routing}
use pantheon.Config.Compile.Execution.{execution, evaluators}
use pantheon.Config.Compile.Context.{context, authorization}

-- `From<ParseError>`
unfoldable pub from_parse_error : Result ParseError Value → Result ConfigError Value
from_parse_error (ok v) = ok v
from_parse_error (err e) = err (malformed e)

unfoldable pub components : Value → Result ConfigError CompiledConfiguration
unfolding field
components root = do
  agents_source ← field root [] (text "agents")
  agents_part ← agents agents_source
  routing_source ← field root [] (text "routing")
  routing_part ← routing routing_source
  execution_source ← field root [] (text "execution")
  execution_part ← execution execution_source
  evaluators_source ← field root [] (text "evaluators")
  evaluators_part ← evaluators evaluators_source
  context_source ← field root [] (text "context")
  context_part ← context context_source
  authorization_source ← field root [] (text "authorization")
  authorization_part ← authorization authorization_source
  ok (record {
    agents = agents_part;
    routing = routing_part;
    execution = execution_part;
    evaluators = evaluators_part;
    context = context_part;
    authorization = authorization_part;
  })

unfoldable pub compile : Text → Result ConfigError CompiledConfiguration
unfolding from_parse_error
compile source = do
  root ← from_parse_error (parse source)
  compiled ← components root
  cross_references compiled
  ok compiled
