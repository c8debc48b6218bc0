-- ===== src/Config/Compile/Context.antt =====
-- crates/pantheon-core/src/config/compile.rs: `context` and `authorization`.
use pantheon.Base.{
  ℕ, Bool, true, false, ◌&&◌, not, Text, text, text_eq, text_contains, if◌then◌else◌, Result, ok,
  err, refuse_if, ◌>>=◌, ◌>>◌,
}
use pantheon.Base.Int.{ℤ}
use pantheon.Config.Value.{Value}
use pantheon.Config.Error.{
  ConfigError, invalid_value, not_an_action, unknown_effect, rule_permits_denied,
}
use pantheon.Config.Model.Agents.{
  RuleEffect, permit, forbid, AuthorizationRule, AuthorizationComponent,
}
use pantheon.Config.Model.Context.{ContextComponent}
use pantheon.Config.Reader.{
  as_array, field, indexed, path, positive, read_entries, read_i64, read_str, string_list,
}
use pantheon.Config.Compile.Policy.{actions, as_u32, hard_denied_action}

-- an integer that is above zero
unfoldable pub read_positive : Value → Text → Text → Result ConfigError ℤ
read_positive value prefix key = do
  number ← read_i64 value prefix key
  positive number (path prefix key)
  ok number

unfoldable pub context : Value → Result ConfigError ContextComponent
unfolding read_positive
context value = do
  stated ← read_positive value (text "context") (text "schemaVersion")
  memory ← read_positive value (text "context") (text "memoryLimitTokens")
  orientation ← read_positive value (text "context") (text "workspaceOrientationLimitTokens")
  margin ← read_positive value (text "context") (text "safetyMarginTokens")
  schema_version ← as_u32 stated (text "context.schemaVersion")
  mandatory ← string_list value (text "context") (text "mandatorySections")
  preload ← string_list value (text "context") (text "preloadPriority")
  dropped ← string_list value (text "context") (text "optionalDropOrder")
  ok (record {
    schema_version = schema_version;
    mandatory_sections = mandatory;
    preload_priority = preload;
    memory_limit_tokens = memory;
    workspace_orientation_limit_tokens = orientation;
    safety_margin_tokens = margin;
    optional_drop_order = dropped;
  })

unfoldable pub read_effect : Text → Text → Result ConfigError RuleEffect
read_effect at t =
    if text_eq t (text "permit")
    then ok permit
    else if text_eq t (text "forbid")
    then ok forbid
    else err (invalid_value at (unknown_effect t))

unfoldable pub is_permit : RuleEffect → Bool
is_permit permit = true
is_permit forbid = false

-- the loop over the rules keeps nothing between the entries
unfoldable pub rule_entry : ℕ → Unit {0} → Value → Result ConfigError (AuthorizationRule × Unit {0})
unfolding read_effect is_permit
rule_entry index nothing entry = do
  let prefix = indexed (text "authorization.rules") index
  action ← read_str entry prefix (text "action")
  refuse_if (not (text_contains actions action))
      (invalid_value (path prefix (text "action")) (not_an_action action))
  effect_text ← read_str entry prefix (text "effect")
  effect ← read_effect (path prefix (text "effect")) effect_text
  refuse_if (text_eq action hard_denied_action && is_permit effect) rule_permits_denied
  ok (record { action = action; effect = effect }, tt)

unfoldable pub authorization : Value → Result ConfigError AuthorizationComponent
unfolding read_positive rule_entry
authorization value = do
  stated ← read_positive value (text "authorization") (text "schemaVersion")
  rule_source ← field value (text "authorization") (text "rules")
  entries ← as_array rule_source (text "authorization.rules")
  rules ← read_entries rule_entry 0 tt entries
  schema_version ← as_u32 stated (text "authorization.schemaVersion")
  ok (record { schema_version = schema_version; rules = rules })
