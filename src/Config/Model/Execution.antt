-- ===== src/Config/Model/Execution.antt =====
-- crates/pantheon-core/src/config/model.rs: sandbox profiles, back ends and evaluators.
use pantheon.Base.{Bool, true, false, List, [], ◌∷◌, map, Text, text}
use pantheon.Base.Int.{ℤ}
use pantheon.Config.Value.{Value, bool, integer, string, array_of, object_of}
use pantheon.Config.Digest.{Hasher, Digest, value_digest}
use pantheon.Config.Fields.{strings}
use pantheon.Config.Model.Agents.{set_strings}

pub data IsolationClass : Type 0 where
  trusted_host container : IsolationClass

unfoldable pub isolation_as_str : IsolationClass → Text
isolation_as_str trusted_host = text "TRUSTED_HOST"
isolation_as_str container = text "CONTAINER"

unfoldable pub can_isolate_control_plane : IsolationClass → Bool
can_isolate_control_plane trusted_host = false
can_isolate_control_plane container = true

pub data NetworkMode : Type 0 where
  no_network brokered : NetworkMode

unfoldable pub network_as_str : NetworkMode → Text
network_as_str no_network = text "NONE"
network_as_str brokered = text "BROKERED"

pub record SandboxProfile : Type 0 where
  pub name : Text
  pub isolation_class : IsolationClass
  pub guarantees : List Text
  pub network_mode : NetworkMode
  pub environment_identity : Text

unfoldable pub profile_value : SandboxProfile → Value
unfolding isolation_as_str network_as_str
profile_value p = object_of (
    (text "name", string p.name)
    ∷ (text "isolationClass", string (isolation_as_str p.isolation_class))
    ∷ (text "guarantees", set_strings p.guarantees)
    ∷ (text "networkMode", string (network_as_str p.network_mode))
    ∷ (text "environmentIdentity", string p.environment_identity)
    ∷ [])

unfoldable pub profile_digest : Hasher → SandboxProfile → Digest
profile_digest hash p = value_digest hash (profile_value p)

pub record BackendRegistration : Type 0 where
  pub backend_id : Text
  pub enabled : Bool
  pub selector : Text

unfoldable pub registration_value : BackendRegistration → Value
registration_value b = object_of (
    (text "backendId", string b.backend_id)
    ∷ (text "enabled", bool b.enabled)
    ∷ (text "selector", string b.selector)
    ∷ [])

pub record ExecutionComponent : Type 0 where
  pub profiles : List SandboxProfile
  pub backends : List BackendRegistration

unfoldable pub execution_value : ExecutionComponent → Value
unfolding registration_value
execution_value c = object_of (
    (text "profiles", array_of (map profile_value c.profiles))
    ∷ (text "backends", array_of (map registration_value c.backends))
    ∷ [])

pub record EvaluatorRef : Type 0 where
  pub reference : Text
  pub current_version : Text

pub data EvaluatorKind : Type 0 where
  check schema : EvaluatorKind

unfoldable pub kind_as_str : EvaluatorKind → Text
kind_as_str check = text "check"
kind_as_str schema = text "schema"

pub record EvaluatorVersion : Type 0 where
  pub id : Text
  pub kind : EvaluatorKind
  pub argv : List Text
  pub timeout_ms : ℤ
  pub sandbox_profile : Text
  pub result_protocol : Text

pub record EvaluatorComponent : Type 0 where
  pub refs : List EvaluatorRef
  pub versions : List EvaluatorVersion

unfoldable pub ref_value : EvaluatorRef → Value
ref_value r =
    object_of
      ((text "ref", string r.reference) ∷ (text "currentVersion", string r.current_version) ∷ [])

unfoldable pub version_value : EvaluatorVersion → Value
unfolding kind_as_str
version_value v = object_of (
    (text "id", string v.id)
    ∷ (text "kind", string (kind_as_str v.kind))
    ∷ (text "argv", strings v.argv)
    ∷ (text "timeoutMs", integer v.timeout_ms)
    ∷ (text "sandboxProfile", string v.sandbox_profile)
    ∷ (text "resultProtocol", string v.result_protocol)
    ∷ [])

unfoldable pub evaluators_value : EvaluatorComponent → Value
unfolding ref_value version_value
evaluators_value c = object_of (
    (text "refs", array_of (map ref_value c.refs))
    ∷ (text "versions", array_of (map version_value c.versions))
    ∷ [])
