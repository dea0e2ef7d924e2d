-- ===== src/Configuration.antt =====
-- src/specode_review/configuration.py: the settings of the service and the environment they come from.
-- Times are milliseconds. `urlsplit` and `upper` are parameters.
mod Load
mod Accepted
mod Tests
use Prim.Native.String.{String}
use specode_review.Base.{
  ℕ, zero, suc, ◌+◌, ◌-◌, ◌*◌, Bool, true, false, not, ◌&&◌, ◌||◌, Option, none, some, List, [],
  ◌∷◌, Text, text, text_equal, ◌==◌, nat_eq, length, any, contains, leb, is_empty, if◌then◌else◌,
}
use specode_review.Base.Dict.{lookup}
use specode_review.Errors.{Raised, value_error, configuration_error, Result, ok, err}
use specode_review.Environment.{Environment}
use specode_review.Core.Diff.{strip}
use specode_review.Files.{FilePath, path_equal, is_absolute, root_of}
use specode_review.Resources.{is_prefix}
use specode_review.Sandbox.Client.{SandboxResourceLimits}
use specode_review.Verification.Url.{SplitUrl, is_webhook_url}

-- A call that may raise, and then the rest.
abbrev pub and_then : {A B : Type 0} → Result A → (A → Result B) → Result B
and_then (ok a) f = f a
and_then (err e) f = err e

abbrev pub require : Bool → Raised → Result (Unit {0})
require test e = if test then ok tt else err e

abbrev pub process_output_max_bytes : ℕ
process_output_max_bytes = 1048576

abbrev pub candidate_output_max_bytes : ℕ
candidate_output_max_bytes = 65536

abbrev pub default_review_timeout : ℕ
default_review_timeout = 900000

abbrev pub default_sandbox_cleanup_timeout : ℕ
default_sandbox_cleanup_timeout = 30000

abbrev pub codex_model_max_chars : ℕ
codex_model_max_chars = 128

pub data ReasoningEffort : Type 0 where
  no_effort minimal low medium high xhigh max ultra : ReasoningEffort

-- `ReasoningEffort(value)`
unfoldable pub reasoning_effort_of : Text → Option ReasoningEffort
reasoning_effort_of value =
    if value == text "none"
    then some no_effort
    else if value == text "minimal"
    then some minimal
    else if value == text "low"
    then some low
    else if value == text "medium"
    then some medium
    else if value == text "high"
    then some high
    else if value == text "xhigh"
    then some xhigh
    else if value == text "max"
    then some max
    else if value == text "ultra"
    then some ultra
    else none

pub record CodexExecutionPolicy : Type 0 where
  pub model : Text
  pub reasoning_effort : ReasoningEffort

abbrev pub is_model : Text → Bool
is_model model =
    not (is_empty model) && (leb (length model) codex_model_max_chars && (strip model == model))

unfoldable pub codex_execution_policy : CodexExecutionPolicy → Result CodexExecutionPolicy
codex_execution_policy p = if is_model p.model then ok p else err value_error

unfoldable pub sandbox_resource_limits : SandboxResourceLimits → Result SandboxResourceLimits
sandbox_resource_limits r =
    if leb r.cpus 0 || (leb r.memory_mib 0 || leb r.pids 0) then err value_error else ok r

pub record AttemptSettings : Type 0 where
  pub app_id : ℕ
  pub private_key_path : FilePath
  pub review_kit_path : FilePath
  pub workspace_root : FilePath
  pub codex_execution : CodexExecutionPolicy
  pub sandbox_resources : SandboxResourceLimits
  pub process_output_max_bytes : ℕ
  pub candidate_output_max_bytes : ℕ
  pub review_timeout : ℕ
  pub sandbox_cleanup_timeout : ℕ
  pub sandbox_name_prefix : Text

-- `_SANDBOX_PREFIX`
unfoldable pub is_sandbox_prefix : Text → Bool
unfolding is_prefix
is_sandbox_prefix prefix = is_prefix 1 29 prefix

unfoldable pub attempt_settings : AttemptSettings → Result AttemptSettings
unfolding is_sandbox_prefix
attempt_settings a =
    if leb a.process_output_max_bytes 0
      || (leb a.candidate_output_max_bytes 0
          || (leb a.review_timeout 0 || leb a.sandbox_cleanup_timeout 0))
    then err value_error
    else if is_sandbox_prefix a.sandbox_name_prefix
    then ok a
    else err value_error

pub record ProductionPaths : Type 0 where
  pub private_key_path : FilePath
  pub review_kit_path : FilePath
  pub workspace_root : FilePath
  pub sandbox_name_prefix : Text

abbrev is_not_root : FilePath → Bool
is_not_root path = is_absolute path && not (path == root_of path)

unfoldable pub production_paths : ProductionPaths → Result ProductionPaths
unfolding is_sandbox_prefix
production_paths p =
    if is_not_root p.private_key_path
      && (is_not_root p.review_kit_path && is_not_root p.workspace_root)
    then if is_sandbox_prefix p.sandbox_name_prefix then ok p else err value_error
    else err value_error

pub record ProductionServiceSettings : Type 0 where
  pub app_id : ℕ
  pub webhook_secret : Text
  pub public_webhook_url : Text
  pub codex_execution : CodexExecutionPolicy
  pub max_concurrent_reviews : ℕ
  pub log_level : Text
  pub paths : ProductionPaths

-- The property `attempt`.
unfoldable pub attempt : ProductionServiceSettings → Result AttemptSettings
unfolding attempt_settings sandbox_resource_limits
attempt s =
    and_then (sandbox_resource_limits (record { cpus = 2; memory_mib = 2048; pids = 256 }))
      (λ resources. attempt_settings (record {
        app_id = s.app_id;
        private_key_path = s.paths.private_key_path;
        review_kit_path = s.paths.review_kit_path;
        workspace_root = s.paths.workspace_root;
        codex_execution = s.codex_execution;
        sandbox_resources = resources;
        process_output_max_bytes = process_output_max_bytes;
        candidate_output_max_bytes = candidate_output_max_bytes;
        review_timeout = default_review_timeout;
        sandbox_cleanup_timeout = default_sandbox_cleanup_timeout;
        sandbox_name_prefix = s.paths.sandbox_name_prefix;
      }))
