-- ===== src/Errors.antt =====
-- src/specode_review/errors.py, and the exception classes that the handlers of the program tell
-- apart: its own, and those of Python.
use Prim.Native.String.{String}
use specode_review.Base.{ℕ, Option, Bool, true, false, Text}

pub data FailureCategory : Type 0 where
  repository_materialization review_too_large sandbox_lifecycle codex_or_limit : FailureCategory
  invalid_model_output timeout review_failure : FailureCategory

pub record ReviewError : Type 0 where
  pub category : FailureCategory
  pub stage : String

-- `GitHubOperation` of github.py.
pub data GitHubOperation : Type 0 where
  installation_read installation_token pull_request_read review_comment_create : GitHubOperation
  review_comment_list review_comment_update webhook_configuration_read : GitHubOperation

-- The attributes of `GitHubError`; a retry time is a number of milliseconds.
pub record GitHubFailure : Type 0 where
  pub operation : GitHubOperation
  pub status_code : Option ℕ
  pub retry_after : Option ℕ

-- What a call can raise. `base_exception` is any exception outside `Exception`, such as
-- `KeyboardInterrupt`; `other` is any further subclass of `Exception`. The errors of campaign.py,
-- verification.py and readiness.py carry the stage that failed, the one of configuration.py the setting.
pub data Raised : Type 0 where
  review_error : ReviewError → Raised
  github_error github_mutation_error : GitHubFailure → Raised
  consistency_error validation_error value_error type_error : Raised
  timeout_error os_error runtime_error output_limit_error called_process_error : Raised
  campaign_error verification_error startup_readiness_error : String → Raised
  webhook_mismatch_error : (current expected : Text) → Raised
  configuration_error : String → Raised
  live_precondition_error live_evidence_error : Raised
  other base_exception : Raised

-- `except Exception`
abbrev pub is_exception : Raised → Bool
is_exception base_exception = false
is_exception _ = true

-- `except OSError`
abbrev pub is_os_error : Raised → Bool
is_os_error os_error = true
is_os_error timeout_error = true
is_os_error _ = false

-- `except (OSError, RuntimeError, ValueError)`: `TimeoutError` is an `OSError`, the `ValidationError`
-- of pydantic and the error of configuration.py a `ValueError`, and those with a stage are a
-- `RuntimeError`.
abbrev pub is_grounding_failure : Raised → Bool
is_grounding_failure os_error = true
is_grounding_failure timeout_error = true
is_grounding_failure runtime_error = true
is_grounding_failure value_error = true
is_grounding_failure validation_error = true
is_grounding_failure (campaign_error stage) = true
is_grounding_failure (verification_error stage) = true
is_grounding_failure (startup_readiness_error stage) = true
is_grounding_failure (webhook_mismatch_error current expected) = true
is_grounding_failure (configuration_error setting) = true
is_grounding_failure _ = false

pub data Result {ℓ} (A : Type ℓ) : Type ℓ where
  ok : A → Result A
  err : Raised → Result A
