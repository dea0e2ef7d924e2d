-- ===== src/Configuration/Tests.antt =====
-- Environments of the service.
use specode_review.Base.{
  ◌≡◌, refl, true, ◌&&◌, none, some, [], ◌∷◌, Text, text, replicate, map, leb, if◌then◌else◌, ◌-◌,
}
use specode_review.Errors.{configuration_error, value_error, ok, err}
use specode_review.Environment.{Environment}
use specode_review.Core.Diff.{lstrip}
use specode_review.Publishing.Render.{rstrip}
use specode_review.Files.{FilePath}
use specode_review.Resources.{is_prefix}
use specode_review.Verification.Url.{SplitUrl, is_webhook_url}
use specode_review.Configuration.{
  high, reasoning_effort_of, codex_execution_policy, is_sandbox_prefix, ProductionPaths,
  production_paths, ProductionServiceSettings,
}
use specode_review.Configuration.Load.{digits_of, int_of, required, positive_int, from_environment}
use specode_review.Configuration.Accepted.{
  IsRefusal, IsAccepted, from_environment-IsAccepted, from_environment-IsRefusal,
}

numbers :
    (int_of (text " +1_0 ") ≡ some 10)
    × (int_of (text "1__0") ≡ none)
    × (int_of (text "-7") ≡ some 0)
    × (int_of (text "") ≡ none)
unfolding int_of digits_of lstrip rstrip
numbers = (refl, refl, refl, refl)

-- A prefix that is accepted here, of three characters.
short_prefix : is_sandbox_prefix (text "ab-") ≡ true
unfolding is_sandbox_prefix is_prefix
short_prefix = refl

abbrev url : SplitUrl
url = record {
  scheme = text "https";
  netloc = text "h";
  path = text "/webhooks/github";
  query = [];
  fragment = [];
  username = none;
  password = none;
}

abbrev upper : Text → Text
upper = map (λ c. if leb b'a' c && leb c b'z' then c - 32 else c)

abbrev path : FilePath
path = record { anchor = text "/"; parts = text "x" ∷ [] }

abbrev paths : ProductionPaths
paths = record {
  private_key_path = path;
  review_kit_path = path;
  workspace_root = path;
  sandbox_name_prefix = text "specode-review-";
}

abbrev environment : Text → Environment
environment app_id =
    (text "GITHUB_WEBHOOK_SECRET", replicate 32 b's')
    ∷ (text "PUBLIC_WEBHOOK_URL", text "https://h/webhooks/github")
    ∷ (text "CODEX_MODEL", text "m")
    ∷ (text "OPENAI_REASONING_EFFORT", text "high")
    ∷ (text "LOG_LEVEL", text "debug")
    ∷ (text "GITHUB_APP_ID", app_id)
    ∷ []

abbrev configured : ProductionServiceSettings
configured = record {
  app_id = 12;
  webhook_secret = replicate 32 b's';
  public_webhook_url = text "https://h/webhooks/github";
  codex_execution = record { model = text "m"; reasoning_effort = high };
  max_concurrent_reviews = 3;
  log_level = text "DEBUG";
  paths = paths;
}

placed : production_paths paths ≡ ok paths
unfolding production_paths is_sandbox_prefix is_prefix
placed = refl

loaded : from_environment (λ u. ok url) upper paths (environment (text "12")) ≡ ok configured
unfolding from_environment required positive_int int_of digits_of lstrip rstrip reasoning_effort_of
    codex_execution_policy is_webhook_url
loaded = refl

refused :
    from_environment (λ u. ok url) upper paths (environment (text "0"))
    ≡ err (configuration_error "GITHUB_APP_ID")
unfolding from_environment required positive_int int_of digits_of lstrip rstrip reasoning_effort_of
    codex_execution_policy is_webhook_url
refused = refl

from_environment-IsAccepted_example : IsAccepted (λ u. ok url) upper paths configured
from_environment-IsAccepted_example =
    from_environment-IsAccepted (λ u. ok url) upper paths (environment (text "12")) configured
      placed loaded

from_environment-IsRefusal_example :
    IsRefusal (λ u. ok url) upper (configuration_error "GITHUB_APP_ID")
from_environment-IsRefusal_example =
    from_environment-IsRefusal (λ u. ok url) upper paths (environment (text "0"))
      (configuration_error "GITHUB_APP_ID") placed refused

-- A URL that cannot be split: the error is that of the splitting.
unsplit :
    from_environment (λ u. err value_error) upper paths (environment (text "12")) ≡ err value_error
unfolding from_environment required
unsplit = refl
