-- ===== src/Configuration/Load.antt =====
-- `from_environment` of src/specode_review/configuration.py and the readers of single settings.
use Prim.Native.String.{String}
use specode_review.Base.{
  ℕ, ◌+◌, ◌-◌, ◌*◌, Bool, true, false, ◌&&◌, Option, none, some, [], ◌∷◌, Text, text, text_equal,
  ◌==◌, nat_eq, length, contains, leb, ltb, filter, is_empty, if◌then◌else◌,
}
use specode_review.Base.Dict.{lookup}
use specode_review.Errors.{configuration_error, Result, ok, err}
use specode_review.Environment.{Environment}
use specode_review.Core.Diff.{strip}
use specode_review.Files.{path_equal}
use specode_review.Verification.Url.{SplitUrl, is_webhook_url}
use specode_review.Configuration.{
  and_then, require, codex_model_max_chars, ReasoningEffort, reasoning_effort_of,
  codex_execution_policy, ProductionPaths, ProductionServiceSettings,
}

-- What `int` reads behind a sign: ASCII digits, with a `_` between two of them.
unfoldable pub digits_of : Bool → ℕ → Text → Option ℕ
digits_of seen n [] = if seen then some n else none
digits_of seen n (c ∷ s) = elim (leb b'0' c && leb c b'9') as (λ _. Option ℕ) [
  | true ↦ digits_of true (n * 10 + (c - b'0')) s
  | false ↦ elim (nat_eq c b'_' && seen) as (λ _. Option ℕ) [
    | true ↦ digits_of false n s
    | false ↦ none
  ]
]

-- `sys.int_info.default_max_str_digits`: `int` refuses a text with more digits.
abbrev max_str_digits : ℕ
max_str_digits = 4300

abbrev bounded_digits : Text → Option ℕ
bounded_digits s =
    if ltb max_str_digits (length (filter (λ c. leb b'0' c && leb c b'9') s))
    then none
    else digits_of false 0 s

-- What is not positive is refused all the same, and 0 here.
abbrev nothing_of : Option ℕ → Option ℕ
nothing_of none = none
nothing_of (some n) = some 0

abbrev signed : Text → Option ℕ
signed [] = none
signed (c ∷ s) =
    if nat_eq c b'-'
    then nothing_of (bounded_digits s)
    else if nat_eq c b'+'
    then bounded_digits s
    else bounded_digits (c ∷ s)

-- `int(value)`, or `none` for its `ValueError`.
unfoldable pub int_of : Text → Option ℕ
unfolding digits_of
int_of value = signed (strip value)

abbrev pub required_value : String → Option Text → Result Text
required_value name none = err (configuration_error name)
required_value name (some value) =
    if is_empty value then err (configuration_error name) else ok value

-- `_required`
unfoldable pub required : Environment → String → Result Text
required environment name = required_value name (lookup (text name) environment)

abbrev pub positive : String → Option ℕ → Result ℕ
positive name none = err (configuration_error name)
positive name (some n) = if leb n 0 then err (configuration_error name) else ok n

abbrev pub positive_of : String → Option ℕ → Option Text → Result ℕ
positive_of name (some default) none = ok default
positive_of name none none = err (configuration_error name)
positive_of name default (some raw) = positive name (int_of raw)

-- `_positive_int`
unfoldable pub positive_int : Environment → String → Option ℕ → Result ℕ
unfolding int_of
positive_int environment name default = positive_of name default (lookup (text name) environment)

abbrev pub effort_or_invalid : Option ReasoningEffort → Result ReasoningEffort
effort_or_invalid none = err (configuration_error "OPENAI_REASONING_EFFORT")
effort_or_invalid (some effort) = ok effort

abbrev or_default : Text → Option Text → Text
or_default default none = default
or_default default (some value) = value

abbrev pub is_log_level : Text → Bool
is_log_level level =
    contains (text "CRITICAL" ∷ text "ERROR" ∷ text "WARNING" ∷ text "INFO" ∷ text "DEBUG" ∷ [])
      level

abbrev pub valid : String → Bool → Result (Unit {0})
valid name test = require test (configuration_error name)

module _ (urlsplit : Text → Result SplitUrl) (upper : Text → Text) where
  abbrev pub secret_of : Environment → Result Text
  secret_of environment = and_then (required environment "GITHUB_WEBHOOK_SECRET") λ secret.
      and_then (valid "GITHUB_WEBHOOK_SECRET" (leb 32 (length secret) && leb (length secret) 1024))
        λ u. ok secret

  abbrev pub url_of : Environment → Result Text
  url_of environment = and_then (required environment "PUBLIC_WEBHOOK_URL") λ url.
      and_then (urlsplit url)
        λ parsed. and_then (valid "PUBLIC_WEBHOOK_URL" (is_webhook_url parsed)) λ u. ok url

  abbrev pub model_of : Environment → Result Text
  model_of environment = and_then (required environment "CODEX_MODEL") λ model.
      and_then
        (valid "CODEX_MODEL" (leb (length model) codex_model_max_chars && (strip model == model)))
        λ u. ok model

  abbrev pub effort_of : Environment → Result ReasoningEffort
  effort_of environment =
      and_then (required environment "OPENAI_REASONING_EFFORT")
        λ value. effort_or_invalid (reasoning_effort_of value)

  abbrev pub concurrency_of : Environment → Result ℕ
  concurrency_of environment =
      and_then (positive_int environment "MAX_CONCURRENT_REVIEWS" (some 3))
        λ n. and_then (valid "MAX_CONCURRENT_REVIEWS" (leb n 5)) λ u. ok n

  abbrev pub level_of : Environment → Result Text
  level_of environment =
      let level = upper (or_default (text "INFO") (lookup (text "LOG_LEVEL") environment)) in
      and_then (valid "LOG_LEVEL" (is_log_level level)) λ u. ok level

  -- `from_environment`, in the order in which the source looks.
  unfoldable pub from_environment : ProductionPaths → Environment → Result ProductionServiceSettings
  unfolding required positive_int reasoning_effort_of codex_execution_policy is_webhook_url
  from_environment paths environment = and_then (secret_of environment) λ webhook_secret.
      and_then (url_of environment) λ public_webhook_url. and_then (model_of environment) λ model.
        and_then (effort_of environment) λ reasoning.
          and_then (concurrency_of environment) λ concurrency.
            and_then (level_of environment) λ log_level.
              and_then (positive_int environment "GITHUB_APP_ID" none) λ app_id.
                and_then
                  (codex_execution_policy (record { model = model; reasoning_effort = reasoning }))
                  λ codex_execution. ok (record {
                    app_id = app_id;
                    webhook_secret = webhook_secret;
                    public_webhook_url = public_webhook_url;
                    codex_execution = codex_execution;
                    max_concurrent_reviews = concurrency;
                    log_level = log_level;
                    paths = paths;
                  })
