-- ===== src/Verification/Verifier.antt =====
-- `InstallationVerifier` of src/specode_review/verification.py. Times are milliseconds.
use Prim.Native.String.{String}
use specode_review.Base.{
  ℕ, zero, suc, ◌-◌, Bool, true, false, not, ◌||◌, Option, none, some, List, [], ◌∷◌, Text, text,
  text_equal, ◌==◌, is_empty, leb, min, if◌then◌else◌,
}
use specode_review.Base.Dict.{lookup}
use specode_review.Errors.{Raised, verification_error, webhook_mismatch_error, Result, ok, err}
use specode_review.Exec.{Exec, pure, raise, catch, ◌>>=◌, ◌>>◌}
use specode_review.Environment.{Environment, parse_environment}
use specode_review.Core.Diff.{strip}
use specode_review.Verification.Url.{public_health_url, webhook_mismatch}
use specode_review.Verification.Host.{
  Host, Settings, service_command, fails_at, both, fail_if, only_if, run, run_quietly,
}
use specode_review.Verification.Probe.{verify_no_stale_resources, probe_sandbox}

-- `except VerificationError`, before `except Exception`.
abbrev pub settings_failed : Raised → Raised
settings_failed (verification_error stage) = verification_error stage
settings_failed (webhook_mismatch_error current expected) = webhook_mismatch_error current expected
settings_failed e = fails_at "configuration" e

-- `except WebhookMismatchError`, before `except Exception`.
abbrev pub github_failed : Raised → Raised
github_failed (webhook_mismatch_error current expected) = webhook_mismatch_error current expected
github_failed e = fails_at "github_app" e

abbrev curl : Text → List Text
curl url =
    text "curl"
    ∷ text "--fail"
    ∷ text "--silent"
    ∷ text "--show-error"
    ∷ text "--max-time"
    ∷ text "10"
    ∷ url
    ∷ []

abbrev pub is_managed : Option Text → Bool
is_managed none = false
is_managed (some url) = not (is_empty url)

-- `_EVIDENCE`
abbrev pub proofs : List Text
proofs =
    text "units"
    ∷ text "local_health"
    ∷ text "public_health"
    ∷ text "github_app"
    ∷ text "host_tools"
    ∷ text "review_kit"
    ∷ text "sandbox_capabilities"
    ∷ text "resource_cleanup"
    ∷ []

module _ {W : Type 0} (host : Host W) where
  abbrev read_settings : Option Text → Result (Settings × Environment)
  read_settings none = err (verification_error "configuration")
  read_settings (some content) =
      elim (parse_environment true content) as (λ _. Result (Settings × Environment)) [
        | none ↦ err (verification_error "configuration")
        | some environment ↦
            elim (host.settings_of environment) as (λ _. Result (Settings × Environment)) [
              | err e ↦ err e
              | ok settings ↦ ok (settings, environment)
            ]
      ]

  abbrev pub lift : {A : Type 0} → Result A → Exec W A
  lift r w = (r, w)

  -- `_settings`
  unfoldable pub settings : Exec W (Settings × Environment)
  unfolding parse_environment
  settings =
      catch (do content ← host.read_file; lift (read_settings content))
        (λ e. raise (settings_failed e))

  abbrev verify_unit : Text → Exec W (Unit {0})
  verify_unit unit_name = do
    run host "units" (text "systemctl" ∷ text "is-enabled" ∷ text "--quiet" ∷ unit_name ∷ [])
    run_quietly host "units" (text "systemctl" ∷ text "is-active" ∷ text "--quiet" ∷ unit_name ∷ [])

  -- `_verify_units`
  unfoldable pub verify_units : Bool → Exec W (Unit {0})
  verify_units managed_ngrok = do
    verify_unit (text "specode-review.service")
    only_if managed_ngrok (verify_unit (text "specode-review-ngrok.service"))

  -- `_verify_health`
  unfoldable pub verify_health : Text → Exec W (Unit {0})
  unfolding public_health_url
  verify_health public_webhook_url = do
    run host "local_health" (curl (text "http://127.0.0.1:8000/health/live"))
    run host "local_health" (curl (text "http://127.0.0.1:8000/health/ready"))
    url ← lift (public_health_url host.urlsplit public_webhook_url)
    run_quietly host "public_health" (curl url)

  -- The loop of `_verify_github`, on fuel: `none` is its end.
  unfoldable pub poll_webhook :
      (turns remaining : ℕ) (expected current : Text) → Exec W (Option Text)
  poll_webhook zero remaining expected current = pure none
  poll_webhook (suc turns) remaining expected current =
      if (current == expected) || leb remaining 0 then pure (some current) else do
        host.sleep (min host.webhook_poll remaining)
        now ← host.webhook_url
        poll_webhook turns (remaining - min host.webhook_poll remaining) expected now

  abbrev pub compare_webhook : Text → Option Text → Exec W (Unit {0})
  compare_webhook expected none = pure tt
  compare_webhook expected (some current) =
      if current == expected
      then pure tt
      else raise (webhook_mismatch host.urlsplit current expected)

  -- The `try` of `_verify_github`.
  unfoldable pub watch_webhook : Text → Exec W (Unit {0})
  unfolding poll_webhook webhook_mismatch
  watch_webhook expected = do
    current ← host.webhook_url
    last ← poll_webhook (suc host.webhook_wait) host.webhook_wait expected current
    compare_webhook expected last

  -- `_verify_github`
  unfoldable pub verify_github : Settings → Exec W (Unit {0})
  unfolding watch_webhook
  verify_github s = do
    host.github s.app_id
    both (catch (watch_webhook s.public_webhook_url) (λ e. raise (github_failed e)))
        (catch host.close (λ e. raise (fails_at "github_app" e)))

  abbrev verify_version : String → List Text → Text → Exec W (Unit {0})
  verify_version stage command expected = do
    version ← run host stage command
    fail_if (not (strip version == expected)) stage

  -- `_verify_tools_and_kit`
  unfoldable pub verify_tools_and_kit : Bool → Exec W (Unit {0})
  verify_tools_and_kit managed_ngrok = do
    verify_version "host_tools" (service_command (text "sbx" ∷ text "version" ∷ []))
        (text "sbx version: v0.35.0")
    verify_version "host_tools" (service_command (text "codex" ∷ text "--version" ∷ []))
        (text "codex-cli 0.144.6")
    run host "host_tools" (text "git" ∷ text "--version" ∷ [])
    run host "host_tools" (service_command (text "sbx" ∷ text "diagnose" ∷ []))
    only_if managed_ngrok (
        verify_version "host_tools" (service_command (text "ngrok" ∷ text "version" ∷ []))
          (text "ngrok version 3.39.1"))
    run_quietly host "review_kit" (
        service_command
          (text "sbx" ∷ text "kit" ∷ text "validate" ∷ text "/opt/specode-review/review-kit" ∷ []))

  -- `verify`, which returns the names of what was proved.
  unfoldable pub verify : Exec W (List Text)
  unfolding settings verify_units verify_health verify_github verify_tools_and_kit
      verify_no_stale_resources probe_sandbox
  verify = do
    configured ← settings
    verify_units (is_managed (lookup (text "NGROK_URL") configured.1))
    verify_health configured.0.public_webhook_url
    verify_github configured.0
    verify_tools_and_kit (is_managed (lookup (text "NGROK_URL") configured.1))
    verify_no_stale_resources host
    probe_sandbox host
    verify_no_stale_resources host
    pure proofs
