-- ===== src/Verification/Host.antt =====
-- What `InstallationVerifier` of src/specode_review/verification.py asks of its host.
use Prim.Native.String.{String}
use specode_review.Base.{
  ℕ, Bool, true, false, not, Option, List, [], ◌∷◌, ◌++◌, map, filter, Text, text, text_equal,
  is_empty, if◌then◌else◌,
}
use specode_review.Errors.{Raised, verification_error, is_exception, Result, ok, err}
use specode_review.Exec.{Exec, pure, raise, catch, ◌>>=◌, ◌>>◌}
use specode_review.Environment.{Environment}
use specode_review.Core.Diff.{strip}
use specode_review.Publishing.Comment.{split_lines}
use specode_review.Verification.Url.{SplitUrl}

-- What of `ProductionServiceSettings` is read here.
pub record Settings : Type 0 where
  pub app_id : ℕ
  pub public_webhook_url : Text

-- `VerificationHost` and `GitHubAppVerification`, with what reads the settings of an environment.
-- `read_file` gives what is decoded, or `none` for what is no UTF-8.
pub record Host (W : Type 0) : Type 0 where
  pub urlsplit : Text → Result SplitUrl
  pub settings_of : Environment → Result Settings
  pub read_file : Exec W (Option Text)
  pub run : List Text → Exec W Text
  pub owned_workspace_names : Exec W (List Text)
  pub prepare_probe_mounts : Exec W (Unit {0})
  pub remove_probe_mounts : Exec W (Unit {0})
  pub github : ℕ → Exec W (Unit {0})
  pub webhook_url : Exec W Text
  pub close : Exec W (Unit {0})
  pub sleep : ℕ → Exec W (Unit {0})
  pub webhook_wait : ℕ
  pub webhook_poll : ℕ

abbrev pub probe_name : Text
probe_name = text "specode-review-verification-probe"

abbrev pub sandbox_prefix : Text
sandbox_prefix = text "specode-review-"

-- `_service_command`
abbrev pub service_command : List Text → List Text
service_command arguments =
    (text "runuser"
      ∷ text "-u"
      ∷ text "specode-review"
      ∷ text "--"
      ∷ text "env"
      ∷ text "-i"
      ∷ text "HOME=/var/lib/specode-review"
      ∷ text "PATH=/usr/local/bin:/usr/bin:/bin:/usr/local/sbin:/usr/sbin:/sbin"
      ∷ [])
    ++ arguments

-- `except Exception: _fail(stage)`
abbrev pub fails_at : String → Raised → Raised
fails_at stage e = if is_exception e then verification_error stage else e

-- What a `finally` raises counts before what was raised.
abbrev pub after_cleanup : {A : Type 0} → Result A → Result (Unit {0}) → Result A
after_cleanup r (ok u) = r
after_cleanup r (err e) = err e

abbrev pub both : {W A : Type 0} → Exec W A → Exec W (Unit {0}) → Exec W A
both m cleanup w = let (r, w') = m w in let (end, w'') = cleanup w' in (after_cleanup r end, w'')

module _ {W : Type 0} where
  abbrev pub fail_if : Bool → String → Exec W (Unit {0})
  fail_if test stage w = (if test then err (verification_error stage) else ok tt, w)

  abbrev pub only_if : Bool → Exec W (Unit {0}) → Exec W (Unit {0})
  only_if true m = m
  only_if false m = pure tt

module _ {W : Type 0} (host : Host W) where
  -- `_run`
  abbrev pub run : String → List Text → Exec W Text
  run stage arguments = catch (host.run arguments) (λ e. raise (fails_at stage e))

  abbrev pub run_quietly : String → List Text → Exec W (Unit {0})
  run_quietly stage arguments = do run stage arguments; pure tt

  abbrev pub names_in : Text → List Text
  names_in output = filter (λ s. not (is_empty s)) (map strip (split_lines false [] output))

  -- `_sandbox_names`
  unfoldable pub sandbox_names : String → Exec W (List Text)
  unfolding split_lines
  sandbox_names stage = do
    output ← run stage (service_command (text "sbx" ∷ text "ls" ∷ text "--quiet" ∷ []))
    pure (names_in output)
