-- ===== src/Campaign/Host.antt =====
-- `SubprocessCampaignHost` of src/specode_review/campaign.py: the commands of the host that it runs.
use specode_review.Base.{
  ℕ, Bool, false, not, ◌||◌, Option, none, some, List, [], ◌∷◌, ◌++◌, Text, text, text_equal, ◌==◌,
  length, ltb, is_empty, if◌then◌else◌,
}
use specode_review.Base.Decimal.{decimal}
use specode_review.Base.Substring.{starts_with, remove_prefix}
use specode_review.Errors.{
  Raised, campaign_error, called_process_error, value_error, is_os_error, Result, ok, err,
}
use specode_review.Exec.{Exec, pure, raise, catch, ◌>>=◌, ◌>>◌}
use specode_review.Environment.{Environment, parse_environment}
use specode_review.Publishing.Comment.{split_lines}
use specode_review.Process.{Completed, is_success}
use specode_review.Campaign.Records.{max_journal_bytes}
use specode_review.Campaign.Run.{fail_if}

-- What the host is asked: `run` is `subprocess.run` without a check, with a timeout of 30 seconds;
-- `decode` replaces what is no UTF-8.
pub record SubprocessHost (W : Type 0) : Type 0 where
  pub public_health_url : Text
  pub run : List Text → Exec W Completed
  pub decode : Text → Text
  pub root_is_directory : W → Bool
  pub iterdir : Exec W (List Text)
  pub read_environment : Exec W Text

-- `urlsplit` and `urlunsplit` of the webhook URL.
pub record SplitUrl : Type 0 where
  pub scheme : Text
  pub netloc : Text

-- The constructor: the URL of the health route, or a `ValueError`.
unfoldable pub public_health_url_of : SplitUrl → Result Text
public_health_url_of url =
    if not (url.scheme == text "https") || is_empty url.netloc
    then err value_error
    else ok (url.scheme ++ text "://" ++ url.netloc ++ text "/health/ready")

-- `except (OSError, subprocess.SubprocessError)`, with the `TimeoutExpired` of a process.
abbrev command_failed : Raised → Raised
command_failed called_process_error = campaign_error "host_command"
command_failed e = if is_os_error e then campaign_error "host_command" else e

abbrev inspection_failed : Raised → Raised
inspection_failed e = if is_os_error e then campaign_error "resource_inspection" else e

abbrev marker : Text
marker = text "-- cursor: "

-- The cursors among the lines.
unfoldable pub cursors_of : List Text → List Text
unfolding starts_with
cursors_of [] = []
cursors_of (line ∷ lines) =
    let rest = cursors_of lines in
    if starts_with marker line then remove_prefix marker line ∷ rest else rest

abbrev only_cursor : List Text → Result Text
only_cursor [] = err (campaign_error "log_evidence")
only_cursor (cursor ∷ []) =
    if is_empty cursor then err (campaign_error "log_evidence") else ok cursor
only_cursor (cursor ∷ next ∷ cursors) = err (campaign_error "log_evidence")

abbrev curl : Text → List Text
curl url =
    text "curl"
    ∷ text "--fail"
    ∷ text "--silent"
    ∷ text "--show-error"
    ∷ text "--max-time"
    ∷ text "10"
    ∷ url
    ∷ []

abbrev pull_request : Text → Text → ℕ → List Text
pull_request change repository pr_number =
    text "gh" ∷ text "pr" ∷ change ∷ decimal pr_number ∷ text "--repo" ∷ repository ∷ []

module _ {W : Type 0} (host : SubprocessHost W) where
  -- `_run`
  unfoldable pub run : List Text → Exec W Text
  run arguments = do
    completed ← catch (host.run arguments) (λ e. raise (command_failed e))
    fail_if
        (not (is_success completed.return_code)
          || (ltb max_journal_bytes (length completed.stdout)
              || ltb max_journal_bytes (length completed.stderr)))
        "host_command"
    pure (host.decode completed.stdout)

  unfoldable pub require_installed_service : Exec W (Unit {0})
  unfolding run
  require_installed_service = do
    run (text "systemctl" ∷ text "is-active" ∷ text "--quiet" ∷ text "specode-review.service" ∷ [])
    run (curl (text "http://127.0.0.1:8000/health/ready"))
    run (curl host.public_health_url)
    pure tt

  unfoldable pub journal_cursor : Exec W Text
  unfolding run cursors_of split_lines
  journal_cursor = do
    output ← run (
        text "journalctl"
        ∷ text "-u"
        ∷ text "specode-review.service"
        ∷ text "-n"
        ∷ text "0"
        ∷ text "--show-cursor"
        ∷ text "--no-pager"
        ∷ [])
    λ (w : W). (only_cursor (cursors_of (split_lines false [] output)), w)

  unfoldable pub trigger_reopened_event : Text → ℕ → Exec W (Unit {0})
  unfolding run
  trigger_reopened_event repository pr_number = do
    run (pull_request (text "close") repository pr_number)
    run (pull_request (text "reopen") repository pr_number)
    pure tt

  unfoldable pub journal_lines_after : Text → Exec W (List Text)
  unfolding run split_lines
  journal_lines_after cursor = do
    output ← run (
        text "journalctl"
        ∷ text "-u"
        ∷ text "specode-review.service"
        ∷ (text "--after-cursor=" ++ cursor)
        ∷ text "-o"
        ∷ text "cat"
        ∷ text "--no-pager"
        ∷ [])
    pure (split_lines false [] output)

  unfoldable pub owned_resource_names : Exec W (List Text × List Text)
  unfolding run split_lines
  owned_resource_names = do
    output ← run (
        text "runuser"
        ∷ text "-u"
        ∷ text "specode-review"
        ∷ text "--"
        ∷ text "env"
        ∷ text "-i"
        ∷ text "HOME=/var/lib/specode-review"
        ∷ text "PATH=/usr/local/bin:/usr/bin:/bin:/usr/local/sbin:/usr/sbin:/sbin"
        ∷ text "sbx"
        ∷ text "ls"
        ∷ text "--quiet"
        ∷ [])
    λ (w : W). fail_if (not (host.root_is_directory w)) "resource_inspection" w
    workspaces ← catch host.iterdir (λ e. raise (inspection_failed e))
    pure (split_lines false [] output, workspaces)

  abbrev read : Option Environment → Result Environment
  read none = err (campaign_error "configuration")
  read (some environment) = ok environment

  -- `_environment_file`, where what is no UTF-8 is an error of `read_environment`.
  unfoldable pub environment_file : Exec W Environment
  unfolding parse_environment
  environment_file = do
    content ←
        catch host.read_environment
          (λ e. raise (if is_os_error e then campaign_error "configuration" else e))
    λ (w : W). (read (parse_environment false content), w)
