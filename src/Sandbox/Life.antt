-- ===== src/Sandbox/Life.antt =====
-- `_SandboxLifecycle` of src/specode_review/sandbox.py: a sandbox from its creation to its removal.
use Prim.Native.String.{String}
use specode_review.Base.{
  ℕ, Bool, Option, none, some, List, [], ◌∷◌, ◌++◌, Text, text, text_equal, ◌==◌, all, ltb,
  if◌then◌else◌,
}
use specode_review.Errors.{
  timeout, sandbox_lifecycle, Raised, review_error, timeout_error, value_error, is_exception,
  Result, ok, err,
}
use specode_review.Exec.{Exec, raise, catch, ◌>>=◌, ◌>>◌}
use specode_review.Files.{FilePath, path_text}
use specode_review.Core.Diff.{strip}
use specode_review.Core.Review.{ReviewContext}
use specode_review.Resources.{AttemptResources, is_sandbox_name}
use specode_review.Sandbox.Client.{SandboxResourceLimits}

-- A review with the places and the limits of its sandbox.
pub record SandboxContext : Type 0 where
  pub review : ReviewContext
  pub workspace : FilePath
  pub checkout : FilePath
  pub sandbox_resources : SandboxResourceLimits

-- `ReviewExecutionClient`
pub record ReviewExecutionClient (W : Type 0) : Type 0 where
  pub create_codex :
      Text → (control checkout kit : FilePath) → SandboxResourceLimits → Exec W (Unit {0})
  pub execute : Text → List Text → Option Text → ℕ → Exec W Text
  pub remove : Text → Exec W (Unit {0})

abbrev pub vm_checkout : Text
vm_checkout = text "/home/agent/review/repo"

-- The commands of `_prepare_vm_checkout`.
abbrev pub read_only_check : FilePath → List Text
read_only_check checkout =
    text "sh"
    ∷ text "-c"
    ∷ text "if touch \"$1/.specode-review-write-probe\"; then exit 73; fi"
    ∷ text "specode-review-read-only-check"
    ∷ path_text checkout
    ∷ []

abbrev pub make_directory : List Text
make_directory = text "mkdir" ∷ text "-p" ∷ vm_checkout ∷ []

abbrev pub copy_checkout : FilePath → List Text
copy_checkout checkout =
    text "cp" ∷ text "-R" ∷ (path_text checkout ++ text "/.") ∷ vm_checkout ∷ []

abbrev pub current_head : List Text
current_head = text "git" ∷ text "rev-parse" ∷ text "HEAD" ∷ []

abbrev pub wrong_head : Raised
wrong_head =
    review_error (record { category = sandbox_lifecycle; stage = "sandbox_head_verification" })

-- The handlers of `run`.
unfoldable pub normalized : (timeout_stage failure_stage : String) → Raised → Raised
normalized timeout_stage failure_stage (review_error e) = review_error e
normalized timeout_stage failure_stage timeout_error =
    review_error (record { category = timeout; stage = timeout_stage })
normalized timeout_stage failure_stage e =
    if is_exception e
    then review_error (record { category = sandbox_lifecycle; stage = failure_stage })
    else e

abbrev pub cleanup_failed : Raised
cleanup_failed = review_error (record { category = sandbox_lifecycle; stage = "sandbox_cleanup" })

-- The `finally`: what the removal raises counts only if nothing else was raised.
unfoldable pub settled : {A : Type 0} → Result A → Result (Unit {0}) → Result A
settled answer (ok u) = answer
settled (ok a) (err e) = if is_exception e then err cleanup_failed else err e
settled (err x) (err e) = if is_exception e then err x else err e

abbrev pub raise_unless : {W : Type 0} → Bool → Raised → Exec W (Unit {0})
raise_unless test e w = (if test then ok tt else err e, w)

module _ {W : Type 0} (client : ReviewExecutionClient W) (sandbox_name : Text)
    (context : SandboxContext) where
  -- `_execute`
  abbrev pub execute : List Text → Option Text → Exec W Text
  execute command workdir =
      client.execute sandbox_name command workdir context.sandbox_resources.pids

  -- `decode("ascii").strip()`
  abbrev pub ascii : Text → Exec W Text
  ascii bytes w = (if all (λ c. ltb c 128) bytes then ok (strip bytes) else err value_error, w)

  unfoldable pub prepare_vm_checkout : Exec W (Unit {0})
  prepare_vm_checkout = do
    execute (read_only_check context.checkout) none
    execute make_directory none
    execute (copy_checkout context.checkout) none
    head ← execute current_head (some vm_checkout)
    copied_head ← ascii head
    raise_unless (copied_head == context.review.request.head_sha) wrong_head

  -- The body of the `try` of `run`; `prepare_control` is the writing of the control directory.
  unfoldable pub lived :
      {A : Type 0} → (mkdir prepare_control create : Exec W (Unit {0})) → Exec W A → Exec W A
  unfolding prepare_vm_checkout
  lived mkdir prepare_control create action = do
    mkdir
    prepare_control
    create
    prepare_vm_checkout
    action

  unfoldable pub removed_after : {A : Type 0} → Exec W A → Exec W A
  unfolding settled
  removed_after m w =
      let (answer, w') = m w in
      let (end, w'') = client.remove sandbox_name w' in (settled answer end, w'')

  -- `run`
  unfoldable pub run :
      {A : Type 0}
      → (timeout_stage failure_stage : String) → (mkdir prepare_control create : Exec W (Unit {0}))
      → Exec W A
      → Exec W A
  unfolding lived removed_after normalized
  run timeout_stage failure_stage mkdir prepare_control create action = removed_after (
      catch (lived mkdir prepare_control create action)
        (λ e. raise (normalized timeout_stage failure_stage e)))

-- The constructor.
unfoldable pub sandbox_lifecycle_of : AttemptResources → Result Text
sandbox_lifecycle_of resources =
    if is_sandbox_name resources.sandbox_name then ok resources.sandbox_name else err value_error
