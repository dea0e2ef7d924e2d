-- ===== src/Core/Review.antt =====
-- `Reviewer.review` of src/specode_review/core.py: the workspace of a review, what is prepared in it,
-- and the result.
mod Prepared
pub mod Sound
use Prim.Native.String.{String}
use specode_review.Base.{
  ℕ, ◌≤◌, ◌≡◌, refl, Bool, true, false, not, ◌&&◌, ◌||◌, Option, none, some, List, [], ◌∷◌, ◌++◌,
  arith, Text, text, text_equal, ◌==◌, length, leb, ltb, All, if◌then◌else◌,
}
use specode_review.Errors.{
  FailureCategory, review_failure, repository_materialization, review_too_large, ReviewError,
  Raised, review_error, value_error, validation_error, is_exception, Result, ok, err,
}
use specode_review.Exec.{Exec, pure, raise, catch, ◌>>=◌, ◌>>◌}
use specode_review.Models.{
  ReviewRequest, DiffRange, AgentReview, ReviewStatus, ReviewResult, is_sha, expected_status,
  review_result, valid_agent_review,
}
use specode_review.Deadline.{ReviewDeadline, remaining_review_time}
use specode_review.Core.Grounding.{Checkout}
use specode_review.Core.Accept.{accept, failed, lift}
use specode_review.Core.Diff.{strip, changed_paths, changed_text_lines}

abbrev pub max_changed_files : ℕ
max_changed_files = 100

abbrev pub max_changed_text_lines : ℕ
max_changed_text_lines = 5000

-- `ReviewContext` with its `ChangedPathManifest`; the paths of the workspace are left out.
pub record ReviewContext : Type 0 where
  pub request : ReviewRequest
  pub diff_range : DiffRange
  pub paths : List Text
  pub changed_files : ℕ
  pub changed_text_lines : ℕ
  pub primary_diff : Text

-- What a `Reviewer` runs or is given. `make_workspace` is `mkdir`, with `false` for a
-- `FileExistsError`; `materialize` clones the repository; `git` runs git in the checkout and returns
-- its decoded output; `produce` is the adapter, `parse` its reader, and `checkout` what the files of
-- the checkout are for a context.
pub record Reviewer (W : Type 0) : Type 0 where
  pub repository : Text
  pub max_bytes : ℕ
  pub deadline : Option ReviewDeadline
  pub clock : W → ℕ
  pub make_workspace : Exec W Bool
  pub remove_workspace : Exec W (Unit {0})
  pub materialize : ReviewRequest → Exec W (Unit {0})
  pub git : List Text → Exec W Text
  pub produce : ReviewContext → Exec W (Option Text)
  pub parse : Text → Option AgentReview
  pub checkout : ReviewContext → Checkout

-- `except ReviewError`, `except Exception`
abbrev pub preparation_failed : Raised → Raised
preparation_failed (review_error e) = review_error e
preparation_failed e =
    if is_exception e
    then review_error
        (record { category = repository_materialization; stage = "repository_materialization" })
    else e

abbrev pub workspace_taken : Raised
workspace_taken =
    review_error (record { category = review_failure; stage = "workspace_allocation" })

abbrev pub too_large : Raised
too_large = review_error (record { category = review_too_large; stage = "review_size" })

-- The constructor of `DiffRange`.
abbrev pub diff_range : Text → Text → Result DiffRange
diff_range start_sha end_sha =
    if is_sha start_sha && is_sha end_sha
    then ok (record { start_sha = start_sha; end_sha = end_sha })
    else err validation_error

abbrev pub is_too_large : ReviewContext → Bool
is_too_large c =
    ltb max_changed_files c.changed_files || ltb max_changed_text_lines c.changed_text_lines

-- The `finally`: what the removal of the workspace raises counts only if nothing else was raised.
unfoldable pub with_cleanup : {A : Type 0} → Result A → Result (Unit {0}) → Result A
with_cleanup answer (ok u) = answer
with_cleanup (ok a) (err e) =
    if is_exception e then failed review_failure "workspace_cleanup" else err e
with_cleanup (err x) (err e) = if is_exception e then err x else err e

-- The constructor of `ReviewResult`.
abbrev pub new_result : ReviewRequest → DiffRange → AgentReview → Result ReviewResult
new_result request range candidate =
    elim (review_result request.repository request.pr_number range
      (expected_status candidate.findings) candidate.findings) [
        | none ↦ err validation_error
        | some result ↦ ok result
      ]

-- The arguments of git.
abbrev pub has_commit : Text → List Text
has_commit sha = text "cat-file" ∷ text "-e" ∷ (sha ++ text "^{commit}") ∷ []

abbrev pub check_out : Text → List Text
check_out sha = text "checkout" ∷ text "--detach" ∷ sha ∷ []

abbrev pub current_head : List Text
current_head = text "rev-parse" ∷ text "HEAD" ∷ []

abbrev pub merge_base_of : Text → Text → List Text
merge_base_of base head = text "merge-base" ∷ base ∷ head ∷ []

abbrev pub diff_of : Text → DiffRange → List Text
diff_of format range =
    text "diff" ∷ format ∷ text "--no-renames" ∷ text "-z" ∷ range.start_sha ∷ range.end_sha ∷ []

abbrev pub patch_of : DiffRange → List Text
patch_of range =
    text "diff"
    ∷ text "--no-ext-diff"
    ∷ text "--no-renames"
    ∷ range.start_sha
    ∷ range.end_sha
    ∷ text "--"
    ∷ []

module _ {W : Type 0} (r : Reviewer W) where
  abbrev pub or_raise : Bool → Raised → Exec W (Unit {0})
  or_raise test e w = (if test then ok tt else err e, w)

  -- `_git`
  abbrev pub git_text : List Text → Exec W Text
  git_text arguments = do stdout ← r.git arguments; pure (strip stdout)

  -- `_create_workspace`
  unfoldable pub create_workspace : Exec W (Unit {0})
  create_workspace = do is_new ← r.make_workspace; or_raise is_new workspace_taken

  -- The `try` of `_prepare_context`.
  unfoldable pub materialized : ReviewRequest → Exec W ReviewContext
  materialized request = do
    r.materialize request
    git_text (has_commit request.base_sha)
    git_text (has_commit request.head_sha)
    git_text (check_out request.head_sha)
    checked_out_head ← git_text current_head
    or_raise (checked_out_head == request.head_sha) value_error
    merge_base ← git_text (merge_base_of request.base_sha request.head_sha)
    range ← lift (diff_range merge_base request.head_sha)
    names ← r.git (diff_of (text "--name-only") range)
    stats ← r.git (diff_of (text "--numstat") range)
    lines ← lift (changed_text_lines stats)
    pure (record {
      request = request;
      diff_range = range;
      paths = changed_paths names;
      changed_files = length (changed_paths names);
      changed_text_lines = lines;
      primary_diff = [];
    })

  -- `_prepare_context`
  unfoldable pub prepare_context : ReviewRequest → Exec W ReviewContext
  unfolding materialized
  prepare_context request = do
    context ← catch (materialized request) (λ e. raise (preparation_failed e))
    or_raise (not (is_too_large context)) too_large
    primary_diff ← r.git (patch_of context.diff_range)
    pure (record context { primary_diff = primary_diff })

  -- The body of the `try` of `review`.
  unfoldable pub reviewed : ReviewRequest → Exec W ReviewResult
  unfolding prepare_context
  reviewed request = do
    context ← prepare_context request
    candidate ←
        accept r.deadline r.clock (r.produce context) r.parse r.max_bytes (r.checkout context)
          context.paths
    lift (new_result request context.diff_range candidate)

  unfoldable pub cleaned_up : Exec W ReviewResult → Exec W ReviewResult
  unfolding with_cleanup
  cleaned_up m w =
      let (answer, w') = m w in
      let (end, w'') = r.remove_workspace w' in (with_cleanup answer end, w'')

  unfoldable pub review : ReviewRequest → Exec W ReviewResult
  unfolding create_workspace reviewed cleaned_up
  review request = do
    remaining_review_time r.deadline r.clock "review"
    or_raise (request.repository == r.repository) value_error
    create_workspace
    cleaned_up (reviewed request)
