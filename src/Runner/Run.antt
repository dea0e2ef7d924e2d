-- ===== src/Runner/Run.antt =====
-- `ReviewRunner.run` of src/specode_review/review_runner.py.
use Prim.Native.String.{String}
use text.Mathlib.Text.{◌==◌}
use specode_review.Base.{
  ℕ, zero, suc, Bool, true, false, not, ◌&&◌, Option, none, some, Text, lower, length, leb,
  if◌then◌else◌,
}
use specode_review.Errors.{
  review_failure, timeout, ReviewError, Raised, review_error, timeout_error, validation_error,
  is_exception, Result, ok, err,
}
use specode_review.Exec.{Exec, pure, raise, catch, ◌>>=◌, ◌>>◌}
use specode_review.Models.{
  ReviewRequest, ReviewResult, ReviewStatus, issues_found, no_important_issues,
}
use specode_review.Publishing.Publish.{PublicationReceipt, PublicationDisposition}

-- `ReviewCompletion`
pub record ReviewCompletion : Type 0 where
  pub review_status : ReviewStatus
  pub finding_count : ℕ
  pub publication : PublicationDisposition
  pub comment_id : ℕ

abbrev status_of_count : ℕ → ReviewStatus
status_of_count zero = no_important_issues
status_of_count (suc n) = issues_found

abbrev same_status : ReviewStatus → ReviewStatus → Bool
same_status issues_found issues_found = true
same_status no_important_issues no_important_issues = true
same_status _ _ = false

-- `_completion`, with the checks of the model that it makes.
unfoldable pub completion : ReviewStatus → ℕ → PublicationReceipt → Result ReviewCompletion
completion review_status finding_count receipt =
    if leb finding_count 5
      && (same_status review_status (status_of_count finding_count) && leb 1 receipt.comment_id)
    then ok (record {
      review_status = review_status;
      finding_count = finding_count;
      publication = receipt.disposition;
      comment_id = receipt.comment_id;
    })
    else err validation_error

-- `_normalized_failure`
unfoldable pub normalized_failure : Raised → String → ReviewError
normalized_failure (review_error e) stage = e
normalized_failure timeout_error stage = record { category = timeout; stage = stage }
normalized_failure _ stage = record { category = review_failure; stage = stage }

pub data CleanupOutcome : Type 0 where
  not_required confirmed failed : CleanupOutcome

pub data PublicationOutcome : Type 0 where
  published : PublicationDisposition → PublicationOutcome
  failed suppressed : PublicationOutcome

-- The collaborators of a run. `new_reviewer` stands for the constructors of `CandidateAcceptance`
-- and `Reviewer`; `publish` and `close` are the calls that take the attempt's own GitHub client.
pub record Collaborators (W : Type 0) : Type 0 where
  pub for_attempt : Text → Exec W (Unit {0})
  pub github_client : Text → Exec W (Unit {0})
  pub candidate_adapter : Text → Exec W (Unit {0})
  pub new_reviewer : Text → Exec W (Unit {0})
  pub review : ReviewRequest → Exec W ReviewResult
  pub cleanup : Text → Exec W (Unit {0})
  pub publish : ReviewRequest → ReviewResult → Exec W PublicationReceipt
  pub close : Exec W (Unit {0})
  pub emit_cleanup : CleanupOutcome → W → W
  pub emit_publication : PublicationOutcome → W → W

-- The local variables of `run` that its handlers read.
pub record Progress : Type 0 where
  pub stage : String
  pub has_resources : Bool
  pub has_client : Bool
  pub cleanup_confirmed : Bool

abbrev pub begun : Progress
begun = record {
  stage = "attempt_construction";
  has_resources = false;
  has_client = false;
  cleanup_confirmed = false;
}

module _ {W : Type 0} where
  -- A call of a collaborator, then what the code notes of its success.
  abbrev pub call : {A : Type 0} → Exec W A → (Progress → Progress) → Exec (W × Progress) A
  call m note (w, p) =
      let (r, w') = m w in elim r [ ok a ↦ (ok a, (w', note p)) | err e ↦ (err e, (w', p)) ]

  abbrev pub at_stage : String → Exec (W × Progress) (Unit {0})
  at_stage stage (w, p) = (ok tt, (w, record p { stage = stage }))

-- How the body of the `try` ended: the variables `completion` and `failure`, and an exception that
-- the handler let pass.
pub record Outcome : Type 0 where
  pub completion : Option ReviewCompletion
  pub failure : Option ReviewError
  pub passing : Option Raised

abbrev pub or_else : Option ReviewError → ReviewError → Option ReviewError
or_else none e = some e
or_else (some failure) e = some failure

-- What the two log records of the end say.
unfoldable pub cleanup_outcome : Progress → CleanupOutcome
cleanup_outcome p =
    if not p.has_resources
    then CleanupOutcome.not_required
    else if p.cleanup_confirmed
    then confirmed
    else CleanupOutcome.failed

unfoldable pub publication_outcome :
    Option ReviewCompletion → Option ReviewError → PublicationOutcome
publication_outcome (some done) failure = published done.publication
publication_outcome none (some failure) =
    if failure.stage == "publication" then PublicationOutcome.failed else suppressed
publication_outcome none none = suppressed

unfoldable pub final_result : Option ReviewError → Option ReviewCompletion → Result ReviewCompletion
final_result (some failure) completion = err (review_error failure)
final_result none (some done) = ok done
final_result none none = err (review_error (record { category = review_failure; stage = "review" }))

abbrev pub same : Progress → Progress
same p = p

module _ {W : Type 0} (c : Collaborators W) (request : ReviewRequest) (attempt_id : Text) where
  abbrev pub normalized_request : ReviewRequest
  normalized_request = record request { repository = lower request.repository }

  -- The body of the `try`.
  unfoldable pub attempt : Exec (W × Progress) ReviewCompletion
  attempt = do
    call (c.for_attempt attempt_id) (λ p. record p { has_resources = true })
    call (c.github_client normalized_request.repository) (λ p. record p { has_client = true })
    call (c.candidate_adapter attempt_id) same
    call (c.new_reviewer normalized_request.repository) same
    at_stage "review"
    result ← call (c.review normalized_request) same
    at_stage "cleanup"
    call (c.cleanup attempt_id) (λ p. record p { cleanup_confirmed = true })
    at_stage "publication"
    receipt ← call (c.publish normalized_request result) same
    call (λ w. (completion result.status (length result.findings) receipt, w)) same

  -- `except Exception`
  unfoldable pub ended : Result ReviewCompletion → String → Outcome
  ended (ok done) stage = record { completion = some done; failure = none; passing = none }
  ended (err e) stage =
      if is_exception e
      then record { completion = none; failure = some (normalized_failure e stage); passing = none }
      else record { completion = none; failure = none; passing = some e }

  -- The `try` with its handler: an `Exception` ends it, and nothing is raised.
  unfoldable pub attempted : Exec (W × Progress) Outcome
  unfolding attempt ended
  attempted s = let (r, (w, p)) = attempt s in (ok (ended r p.stage), (w, p))

  -- The two parts of the `finally`. The failure of a cleanup replaces any earlier failure, that of
  -- the client's `close` does not.
  unfoldable pub cleanup_failed : Outcome → Raised → Exec (W × Progress) Outcome
  cleanup_failed o e =
      if is_exception e
      then pure (record o { failure = some (normalized_failure e "cleanup") })
      else raise e

  unfoldable pub finish_cleanup : Outcome → Exec (W × Progress) Outcome
  unfolding cleanup_failed
  finish_cleanup o (w, p) =
      if p.has_resources && not p.cleanup_confirmed
      then catch
          (call (c.cleanup attempt_id) (λ q. record q { cleanup_confirmed = true }) >> pure o)
          (cleanup_failed o) (w, p)
      else (ok o, (w, p))

  unfoldable pub close_failed : Outcome → Raised → Exec (W × Progress) Outcome
  close_failed o e =
      if is_exception e
      then pure (record o { failure = or_else o.failure (normalized_failure e "client_cleanup") })
      else raise e

  unfoldable pub finish_client : Outcome → Exec (W × Progress) Outcome
  unfolding close_failed
  finish_client o (w, p) =
      if p.has_client
      then catch (call c.close same >> pure o) (close_failed o) (w, p)
      else (ok o, (w, p))

  unfoldable pub conclude : Outcome → W × Progress → Result ReviewCompletion × W
  conclude o (w, p) = elim o.passing [
    | some e ↦ (err e, w)
    | none ↦ (
      final_result o.failure o.completion,
      c.emit_publication (publication_outcome o.completion o.failure)
          (c.emit_cleanup (cleanup_outcome p) w),
    )
  ]

  -- After the check that the runner is configured.
  unfoldable pub run : Bool → W → Result ReviewCompletion × W
  unfolding attempted finish_cleanup finish_client conclude
  run configured w =
      if configured
      then (let (r, s) = (attempted >>= λ o. finish_cleanup o >>= finish_client) (w, begun) in
          elim r [ ok o ↦ conclude o s | err e ↦ (err e, s.0) ])
      else (
        err (review_error (record { category = review_failure; stage = "attempt_construction" })),
        w,
      )
