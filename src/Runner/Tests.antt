-- ===== src/Runner/Tests.antt =====
-- Runs and preflights with concrete collaborators.
use specode_review.Base.{
  ◌≡◌, ◌⊎◌, refl, true, false, not, ◌||◌, none, some, [], ◌∷◌, Text, text, arith, lower,
}
use specode_review.Errors.{
  ReviewError, review_failure, review_error, os_error, is_exception, ok, err,
}
use specode_review.Exec.{Exec}
use specode_review.Models.{no_important_issues}
use specode_review.Submission.{PreflightOutcome}
use specode_review.Publishing.Publish.{PublicationReceipt, PublicationDisposition}
use specode_review.Publishing.Tests
use specode_review.Publishing.Tests.{World}
use specode_review.Runner.Run.{
  ReviewCompletion, run, attempted, attempt, ended, finish_cleanup, cleanup_failed, finish_client,
  conclude, completion, final_result, cleanup_outcome, publication_outcome, normalized_failure,
  CleanupOutcome, PublicationOutcome,
}
use specode_review.Runner.Recorded.{
  Call, allocated, adapted, constructed, reviewed, cleaned, closed, logged_cleanup,
  logged_publication, History, Answers, recorded, was_allocated, was_opened, was_cleaned,
  cleanup_tried, was_published, close_called, CleanedFirst,
}
use specode_review.Runner.Preflight
use specode_review.Runner.Preflight.{
  preflight, preflight_failure, preflight_raises, preflight_after_publication, answered,
  closed_with,
}
use specode_review.Runner.Transaction.{run-CleanedFirst, run-completes, run-raises}

abbrev done : PublicationReceipt
done = record { comment_id = 1; disposition = PublicationDisposition.created }

abbrev answers : Answers
answers = record {
  for_attempt = λ a h. ok tt;
  github_client = λ r h. ok tt;
  candidate_adapter = λ a h. ok tt;
  new_reviewer = λ r h. ok tt;
  review = λ q h. ok Tests.result;
  cleanup = λ a h. ok tt;
  publish = λ q r h. ok done;
  close = λ h. ok tt;
}

abbrev completed : ReviewCompletion
completed = record {
  review_status = no_important_issues;
  finding_count = 0;
  publication = PublicationDisposition.created;
  comment_id = 1;
}

abbrev all_calls : History
all_calls =
    logged_publication (PublicationOutcome.published PublicationDisposition.created)
    ∷ logged_cleanup CleanupOutcome.confirmed
    ∷ closed true
    ∷ Call.published true
    ∷ cleaned true
    ∷ reviewed true
    ∷ constructed true
    ∷ adapted true
    ∷ Call.opened true
    ∷ allocated true
    ∷ []

completed-run : run (recorded answers) Tests.request (text "a") true [] ≡ (ok completed, all_calls)
unfolding run attempted attempt ended finish_cleanup finish_client conclude completion final_result
    cleanup_outcome publication_outcome
completed-run = refl

run-completes_example :
    (was_cleaned all_calls ≡ true)
    × (was_published all_calls ≡ true)
    × (not (was_opened all_calls) || close_called all_calls ≡ true)
run-completes_example =
    run-completes answers Tests.request (text "a") completed all_calls completed-run

run-CleanedFirst_example :
    let (r, h) = run (recorded answers) Tests.request (text "a") true [] in
    CleanedFirst h × (not (was_allocated h) || cleanup_tried h ≡ true)
run-CleanedFirst_example = run-CleanedFirst answers Tests.request (text "a")

-- The review fails, and then its cleanup does too: the failure of the cleanup is what is reported.
abbrev broken : Answers
broken = record answers { review = λ q h. err os_error; cleanup = λ a h. err os_error }

abbrev broken_calls : History
broken_calls =
    logged_publication PublicationOutcome.suppressed
    ∷ logged_cleanup CleanupOutcome.failed
    ∷ closed true
    ∷ cleaned false
    ∷ reviewed false
    ∷ constructed true
    ∷ adapted true
    ∷ Call.opened true
    ∷ allocated true
    ∷ []

abbrev cleanup_error : ReviewError
cleanup_error = record { category = review_failure; stage = "cleanup" }

broken-run :
    run (recorded broken) Tests.request (text "a") true []
    ≡ (err (review_error cleanup_error), broken_calls)
unfolding run attempted attempt ended finish_cleanup cleanup_failed finish_client conclude
    completion final_result cleanup_outcome publication_outcome normalized_failure
broken-run = refl

run-raises_example :
    ((f : ReviewError) × (review_error cleanup_error ≡ review_error f)
      × (not (was_opened broken_calls) || close_called broken_calls ≡ true))
    ⊎ (is_exception (review_error cleanup_error) ≡ false)
run-raises_example =
    run-raises broken Tests.request (text "a") (review_error cleanup_error) broken_calls broken-run

abbrev client : Text → Exec World (Unit {0})
client repository w = (ok tt, w)

abbrev close : Exec World (Unit {0})
close w = (ok tt, w)

abbrev refused_client : Text → Exec World (Unit {0})
refused_client repository w = (err os_error, w)

refused :
    preflight Tests.library refused_client Tests.gateway close Tests.request none
    ≡ (err preflight_failure, none)
unfolding preflight Preflight.opened
refused = refl

preflight_after_publication_example :
    preflight Tests.library client Tests.gateway close Tests.request (some Tests.body)
    ≡ (ok PreflightOutcome.already_reviewed, some Tests.body)
unfolding lower
preflight_after_publication_example =
    preflight_after_publication Tests.library client Tests.gateway close Tests.request Tests.timing
      Tests.comments Tests.contract Tests.library-IsDigest Tests.result Tests.body Tests.expected
      none (some Tests.body) (some Tests.body) (some Tests.body) (some Tests.body) done
      (omega arith) Tests.publish_creates refl refl (Tests.comments (some Tests.body)) refl refl
