-- ===== src/Publishing/Publish.antt =====
-- `publish_review_result` of src/specode_review/publishing.py, with the reconciliation of comment
-- mutations whose result is unknown. Times are in milliseconds; log lines are left out.
use specode_review.Base.{
  ℕ, Bool, true, false, not, ◌&&◌, Option, none, some, List, [], ◌∷◌, Text, max, nat_eq, leb, ◌==◌,
  text_equal, if◌then◌else◌,
}
use specode_review.Errors.{
  FailureCategory, review_failure, Raised, review_error, github_error, github_mutation_error,
  consistency_error, value_error, other, Result, ok, err,
}
use specode_review.Exec.{Exec, pure, raise, catch, ◌>>=◌, ◌>>◌}
use specode_review.Models.{ReviewRequest, ReviewResult}
use specode_review.Publishing.Gateway.{ReviewComment, ReviewCommentGateway, PublicationTiming}
use specode_review.Publishing.Comment.{
  Library, same_identity, expected_review_comment, is_owned_marker_comment, owned_revision_comments,
  split_lines, last_line,
}

-- `PublicationDisposition`
pub data PublicationDisposition : Type 0 where
  created updated already_current reconciled : PublicationDisposition

pub record PublicationReceipt : Type 0 where
  pub comment_id : ℕ
  pub disposition : PublicationDisposition

-- `PublicationUnknownError`
abbrev pub publication_unknown : FailureCategory → Raised
publication_unknown category = review_error (record { category = category; stage = "publication" })

-- `PUBLICATION_RECHECK_DELAYS_SECONDS`
abbrev pub recheck_delays : List ℕ
recheck_delays = 0 ∷ 250 ∷ 1000 ∷ []

abbrev receipt : ℕ → PublicationDisposition → PublicationReceipt
receipt comment_id disposition = record { comment_id = comment_id; disposition = disposition }

module _ {W : Type 0} where
  abbrev or_raise : Bool → Raised → Exec W (Unit {0})
  or_raise test e s = (if test then ok tt else err e, s)

  abbrev lift : {A : Type 0} → Result A → Exec W A
  lift r s = (r, s)

  -- `_confirmed_receipt`; the `IndexError` of an empty body is `other`.
  unfoldable pub confirmed_by :
      Option Text → Text → ℕ → PublicationDisposition → ReviewComment → Exec W PublicationReceipt
  confirmed_by none expected_body app_id disposition comment = raise other
  confirmed_by (some marker) expected_body app_id disposition comment =
      if (comment.body == expected_body) && is_owned_marker_comment marker app_id comment
      then pure (receipt comment.id disposition)
      else raise consistency_error

  unfoldable pub confirmed_receipt :
      Text → ℕ → PublicationDisposition → ReviewComment → Exec W PublicationReceipt
  confirmed_receipt expected_body =
      confirmed_by (last_line (split_lines false [] expected_body)) expected_body

-- The delay before a recheck: the first one honours what GitHub asked for.
unfoldable pub recheck_delay : Bool → Option ℕ → ℕ → ℕ
recheck_delay true (some retry_after) policy_delay = max policy_delay retry_after
recheck_delay true none policy_delay = policy_delay
recheck_delay false retry_after policy_delay = policy_delay

-- `except ReviewError` round `timing.remaining_time()`.
abbrev pub deadline_failure : Raised → Raised
deadline_failure (review_error e) = publication_unknown e.category
deadline_failure e = e

-- `except (GitHubError, ReviewError)` round the scan.
abbrev pub scan_failure : Raised → Raised
scan_failure (review_error e) = publication_unknown e.category
scan_failure (github_error f) = publication_unknown review_failure
scan_failure (github_mutation_error f) = publication_unknown review_failure
scan_failure e = e

abbrev exceeds : ℕ → Option ℕ → Bool
exceeds delay none = false
exceeds delay (some remaining) = leb remaining delay

module _ {W : Type 0} (library : Library) (gateway : ReviewCommentGateway W)
    (timing : PublicationTiming W) (request : ReviewRequest) where
  sleep : ℕ → Exec W (Unit {0})
  sleep delay w = (ok tt, timing.sleeper delay w)

  unfoldable pub wait_before_recheck : ℕ → Exec W (Unit {0})
  unfolding sleep
  wait_before_recheck delay = if nat_eq delay 0 then pure tt else do
    remaining ← catch timing.remaining_time (λ e. raise (deadline_failure e))
    or_raise (not (exceeds delay remaining)) (publication_unknown review_failure)
    sleep delay

  -- What a recheck makes of the owned comments that it sees; `again` is the next recheck.
  unfoldable pub settle :
      Text → Exec W PublicationReceipt → List ReviewComment → Exec W PublicationReceipt
  settle expected_body again [] = again
  settle expected_body again (comment ∷ []) =
      if comment.body == expected_body then pure (receipt comment.id reconciled) else again
  settle expected_body again (comment ∷ second ∷ rest) = raise consistency_error

  -- The loop of `_reconcile_ambiguous_mutation`, from the recheck that `first` says on.
  unfoldable pub reconcile : Text → Option ℕ → Bool → List ℕ → Exec W PublicationReceipt
  reconcile expected_body retry_after first [] = raise (publication_unknown review_failure)
  reconcile expected_body retry_after first (policy_delay ∷ delays) =
      let again = reconcile expected_body retry_after false delays in
      do
        wait_before_recheck (recheck_delay first retry_after policy_delay)
        matches ←
            catch (owned_revision_comments library gateway request) (λ e. raise (scan_failure e))
        settle expected_body again matches

  -- A mutation, its confirmation, and `except GitHubMutationError`.
  unfoldable pub settle_mutation :
      Text → PublicationDisposition → Result ReviewComment → Exec W PublicationReceipt
  settle_mutation expected_body disposition (ok comment) =
      confirmed_receipt expected_body gateway.app_id disposition comment
  settle_mutation expected_body disposition (err (github_mutation_error failure)) =
      reconcile expected_body failure.retry_after true recheck_delays
  settle_mutation expected_body disposition (err e) = raise e

  unfoldable pub mutate :
      Text → PublicationDisposition → Exec W ReviewComment → Exec W PublicationReceipt
  mutate expected_body disposition call w =
      let (answer, w') = call w in settle_mutation expected_body disposition answer w'

  unfoldable pub publish_matches : Text → List ReviewComment → Exec W PublicationReceipt
  publish_matches expected_body [] =
      mutate expected_body created (gateway.create_review_comment request expected_body)
  publish_matches expected_body (comment ∷ []) =
      if comment.body == expected_body
      then pure (receipt comment.id already_current)
      else mutate expected_body updated
          (gateway.update_review_comment request comment.id expected_body)
  publish_matches expected_body (comment ∷ second ∷ rest) = raise consistency_error

  unfoldable pub publish_review_result : ReviewResult → Exec W PublicationReceipt
  publish_review_result result = do
    or_raise (same_identity request result) value_error
    expected_body ← lift (expected_review_comment library request result)
    matches ← owned_revision_comments library gateway request
    publish_matches expected_body matches
