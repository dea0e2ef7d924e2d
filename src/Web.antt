-- ===== src/Web.antt =====
-- src/specode_review/web.py: from a webhook of GitHub to a submission, and back to a response.
pub mod Body
pub mod Accepted
mod Tests
use Prim.Native.String.{String}
use specode_review.Base.{
  ℕ, Bool, true, false, not, ◌&&◌, ◌||◌, Option, none, some, List, [], ◌∷◌, ◌++◌, Text, text,
  text_equal, ◌==◌, lower, leb, ltb, length, any, all, nat_eq, if◌then◌else◌,
}
use specode_review.Errors.{Raised, type_error, Result, ok, err}
use specode_review.Exec.{Exec}
use specode_review.Models.{
  ReviewRequest, review_request, bound_description, is_sha, is_repository_name, name_head,
}
use specode_review.Submission.{
  SubmissionOutcome, already_running, at_capacity, stopping, unavailable,
}
use specode_review.Web.Body.{read_bounded_body}

-- `JSONResponse`, and `HTTPException` with its detail.
pub record Response : Type 0 where
  pub status_code : ℕ
  pub content : String

abbrev pub respond : ℕ → String → Response
respond status_code content = record { status_code = status_code; content = content }

-- `_submission_response`
unfoldable pub submission_response : SubmissionOutcome → Response
submission_response already_running = respond 200 "duplicate"
submission_response SubmissionOutcome.already_reviewed = respond 200 "ignored"
submission_response SubmissionOutcome.not_authorized = respond 403 "repository is not authorized"
submission_response at_capacity = respond 503 "review execution capacity is full"
submission_response SubmissionOutcome.stopping = respond 503 "review service is shutting down"
submission_response unavailable = respond 503 "review execution is unavailable"
submission_response SubmissionOutcome.accepted = respond 202 "accepted"

-- `_PullRequestWebhook` without its action, and its parts.
pub record PullRequestWebhook : Type 0 where
  pub installation_id : ℕ
  pub full_name : Text
  pub number : ℕ
  pub draft : Bool
  pub title : Text
  pub body : Option Text
  pub labels : List Text
  pub base_sha : Text
  pub head_sha : Text

-- The JSON of a body, as far as the handler looks: no JSON at all, no object, or an object with its
-- action, if that is a string, and its fields, if they are there and of the right types.
pub data Payload : Type 0 where
  malformed not_an_object : Payload
  object : Option Text → Option PullRequestWebhook → Payload

abbrev between : ℕ → ℕ → Text → Bool
between low high s = leb low (length s) && leb (length s) high

-- The constraints of `_PullRequestWebhook`.
unfoldable pub valid_webhook : PullRequestWebhook → Bool
valid_webhook event =
    ltb 0 event.installation_id
    && ((between 3 201 event.full_name && name_head false event.full_name)
        && (ltb 0 event.number
            && (between 1 256 event.title
                && ((leb (length event.labels) 100 && all (between 1 100) event.labels)
                    && (is_sha event.base_sha && is_sha event.head_sha)))))

-- `_SUPPORTED_PULL_REQUEST_ACTIONS`
abbrev pub is_supported : Text → Bool
is_supported action =
    any (λ a. action == a)
      (text "opened" ∷ text "synchronize" ∷ text "ready_for_review" ∷ text "reopened" ∷ [])

-- `_event_is_eligible`; `casefold` is that of Python's strings.
unfoldable pub event_is_eligible : (Text → Text) → Text → PullRequestWebhook → Bool
event_is_eligible casefold no_review_label event =
    not event.draft && all (λ name. not (casefold name == casefold no_review_label)) event.labels

-- `_review_request_from_event`; `none` is the `ValidationError` of the model.
unfoldable pub review_request_from_event : PullRequestWebhook → Option ReviewRequest
review_request_from_event event =
    review_request (lower event.full_name) event.number event.installation_id (lower event.base_sha)
      (lower event.head_sha) event.title (some (bound_description event.body))

-- What the second `try` of `_accept_github_webhook` leads to.
pub data Reading : Type 0 where
  ignored bad_request : Reading
  submits : ReviewRequest → Reading

abbrev requested : Option ReviewRequest → Reading
requested none = bad_request
requested (some request) = submits request

unfoldable pub read_payload : (Text → Text) → Text → Payload → Reading
read_payload casefold no_review_label malformed = bad_request
read_payload casefold no_review_label not_an_object = bad_request
read_payload casefold no_review_label (object none fields) = bad_request
read_payload casefold no_review_label (object (some action) none) =
    if is_supported action then bad_request else ignored
read_payload casefold no_review_label (object (some action) (some event)) =
    if not (is_supported action)
    then ignored
    else if not (valid_webhook event)
    then bad_request
    else if event_is_eligible casefold no_review_label event
    then requested (review_request_from_event event)
    else ignored

-- The headers that the handler reads.
pub record Headers : Type 0 where
  pub content_length : Option Text
  pub signature : Option Text
  pub event_name : Option Text

abbrev pub or_empty : Option Text → Text
or_empty none = []
or_empty (some s) = s

abbrev pub is_pull_request : Option Text → Bool
is_pull_request none = false
is_pull_request (some name) = name == text "pull_request"

-- `hmac.compare_digest` of two strings, which raises a `TypeError` unless both are ASCII.
unfoldable pub compare_digest : Text → Text → Result Bool
compare_digest supplied expected =
    if all (λ c. ltb c 128) supplied && all (λ c. ltb c 128) expected
    then ok (supplied == expected)
    else err type_error

-- `hmac_sha256` is the hexadecimal HMAC of a body under the webhook's secret, `json` reads a body.
module _ {W : Type 0} (hmac_sha256 : Text → Text) (json : Text → Payload) (casefold : Text → Text)
    (no_review_label : Text) (submit : ReviewRequest → Exec W SubmissionOutcome) where
  unfoldable pub submitted : Reading → Exec W Response
  submitted ignored w = (ok (respond 200 "ignored"), w)
  submitted bad_request w = (ok (respond 400 "malformed pull request webhook"), w)
  submitted (submits request) w =
      let (answer, w') = submit request w in
      (elim answer [ ok outcome ↦ ok (submission_response outcome) | err e ↦ err e ], w')

  unfoldable pub authenticated : Headers → Text → Result Bool → Exec W Response
  unfolding submitted
  authenticated headers body (err e) w = (err e, w)
  authenticated headers body (ok false) w = (ok (respond 401 "invalid webhook signature"), w)
  authenticated headers body (ok true) w =
      if is_pull_request headers.event_name
      then submitted (read_payload casefold no_review_label (json body)) w
      else (ok (respond 200 "ignored"), w)

  unfoldable pub received : Headers → Option Text → Exec W Response
  unfolding authenticated compare_digest
  received headers none w = (ok (respond 413 "webhook body is too large"), w)
  received headers (some body) w =
      authenticated headers body
        (compare_digest (or_empty headers.signature) (text "sha256=" ++ hmac_sha256 body)) w

  -- `_accept_github_webhook`
  unfoldable pub accept_github_webhook : Headers → List Text → Exec W Response
  unfolding received
  accept_github_webhook headers chunks =
      received headers (read_bounded_body headers.content_length chunks)
