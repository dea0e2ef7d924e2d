-- ===== src/Web/Tests.antt =====
-- A webhook that is accepted, and one that is not signed.
use specode_review.Base.{
  ℕ, ◌≡◌, ◌⊎◌, refl, false, none, some, List, [], ◌∷◌, Text, text, replicate, lower,
}
use specode_review.Errors.{type_error, ok, err}
use specode_review.Exec.{Exec}
use specode_review.Models.{
  ReviewRequest, review_request, bound_description, is_sha, is_repository_name, name_head,
  name_tail,
}
use specode_review.Submission.{SubmissionOutcome}
use specode_review.Web.{
  respond, submission_response, PullRequestWebhook, Payload, object, valid_webhook,
  event_is_eligible, review_request_from_event, read_payload, Headers, compare_digest, submitted,
  authenticated, received, accept_github_webhook,
}
use specode_review.Publishing.Render.{rstrip}
use specode_review.Core.Diff.{lstrip}
use specode_review.Web.Body.{
  read_digits, read_signed, declared_length, read_chunks, read_bounded_body,
}
use specode_review.Web.Accepted.{IsAccepted, webhook-IsAccepted, unsigned_refused}

abbrev event : PullRequestWebhook
event = record {
  installation_id = 3;
  full_name = text "O/r";
  number = 7;
  draft = false;
  title = text "t";
  body = none;
  labels = text "bug" ∷ [];
  base_sha = replicate 40 b'A';
  head_sha = replicate 40 b'b';
}

abbrev json : Text → Payload
json body = object (some (text "opened")) (some event)

abbrev hmac_sha256 : Text → Text
hmac_sha256 body = text "00"

abbrev casefold : Text → Text
casefold s = s

abbrev submit_review : ReviewRequest → Exec ℕ SubmissionOutcome
submit_review request w = (ok SubmissionOutcome.accepted, 1)

abbrev headers : Headers
headers = record {
  content_length = some (text "2");
  signature = some (text "sha256=00");
  event_name = some (text "pull_request");
}

abbrev chunks : List Text
chunks = text "{" ∷ text "}" ∷ []

response_given :
    accept_github_webhook hmac_sha256 json casefold
      (text "no-review")
      submit_review
      headers
      chunks
      0
    ≡ (ok (respond 202 "accepted"), 1)
unfolding accept_github_webhook received compare_digest authenticated submitted submission_response
    read_payload valid_webhook event_is_eligible review_request_from_event review_request
    bound_description is_sha is_repository_name name_head name_tail read_bounded_body read_chunks
    declared_length read_signed read_digits rstrip lstrip lower
response_given = refl

webhook-IsAccepted_example :
    IsAccepted hmac_sha256 json casefold (text "no-review") submit_review headers chunks 0 1
webhook-IsAccepted_example =
    webhook-IsAccepted hmac_sha256 json casefold (text "no-review") submit_review headers chunks 0 1
      (respond 202 "accepted") response_given refl

abbrev unsigned : Headers
unsigned = record headers { signature = none }

body_read : read_bounded_body unsigned.content_length chunks ≡ some (text "{}")
unfolding read_bounded_body read_chunks declared_length read_signed read_digits rstrip lstrip
body_read = refl

unsigned_refused_example :
    let (answer, w) =
      accept_github_webhook hmac_sha256 json casefold
        (text "no-review")
        submit_review
        unsigned
        chunks
        0 in
    (w ≡ 0) × ((answer ≡ ok (respond 401 "invalid webhook signature")) ⊎ (answer ≡ err type_error))
unsigned_refused_example =
    unsigned_refused hmac_sha256 json casefold (text "no-review") submit_review unsigned chunks
      (text "{}") 0 body_read (λ e. cc)
