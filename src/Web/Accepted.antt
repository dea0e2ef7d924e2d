-- ===== src/Web/Accepted.antt =====
-- Which webhooks reach the review service.
use specode_review.Base.{
  ◌≡◌, ◌≢◌, ◌↔◌, ◌⊎◌, refl, inl, inr, Bool, true, false, Option, none, some, List, ◌++◌, arith,
  Text, text, text_equal, text_eq_iff, Bool-cases,
}
use specode_review.Errors.{type_error, Result, ok, err}
use specode_review.Exec.{Exec}
use specode_review.Models.{ReviewRequest}
use specode_review.Submission.{SubmissionOutcome}
use specode_review.Web.{
  Response, respond, submission_response, PullRequestWebhook, Payload, malformed, not_an_object,
  object, valid_webhook, is_supported, event_is_eligible, review_request_from_event, Reading,
  ignored, bad_request, submits, read_payload, Headers, or_empty, is_pull_request, compare_digest,
  submitted, authenticated, received, accept_github_webhook,
}
use specode_review.Web.Body.{read_bounded_body}

-- A submission was accepted exactly if the status is 202.
submission_response_iff :
    (outcome : SubmissionOutcome)
    → ((submission_response outcome).status_code ≡ 202) ↔ (outcome ≡ SubmissionOutcome.accepted)
unfolding submission_response
submission_response_iff outcome = ground arith

-- What a payload that is submitted is: that of a supported action on an eligible pull request.
abbrev pub IsWanted : (Text → Text) → Text → Payload → ReviewRequest → Type 0
IsWanted casefold no_review_label payload request =
    (action : Text) × (event : PullRequestWebhook) × (payload ≡ object (some action) (some event))
    × (is_supported action ≡ true)
    × (valid_webhook event ≡ true)
    × (event_is_eligible casefold no_review_label event ≡ true)
    × (review_request_from_event event ≡ some request)

wanted :
    (casefold : Text → Text) (no_review_label : Text) (payload : Payload) (request : ReviewRequest)
    → read_payload casefold no_review_label payload ≡ submits request
    → IsWanted casefold no_review_label payload request
unfolding read_payload
wanted casefold no_review_label malformed request h = absurd (cc h)
wanted casefold no_review_label not_an_object request h = absurd (cc h)
wanted casefold no_review_label (object none fields) request h = absurd (cc h)
wanted casefold no_review_label (object (some action) none) request h = absurd (ground (arith, h))
wanted casefold no_review_label (object (some action) (some event)) request h = (
  action,
  event,
  refl,
  ground (arith, h),
  ground (arith, h),
  ground (arith, h),
  ground (arith, h),
)

module _ {W : Type 0} (hmac_sha256 : Text → Text) (json : Text → Payload) (casefold : Text → Text)
    (no_review_label : Text) (submit : ReviewRequest → Exec W SubmissionOutcome)
    (headers : Headers) where
  signed :
      (body : Text)
      → compare_digest (or_empty headers.signature) (text "sha256=" ++ hmac_sha256 body) ≡ ok true
      → or_empty headers.signature ≡ text "sha256=" ++ hmac_sha256 body
  unfolding compare_digest
  signed body h =
      (text_eq_iff (or_empty headers.signature) (text "sha256=" ++ hmac_sha256 body)).0
        (ground (arith, h))

  -- What a response of 202 rests on.
  abbrev pub IsAccepted : List Text → W → W → Type 0
  IsAccepted chunks w w' =
      (body : Text) × (request : ReviewRequest) × (read_bounded_body headers.content_length chunks
        ≡ some body)
      × (or_empty headers.signature ≡ text "sha256=" ++ hmac_sha256 body)
      × (is_pull_request headers.event_name ≡ true)
      × IsWanted casefold no_review_label (json body) request
      × (submit request w ≡ (ok SubmissionOutcome.accepted, w'))

  submitted_accepted :
      (reading : Reading) (w w' : W) (response : Response)
      → submitted hmac_sha256 json casefold no_review_label submit reading w ≡ (ok response, w')
      → response.status_code ≡ 202
      → (request : ReviewRequest) × (reading ≡ submits request)
        × (submit request w ≡ (ok SubmissionOutcome.accepted, w'))
  unfolding submitted submission_response
  submitted_accepted ignored w w' response h k = absurd (ground (arith, h, k))
  submitted_accepted bad_request w w' response h k = absurd (ground (arith, h, k))
  submitted_accepted (submits request) w w' response h k = (request, refl, ground (arith, h, k))

  -- A response of 202 is given only for a body within the limit whose signature is that of the
  -- webhook's secret, whose event is a supported action on an eligible pull request, and whose review
  -- request the lifecycle accepted.
  pub webhook-IsAccepted :
      (chunks : List Text) (w w' : W) (response : Response)
      → accept_github_webhook hmac_sha256 json casefold no_review_label submit headers chunks w
        ≡ (ok response, w')
      → response.status_code ≡ 202
      → IsAccepted chunks w w'
  unfolding accept_github_webhook authenticated received submission_response
  webhook-IsAccepted chunks w w' response h k =
      go (read_bounded_body headers.content_length chunks) refl h
    where
      verified :
          (body : Text) (r : Result Bool)
          → read_bounded_body headers.content_length chunks ≡ some body
          → compare_digest (or_empty headers.signature) (text "sha256=" ++ hmac_sha256 body) ≡ r
          → authenticated hmac_sha256 json casefold no_review_label submit headers body r w
            ≡ (ok response, w')
          → IsAccepted chunks w w'
      verified body (err e) read same h = absurd (cc h)
      verified body (ok false) read same h = absurd (ground (arith, h, k))
      verified body (ok true) read same h = elim (Bool-cases (is_pull_request headers.event_name)) [
        | inl event ↦
            let (request, reading, accepted) =
              submitted_accepted (read_payload casefold no_review_label (json body)) w w' response
                (ground (arith, h, event)) k in
            (
              body,
              request,
              read,
              signed body same,
              event,
              wanted casefold no_review_label (json body) request reading,
              accepted,
            )
        | inr other ↦ absurd (ground (arith, h, k, other))
      ]

      go :
          (read : Option Text)
          → read_bounded_body headers.content_length chunks ≡ read
          → received hmac_sha256 json casefold no_review_label submit headers read w
            ≡ (ok response, w')
          → IsAccepted chunks w w'
      go none same h = absurd (ground (arith, h, k))
      go (some body) same h = verified body _ same refl h

  -- Without the right signature nothing is submitted: the answer is 401, or a `TypeError` where the
  -- signature, or what it is compared with, is no ASCII text.
  pub unsigned_refused :
      (chunks : List Text) (body : Text) (w : W)
      → read_bounded_body headers.content_length chunks ≡ some body
      → or_empty headers.signature ≢ text "sha256=" ++ hmac_sha256 body
      → let (answer, w') =
          accept_github_webhook hmac_sha256 json casefold no_review_label submit headers chunks w in
        (w' ≡ w)
        × ((answer ≡ ok (respond 401 "invalid webhook signature")) ⊎ (answer ≡ err type_error))
  unfolding accept_github_webhook received compare_digest authenticated
  unsigned_refused chunks body w read different = ground (
    arith,
    read,
    different,
    text_eq_iff (or_empty headers.signature) (text "sha256=" ++ hmac_sha256 body),
  )
