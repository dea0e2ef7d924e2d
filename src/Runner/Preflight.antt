-- ===== src/Runner/Preflight.antt =====
-- `ReviewRunner.preflight` of src/specode_review/review_runner.py: whether a revision still wants a
-- review, and whether the application may give one.
use mathlib.Core.Path.{subst}
use specode_review.Base.{
  ℕ, ◌≡◌, ◌⊎◌, refl, inl, inr, Bool, true, false, ◌&&◌, Option, none, some, List, [], ◌∷◌, Text,
  lower, nat_eq, is_empty, if◌then◌else◌, Bool-cases, length, ◌≤◌, ◌∙◌, ap, arith,
}
use specode_review.Errors.{
  review_failure, GitHubOperation, installation_token, GitHubFailure, Raised, review_error,
  github_error, github_mutation_error, is_exception, Result, ok, err,
}
use specode_review.Exec.{Exec}
use specode_review.Models.{ReviewRequest, ReviewResult}
use specode_review.Submission.{PreflightOutcome}
use specode_review.Publishing.Gateway.{ReviewComment, ReviewCommentGateway, PublicationTiming}
use specode_review.Publishing.Comment.{
  Library, select, is_owned_marker_comment, review_marker, owned_revision_comments,
  expected_review_comment,
}
use specode_review.Publishing.Comment.Marker.{IsDigest}
use specode_review.Publishing.Contract.{GitHubContract, Listed}
use specode_review.Publishing.Publish.{PublicationReceipt, publish_review_result}
use specode_review.Publishing.Confirmed.{publish_confirmed}
use specode_review.Publishing.Confirmed.Reconcile.{owned}

abbrev pub preflight_failure : Raised
preflight_failure = review_error (record { category = review_failure; stage = "preflight" })

abbrev is_not_found : Option ℕ → Bool
is_not_found none = false
is_not_found (some status) = nat_eq status 404

abbrev is_installation_token : GitHubOperation → Bool
is_installation_token installation_token = true
is_installation_token _ = false

-- `except GitHubError`
unfoldable pub github_refused : GitHubFailure → Result PreflightOutcome
github_refused f =
    if is_installation_token f.operation && is_not_found f.status_code
    then ok PreflightOutcome.not_authorized
    else err preflight_failure

-- The handlers, and what the body answers where nothing is raised.
unfoldable pub answered : Result (List ReviewComment) → Result PreflightOutcome
unfolding github_refused
answered (ok owned) =
    if is_empty owned then ok PreflightOutcome.ready else ok PreflightOutcome.already_reviewed
answered (err (github_error f)) = github_refused f
answered (err (github_mutation_error f)) = github_refused f
answered (err e) = if is_exception e then err preflight_failure else err e

-- `finally`: what `close` raises takes the place of the answer.
unfoldable pub closed_with : Result PreflightOutcome → Result (Unit {0}) → Result PreflightOutcome
closed_with answer (ok u) = answer
closed_with answer (err e) = if is_exception e then err preflight_failure else err e

-- `github_client` makes the client, `gateway` and `close` are its own calls.
module _ {W : Type 0} (library : Library) (github_client : Text → Exec W (Unit {0}))
    (gateway : ReviewCommentGateway W) (close : Exec W (Unit {0})) (request : ReviewRequest) where
  unfoldable pub opened : Result (Unit {0}) × W → Result PreflightOutcome × W
  unfolding answered closed_with
  opened (err e, w) = (if is_exception e then err preflight_failure else err e, w)
  opened (ok u, w) =
      let target = record request { repository = lower request.repository } in
      let (owned, w') = owned_revision_comments library gateway target w in
      let (end, w'') = close w' in (closed_with (answered owned) end, w'')

  unfoldable pub preflight : Exec W PreflightOutcome
  unfolding opened
  preflight w = opened (github_client (lower request.repository) w)

abbrev IsReported : Result PreflightOutcome → Type 0
IsReported (ok outcome) = Unit
IsReported (err e) = (e ≡ preflight_failure) ⊎ (is_exception e ≡ false)

normalized-IsReported :
    (e : Raised) → IsReported (if is_exception e then err preflight_failure else err e)
normalized-IsReported e = elim (Bool-cases (is_exception e)) [
  | inl caught ↦ rw caught (inl refl)
  | inr uncaught ↦ rw uncaught (inr uncaught)
]

github_refused-IsReported : (f : GitHubFailure) → IsReported (github_refused f)
unfolding github_refused
github_refused-IsReported f =
    elim (Bool-cases (is_installation_token f.operation && is_not_found f.status_code)) [
      | inl refused ↦ rw refused tt
      | inr failed ↦ rw failed (inl refl)
    ]

answered-IsReported : (r : Result (List ReviewComment)) → IsReported (answered r)
unfolding answered
answered-IsReported (ok []) = tt
answered-IsReported (ok (c ∷ cs)) = tt
answered-IsReported (err (github_error f)) = github_refused-IsReported f
answered-IsReported (err (github_mutation_error f)) = github_refused-IsReported f
answered-IsReported (err e) = normalized-IsReported e

closed_with-IsReported :
    (answer : Result PreflightOutcome) (end : Result (Unit {0}))
    → IsReported answer
    → IsReported (closed_with answer end)
unfolding closed_with
closed_with-IsReported answer (ok u) h = h
closed_with-IsReported answer (err e) h = normalized-IsReported e

listed_owned :
    {W : Type 0} (library : Library) (gateway : ReviewCommentGateway W) (request : ReviewRequest)
    (w w' : W) (found : List ReviewComment)
    → gateway.list_review_comments request w ≡ (ok found, w')
    → owned_revision_comments library gateway request w ≡ (
      ok (select (is_owned_marker_comment (review_marker library request) gateway.app_id) found),
      w',
    )
unfolding owned_revision_comments
listed_owned library gateway request w w' found h = ground arith

module _ {W : Type 0} (library : Library) (github_client : Text → Exec W (Unit {0}))
    (gateway : ReviewCommentGateway W) (close : Exec W (Unit {0})) (request : ReviewRequest) where
  opened-IsReported :
      (p : Result (Unit {0}) × W)
      → IsReported (opened library github_client gateway close request p).0
  unfolding opened
  opened-IsReported (ok u, w) =
      let target : ReviewRequest = record request { repository = lower request.repository } in
      let p : Result (List ReviewComment) × W = owned_revision_comments library gateway target w in
      closed_with-IsReported (answered p.0) (close p.1).0 (answered-IsReported p.0)
  opened-IsReported (err e, w) = normalized-IsReported e

  -- A preflight that raises, whatever failed, raises the `ReviewError` of the stage "preflight", or
  -- it passes on an exception that is no `Exception`.
  pub preflight_raises :
      (w w' : W) (e : Raised)
      → preflight library github_client gateway close request w ≡ (err e, w')
      → (e ≡ preflight_failure) ⊎ (is_exception e ≡ false)
  unfolding preflight
  preflight_raises w w' e h =
      subst (λ p. IsReported p.0) h (opened-IsReported (github_client (lower request.repository) w))

  -- When the publication of a revision's review has returned a receipt, a preflight of the same
  -- revision whose calls are answered, and whose client changes no comment, finds it reviewed.
  pub preflight_after_publication :
      (timing : PublicationTiming W) (comments : W → List ReviewComment)
      (contract : GitHubContract gateway timing comments) (digest : IsDigest library.sha256)
      (result : ReviewResult) (body : Text)
      → let target = record request { repository = lower request.repository } in
        expected_review_comment library target result ≡ ok body
        → (before after begun listed ended : W) (receipt : PublicationReceipt)
        → length (owned library gateway timing comments contract target before) ≤ 1
        → publish_review_result library gateway timing target result before ≡ (ok receipt, after)
        → github_client (lower request.repository) after ≡ (ok tt, begun)
        → comments begun ≡ comments after
        → (found : List ReviewComment)
        → gateway.list_review_comments target begun ≡ (ok found, listed)
        → close listed ≡ (ok tt, ended)
        → preflight library github_client gateway close request after
          ≡ (ok PreflightOutcome.already_reviewed, ended)
  unfolding preflight opened owned_revision_comments answered closed_with
  preflight_after_publication timing comments contract digest result body expected before after
        begun listed ended receipt few published opens kept found lists closes =
      let target : ReviewRequest = record request { repository = lower request.repository } in
      let (c, alone, current, id) =
        publish_confirmed library gateway timing comments contract digest target result body
          expected before after receipt few published in
      let shown : found ≡ comments after =
        (subst (λ p. Listed comments begun p) lists (contract.listed target begun)).0 ∙ kept in
      let seen : owned_revision_comments library gateway target begun ≡ (ok (c ∷ []), listed) =
        listed_owned library gateway target begun listed found lists
        ∙ rw shown (ap (λ (cs : List ReviewComment). (ok cs, listed)) alone) in
      rw (opens, seen, closes) refl
