-- ===== src/Live/Evidence.antt =====
-- What the checks of the comments find.
use specode_review.Base.{
  ℕ, ◌≡◌, refl, Bool, true, false, not, List, [], ◌∷◌, arith, Text, is_empty, text_equal, ◌==◌, ap,
  ◌∙◌,
}
use specode_review.Errors.{Raised, live_precondition_error, Result, ok}
use specode_review.Exec.Leads.{Leads, leads}
use specode_review.Models.{ReviewRequest}
use specode_review.Revision.{AcceptedRevision, revision_equal, from_review_request}
use specode_review.Publishing.Gateway.{ReviewComment, ReviewCommentGateway}
use specode_review.Publishing.Comment.{Library, owned_revision_comments}
use specode_review.Live.{
  Expected, raise_if, is_evidence, only, checked, require_fresh_live_review,
  verify_live_review_evidence,
}

module _ {W : Type 0} (library : Library) (gateway : ReviewCommentGateway W)
    (request : ReviewRequest) where
  -- No comment of the revision was listed, and the request is for the expected revision.
  abbrev pub IsFresh : AcceptedRevision → W → W → Type 0
  IsFresh expected w w' =
      (from_review_request request ≡ expected)
      × (owned_revision_comments library gateway request w ≡ (ok [], w'))

  -- One comment of the revision was listed, and it shows what is expected.
  abbrev pub HasEvidence : (Text → Text) → Expected → ℕ → W → W → Type 0
  HasEvidence casefold expected id w w' =
      (comment : ReviewComment) × (owned_revision_comments library gateway request w
        ≡ (ok (comment ∷ []), w'))
      × (is_evidence casefold expected comment ≡ true)
      × (comment.id ≡ id)

  raised_if :
      (test : Bool) (e : Raised) (u : Unit {0}) (w w' : W)
      → raise_if test e w ≡ (ok u, w')
      → (test ≡ false) × (w ≡ w')
  raised_if true e u w w' h = absurd (cc h)
  raised_if false e u w w' h = (refl, ap (λ p. p.1) h)

  no_comments : (comments : List ReviewComment) → is_empty comments ≡ true → comments ≡ []
  no_comments [] h = refl
  no_comments (comment ∷ comments) h = absurd (cc h)

  pub fresh :
      (expected : AcceptedRevision) (w : W)
      → Leads
          (λ (u : Unit {0}) w'. IsFresh expected w w')
          w
          (require_fresh_live_review library gateway request expected)
  unfolding require_fresh_live_review
  fresh expected w =
      leads (raise_if (not (from_review_request request == expected)) live_precondition_error) _
        λ u w1 same.
          leads (owned_revision_comments library gateway request)
            (λ comments. raise_if (not (is_empty comments)) live_precondition_error)
            λ comments w2 listed. record {
              at = λ v w3 h.
                  let (empty, end) =
                    raised_if (not (is_empty comments)) live_precondition_error v w2 w3 h in
                  let (right, start) = raised_if _ live_precondition_error u w w1 same in
                  let nothing : comments ≡ [] = no_comments comments (ground (arith, empty)) in
                  (
                    (revision_equal.equals_iff (from_review_request request) expected).0
                        (ground (arith, right)),
                    cc (start, listed, nothing, end),
                  );
            }

  pub evidence :
      (casefold : Text → Text) (expected : Expected) (w : W)
      → Leads
          (λ id w'. HasEvidence casefold expected id w w')
          w
          (verify_live_review_evidence library gateway request casefold expected)
  unfolding verify_live_review_evidence
  evidence casefold expected w =
      leads (owned_revision_comments library gateway request)
        (λ comments w. (checked library gateway request casefold expected (only comments), w))
        λ comments w1 listed. record {
          at = λ id w2 h.
              go comments id w2 (listed ∙ ap (λ (x : W). (ok comments, x)) (ap (λ p. p.1) h))
                (ap (λ (p : Result ℕ × W). p.0) h);
        }
    where
      go :
          (comments : List ReviewComment) (id : ℕ) (w1 : W)
          → (owned_revision_comments library gateway request w ≡ (ok comments, w1))
          → checked library gateway request casefold expected (only comments) ≡ ok id
          → HasEvidence casefold expected id w w1
      go [] id w1 listed h = absurd (cc h)
      go (comment ∷ []) id w1 listed h = (comment, listed, ground (arith, h), ground (arith, h))
      go (comment ∷ next ∷ comments) id w1 listed h = absurd (cc h)
