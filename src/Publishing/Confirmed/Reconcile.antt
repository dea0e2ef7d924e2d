-- ===== src/Publishing/Confirmed/Reconcile.antt =====
-- A reconciliation changes nothing, and its receipt is of a comment that is there.
use specode_review.Base.{
  ℕ, ◌≡◌, refl, ◌∙◌, inl, inr, Bool, false, Option, List, [], ◌∷◌, arith, Text, text_eq_iff,
  Bool-cases, ◌==◌, text_equal,
}
use specode_review.Errors.{Result, ok, err}
use specode_review.Exec.{Exec, raise, catch, ◌>>=◌}
use specode_review.Models.{ReviewRequest}
use specode_review.Publishing.Gateway.{ReviewComment, ReviewCommentGateway, PublicationTiming}
use specode_review.Publishing.Contract.{GitHubContract}
use specode_review.Publishing.Comment.{
  Library, select, is_owned_marker_comment, review_marker, owned_revision_comments,
}
use specode_review.Publishing.Publish.{
  PublicationReceipt, wait_before_recheck, settle, reconcile, recheck_delay, scan_failure,
}

module _ {W : Type 0} (library : Library) (gateway : ReviewCommentGateway W)
    (timing : PublicationTiming W) (comments : W → List ReviewComment)
    (contract : GitHubContract gateway timing comments) (request : ReviewRequest) where
  -- The application's comments for the revision.
  abbrev pub owned : W → List ReviewComment
  owned w =
      select (is_owned_marker_comment (review_marker library request) gateway.app_id) (comments w)

  -- The one comment of the revision is what the receipt says.
  abbrev pub Published : Text → W → PublicationReceipt → Type 0
  Published body w r =
      (c : ReviewComment) × (owned w ≡ c ∷ []) × (c.body ≡ body) × (c.id ≡ r.comment_id)

  -- A call that changed nothing, and whose receipt, if it has one, is true.
  abbrev pub Settled : Text → W → Result PublicationReceipt × W → Type 0
  Settled body w (ok r, w') = (comments w' ≡ comments w) × Published body w' r
  Settled body w (err e, w') = comments w' ≡ comments w

  abbrev pub Quiet : {A : Type 0} → Exec W A → Type 0
  Quiet m = (w : W) → comments (m w).1 ≡ comments w

  pub continue-Settled :
      {A : Type 0} (body : Text) (w : W) (p : Result A × W) (f : A → Exec W PublicationReceipt)
      → comments p.1 ≡ comments w
      → ((a : A) → p.0 ≡ ok a → Settled body w (f a p.1))
      → Settled body w (elim p.0 [ ok a ↦ f a p.1 | err e ↦ (err e, p.1) ])
  continue-Settled body w (ok a, w') f h k = k a refl
  continue-Settled body w (err e, w') f h k = h

  pub wait-Quiet : (delay : ℕ) → Quiet (wait_before_recheck library gateway timing request delay)
  unfolding wait_before_recheck
  wait-Quiet delay w =
      ground (arith, contract.timed w, contract.slept delay (timing.remaining_time w).1)

  pub owned-listed :
      (w : W)
      → let (r, w') = owned_revision_comments library gateway request w in
        (comments w' ≡ comments w) × ((cs : List ReviewComment) → r ≡ ok cs → owned w' ≡ cs)
  unfolding owned_revision_comments
  owned-listed w = ground (arith, contract.listed request w)

  pub caught :
      (w : W)
      → let (r, w') =
          catch (owned_revision_comments library gateway request) (λ e. raise (scan_failure e)) w in
        (comments w' ≡ comments w) × ((cs : List ReviewComment) → r ≡ ok cs → owned w' ≡ cs)
  caught w = ground (arith, owned-listed w)

  pub rebase :
      (body : Text) (w w1 : W) (p : Result PublicationReceipt × W)
      → comments w1 ≡ comments w
      → Settled body w1 p
      → Settled body w p
  rebase body w w1 (ok r, w2) h (same, published) = (same ∙ h, published)
  rebase body w w1 (err e, w2) h same = same ∙ h

  pub settle-Settled :
      (body : Text) (again : Exec W PublicationReceipt) (w : W) (cs : List ReviewComment)
      → owned w ≡ cs
      → Settled body w (again w)
      → Settled body w (settle library gateway timing request body again cs w)
  unfolding settle
  settle-Settled body again w [] h k = k
  settle-Settled body again w (c ∷ []) h k = elim (Bool-cases (c.body == body)) [
    | inl same ↦ rw same (refl, (c, h, (text_eq_iff c.body body).0 same, refl))
    | inr different ↦ rw different k
  ]
  settle-Settled body again w (c ∷ d ∷ rest) h k = refl

  pub reconcile-Settled :
      (body : Text) (retry_after : Option ℕ) (first : Bool) (delays : List ℕ) (w : W)
      → Settled body w (reconcile library gateway timing request body retry_after first delays w)
  unfolding reconcile
  reconcile-Settled body retry_after first [] w = refl
  reconcile-Settled body retry_after first (policy_delay ∷ delays) w =
      let delay = recheck_delay first retry_after policy_delay in
      let w1 = (wait_before_recheck library gateway timing request delay w).1 in
      let scan =
        catch (owned_revision_comments library gateway request) (λ e. raise (scan_failure e)) w1 in
      continue-Settled body w (wait_before_recheck library gateway timing request delay w)
        (λ _.
          catch (owned_revision_comments library gateway request) (λ e. raise (scan_failure e))
          >>= settle library gateway timing request body
              (reconcile library gateway timing request body retry_after false delays))
        (wait-Quiet delay w)
        (λ _ _. rebase body w w1 _ (wait-Quiet delay w) (
          continue-Settled body w1 scan
            (settle library gateway timing request body
              (reconcile library gateway timing request body retry_after false delays))
            (caught w1).0
            (λ cs e. rebase body w1 scan.1 _ (caught w1).0 (
              settle-Settled body
                (reconcile library gateway timing request body retry_after false delays) scan.1 cs
                ((caught w1).1 cs e) (reconcile-Settled body retry_after false delays scan.1)))))
