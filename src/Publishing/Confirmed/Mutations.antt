-- ===== src/Publishing/Confirmed/Mutations.antt =====
-- Each mutation of the publication leaves at most one comment of the revision.
use mathlib.Core.Path.{subst}
use specode_review.Base.{
  ℕ, ◌≤◌, ◌≡◌, refl, sym, ap, ◌∙◌, inl, inr, Bool, true, ◌&&◌, Option, none, some, List, [], ◌∷◌,
  ◌++◌, arith, Text, text_eq_iff, length, Bool-cases, and_left, ◌==◌, text_equal,
}
use specode_review.Errors.{github_mutation_error, Result, ok, err}
use specode_review.Models.{ReviewRequest, ReviewResult}
use specode_review.Publishing.Gateway.{ReviewComment, ReviewCommentGateway, PublicationTiming}
use specode_review.Publishing.Contract.{GitHubContract, IsNew, Created, Updated, replace_body}
use specode_review.Publishing.Confirmed.Select.{
  select-append, select-replace_body, length-select_append, length-select_replaced,
}
use specode_review.Publishing.Comment.{
  Library, is_owned_marker_comment, review_marker, expected_review_comment,
}
use specode_review.Publishing.Comment.Marker.{IsDigest, expected-owned}
use specode_review.Publishing.Publish.{
  PublicationReceipt, PublicationDisposition, reconcile, settle_mutation, confirmed_receipt,
  confirmed_by, recheck_delays,
}
use specode_review.Publishing.Confirmed.Reconcile.{owned, Published, Settled, reconcile-Settled}

-- What a publication leaves behind.
module _ {W : Type 0} (library : Library) (gateway : ReviewCommentGateway W)
    (timing : PublicationTiming W) (comments : W → List ReviewComment)
    (contract : GitHubContract gateway timing comments) (digest : IsDigest library.sha256)
    (request : ReviewRequest) (result : ReviewResult) (body : Text)
    (expected : expected_review_comment library request result ≡ ok body) where
  abbrev pub own : ReviewComment → Bool
  own = is_owned_marker_comment (review_marker library request) gateway.app_id

  abbrev pub mine : W → List ReviewComment
  mine = owned library gateway timing comments contract request

  abbrev pub Shown : W → PublicationReceipt → Type 0
  Shown = Published library gateway timing comments contract request body

  -- At most one comment of the revision, and a true receipt if there is one.
  abbrev pub Safe : Result PublicationReceipt × W → Type 0
  Safe (ok r, w) = Shown w r
  Safe (err e, w) = length (mine w) ≤ 1

  pub Settled-Safe :
      (w : W) (p : Result PublicationReceipt × W)
      → length (mine w) ≤ 1
      → Settled library gateway timing comments contract request body w p
      → Safe p
  Settled-Safe w (ok r, w') h (same, shown) = shown
  Settled-Safe w (err e, w') h same = rw same h

  pub reconciled-Safe :
      (retry_after : Option ℕ) (w : W)
      → length (mine w) ≤ 1
      → Safe (reconcile library gateway timing request body retry_after true recheck_delays w)
  reconciled-Safe retry_after w h =
      Settled-Safe w
        (reconcile library gateway timing request body retry_after true recheck_delays w) h
        (reconcile-Settled library gateway timing comments contract request body retry_after true
          recheck_delays w)

  pub confirmed_by-Safe :
      (marker : Option Text) (disposition : PublicationDisposition) (c : ReviewComment) (w : W)
      → (c.body ≡ body → (d : ReviewComment) × (mine w ≡ d ∷ []) × (d.body ≡ body) × (d.id ≡ c.id))
      → length (mine w) ≤ 1
      → Safe (confirmed_by marker body gateway.app_id disposition c w)
  unfolding confirmed_by
  confirmed_by-Safe none disposition c w shown few = few
  confirmed_by-Safe (some marker) disposition c w shown few =
      elim (Bool-cases ((c.body == body) && is_owned_marker_comment marker gateway.app_id c)) [
        | inl good ↦ rw good (shown ((text_eq_iff c.body body).0 (and_left _ _ good)))
        | inr bad ↦ rw bad few
      ]

  pub own_body :
      (c : ReviewComment)
      → c.body ≡ body
      → c.performed_via_github_app ≡ some gateway.app_id
      → own c ≡ true
  own_body c e a =
      let posted : ReviewComment = record {
        id = c.id;
        body = body;
        performed_via_github_app = some gateway.app_id;
      } in
      let same : posted ≡ c = ground (arith, e, a) in
      subst (λ x. own x ≡ true) same
        (expected-owned library digest request result body gateway.app_id c.id expected)

  pub added :
      (w w' : W) (c : ReviewComment)
      → mine w ≡ []
      → IsNew gateway.app_id body c
      → comments w' ≡ comments w ++ c ∷ []
      → mine w' ≡ c ∷ []
  added w w' c h (b, a) e = rw e (
      select-append own (comments w) c (own_body c b a)
      ∙ ap (λ (cs : List ReviewComment). cs ++ c ∷ []) h)

  pub create-Safe :
      (w : W) (p : Result ReviewComment × W)
      → mine w ≡ []
      → Created comments gateway.app_id body w p
      → Safe (
          settle_mutation library gateway timing request body PublicationDisposition.created p.0
            p.1)
  unfolding settle_mutation confirmed_receipt
  create-Safe w (ok c, w') h (app, e) =
      confirmed_by-Safe _ PublicationDisposition.created c w'
        (λ b. (c, added w w' c h (b, app) e, b, refl))
        (rw e (omega (arith, length-select_append own (comments w) c, ap length h)))
  create-Safe w (err (github_mutation_error f), w') h (inl same) =
      reconciled-Safe f.retry_after w' (rw (same, h) (omega arith))
  create-Safe w (err (github_mutation_error f), w') h (inr (c, new, e)) =
      reconciled-Safe f.retry_after w' (rw (added w w' c h new e) (omega arith))
  create-Safe w (err _, w') h (inl same) = rw (same, h) (omega arith)
  create-Safe w (err _, w') h (inr (c, new, e)) = rw (added w w' c h new e) (omega arith)

  app_of : (c : ReviewComment) → own c ≡ true → c.performed_via_github_app ≡ some gateway.app_id
  unfolding is_owned_marker_comment
  app_of c h = ground arith

  abbrev pub renewed : ReviewComment → ReviewComment
  renewed c = record c { body = body }

  pub own-renewed : (c : ReviewComment) → own c ≡ true → own (renewed c) ≡ true
  own-renewed c h = own_body (renewed c) refl (app_of c h)

  pub replaced :
      (w w' : W) (c : ReviewComment)
      → mine w ≡ c ∷ []
      → own (renewed c) ≡ true
      → comments w' ≡ replace_body c.id body (comments w)
      → mine w' ≡ renewed c ∷ []
  replaced w w' c h o e =
      rw e (select-replace_body own (comments w) c body (contract.distinct_ids w) h o)

  pub update-Safe :
      (w : W) (c : ReviewComment) (p : Result ReviewComment × W)
      → mine w ≡ c ∷ []
      → own (renewed c) ≡ true
      → Updated comments c.id body w p
      → Safe (
          settle_mutation library gateway timing request body PublicationDisposition.updated p.0
            p.1)
  unfolding settle_mutation confirmed_receipt
  update-Safe w c (ok c', w') h o (same_id, e) =
      confirmed_by-Safe _ PublicationDisposition.updated c' w'
        (λ b. (renewed c, replaced w w' c h o (rw (← b) e), refl, sym same_id))
        (rw e (length-select_replaced own (comments w) c c'.body (contract.distinct_ids w) h))
  update-Safe w c (err (github_mutation_error f), w') h o (inl same) =
      reconciled-Safe f.retry_after w' (rw (same, h) (omega arith))
  update-Safe w c (err (github_mutation_error f), w') h o (inr e) =
      reconciled-Safe f.retry_after w' (rw (replaced w w' c h o e) (omega arith))
  update-Safe w c (err _, w') h o (inl same) = rw (same, h) (omega arith)
  update-Safe w c (err _, w') h o (inr e) = rw (replaced w w' c h o e) (omega arith)
