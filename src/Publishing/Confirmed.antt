-- ===== src/Publishing/Confirmed.antt =====
-- Against a GitHub that keeps its contract, a receipt means that the pull request has exactly one
-- comment of the application for the revision, and that it has the expected body.
mod Select
mod Mutations
pub mod Reconcile
use mathlib.Core.Path.{subst}
use specode_review.Base.{
  ℕ, ◌+◌, ◌≤◌, ◌<◌, ◌≡◌, ◌≢◌, ◌⊎◌, refl, sym, ap, ◌∙◌, inl, inr, Bool, true, false, ◌&&◌, not,
  Option, none, some, List, [], ◌∷◌, ◌++◌, arith, Text, text_eq_iff, nat_eq, length, All,
  if◌then◌else◌, Bool-cases, and_left, ◌==◌, text_equal,
}
use specode_review.Errors.{
  consistency_error, FailureCategory, review_failure, Raised, review_error, github_error,
  github_mutation_error, Result, ok, err,
}
use specode_review.Exec.{Exec, pure, raise, catch, ◌>>=◌, ◌>>◌}
use specode_review.Models.{ReviewRequest, ReviewResult}
use specode_review.Publishing.Gateway.{ReviewComment, ReviewCommentGateway, PublicationTiming}
use specode_review.Publishing.Contract.{
  GitHubContract, IsNew, Listed, Created, Updated, replace_body,
}
use specode_review.Publishing.Confirmed.Select.{select-own}
use specode_review.Publishing.Comment.{
  same_identity, Library, select, is_owned_marker_comment, review_marker, owned_revision_comments,
  expected_review_comment,
}
use specode_review.Publishing.Comment.Marker.{IsDigest, last_line-expected, expected-owned}
use specode_review.Publishing.Publish.{
  PublicationReceipt, PublicationDisposition, wait_before_recheck, settle, reconcile,
  settle_mutation, mutate, publish_matches, publish_review_result, confirmed_receipt, confirmed_by,
  recheck_delays, recheck_delay, scan_failure,
}
use specode_review.Publishing.Confirmed.Reconcile.{
  owned, Published, Settled, reconcile-Settled, owned-listed,
}
use specode_review.Publishing.Confirmed.Mutations

-- What a publication leaves behind.
module _ {W : Type 0} (library : Library) (gateway : ReviewCommentGateway W)
    (timing : PublicationTiming W) (comments : W → List ReviewComment)
    (contract : GitHubContract gateway timing comments) (digest : IsDigest library.sha256)
    (request : ReviewRequest) (result : ReviewResult) (body : Text)
    (expected : expected_review_comment library request result ≡ ok body) where
  abbrev mine : W → List ReviewComment
  mine = owned library gateway timing comments contract request

  abbrev Safe : Result PublicationReceipt × W → Type 0
  Safe = Mutations.Safe library gateway timing comments contract digest request result body expected

  publish_matches-Safe :
      (w : W) (cs : List ReviewComment)
      → length cs ≤ 1
      → mine w ≡ cs
      → Safe (publish_matches library gateway timing request body cs w)
  unfolding publish_matches mutate
  publish_matches-Safe w [] few h =
      Mutations.create-Safe library gateway timing comments contract digest request result body
        expected w (gateway.create_review_comment request body w) h
        (contract.created request body w)
  publish_matches-Safe w (c ∷ []) few h = elim (Bool-cases (c.body == body)) [
    | inl same ↦ rw same (c, h, (text_eq_iff c.body body).0 same, refl)
    | inr different ↦ rw different (
        Mutations.update-Safe library gateway timing comments contract digest request result body
          expected w c (gateway.update_review_comment request c.id body w) h
          (Mutations.own-renewed library gateway timing comments contract digest request result body
            expected c
            (select-own
              (Mutations.own library gateway timing comments contract digest request result body
                expected)
              (comments w) c h))
          (contract.updated request c.id body w))
  ]
  publish_matches-Safe w (c ∷ d ∷ rest) few h = absurd (omega arith)

  publish-cases :
      (w : W)
      → length (mine w) ≤ 1
      → Safe (publish_review_result library gateway timing request result w)
  unfolding publish_review_result
  publish-cases w few = elim (Bool-cases (same_identity request result)) [
    | inr different ↦ rw different few
    | inl same ↦
        rw (same, expected)
          (listed-Safe (owned_revision_comments library gateway request w)
            (owned-listed library gateway timing comments contract request w).0
            (owned-listed library gateway timing comments contract request w).1)
  ]
    where
      listed-Safe :
          (p : Result (List ReviewComment) × W)
          → comments p.1 ≡ comments w
          → ((cs : List ReviewComment) → p.0 ≡ ok cs → mine p.1 ≡ cs)
          → Safe (elim p.0 [
            | ok cs ↦ publish_matches library gateway timing request body cs p.1
            | err e ↦ (err e, p.1)
          ])
      listed-Safe (ok cs, w') same shows =
          publish_matches-Safe w' cs (rw (← shows cs refl) (rw same few)) (shows cs refl)
      listed-Safe (err e, w') same shows = rw same few

  -- A publication that begins with at most one comment of the revision ends with at most one,
  -- however its calls to GitHub fare and even if it raises.
  pub publish_at_most_one :
      (w : W)
      → length (mine w) ≤ 1
      → length (mine (publish_review_result library gateway timing request result w).1) ≤ 1
  publish_at_most_one w few =
      few_after (publish_review_result library gateway timing request result w)
        (publish-cases w few)
    where
      few_after : (p : Result PublicationReceipt × W) → Safe p → length (mine p.1) ≤ 1
      few_after (ok r, w') (c, alone, current, id) = rw alone (omega arith)
      few_after (err e, w') h = h

  -- If a publication that begins with at most one comment of the revision returns a receipt, then
  -- there is exactly one: it has the expected body, and its identifier is that of the receipt.
  pub publish_confirmed :
      (w w' : W) (receipt : PublicationReceipt)
      → length (mine w) ≤ 1
      → publish_review_result library gateway timing request result w ≡ (ok receipt, w')
      → Published library gateway timing comments contract request body w' receipt
  publish_confirmed w w' receipt few answered = subst Safe answered (publish-cases w few)

  -- Where several comments of the revision are there, nothing is changed and the publication raises.
  pub publish_ambiguous :
      (w : W)
      → 1 < length (mine w)
      → let (answer, w') = publish_review_result library gateway timing request result w in
        (comments w' ≡ comments w) × (e : Raised) × (answer ≡ err e)
  unfolding publish_review_result publish_matches
  publish_ambiguous w many = elim (Bool-cases (same_identity request result)) [
    | inr different ↦ rw different (refl, _, refl)
    | inl same ↦
        rw (same, expected)
          (unchanged (owned_revision_comments library gateway request w)
            (owned-listed library gateway timing comments contract request w).0
            (owned-listed library gateway timing comments contract request w).1)
  ]
    where
      several :
          (cs : List ReviewComment) (w' : W)
          → 1 < length cs
          → publish_matches library gateway timing request body cs w' ≡ (err consistency_error, w')
      several [] w' h = absurd (omega arith)
      several (c ∷ []) w' h = absurd (omega arith)
      several (c ∷ d ∷ rest) w' h = refl

      unchanged :
          (p : Result (List ReviewComment) × W)
          → comments p.1 ≡ comments w
          → ((cs : List ReviewComment) → p.0 ≡ ok cs → mine p.1 ≡ cs)
          → let (answer, w') : Result PublicationReceipt × W = elim p.0 [
            | ok cs ↦ publish_matches library gateway timing request body cs p.1
            | err e ↦ (err e, p.1)
          ] in
            (comments w' ≡ comments w) × (e : Raised) × (answer ≡ err e)
      unchanged (ok cs, w') same shows =
          let seen = shows cs refl in
          rw (several cs w' (rw (← seen) (rw same many))) (same, _, refl)
      unchanged (err e, w') same shows = (same, e, refl)

  -- Where the revision's comment is up to date, a publication whose listing is answered changes
  -- nothing and says so: publishing again is harmless.
  pub publish_again :
      (w : W) (receipt : PublicationReceipt)
      → same_identity request result ≡ true
      → Published library gateway timing comments contract request body w receipt
      → (found : List ReviewComment) → (gateway.list_review_comments request w).0 ≡ ok found
      → let (answer, w') = publish_review_result library gateway timing request result w in
        (answer
          ≡ ok (record {
            comment_id = receipt.comment_id;
            disposition = PublicationDisposition.already_current;
          }))
        × (comments w' ≡ comments w)
  unfolding publish_review_result publish_matches owned_revision_comments
  publish_again w receipt same (c, alone, current, id) found answered =
      ground (arith, expected, contract.listed request w, text_eq_iff c.body body)
