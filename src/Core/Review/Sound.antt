-- ===== src/Core/Review/Sound.antt =====
-- What a review that returns has checked.
use mathlib.Core.Path.{subst}
use specode_review.Base.{
  ℕ, ◌≤◌, ◌≡◌, sym, ap, ◌∙◌, true, Option, some, List, arith, Text, text_equal, text_eq_iff, ◌==◌,
  length, All,
}
use specode_review.Errors.{value_error, ok}
use specode_review.Exec.{Exec}
use specode_review.Exec.Leads.{Leads, leads}
use specode_review.Models.{
  ReviewRequest, DiffRange, AgentReview, Finding, ReviewResult, expected_status, review_result,
  valid_agent_review,
}
use specode_review.Deadline.{remaining_review_time}
use specode_review.Core.Grounding.Described.{IsSupported, IsSupported-iff, All-iff}
use specode_review.Core.Accept.{accept, accept-IsGrounded, lift}
use specode_review.Core.Accept.Produced.{time_changes_nothing, accept-produced}
use specode_review.Core.Review.{
  ReviewContext, Reviewer, new_result, or_raise, prepare_context, reviewed, workspace_taken,
  cleaned_up, with_cleanup, create_workspace, review,
}
use specode_review.Core.Review.Prepared.{IsPrepared, passed, lifted, prepare_context-IsPrepared}

module _ {W : Type 0} (r : Reviewer W) (request : ReviewRequest) where
  -- What a result says, and the run that it rests on.
  pub record IsSound (result : ReviewResult) (w w' : W) : Type 0 where
    pub context : ReviewContext
    pub candidate : Text
    pub s1 : W
    pub s2 : W
    pub s3 : W
    pub own_repository : request.repository ≡ r.repository
    pub workspace_new : r.make_workspace w ≡ (ok true, s1)
    pub prepared : IsPrepared r request context s1 s2
    pub produced : r.produce context s2 ≡ (ok (some candidate), s3)
    pub short : length candidate ≤ r.max_bytes
    pub parsed : r.parse candidate ≡ some (record { findings = result.findings })
    pub valid : valid_agent_review (record { findings = result.findings }) ≡ true
    pub supported : All (IsSupported (r.checkout context) context.paths) result.findings
    pub status_right : result.status ≡ expected_status result.findings
    pub repository_right : result.repository ≡ request.repository
    pub number_right : result.pr_number ≡ request.pr_number
    pub range_right : result.diff_range ≡ context.diff_range
    pub removed : r.remove_workspace s3 ≡ (ok tt, w')

  -- The fields of a result that was made.
  made :
      (range : DiffRange) (candidate : AgentReview) (result : ReviewResult)
      → new_result request range candidate ≡ ok result
      → (result.findings ≡ candidate.findings)
        × (result.status ≡ expected_status candidate.findings)
        × (result.repository ≡ request.repository)
        × (result.pr_number ≡ request.pr_number)
        × (result.diff_range ≡ range)
  unfolding review_result
  made range candidate result h = ground (arith, h)

  -- What is found in the `try` of a review.
  record IsReviewed (result : ReviewResult) (w w' : W) : Type 0 where
    context : ReviewContext
    candidate : Text
    s1 : W
    prepared : IsPrepared r request context w s1
    produced : r.produce context s1 ≡ (ok (some candidate), w')
    short : length candidate ≤ r.max_bytes
    review_of : AgentReview
    parsed : r.parse candidate ≡ some review_of
    valid : valid_agent_review review_of ≡ true
    supported : All (IsSupported (r.checkout context) context.paths) review_of.findings
    as_made : new_result request context.diff_range review_of ≡ ok result

  reviewed-IsReviewed : (w : W) → Leads (λ result w'. IsReviewed result w w') w (reviewed r request)
  unfolding reviewed
  reviewed-IsReviewed w = leads (prepare_context r request) _ λ context w1 prepared.
      leads
        (accept r.deadline r.clock (r.produce context) r.parse r.max_bytes (r.checkout context)
          context.paths)
        (λ candidate. lift (new_result request context.diff_range candidate))
        λ review w2 accepted. record {
          at = λ result w3 h.
              let (result_made, end) =
                lifted r request (new_result request context.diff_range review) result w2 w3 h in
              let (candidate, produced, short, parsed) =
                accept-produced r.deadline r.clock (r.produce context) r.parse r.max_bytes
                  (r.checkout context) context.paths w1 w2 review accepted in
              let (valid, grounded) =
                accept-IsGrounded r.deadline r.clock (r.produce context) r.parse r.max_bytes
                  (r.checkout context) context.paths w1 w2 review accepted in
              record {
                context = context;
                candidate = candidate;
                s1 = w1;
                prepared = (prepare_context-IsPrepared r request w).at context w1 prepared;
                produced = cc (produced, end);
                short = short;
                review_of = review;
                parsed = parsed;
                valid = valid;
                supported =
                    (All-iff (IsSupported-iff (r.checkout context) context.paths) review.findings).0
                      grounded;
                as_made = result_made;
              };
        }

  cleaned :
      (m : Exec W ReviewResult) (result : ReviewResult) (w w' : W)
      → cleaned_up r m w ≡ (ok result, w')
      → (m w ≡ (ok result, (m w).1)) × (r.remove_workspace (m w).1 ≡ (ok tt, w'))
  unfolding cleaned_up with_cleanup
  cleaned m result w w' h = ground (arith, h)

  allocates :
      (v : Unit {0}) (w w' : W)
      → create_workspace r w ≡ (ok v, w')
      → r.make_workspace w ≡ (ok true, w')
  unfolding create_workspace
  allocates v w w' h =
      (leads {Q = λ _ x. r.make_workspace w ≡ (ok true, x)} r.make_workspace
          (λ is_new. or_raise r is_new workspace_taken)
          λ is_new w1 allocated. record {
            at = λ u w2 free.
                let (fresh, kept) = passed r request is_new workspace_taken u w1 w2 free in
                cc (allocated, fresh, kept);
          }).at
        v w' h

  -- A review that returns went through its stages one after the other: the repository of the request is
  -- that of the reviewer, and a new workspace was made; the repository was cloned, git had both commits,
  -- the head was checked out and git named it as the current one; the context has the range from the
  -- merge base to the head, the paths and the counts that git then listed, which are at most 100 files
  -- and 5000 lines, and the patch; the candidate was produced for this context in the state that was
  -- left, is within the limit, and has the findings of the result, which meet the constraints of the
  -- models and are each supported by the checkout and these paths; the result's status, repository,
  -- number and range are those of the findings, the request and the context; and last the removal of
  -- the workspace returned.
  pub review-IsSound :
      (w w' : W) (result : ReviewResult)
      → review r request w ≡ (ok result, w')
      → IsSound result w w'
  unfolding review
  review-IsSound w w' result h =
      (leads {Q = λ result x. IsSound result w x}
          (remaining_review_time r.deadline r.clock "review") _
          λ left w1 in_time.
            leads (or_raise r (request.repository == r.repository) value_error) _ λ u w2 own.
              leads (create_workspace r) (λ _. cleaned_up r (reviewed r request))
                λ v w4 allocated. record {
                  at = λ o w5 end.
                      let (first, last) = cleaned (reviewed r request) o w4 w5 end in
                      let k = (reviewed-IsReviewed w4).at o (reviewed r request w4).1 first in
                      let (findings, status, repository, number, range) =
                        made k.context.diff_range k.review_of o k.as_made in
                      let same : k.review_of ≡ record { findings = o.findings } =
                        ap (λ (fs : List Finding). record { findings = fs }) (sym findings) in
                      let (right, kept) =
                        passed r request (request.repository == r.repository) value_error u w1 w2
                          own in
                      let start =
                        time_changes_nothing r.deadline r.clock "review" left w w1 in_time in
                      record {
                        context = k.context;
                        candidate = k.candidate;
                        s1 = w4;
                        s2 = k.s1;
                        s3 = (reviewed r request w4).1;
                        own_repository = (text_eq_iff request.repository r.repository).0 right;
                        workspace_new = cc (start, kept, allocates v w2 w4 allocated);
                        prepared = k.prepared;
                        produced = k.produced;
                        short = k.short;
                        parsed = k.parsed ∙ ap some same;
                        valid = rw (sym same) k.valid;
                        supported =
                            subst (All (IsSupported (r.checkout k.context) k.context.paths))
                              (sym findings) k.supported;
                        status_right = cc (status, findings);
                        repository_right = repository;
                        number_right = number;
                        range_right = range;
                        removed = last;
                      };
                }).at
        result w' h

  -- Once its workspace is made, a review removes it as the last thing that it does, whether it
  -- returns or raises.
  pub review_removes :
      (before timed made : W) (left : Option ℕ)
      → remaining_review_time r.deadline r.clock "review" before ≡ (ok left, timed)
      → request.repository ≡ r.repository
      → r.make_workspace timed ≡ (ok true, made)
      → (last : W) × ((review r request before).1 ≡ (r.remove_workspace last).1)
  unfolding review create_workspace cleaned_up
  review_removes before timed made left in_time same is_new = (
    (reviewed r request made).1,
    ground (arith, in_time, (text_eq_iff request.repository r.repository).1 same, is_new),
  )
