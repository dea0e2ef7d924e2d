-- ===== src/Lifecycle/Invariant.antt =====
-- Every system that the steps reach satisfies the invariant.
use specode_review.Base.{
  ℕ, ◌+◌, ◌∙◌, ap, true, leb→lt, ◌≤◌, ◌≡◌, ◌≢◌, refl, Option, none, some, arith, length, Text,
  nat_equal, leb, inl, inr, Option-cases, Bool-cases, text_equal,
}
use mathlib.Core.Path.{subst}
use specode_review.Base.Dict.{lookup, count, weight}
use specode_review.Errors.{ok}
use specode_review.Revision.{AcceptedRevision, revision_equal}
use specode_review.Submission.{SubmissionOutcome, PreflightOutcome}
use specode_review.Lifecycle.{
  max_concurrent_reviews, ReviewLifecycle, LifecycleState, stopped, created, accepting, stopping,
  is_accepting, ClaimPhase, is_running, PreflightReply, found, failed, cancelled, interrupted,
  new_lifecycle, enter, exit_begin, exit_end, submit, resume, finish_run,
}
use specode_review.Lifecycle.Counts.{is_preflight, owners_of, count-phases}
use specode_review.Lifecycle.Steps.{
  System, Step, entered, submitted, resumed, finished, exiting, exited, Reach, here, next, start,
  submit_call, resume_call, finish_task, await_preflight,
}
use specode_review.Lifecycle.Valid.{IsValid}
use specode_review.Lifecycle.Moves.{
  claim-IsValid, give_up-IsValid, start_review-IsValid, finish_task-IsValid,
}

pub start-IsValid :
    (limit : ℕ) {l : ReviewLifecycle} → new_lifecycle limit ≡ ok l → IsValid (start l)
unfolding new_lifecycle
start-IsValid limit h = ground arith

accepting_alive : (state : LifecycleState) → is_accepting state ≡ true → state ≢ stopped
accepting_alive state h e = ground arith

submit_call-IsValid : (r : AcceptedRevision) (s : System) → IsValid s → IsValid (submit_call r s)
unfolding submit_call submit
submit_call-IsValid r s v = elim (Bool-cases (is_accepting s.lifecycle.state)) [
  | inr closed ↦ rw (closed) v
  | inl open_ ↦ elim (Option-cases (lookup r s.lifecycle.claims)) [
    | inr (phase, claimed) ↦ rw (open_, claimed) v
    | inl free ↦
        rw (open_, free) (claim-IsValid r s v (accepting_alive s.lifecycle.state open_) free)
  ]
]

module _ (call : ℕ) (r : AcceptedRevision) (s : System) (v : IsValid s)
    (h : lookup call s.waiting ≡ some r) where
  resume_call-IsValid :
      (reply : PreflightReply) (attempt_id : Option Text)
      → reply ≢ interrupted
      → IsValid (resume_call call reply attempt_id r s)
  unfolding resume_call resume
  resume_call-IsValid interrupted attempt_id handled = absurd (handled refl)
  resume_call-IsValid failed attempt_id handled = give_up-IsValid call r s v h
  resume_call-IsValid cancelled attempt_id handled = give_up-IsValid call r s v h
  resume_call-IsValid (found PreflightOutcome.already_reviewed) attempt_id handled =
      give_up-IsValid call r s v h
  resume_call-IsValid (found PreflightOutcome.not_authorized) attempt_id handled =
      give_up-IsValid call r s v h
  resume_call-IsValid (found PreflightOutcome.ready) none handled = give_up-IsValid call r s v h
  resume_call-IsValid (found PreflightOutcome.ready) (some attempt_id) handled =
      elim (Bool-cases (is_accepting s.lifecycle.state)) [
        | inr closed ↦ rw closed (give_up-IsValid call r s v h)
        | inl open_ ↦
            elim (Bool-cases (leb s.lifecycle.max_reviews (count is_running s.lifecycle.claims))) [
              | inl full ↦ rw (open_, full) (give_up-IsValid call r s v h)
              | inr room ↦
                  rw (open_, room)
                    (start_review-IsValid call r s v (accepting_alive s.lifecycle.state open_)
                      (leb→lt _ _ room) h)
            ]
      ]

stopping_alive : stopping ≢ stopped
stopping_alive e = cc

-- A change of the state alone.
state-IsValid :
    (s : System) (state : LifecycleState)
    → IsValid s
    → (state ≡ stopped → length s.waiting + length s.lifecycle.tasks ≡ 0)
    → IsValid (record s { lifecycle = record s.lifecycle { state = state } })
state-IsValid s state v idle = record {
  distinct = v.distinct;
  waiting_own = v.waiting_own;
  tasks_own = v.tasks_own;
  waiting_length = v.waiting_length;
  tasks_length = v.tasks_length;
  within_capacity = v.within_capacity;
  calls_below = v.calls_below;
  tasks_below = v.tasks_below;
  stopped_idle = idle;
}

pub exit_end-idle :
    (s : System) {l : ReviewLifecycle}
    → IsValid s
    → exit_end s.lifecycle ≡ some l
    → (length s.waiting + length s.lifecycle.tasks ≡ 0)
      × (record s.lifecycle { state = stopped } ≡ l)
unfolding exit_end
exit_end-idle s v h =
    ground (arith, v.waiting_length, v.tasks_length, count-phases s.lifecycle.claims)

pub enter_lem :
    (l l' : ReviewLifecycle)
    → enter l ≡ ok l'
    → (l.state ≡ created) × (record l { state = accepting } ≡ l')
unfolding enter
enter_lem l l' h = ground arith

exit_end-IsValid :
    (s : System) (l : ReviewLifecycle)
    → IsValid s
    → exit_end s.lifecycle ≡ some l
    → IsValid (record s { lifecycle = l })
exit_end-IsValid s l v h =
    let (idle, e) = exit_end-idle s v h in
    subst (λ x. IsValid (record s { lifecycle = x })) e (state-IsValid s stopped v (λ _. idle))

enter-IsValid :
    (s : System) (l : ReviewLifecycle)
    → IsValid s
    → enter s.lifecycle ≡ ok l
    → IsValid (record s { lifecycle = l })
enter-IsValid s l v h =
    let (was, e) = enter_lem s.lifecycle l h in
    subst (λ x. IsValid (record s { lifecycle = x })) e
      (state-IsValid s accepting v (λ e. absurd (accepting_alive accepting refl e)))

pub Step-IsValid : {s t : System} → Step s t → IsValid s → IsValid t
Step-IsValid {s = s} (entered l h) v = enter-IsValid s l v h
Step-IsValid {s = s} (submitted r) v = submit_call-IsValid r s v
Step-IsValid {s = s} (resumed call reply attempt_id r h handled) v =
    resume_call-IsValid call r s v h reply attempt_id handled
Step-IsValid {s = s} (finished task r h) v = finish_task-IsValid task r s v h
Step-IsValid {s = s} exiting v =
    unfold exit_begin in state-IsValid s stopping v (λ e. absurd (stopping_alive e))
Step-IsValid {s = s} (exited l h) v = exit_end-IsValid s l v h

pub Reach-IsValid : {s t : System} → IsValid s → Reach s t → IsValid t
Reach-IsValid v here = v
Reach-IsValid v (next r st) = Step-IsValid st (Reach-IsValid v r)

max_reviews-submit :
    (r : AcceptedRevision) (l : ReviewLifecycle) → (submit r l).1.max_reviews ≡ l.max_reviews
unfolding submit
max_reviews-submit r l = ground arith

max_reviews-await :
    (r : AcceptedRevision) (p : Option SubmissionOutcome × ReviewLifecycle) (s : System)
    → (await_preflight r p s).lifecycle.max_reviews ≡ p.1.max_reviews
max_reviews-await r (some outcome, l) s = refl
max_reviews-await r (none, l) s = refl

max_reviews-resume :
    (reply : PreflightReply) (attempt_id : Option Text) (r : AcceptedRevision) (l : ReviewLifecycle)
    → (resume reply attempt_id r l).1.max_reviews ≡ l.max_reviews
unfolding resume
max_reviews-resume reply attempt_id r l = ground arith

max_reviews-Step : {s t : System} → Step s t → t.lifecycle.max_reviews ≡ s.lifecycle.max_reviews
unfolding submit_call resume_call finish_task finish_run exit_begin exit_end
max_reviews-Step {s = s} (entered l h) =
    cc (ap (λ (l : ReviewLifecycle). l.max_reviews) (enter_lem s.lifecycle l h).1)
max_reviews-Step {s = s} (submitted r) =
    max_reviews-await r (submit r s.lifecycle) s ∙ max_reviews-submit r s.lifecycle
max_reviews-Step {s = s} (resumed call reply attempt_id r h handled) =
    max_reviews-resume reply attempt_id r s.lifecycle
max_reviews-Step (finished task r h) = refl
max_reviews-Step exiting = refl
max_reviews-Step (exited l h) = ground arith

max_reviews-Reach : {s t : System} → Reach s t → t.lifecycle.max_reviews ≡ s.lifecycle.max_reviews
max_reviews-Reach here = refl
max_reviews-Reach (next r st) = max_reviews-Step st ∙ max_reviews-Reach r

new_lifecycle_lem :
    (limit : ℕ) {l : ReviewLifecycle}
    → new_lifecycle limit ≡ ok l
    → (l.max_reviews ≡ limit) × (limit ≤ max_concurrent_reviews)
unfolding new_lifecycle
new_lifecycle_lem limit h = ground arith

owned_once : (o : Option ClaimPhase) → weight is_preflight o + weight is_running o ≤ 1
owned_once o = ground arith

-- Whatever the submissions, replies, cancellations and ends of reviews, and in whatever order: no
-- more reviews run than the configured limit, which is at most five, and no revision has more than
-- one submission in preflight or review under way, the two together.
pub capacity :
    (limit : ℕ) (l : ReviewLifecycle) {s : System}
    → new_lifecycle limit ≡ ok l
    → Reach (start l) s
    → (length s.lifecycle.tasks ≤ limit)
      × (limit ≤ max_concurrent_reviews)
      × ((r : AcceptedRevision) → owners_of r s.waiting + owners_of r s.lifecycle.tasks ≤ 1)
capacity limit l {s} h reached =
    let v = Reach-IsValid (start-IsValid limit h) reached in
    let (configured, small) = new_lifecycle_lem limit h in
    (
      omega (arith, v.within_capacity, max_reviews-Reach reached, configured),
      small,
      λ r. omega (arith, v.waiting_own r, v.tasks_own r, owned_once (lookup r s.lifecycle.claims)),
    )
