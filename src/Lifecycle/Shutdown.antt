-- ===== src/Lifecycle/Shutdown.antt =====
-- What a submission that is over leaves behind, and that a shutdown comes to its end.
use specode_review.Base.{
  ℕ, zero, suc, ◌+◌, ◌≤◌, ◌<◌, ◌≡◌, ◌≢◌, ◌↔◌, ◌⊎◌, refl, inl, inr, true, false, Option, none, some,
  [], ◌∷◌, arith, length, Text, is_empty, nat_equal, text_equal, ◌∙◌, ap,
}
use specode_review.Base.Dict.{
  Dict, lookup, count, IsDistinct, lookup-insert, lookup-pop, length-pop,
}
use specode_review.Revision.{AcceptedRevision, revision_equal}
use specode_review.Submission.{SubmissionOutcome, PreflightOutcome}
use specode_review.Lifecycle.{
  ReviewLifecycle, LifecycleState, stopped, accepting, stopping, is_accepting, preflight, running,
  is_running, PreflightReply, found, interrupted, enter, exit_begin, exit_end, submit, resume,
  finish_run,
}
use specode_review.Lifecycle.Counts.{Owners, count-phases}
use specode_review.Lifecycle.Steps.{
  System, Step, entered, submitted, resumed, finished, exiting, exited, Reach, here, next,
  submit_call, resume_call, finish_task,
}
use specode_review.Lifecycle.Valid.{IsValid}
use specode_review.Lifecycle.Invariant.{Step-IsValid}

-- `submit` answers at once exactly when the service does not accept or the revision is claimed, and
-- then changes nothing; else the revision is claimed for its preflight.
pub submit_outcomes :
    (r : AcceptedRevision) (l : ReviewLifecycle)
    → let (outcome, l') = submit r l in
      ((outcome ≡ some SubmissionOutcome.stopping) ↔ (l.state ≢ accepting))
      × ((outcome ≡ some SubmissionOutcome.already_running)
          ↔ ((l.state ≡ accepting) × (lookup r l.claims ≢ none)))
      × (((outcome ≢ none) × (l' ≡ l)) ⊎ ((outcome ≡ none) × (lookup r l'.claims ≡ some preflight)))
unfolding submit
submit_outcomes r l =
    ground (arith, lookup-insert r r preflight l.claims, revision_equal.equals_iff r r)

-- A submission that is resumed is accepted exactly when its preflight found the revision ready, an
-- attempt could be named, the service still accepts, and fewer reviews run than the limit; then its
-- claim is running and one task more is there.
pub resume_accepted :
    (reply : PreflightReply) (attempt_id : Option Text) (r : AcceptedRevision) (l : ReviewLifecycle)
    → ((resume reply attempt_id r l).0 ≡ some SubmissionOutcome.accepted) ↔ (
        (reply ≡ found PreflightOutcome.ready)
        × (attempt_id ≢ none)
        × (l.state ≡ accepting)
        × (count is_running l.claims < l.max_reviews))
unfolding resume
resume_accepted reply attempt_id r l = ground arith

-- A submission that held a claim and whose preflight returns, raises an `Exception` or is cancelled
-- is accepted, and then the claim is running; or it is not, and then its revision is free again and no
-- task was created. One that is interrupted changes nothing, so that its claim stays. In every case the
-- other claims stay as they were.
pub resume_releases :
    (reply : PreflightReply) (attempt_id : Option Text) (r other : AcceptedRevision)
    (l : ReviewLifecycle)
    → IsDistinct l.claims
    → let (outcome, l') = resume reply attempt_id r l in
      (((reply ≢ interrupted)
          × (outcome ≢ some SubmissionOutcome.accepted)
          × (lookup r l'.claims ≡ none)
          × (l'.tasks ≡ l.tasks))
        ⊎ (((reply ≢ interrupted)
              × (outcome ≡ some SubmissionOutcome.accepted)
              × (lookup r l'.claims ≡ some running))
            ⊎ ((reply ≡ interrupted) × (l' ≡ l))))
      × ((other ≡ r) ⊎ (lookup other l'.claims ≡ lookup other l.claims))
unfolding resume
resume_releases reply attempt_id r other l distinct = ground (
  arith,
  lookup-insert r r running l.claims,
  lookup-insert other r running l.claims,
  lookup-pop r r l.claims distinct,
  lookup-pop other r l.claims distinct,
  revision_equal.equals_iff r r,
  revision_equal.equals_iff other r,
)

-- The work that a shutdown waits for.
abbrev pub outstanding : System → ℕ
outstanding s = length s.waiting + length s.lifecycle.tasks

closed_resume :
    (call : ℕ) (reply : PreflightReply) (attempt_id : Option Text) (r : AcceptedRevision)
    (s : System)
    → is_accepting s.lifecycle.state ≡ false
    → let t = resume_call call reply attempt_id r s in
      (t.lifecycle.tasks ≡ s.lifecycle.tasks) × (t.lifecycle.state ≡ s.lifecycle.state)
unfolding resume_call resume
closed_resume call reply attempt_id r s h = ground arith

closed_submit :
    (r : AcceptedRevision) (s : System)
    → is_accepting s.lifecycle.state ≡ false
    → submit_call r s ≡ s
unfolding submit_call submit
closed_submit r s h = rw h

stopping_not_accepting : (state : LifecycleState) → state ≡ stopping → is_accepting state ≡ false
stopping_not_accepting state h = ground arith

fewer_waiting :
    (call : ℕ) (reply : PreflightReply) (attempt_id : Option Text) (r : AcceptedRevision)
    (s : System)
    → lookup call s.waiting ≡ some r
    → length s.waiting ≡ suc (length (resume_call call reply attempt_id r s).waiting)
unfolding resume_call
fewer_waiting call reply attempt_id r s h = length-pop call r s.waiting h

fewer_tasks :
    (task : ℕ) (r : AcceptedRevision) (s : System)
    → lookup task s.lifecycle.tasks ≡ some r
    → outstanding s ≡ suc (outstanding (finish_task task r s))
unfolding finish_task finish_run
fewer_tasks task r s h = omega (arith, length-pop task r s.lifecycle.tasks h)

empty_of_length {ℓ κ} : {K : Type ℓ} {V : Type κ} (d : Dict K V) → length d ≡ 0 → is_empty d ≡ true
empty_of_length [] h = refl
empty_of_length (e ∷ d) h = absurd (omega arith)

-- During a shutdown no step adds work, and every step leaves the service stopping or stopped.
pub stopping-Step :
    {s t : System}
    → Step s t
    → s.lifecycle.state ≡ stopping
    → (outstanding t ≤ outstanding s)
      × ((t.lifecycle.state ≡ stopping) ⊎ (t.lifecycle.state ≡ stopped))
stopping-Step {s = s} (entered l h) e = unfold enter in ground arith
stopping-Step {s = s} (submitted r) e =
    rw (closed_submit r s (stopping_not_accepting s.lifecycle.state e)) (omega arith, inl e)
stopping-Step {s = s} (resumed call reply attempt_id r h handled) e =
    let same =
      closed_resume call reply attempt_id r s (stopping_not_accepting s.lifecycle.state e) in
    (omega (arith, fewer_waiting call reply attempt_id r s h, ap length same.0), inl (same.1 ∙ e))
stopping-Step {s = s} (finished task r h) e =
    (omega (arith, fewer_tasks task r s h), inl (unfold finish_task finish_run in e))
stopping-Step {s = s} exiting e = unfold exit_begin in (omega arith, inl refl)
stopping-Step {s = s} (exited l h) e = unfold exit_end in ground arith

Reach-trans : {s t u : System} → Reach s t → Reach t u → Reach s u
Reach-trans r here = r
Reach-trans r (next q st) = next (Reach-trans r q) st

-- The first owner of a list, if there is one.
first_owner :
    (d : Owners) → (length d ≡ 0) ⊎ ((k : ℕ) × (r : AcceptedRevision) × (lookup k d ≡ some r))
first_owner [] = inl refl
first_owner ((k, r) ∷ d) = inr (k, r, ground arith)

idle_exits :
    (s : System)
    → IsValid s
    → outstanding s ≡ 0
    → exit_end s.lifecycle ≡ some (record s.lifecycle { state = stopped })
unfolding exit_end
idle_exits s v h = ground (
  arith,
  v.waiting_length,
  v.tasks_length,
  count-phases s.lifecycle.claims,
  empty_of_length s.lifecycle.claims,
  empty_of_length s.lifecycle.tasks,
)

-- Every shutdown that has begun can end: from each valid state that is stopping, the ends of the
-- pending preflights, which may return, raise an `Exception` or be cancelled, and of the running reviews
-- lead to `stopped`.
pub drained :
    (reply : PreflightReply) (n : ℕ) (s : System)
    → reply ≢ interrupted
    → IsValid s
    → s.lifecycle.state ≡ stopping
    → outstanding s ≤ n
    → (t : System) × Reach s t × (t.lifecycle.state ≡ stopped)
drained reply zero s handled v e h = (_, next here (exited _ (idle_exits s v (omega arith))), refl)
drained reply (suc n) s handled v e h = elim (first_owner s.waiting) [
  | inr (call, r, found_call) ↦
      let st = resumed call reply none r found_call handled in
      let same = closed_resume call reply none r s (stopping_not_accepting s.lifecycle.state e) in
      let less = fewer_waiting call reply none r s found_call in
      let (t, path, done) =
        drained reply n (resume_call call reply none r s) handled (Step-IsValid st v) (same.1 ∙ e)
          (omega (arith, ap length same.0)) in
      (t, Reach-trans (next here st) path, done)
  | inl nobody_waits ↦ elim (first_owner s.lifecycle.tasks) [
    | inr (task, r, found_task) ↦
        let st = finished task r found_task in
        let less = fewer_tasks task r s found_task in
        let (t, path, done) =
          drained reply n (finish_task task r s) handled (Step-IsValid st v)
            (unfold finish_task finish_run in e) (omega arith) in
        (t, Reach-trans (next here st) path, done)
    | inl nothing_runs ↦ (_, next here (exited _ (idle_exits s v (omega arith))), refl)
  ]
]
