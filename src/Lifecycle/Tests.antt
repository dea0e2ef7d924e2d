-- ===== src/Lifecycle/Tests.antt =====
-- Runs of the lifecycle, and the theorems about it at concrete systems.
use specode_review.Base.{
  ◌+◌, ◌≤◌, ◌≡◌, ◌≢◌, ◌⊎◌, refl, none, some, [], arith, length, text, nat_equal,
}
use specode_review.Base.Dict.{lookup}
use specode_review.Errors.{ok}
use specode_review.Revision.{AcceptedRevision, revision_equal}
use specode_review.Submission.{SubmissionOutcome, PreflightOutcome}
use specode_review.Lifecycle.{
  max_concurrent_reviews, ReviewLifecycle, created, accepting, stopping, stopped, running, found,
  cancelled, interrupted, new_lifecycle, enter, exit_begin, submit, resume,
}
use specode_review.Lifecycle.Counts.{owners_of}
use specode_review.Lifecycle.Steps.{
  System, Reach, here, next, entered, submitted, resumed, exiting, start, submit_call, resume_call,
}
use specode_review.Lifecycle.Valid.{IsValid}
use specode_review.Lifecycle.Refinement.{Runs, view, lifecycle_refines}
use specode_review.Lifecycle.Invariant.{start-IsValid, Reach-IsValid, capacity}
use specode_review.Lifecycle.Shutdown.{resume_releases, outstanding, stopping-Step, drained}

abbrev revision : AcceptedRevision
revision = record {
  repository = text "o/r";
  pr_number = 7;
  base_sha = text "aa";
  head_sha = text "bb";
}

abbrev fresh : ReviewLifecycle
fresh = record { max_reviews = 1; state = created; claims = []; tasks = []; next_task = 0 }

fresh-new : new_lifecycle 1 ≡ ok fresh
unfolding new_lifecycle
fresh-new = refl

abbrev open_system : System
open_system = start (record fresh { state = accepting })

abbrev claimed : System
claimed = submit_call revision open_system

abbrev reviewing : System
reviewing = resume_call 0 (found PreflightOutcome.ready) (some (text "a")) revision claimed

reviewing_path : Reach (start fresh) reviewing
unfolding submit_call submit resume_call resume enter
reviewing_path =
    next (next (next here (entered (record fresh { state = accepting }) refl)) (submitted revision))
      (resumed 0 (found PreflightOutcome.ready) (some (text "a")) revision refl (λ k. cc k))

reviewing_runs : length reviewing.lifecycle.tasks ≡ 1
unfolding submit_call submit resume_call resume
reviewing_runs = refl

-- A second submission of the revision is a duplicate while the first is reviewed.
duplicate : (submit revision reviewing.lifecycle).0 ≡ some SubmissionOutcome.already_running
unfolding submit_call submit resume_call resume
duplicate = refl

capacity_example :
    (length reviewing.lifecycle.tasks ≤ 1)
    × (1 ≤ max_concurrent_reviews)
    × ((r : AcceptedRevision)
        → owners_of r reviewing.waiting + owners_of r reviewing.lifecycle.tasks ≤ 1)
capacity_example = capacity 1 fresh fresh-new reviewing_path

resume_releases_example :
    let (outcome, l) = resume cancelled none revision claimed.lifecycle in
    (((cancelled ≢ interrupted)
        × (outcome ≢ some SubmissionOutcome.accepted)
        × (lookup revision l.claims ≡ none)
        × (l.tasks ≡ claimed.lifecycle.tasks))
      ⊎ (((cancelled ≢ interrupted)
            × (outcome ≡ some SubmissionOutcome.accepted)
            × (lookup revision l.claims ≡ some running))
          ⊎ ((cancelled ≡ interrupted) × (l ≡ claimed.lifecycle))))
    × ((revision ≡ revision)
        ⊎ (lookup revision l.claims ≡ lookup revision claimed.lifecycle.claims))
unfolding submit_call submit
resume_releases_example =
    resume_releases cancelled none revision revision claimed.lifecycle (refl, tt)

abbrev closing : System
closing = record reviewing { lifecycle = exit_begin reviewing.lifecycle }

reviewing-IsValid : IsValid reviewing
reviewing-IsValid = Reach-IsValid (start-IsValid 1 fresh-new) reviewing_path

closing_state : closing.lifecycle.state ≡ stopping
unfolding exit_begin
closing_state = refl

stopping-Step_example :
    (outstanding (submit_call revision closing) ≤ outstanding closing)
    × (((submit_call revision closing).lifecycle.state ≡ stopping)
        ⊎ ((submit_call revision closing).lifecycle.state ≡ stopped))
stopping-Step_example = stopping-Step (submitted revision) closing_state

drained_example : (t : System) × Reach closing t × (t.lifecycle.state ≡ stopped)
unfolding submit_call submit resume_call resume exit_begin
drained_example =
    drained cancelled 1 closing (λ k. cc k) (Reach-IsValid reviewing-IsValid (next here exiting))
      refl (omega arith)

lifecycle_refines_example : Runs (view fresh) (view reviewing.lifecycle)
lifecycle_refines_example = lifecycle_refines 1 fresh reviewing fresh-new reviewing_path
