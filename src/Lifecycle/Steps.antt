-- ===== src/Lifecycle/Steps.antt =====
-- The event loop as a step relation: which submissions wait for their preflight, which reviews run,
-- and the atomic steps that submissions, reviews and the application take, in any order. What is no
-- `Exception` and no cancellation ends the loop: no step resumes a submission with it.
use specode_review.Base.{ℕ, suc, ◌≡◌, ◌≢◌, Option, none, some, [], Text, nat_equal}
use specode_review.Base.Dict.{lookup, insert, pop}
use specode_review.Errors.{ok}
use specode_review.Revision.{AcceptedRevision, revision_equal}
use specode_review.Submission.{SubmissionOutcome}
use specode_review.Lifecycle.{
  ReviewLifecycle, PreflightReply, interrupted, enter, exit_begin, exit_end, submit, resume,
  finish_run,
}
use specode_review.Lifecycle.Counts.{Owners}

-- The lifecycle with the calls of `submit` that wait for their preflight, by their number.
pub record System : Type 0 where
  pub lifecycle : ReviewLifecycle
  pub waiting : Owners
  pub next_call : ℕ

-- A call that was given no outcome at once waits for its preflight.
abbrev pub await_preflight :
    AcceptedRevision → Option SubmissionOutcome × ReviewLifecycle → System → System
await_preflight r (some outcome, l) s = record s { lifecycle = l }
await_preflight r (none, l) s = record s {
  lifecycle = l;
  waiting = insert s.next_call r s.waiting;
  next_call = suc s.next_call;
}

unfoldable pub submit_call : AcceptedRevision → System → System
submit_call r s = await_preflight r (submit r s.lifecycle) s

unfoldable pub resume_call : ℕ → PreflightReply → Option Text → AcceptedRevision → System → System
resume_call call reply attempt_id r s = record s {
  lifecycle = (resume reply attempt_id r s.lifecycle).1;
  waiting = pop call s.waiting;
}

unfoldable pub finish_task : ℕ → AcceptedRevision → System → System
finish_task task r s = record s { lifecycle = finish_run task r s.lifecycle }

pub data Step (s : System) : System → Type 0 where
  entered : (l : ReviewLifecycle) → enter s.lifecycle ≡ ok l → Step s (record s { lifecycle = l })
  submitted : (r : AcceptedRevision) → Step s (submit_call r s)
  resumed :
      (call : ℕ) (reply : PreflightReply) (attempt_id : Option Text) (r : AcceptedRevision)
      → lookup call s.waiting ≡ some r
      → reply ≢ interrupted
      → Step s (resume_call call reply attempt_id r s)
  finished :
      (task : ℕ) (r : AcceptedRevision)
      → lookup task s.lifecycle.tasks ≡ some r
      → Step s (finish_task task r s)
  exiting : Step s (record s { lifecycle = exit_begin s.lifecycle })
  exited :
      (l : ReviewLifecycle) → exit_end s.lifecycle ≡ some l → Step s (record s { lifecycle = l })

pub data Reach (s : System) : System → Type 0 where
  here : Reach s s
  next : {t u : System} → Reach s t → Step t u → Reach s u

abbrev pub start : ReviewLifecycle → System
start l = record { lifecycle = l; waiting = []; next_call = 0 }
