-- ===== src/Lifecycle.antt =====
-- src/specode_review/lifecycle.py: `ReviewLifecycle`. Every `async with self._condition` block runs
-- without a pause, and a submission pauses once, while its preflight runs in a thread. So a
-- submission is two steps of the event loop, `submit` and `resume`, and a review two,
-- its creation in `promote` and its end, `finish_run`.
pub mod Counts
pub mod Steps
pub mod Valid
mod Moves
pub mod Invariant
pub mod Shutdown
pub mod Refinement
mod Tests
use specode_review.Base.{
  ℕ, suc, ◌+◌, Bool, true, false, not, ◌&&◌, Option, none, some, List, [], ◌∷◌, leb, is_empty,
  if◌then◌else◌, nat_equal, Text,
}
use specode_review.Base.Dict.{Dict, lookup, insert, pop, count}
use specode_review.Errors.{Result, ok, err, runtime_error, value_error}
use specode_review.Revision.{AcceptedRevision, revision_equal}
use specode_review.Submission.{SubmissionOutcome, PreflightOutcome}

abbrev pub min_concurrent_reviews : ℕ
min_concurrent_reviews = 1

abbrev pub max_concurrent_reviews : ℕ
max_concurrent_reviews = 5

-- `_LifecycleState`
pub data LifecycleState : Type 0 where
  created accepting stopping stopped : LifecycleState

-- `_ClaimPhase`
pub data ClaimPhase : Type 0 where
  preflight running : ClaimPhase

abbrev pub is_running : ClaimPhase → Bool
is_running running = true
is_running preflight = false

abbrev pub is_accepting : LifecycleState → Bool
is_accepting accepting = true
is_accepting _ = false

-- The fields of `ReviewLifecycle` that its methods change or read. A task is an object of its own:
-- it goes by the number of its creation, and stands with the revision that `_run` was given.
pub record ReviewLifecycle : Type 0 where
  pub max_reviews : ℕ
  pub state : LifecycleState
  pub claims : Dict AcceptedRevision ClaimPhase
  pub tasks : Dict ℕ AcceptedRevision
  pub next_task : ℕ

-- `__init__`; `limit` is an `int` that is no `bool`.
unfoldable pub new_lifecycle : ℕ → Result ReviewLifecycle
new_lifecycle limit =
    if leb min_concurrent_reviews limit && leb limit max_concurrent_reviews
    then ok
        (record { max_reviews = limit; state = created; claims = []; tasks = []; next_task = 0 })
    else err value_error

-- `__aenter__`
enter_from : LifecycleState → ReviewLifecycle → Result ReviewLifecycle
enter_from created l = ok (record l { state = accepting })
enter_from _ l = err runtime_error

unfoldable pub enter : ReviewLifecycle → Result ReviewLifecycle
unfolding enter_from
enter l = enter_from l.state l

-- `__aexit__` up to its wait, and after it: `none` while the condition of `wait_for` is false.
unfoldable pub exit_begin : ReviewLifecycle → ReviewLifecycle
exit_begin l = record l { state = stopping }

unfoldable pub exit_end : ReviewLifecycle → Option ReviewLifecycle
exit_end l =
    if is_empty l.claims && is_empty l.tasks then some (record l { state = stopped }) else none

-- `_release_claim`
unfoldable pub release_claim : AcceptedRevision → ReviewLifecycle → ReviewLifecycle
release_claim identity l = record l { claims = pop identity l.claims }

-- `submit` up to its pause: an outcome, or `none` and a claim.
unfoldable pub submit :
    AcceptedRevision → ReviewLifecycle → Option SubmissionOutcome × ReviewLifecycle
submit identity l =
    if is_accepting l.state
    then elim (lookup identity l.claims) [
      | some phase ↦ (some SubmissionOutcome.already_running, l)
      | none ↦ (none, record l { claims = insert identity preflight l.claims })
    ]
    else (some SubmissionOutcome.stopping, l)

-- The last critical section of `_submit_claimed`.
unfoldable pub promote : AcceptedRevision → ReviewLifecycle → SubmissionOutcome × ReviewLifecycle
promote identity l =
    if not (is_accepting l.state)
    then (SubmissionOutcome.stopping, record l { claims = pop identity l.claims })
    else if leb l.max_reviews (count is_running l.claims)
    then (SubmissionOutcome.at_capacity, record l { claims = pop identity l.claims })
    else (
      SubmissionOutcome.accepted,
      record l {
        claims = insert identity running l.claims;
        tasks = insert l.next_task identity l.tasks;
        next_task = suc l.next_task;
      },
    )

-- How the preflight of a submission ends: with what it found, with an `Exception`, or cancelled; or
-- `interrupted`, where the preflight or the naming of the attempt raises a `BaseException` of another
-- kind, for which there is no handler.
pub data PreflightReply : Type 0 where
  found : PreflightOutcome → PreflightReply
  failed cancelled interrupted : PreflightReply

-- `_submit_claimed` after a preflight that returned. `attempt_id` is what `_attempt_id_factory`
-- returns, or `none` if it raises an `Exception`.
unfoldable pub submit_claimed :
    PreflightOutcome
    → Option Text
    → AcceptedRevision
    → ReviewLifecycle
    → SubmissionOutcome × ReviewLifecycle
submit_claimed PreflightOutcome.already_reviewed attempt_id identity l =
    (SubmissionOutcome.already_reviewed, release_claim identity l)
submit_claimed PreflightOutcome.not_authorized attempt_id identity l =
    (SubmissionOutcome.not_authorized, release_claim identity l)
submit_claimed PreflightOutcome.ready none identity l =
    (SubmissionOutcome.unavailable, release_claim identity l)
submit_claimed PreflightOutcome.ready (some attempt_id) identity l = promote identity l

-- `submit` from its pause on, with the handlers of `_preflight` and of `submit` itself; `none` is
-- the `CancelledError` that is raised again, or what no handler takes: then the claim stays.
unfoldable pub resume :
    PreflightReply
    → Option Text
    → AcceptedRevision
    → ReviewLifecycle
    → Option SubmissionOutcome × ReviewLifecycle
unfolding submit_claimed promote release_claim
resume (found outcome) attempt_id identity l =
    let (answer, l') = submit_claimed outcome attempt_id identity l in (some answer, l')
resume failed attempt_id identity l = (some SubmissionOutcome.unavailable, release_claim identity l)
resume cancelled attempt_id identity l = (none, release_claim identity l)
resume interrupted attempt_id identity l = (none, l)

-- The `finally` of `_run`, in the task that was created with the number `current`.
unfoldable pub finish_run : ℕ → AcceptedRevision → ReviewLifecycle → ReviewLifecycle
finish_run current identity l = record l {
  claims = pop identity l.claims;
  tasks = pop current l.tasks;
}
