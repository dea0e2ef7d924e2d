-- ===== src/Runner/Transaction.antt =====
-- What `ReviewRunner.run` (src/specode_review/review_runner.py) keeps to with any collaborators.
use specode_review.Base.{◌≡◌, ◌⊎◌, refl, inl, inr, true, false, not, ◌||◌, [], Text}
use mathlib.Core.Path.{subst}
use specode_review.Errors.{ReviewError, Raised, review_error, is_exception, Result, ok, err}
use specode_review.Models.{ReviewRequest}
use specode_review.Runner.Run.{
  ReviewCompletion, begun, Outcome, attempt, ended, attempted, conclude, run,
}
use specode_review.Runner.Recorded.{
  History, Answers, recorded, was_allocated, was_opened, was_cleaned, cleanup_tried, was_published,
  close_called, CleanedFirst,
}
use specode_review.Runner.Track.{State, attempt-Ensures, ended-Owes}
use specode_review.Runner.Settle.{Ended, Finishes, finally-Finishes, conclude-Ended, uncaught-Ended}

-- What is behind a run: how its answer ended, and in which order its calls were made.
abbrev Left : Result ReviewCompletion × History → Type 0
Left (r, h) = Ended r h × CleanedFirst h × (not (was_allocated h) || cleanup_tried h ≡ true)

module _ (a : Answers) (request : ReviewRequest) (attempt_id : Text) where
  concluded-Left :
      (x : Result Outcome × State)
      → Finishes x.0 x.1
      → Left (elim x.0 as (λ _. Result ReviewCompletion × History) [
        | ok o ↦ conclude (recorded a) request attempt_id o x.1
        | err e ↦ (err e, x.1.0)
      ])
  concluded-Left (ok o, s) w = conclude-Ended a request attempt_id o s w
  concluded-Left (err e, s) w = (uncaught-Ended e s.0 w.1, w.0.0, w.0.2)

  run-Left : Left (run (recorded a) request attempt_id true [])
  unfolding run attempted
  run-Left =
      let s : Result ReviewCompletion × State =
        attempt (recorded a) request attempt_id ([], begun) in
      concluded-Left _ (
        finally-Finishes a request attempt_id
          (ended (recorded a) request attempt_id s.0 s.1.1.stage) s.1
          (ended-Owes a request attempt_id s.0 s.1.1.stage s.1
            ((attempt-Ensures a request attempt_id).at ([], begun) (refl, refl, refl, tt))))

  -- Whatever the collaborators answer or raise: every call that publishes comes after a cleanup of
  -- the attempt that returned, and an attempt whose resources were allocated is cleaned up, or its
  -- cleanup was at least called.
  pub run-CleanedFirst :
      let (r, h) = run (recorded a) request attempt_id true [] in
      CleanedFirst h × (not (was_allocated h) || cleanup_tried h ≡ true)
  run-CleanedFirst = (run-Left.1, run-Left.2)

  -- A run that returns a completion has cleaned up its resources and published the review, and has
  -- called `close` on its client, if it had opened one.
  pub run-completes :
      (c : ReviewCompletion) (h : History)
      → run (recorded a) request attempt_id true [] ≡ (ok c, h)
      → (was_cleaned h ≡ true)
        × (was_published h ≡ true)
        × (not (was_opened h) || close_called h ≡ true)
  run-completes c h e = (subst Left e run-Left).0

  -- A run that raises has called `close` on the client it opened and raises a `ReviewError`, or it
  -- passes on an exception that is no `Exception`.
  pub run-raises :
      (e : Raised) (h : History)
      → run (recorded a) request attempt_id true [] ≡ (err e, h)
      → ((f : ReviewError) × (e ≡ review_error f) × (not (was_opened h) || close_called h ≡ true))
        ⊎ (is_exception e ≡ false)
  run-raises e h p = raised e (subst Left p run-Left).0
    where
      raised :
          (x : Raised)
          → Ended (err x) h
          → ((f : ReviewError) × (x ≡ review_error f)
              × (not (was_opened h) || close_called h ≡ true))
            ⊎ (is_exception x ≡ false)
      raised (review_error f) k = inl (f, refl, k)
      raised x k = inr k
