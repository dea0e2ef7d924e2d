-- ===== src/Runner/Settle.antt =====
-- The `finally` of `ReviewRunner.run` (src/specode_review/review_runner.py): the resources are
-- cleaned up, the client is closed.
use specode_review.Base.{
  ◌≡◌, refl, sym, inl, inr, true, false, not, ◌&&◌, ◌||◌, Option, none, some, [], ◌∷◌, arith, Text,
  Bool-cases,
}
use specode_review.Errors.{ReviewError, Raised, review_error, is_exception, Result, ok, err}
use specode_review.Exec.{pure, catch, ◌>>=◌, ◌>>◌}
use specode_review.Models.{ReviewRequest}
use specode_review.Runner.Run.{
  ReviewCompletion, Progress, Outcome, call, same, cleanup_failed, finish_cleanup, close_failed,
  finish_client, conclude, final_result, completion,
}
use specode_review.Runner.Recorded.{
  cleaned, closed, History, succeeded, Answers, recorded, was_allocated, was_opened, was_cleaned,
  cleanup_tried, was_published, close_called, CleanedFirst,
}
use specode_review.Runner.Track.{State, Tracks, Owes}

-- What holds behind the cleanup of the resources, whether it raised or not.
abbrev pub Tried : State → Type 0
Tried s =
    CleanedFirst s.0
    × (s.1.has_client ≡ was_opened s.0)
    × (not (was_allocated s.0) || cleanup_tried s.0 ≡ true)

pub record Settled (o : Outcome) (s : State) : Type 0 where
  tried : Tried s
  done :
      (c : ReviewCompletion)
      → o.completion ≡ some c
      → (was_cleaned s.0 ≡ true) × (was_published s.0 ≡ true)
  passes : (e : Raised) → o.passing ≡ some e → is_exception e ≡ false

abbrev pub Settles : Result Outcome → State → Type 0
Settles (ok o) s = Settled o s
Settles (err e) s = Tried s × (is_exception e ≡ false)

cleaned-tried : (h : History) → was_cleaned h ≡ true → cleanup_tried h ≡ true
cleaned-tried [] p = p
cleaned-tried (cleaned done ∷ h) p = refl
cleaned-tried (_ ∷ h) p = cleaned-tried h p

unconfirmed :
    (h : History) (p : Progress)
    → Tracks (h, p)
    → (p.has_resources && not p.cleanup_confirmed ≡ false)
    → Tried (h, p)
unconfirmed h p t skipped = (
  t.3,
  t.1,
  elim (Bool-cases (was_cleaned h)) [
    | inl done ↦ rw (cleaned-tried h done) (ground arith)
    | inr not_done ↦
        let unallocated : was_allocated h ≡ false = ground (arith, t.0, t.2) in rw unallocated refl
  ],
)

-- What a run that ends with this answer leaves behind.
abbrev pub Closed : History → Type 0
Closed h = not (was_opened h) || close_called h ≡ true

abbrev pub Ended : Result ReviewCompletion → History → Type 0
Ended (ok c) h = (was_cleaned h ≡ true) × (was_published h ≡ true) × Closed h
Ended (err (review_error e)) h = Closed h
Ended (err e) h = is_exception e ≡ false

pub record Finished (o : Outcome) (s : State) : Type 0 where
  pub settled : Settled o s
  pub is_closed : Closed s.0

abbrev pub Finishes : Result Outcome → State → Type 0
Finishes (ok o) s = Finished o s
Finishes (err e) s = Tried s × (is_exception e ≡ false)

pub uncaught-Ended : (e : Raised) (h : History) → is_exception e ≡ false → Ended (err e) h
uncaught-Ended (review_error e) h p = cc
uncaught-Ended e h p = p

final_result-Ended :
    (failure : Option ReviewError) (done : Option ReviewCompletion) (h : History)
    → ((c : ReviewCompletion) → done ≡ some c → (was_cleaned h ≡ true) × (was_published h ≡ true))
    → Closed h
    → Ended (final_result failure done) h
unfolding final_result
final_result-Ended (some e) completion h k p = p
final_result-Ended none (some c) h k p = let (x, y) = k c refl in (x, y, p)
final_result-Ended none none h k p = p

module _ (a : Answers) (request : ReviewRequest) (attempt_id : Text) where
  cleaning-Settles :
      (o : Outcome) (h : History) (p : Progress) (r : Result (Unit {0}))
      → Owes o (h, p)
      → let (r', s) =
          catch
            (call (λ h. (r, cleaned (succeeded r) ∷ h)) (λ q. record q { cleanup_confirmed = true })
              >> pure o)
            (cleanup_failed (recorded a) request attempt_id o)
            (h, p) in
        Settles r' s
  unfolding cleanup_failed
  cleaning-Settles o h p (ok u) w = record {
    tried = (w.tracks.3, w.tracks.1, ground arith);
    done = λ c e. (refl, (w.done c e).1);
    passes = w.passes;
  }
  cleaning-Settles o h p (err e) w = elim (Bool-cases (is_exception e)) [
    | inl caught ↦ rw caught (record {
      tried = (w.tracks.3, w.tracks.1, ground arith);
      done = w.done;
      passes = w.passes;
    })
    | inr uncaught ↦ rw uncaught ((w.tracks.3, w.tracks.1, ground arith), uncaught)
  ]

  finish_cleanup-Settles :
      (o : Outcome) (s : State)
      → Owes o s
      → Settles
          (finish_cleanup (recorded a) request attempt_id o s).0
          (finish_cleanup (recorded a) request attempt_id o s).1
  unfolding finish_cleanup cleanup_failed
  finish_cleanup-Settles o (h, p) w =
      elim (Bool-cases (p.has_resources && not p.cleanup_confirmed)) [
        | inr skipped ↦
            rw skipped (record {
              tried = unconfirmed h p w.tracks skipped;
              done = w.done;
              passes = w.passes;
            })
        | inl needed ↦ rw needed (cleaning-Settles o h p (a.cleanup attempt_id h) w)
      ]

  closing-Finishes :
      (o : Outcome) (h : History) (p : Progress) (r : Result (Unit {0}))
      → Settled o (h, p)
      → let (r', s) =
          catch
            (call (λ h. (r, closed (succeeded r) ∷ h)) same >> pure o)
            (close_failed (recorded a) request attempt_id o)
            (h, p) in
        Finishes r' s
  unfolding close_failed
  closing-Finishes o h p (ok u) w = record {
    settled = record { tried = w.tried; done = w.done; passes = w.passes };
    is_closed = ground arith;
  }
  closing-Finishes o h p (err e) w = elim (Bool-cases (is_exception e)) [
    | inl caught ↦ rw caught (record {
      settled = record { tried = w.tried; done = w.done; passes = w.passes };
      is_closed = ground arith;
    })
    | inr uncaught ↦ rw uncaught (w.tried, uncaught)
  ]

  finish_client-Finishes :
      (o : Outcome) (s : State)
      → Settled o s
      → let (r, s') = finish_client (recorded a) request attempt_id o s in Finishes r s'
  unfolding finish_client
  finish_client-Finishes o (h, p) w = elim (Bool-cases p.has_client) [
    | inl needed ↦ rw needed (closing-Finishes o h p (a.close h) w)
    | inr skipped ↦
        let unopened : was_opened h ≡ false = ground (arith, w.tried.1) in
        rw skipped (record {
          settled = record {
            tried = (w.tried.0, sym unopened, w.tried.2);
            done = w.done;
            passes = w.passes;
          };
          is_closed = rw unopened refl;
        })
  ]

  pub finally-Finishes :
      (o : Outcome) (s : State)
      → Owes o s
      → let (r, s') =
          (finish_cleanup (recorded a) request attempt_id o
              >>= finish_client (recorded a) request attempt_id)
            s in
        Finishes r s'
  finally-Finishes o s w =
      go (finish_cleanup (recorded a) request attempt_id o s) (finish_cleanup-Settles o s w)
    where
      go :
          (x : Result Outcome × State)
          → Settles x.0 x.1
          → let (r, s') = elim x.0 as (λ _. Result Outcome × State) [
            | ok o' ↦ finish_client (recorded a) request attempt_id o' x.1
            | err e ↦ (err e, x.1)
          ] in
            Finishes r s'
      go (ok o', s') k = finish_client-Finishes o' s' k
      go (err e, s') k = k

  pub conclude-Ended :
      (o : Outcome) (s : State)
      → Finished o s
      → let (r, h) = conclude (recorded a) request attempt_id o s in
        Ended r h × CleanedFirst h × (not (was_allocated h) || cleanup_tried h ≡ true)
  unfolding conclude
  conclude-Ended o (h, p) w = go o.passing w.settled.passes
    where
      go :
          (passing : Option Raised)
          → ((e : Raised) → passing ≡ some e → is_exception e ≡ false)
          → let (r, h') =
              conclude (recorded a) request attempt_id (record o { passing = passing }) (h, p) in
            Ended r h' × CleanedFirst h' × (not (was_allocated h') || cleanup_tried h' ≡ true)
      go (some e) k = (uncaught-Ended e h (k e refl), w.settled.tried.0, w.settled.tried.2)
      go none k = (
        final_result-Ended o.failure o.completion _ w.settled.done w.is_closed,
        w.settled.tried.0,
        w.settled.tried.2,
      )
