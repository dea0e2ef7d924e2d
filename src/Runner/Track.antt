-- ===== src/Runner/Track.antt =====
-- What is known while the body of the `try` of `ReviewRunner.run` (src/specode_review/review_runner.py)
-- runs, as rules for the calls of its collaborators.
use Prim.Native.String.{String}
use specode_review.Base.{
  ◌≡◌, refl, inl, inr, Bool, true, false, some, ◌∷◌, Text, length, Bool-cases, lower,
}
use mathlib.Core.Path.{subst}
use specode_review.Errors.{Raised, is_exception, Result, ok, err}
use specode_review.Exec.{Exec, ◌>>=◌}
use specode_review.Models.{ReviewRequest, ReviewResult}
use specode_review.Publishing.Publish.{PublicationReceipt}
use specode_review.Runner.Run.{
  ReviewCompletion, Progress, Outcome, call, at_stage, same, attempt, ended, completion,
}
use specode_review.Runner.Recorded.{
  Call, cleaned, published, allocated, opened, adapted, constructed, reviewed, History, succeeded,
  record_call, Answers, recorded, was_allocated, was_opened, was_cleaned, was_published,
  CleanedFirst,
}

abbrev pub State : Type 0
State = History × Progress

-- The local variables say what has happened.
abbrev pub Tracks : State → Type 0
Tracks (h, p) =
    (p.has_resources ≡ was_allocated h)
    × (p.has_client ≡ was_opened h)
    × (p.cleanup_confirmed ≡ was_cleaned h)
    × CleanedFirst h

abbrev pub Cleaned : State → Type 0
Cleaned s = Tracks s × (was_cleaned s.0 ≡ true)

abbrev pub Done : State → Type 0
Done s = Tracks s × (was_cleaned s.0 ≡ true) × (was_published s.0 ≡ true)

-- A call that returns ends in `Q`; one that raises keeps track.
abbrev pub Post : {A : Type 0} → (State → Type 0) → Result A × State → Type 0
Post Q (ok a, s) = Q s
Post Q (err e, s) = Tracks s

pub record Ensures {A : Type 0} (P Q : State → Type 0) (m : Exec State A) : Type 0 where
  pub at : (s : State) → P s → Post {A = A} Q (m s)

continue-Ensures :
    {A B : Type 0} (Q R : State → Type 0) (p : Result A × State) (f : A → Exec State B)
    → Post {A = A} Q p
    → ((a : A) → Ensures Q R (f a))
    → Post {A = B} R (elim p.0 [ ok a ↦ f a p.1 | err e ↦ (err e, p.1) ])
continue-Ensures Q R (ok a, s) f h k = (k a).at s h
continue-Ensures Q R (err e, s) f h k = h

bind-Ensures :
    {A B : Type 0} {P : State → Type 0} (Q : State → Type 0) {R : State → Type 0} (m : Exec State A)
    (f : A → Exec State B)
    → Ensures P Q m
    → ((a : A) → Ensures Q R (f a))
    → Ensures P R (m >>= f)
bind-Ensures Q {R = R} m f hm hf = record {
  at = λ s p. continue-Ensures Q R (m s) f (hm.at s p) hf;
}

call-Ensures :
    {A : Type 0} {P Q : State → Type 0} (event : Bool → Call) (answer : History → Result A)
    (note : Progress → Progress)
    → ((h : History) (p : Progress) → P (h, p) → Q (event true ∷ h, note p))
    → ((h : History) (p : Progress) → P (h, p) → Tracks (event false ∷ h, p))
    → Ensures P Q (call (record_call event answer) note)
call-Ensures {A} {P} {Q} event answer note good bad = record { at = λ s p. go s p (answer s.0) }
  where
    go :
        (s : State)
        → P s
        → (r : Result A) → Post {A = A} Q (call (λ h. (r, event (succeeded r) ∷ h)) note s)
    go s p (ok a) = good s.0 s.1 p
    go s p (err e) = bad s.0 s.1 p

stage-Ensures :
    {P : State → Type 0} (stage : String)
    → ((h : History) (p : Progress) → P (h, p) → P (h, record p { stage = stage }))
    → Ensures P P (at_stage stage)
stage-Ensures stage keep = record { at = λ s p. keep s.0 s.1 p }

pure-Ensures :
    {A : Type 0} {P Q : State → Type 0} (answer : Result A)
    → ((s : State) → P s → Q s)
    → ((s : State) → P s → Tracks s)
    → Ensures P Q (call (λ w. (answer, w)) same)
pure-Ensures (ok a) good bad = record { at = good }
pure-Ensures (err e) good bad = record { at = bad }

-- What the transaction owes at each point behind the `try`.
pub record Owes (o : Outcome) (s : State) : Type 0 where
  pub tracks : Tracks s
  pub done :
      (c : ReviewCompletion)
      → o.completion ≡ some c
      → (was_cleaned s.0 ≡ true) × (was_published s.0 ≡ true)
  pub passes : (e : Raised) → o.passing ≡ some e → is_exception e ≡ false

module _ (a : Answers) (request : ReviewRequest) (attempt_id : Text) where
  pub attempt-Ensures : Ensures Tracks Done (attempt (recorded a) request attempt_id)
  unfolding attempt
  attempt-Ensures =
      bind-Ensures {A = Unit {0}} Tracks _ _
        (call-Ensures allocated (a.for_attempt attempt_id) (λ p. record p { has_resources = true })
          (λ h p t. (refl, t.1, t.2, t.3)) (λ h p t. t))
        λ _.
          bind-Ensures {A = Unit {0}} Tracks _ _
            (call-Ensures opened (a.github_client repository) (λ p. record p { has_client = true })
              (λ h p t. (t.0, refl, t.2, t.3)) (λ h p t. t))
            λ _.
              bind-Ensures {A = Unit {0}} Tracks _ _
                (call-Ensures adapted (a.candidate_adapter attempt_id) same (λ h p t. t)
                  (λ h p t. t))
                λ _.
                  bind-Ensures {A = Unit {0}} Tracks _ _
                    (call-Ensures constructed (a.new_reviewer repository) same (λ h p t. t)
                      (λ h p t. t))
                    λ _.
                      bind-Ensures {A = Unit {0}} Tracks _ _ (stage-Ensures "review" (λ h p t. t))
                        λ _.
                          bind-Ensures {A = ReviewResult} Tracks _ _
                            (call-Ensures reviewed (a.review target) same (λ h p t. t) (λ h p t. t))
                            λ result.
                              bind-Ensures {A = Unit {0}} Tracks _ _
                                (stage-Ensures "cleanup" (λ h p t. t))
                                λ _.
                                  bind-Ensures {A = Unit {0}} Cleaned _ _
                                    (call-Ensures cleaned (a.cleanup attempt_id)
                                      (λ p. record p { cleanup_confirmed = true })
                                      (λ h p t. ((t.0, t.1, refl, t.3), refl)) (λ h p t. t))
                                    λ _.
                                      bind-Ensures {A = Unit {0}} Cleaned _ _
                                        (stage-Ensures "publication" (λ h p t. t))
                                        λ _.
                                          bind-Ensures {A = PublicationReceipt} Done _ _
                                            (call-Ensures published (a.publish target result) same
                                              (λ h p t.
                                                ((t.0.0, t.0.1, t.0.2, (t.1, t.0.3)), t.1, refl))
                                              (λ h p t. (t.0.0, t.0.1, t.0.2, (t.1, t.0.3))))
                                            λ receipt.
                                              pure-Ensures
                                                (completion result.status (length result.findings)
                                                  receipt)
                                                (λ s t. t) (λ s t. t.0)
    where
      target : ReviewRequest
      target = record request { repository = lower request.repository }

      repository : Text
      repository = lower request.repository

  pub ended-Owes :
      (r : Result ReviewCompletion) (stage : String) (s : State)
      → Post {A = ReviewCompletion} Done (r, s)
      → Owes (ended (recorded a) request attempt_id r stage) s
  unfolding ended
  ended-Owes (ok c) stage s h = record {
    tracks = h.0;
    done = λ d e. (h.1, h.2);
    passes = λ e p. cc;
  }
  ended-Owes (err e) stage s h = elim (Bool-cases (is_exception e)) [
    | inl caught ↦ rw caught (record { tracks = h; done = λ d x. cc; passes = λ x y. cc })
    | inr uncaught ↦ rw uncaught (record {
      tracks = h;
      done = λ d x. cc;
      passes = λ x y.
          let same_error : e ≡ x = cc in subst (λ z. is_exception z ≡ false) same_error uncaught;
    })
  ]
