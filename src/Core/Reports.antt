-- ===== src/Core/Reports.antt =====
-- Which failures of `CandidateAcceptance.accept` reach its caller.
use Prim.Native.String.{String}
use mathlib.Core.Path.{subst}
use specode_review.Base.{
  ℕ, ◌≡◌, ◌⊎◌, refl, inl, inr, true, Option, none, some, List, Text, length, leb, ltb, Bool-cases,
  if◌then◌else◌,
}
use specode_review.Errors.{
  invalid_model_output, ReviewError, Raised, review_error, is_grounding_failure, Result, ok, err,
}
use specode_review.Exec.{Exec, pure, raise, catch, ◌>>=◌}
use specode_review.Models.{AgentReview, valid_agent_review}
use specode_review.Deadline.{ReviewDeadline, remaining, remaining_review_time}
use specode_review.Core.Grounding.{Checkout, ground_candidate}
use specode_review.Core.Grounding.Raises.{IsReadable, candidate_raises}
use specode_review.Core.Accept.{
  IsExpected, produce_failed, grounding_failed, failed, lift, checked, validated, ground_in_time,
  accept,
}

-- A result whose error is one of `P`.
abbrev pub Within : (P : Raised → Type 0) {A : Type 0} → Result A → Type 0
Within P (ok a) = Unit
Within P (err e) = P e

pub record Raises {W A : Type 0} (P : Raised → Type 0) (m : Exec W A) : Type 0 where
  pub at : (w : W) → Within P {A = A} (m w).0

abbrev pub IsReport : Raised → Type 0
IsReport e = (f : ReviewError) × (e ≡ review_error f)

abbrev IsCaught : Raised → Type 0
IsCaught e = IsReport e ⊎ (is_grounding_failure e ≡ true)

pub bind-Raises :
    (P : Raised → Type 0) {W A B : Type 0} (m : Exec W A) (f : A → Exec W B)
    → Raises P m
    → ((a : A) → Raises P (f a))
    → Raises P (m >>= f)
bind-Raises P {W} {A} {B} m f first next = record { at = λ w. go (m w) (first.at w) }
  where
    go :
        (p : Result A × W)
        → Within P {A = A} p.0
        → Within P {A = B}
            (elim p.0 as (λ _. Result B × W) [ ok a ↦ f a p.1 | err e ↦ (err e, p.1) ]).0
    go (ok a, w') r = (next a).at w'
    go (err e, w') r = r

pure-Raises : (P : Raised → Type 0) {W A : Type 0} (a : A) → Raises P (pure {S = W} a)
pure-Raises P a = record { at = λ w. tt }

pub catch-Raises :
    (P Q : Raised → Type 0) {W A : Type 0} (m : Exec W A) (handler : Raised → Raised)
    → Raises P m
    → ((e : Raised) → P e → Q (handler e))
    → Raises Q (catch m (λ e. raise (handler e)))
catch-Raises P Q {W} {A} m handler first next = record { at = λ w. go (m w) (first.at w) }
  where
    go :
        (p : Result A × W)
        → Within P {A = A} p.0
        → Within Q {A = A}
            (elim p.0 as (λ _. Result A × W) [
              | ok a ↦ (ok a, p.1)
              | err e ↦ raise (handler e) p.1
            ]).0
    go (ok a, w') r = tt
    go (err e, w') r = next e r

left-IsReport :
    (stage : String) (deadline : ReviewDeadline) (now : ℕ)
    → Within IsReport (remaining now stage deadline)
unfolding remaining
left-IsReport stage deadline now = elim (Bool-cases (leb deadline.expires_at now)) [
  | inl over ↦ rw over (_, refl)
  | inr left ↦ rw left tt
]

some-Within :
    (P : Raised → Type 0) (r : Result ℕ)
    → Within P r
    → Within P {A = Option ℕ}
        (elim r as (λ _. Result (Option ℕ)) [ ok left ↦ ok (some left) | err e ↦ err e ])
some-Within P (ok n) h = tt
some-Within P (err e) h = h

remaining-IsReport :
    {W : Type 0} (deadline : Option ReviewDeadline) (clock : W → ℕ) (stage : String)
    → Raises IsReport (remaining_review_time deadline clock stage)
unfolding remaining_review_time
remaining-IsReport none clock stage = record { at = λ w. tt }
remaining-IsReport (some deadline) clock stage = record {
  at = λ w. some-Within IsReport _ (left-IsReport stage deadline (clock w));
}

validated-IsReport :
    (parse : Text → Option AgentReview) (candidate : Text)
    → Within IsReport (validated parse candidate)
unfolding validated
validated-IsReport parse candidate = go (parse candidate)
  where
    go :
        (r : Option AgentReview)
        → Within IsReport (elim r as (λ _. Result AgentReview) [
          | none ↦ failed invalid_model_output "candidate_validation"
          | some review ↦
              if valid_agent_review review
              then ok review
              else failed invalid_model_output "candidate_validation"
        ])
    go none = (_, refl)
    go (some review) = elim (Bool-cases (valid_agent_review review)) [
      | inl valid ↦ rw valid tt
      | inr invalid ↦ rw invalid (_, refl)
    ]

checked-IsReport :
    (parse : Text → Option AgentReview) (max_bytes : ℕ) (c : Option Text)
    → Within IsReport (checked parse max_bytes c)
unfolding checked
checked-IsReport parse max_bytes none = (_, refl)
checked-IsReport parse max_bytes (some candidate) =
    elim (Bool-cases (ltb max_bytes (length candidate))) [
      | inl large ↦ rw large (_, refl)
      | inr small ↦ rw small (validated-IsReport parse candidate)
    ]

produce_failed-IsReport : (e : Raised) → IsExpected e → IsReport (produce_failed e)
produce_failed-IsReport e (inl late) = rw late (_, refl)
produce_failed-IsReport e (inr (f, known)) = rw known (f, refl)

grounding_failed-IsReport : (e : Raised) → IsCaught e → IsReport (grounding_failed e)
grounding_failed-IsReport e (inl (f, known)) = rw known (f, refl)
grounding_failed-IsReport e (inr caught) = rw caught (_, refl)

weaken : {A : Type 0} (r : Result A) → Within IsReport {A = A} r → Within IsCaught {A = A} r
weaken (ok a) h = tt
weaken (err e) h = inl h

module _ {W : Type 0} (deadline : Option ReviewDeadline) (clock : W → ℕ)
    (produce : Exec W (Option Text)) (parse : Text → Option AgentReview) (max_bytes : ℕ)
    (checkout : Checkout) (changed_paths : List Text)
    (adapter : (w : W) → Within IsExpected (produce w).0) (readable : IsReadable checkout) where
  grounded-IsCaught :
      (candidate : AgentReview)
      → Within IsCaught (ground_candidate checkout changed_paths candidate)
  grounded-IsCaught candidate =
      go (ground_candidate checkout changed_paths candidate)
        (candidate_raises checkout changed_paths readable candidate)
    where
      go :
          (r : Result (Unit {0}))
          → ((e : Raised) → r ≡ err e → is_grounding_failure e ≡ true)
          → Within IsCaught r
      go (ok u) k = tt
      go (err e) k = inr (k e refl)

  in_time-IsCaught :
      (candidate : AgentReview)
      → Raises IsCaught
          (ground_in_time deadline clock produce parse max_bytes checkout changed_paths candidate)
  unfolding ground_in_time
  in_time-IsCaught candidate =
      let check : Exec W (Option ℕ) = remaining_review_time deadline clock "candidate_grounding" in
      let timed : Raises IsCaught check = record {
        at = λ w.
            weaken (check w).0 ((remaining-IsReport deadline clock "candidate_grounding").at w);
      } in
      bind-Raises IsCaught check _ timed λ _.
        bind-Raises IsCaught {A = Unit {0}}
          (lift (ground_candidate checkout changed_paths candidate)) _
          (record { at = λ w. grounded-IsCaught candidate })
          λ _. bind-Raises IsCaught check _ timed (λ _. pure-Raises IsCaught tt)

  produce-IsReport : Raises IsReport (catch produce (λ e. raise (produce_failed e)))
  produce-IsReport =
      catch-Raises IsExpected IsReport produce produce_failed (record { at = adapter })
        produce_failed-IsReport

  accept-Raises :
      Raises IsReport (accept deadline clock produce parse max_bytes checkout changed_paths)
  unfolding accept
  accept-Raises =
      let timed = remaining-IsReport deadline clock "review_runner" in
      bind-Raises IsReport _ _ timed λ _. bind-Raises IsReport _ _ produce-IsReport λ bytes.
        bind-Raises IsReport _ _ timed λ _.
          bind-Raises IsReport {A = AgentReview} (lift (checked parse max_bytes bytes)) _
            (record { at = λ w. checked-IsReport parse max_bytes bytes })
            λ candidate.
              bind-Raises IsReport _ _
                (catch-Raises IsCaught IsReport _ grounding_failed (in_time-IsCaught candidate)
                  grounding_failed-IsReport)
                λ _. pure-Raises IsReport candidate

  -- Where the adapter raises a `TimeoutError` or a `ReviewError`, and reading a file an error that
  -- grounding catches, whatever goes wrong with a candidate is raised as a `ReviewError`.
  pub accept-IsReport :
      (w w' : W) (e : Raised)
      → accept deadline clock produce parse max_bytes checkout changed_paths w ≡ (err e, w')
      → IsReport e
  accept-IsReport w w' e h =
      subst (λ (p : Result AgentReview × W). Within IsReport p.0) h (accept-Raises.at w)
