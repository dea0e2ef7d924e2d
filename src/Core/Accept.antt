-- ===== src/Core/Accept.antt =====
-- `CandidateAcceptance.accept` of src/specode_review/core.py.
pub mod Produced
use Prim.Native.String.{String}
use specode_review.Base.{
  ℕ, ◌≡◌, ◌⊎◌, true, Option, none, some, List, Text, length, ltb, All, arith, if◌then◌else◌,
}
use specode_review.Errors.{
  FailureCategory, timeout, invalid_model_output, codex_or_limit, ReviewError, Raised, review_error,
  timeout_error, is_grounding_failure, Result, ok, err,
}
use specode_review.Exec.{Exec, pure, raise, catch, ◌>>=◌, ◌>>◌}
use specode_review.Models.{AgentReview, valid_agent_review}
use specode_review.Deadline.{ReviewDeadline, remaining_review_time}
use specode_review.Core.Grounding.{Checkout, ground_candidate}
use specode_review.Core.Grounding.Exact.{IsGrounded, candidate_iff}

abbrev pub failed : {A : Type 0} → FailureCategory → String → Result A
failed category stage = err (review_error (record { category = category; stage = stage }))

-- `parse` reads the JSON of a candidate into its fields; their constraints are those of `Models`.
unfoldable pub validated : (Text → Option AgentReview) → Text → Result AgentReview
validated parse candidate = elim (parse candidate) [
  | none ↦ failed invalid_model_output "candidate_validation"
  | some review ↦
      if valid_agent_review review
      then ok review
      else failed invalid_model_output "candidate_validation"
]

-- The checks of what the adapter returned; `none` stands for a value that is no `bytes`.
unfoldable pub checked : (Text → Option AgentReview) → ℕ → Option Text → Result AgentReview
unfolding validated
checked parse max_bytes none = failed invalid_model_output "candidate_validation"
checked parse max_bytes (some candidate) =
    if ltb max_bytes (length candidate)
    then failed codex_or_limit "candidate_output"
    else validated parse candidate

-- `except TimeoutError`
abbrev pub produce_failed : Raised → Raised
produce_failed timeout_error = review_error (record { category = timeout; stage = "review_runner" })
produce_failed e = e

-- `except (OSError, RuntimeError, ValueError)`
abbrev pub grounding_failed : Raised → Raised
grounding_failed e =
    if is_grounding_failure e
    then review_error (record { category = invalid_model_output; stage = "candidate_grounding" })
    else e

abbrev pub lift : {W A : Type 0} → Result A → Exec W A
lift r w = (r, w)

-- What the adapter may raise.
abbrev pub IsExpected : Raised → Type 0
IsExpected e = (e ≡ timeout_error) ⊎ ((f : ReviewError) × (e ≡ review_error f))

module _ {W : Type 0} (deadline : Option ReviewDeadline) (clock : W → ℕ)
    (produce : Exec W (Option Text)) (parse : Text → Option AgentReview) (max_bytes : ℕ)
    (checkout : Checkout) (changed_paths : List Text) where
  -- The second `try`.
  unfoldable pub ground_in_time : AgentReview → Exec W (Unit {0})
  ground_in_time candidate = do
    remaining_review_time deadline clock "candidate_grounding"
    lift (ground_candidate checkout changed_paths candidate)
    remaining_review_time deadline clock "candidate_grounding"
    pure tt

  unfoldable pub accept : Exec W AgentReview
  unfolding ground_in_time
  accept = do
    remaining_review_time deadline clock "review_runner"
    candidate_bytes ← catch produce (λ e. raise (produce_failed e))
    remaining_review_time deadline clock "review_runner"
    candidate ← lift (checked parse max_bytes candidate_bytes)
    catch (ground_in_time candidate) (λ e. raise (grounding_failed e))
    pure candidate

  -- A candidate that is accepted meets the constraints of the models, and each of its findings is
  -- grounded in the checkout.
  pub accept-IsGrounded :
      (w w' : W) (review : AgentReview)
      → accept w ≡ (ok review, w')
      → (valid_agent_review review ≡ true) × All (IsGrounded checkout changed_paths) review.findings
  unfolding accept ground_in_time checked validated
  accept-IsGrounded w w' review h = ground (arith, h, candidate_iff checkout changed_paths review)
