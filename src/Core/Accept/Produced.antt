-- ===== src/Core/Accept/Produced.antt =====
-- What an accepted candidate comes from.
use Prim.Native.String.{String}
use specode_review.Base.{ℕ, ◌≤◌, ◌≡◌, refl, ap, ◌∙◌, Option, none, some, List, Text, length, arith}
use specode_review.Errors.{ok}
use specode_review.Exec.{Exec, pure, raise, catch}
use specode_review.Exec.Leads.{leads}
use specode_review.Models.{AgentReview}
use specode_review.Deadline.{ReviewDeadline, remaining_review_time}
use specode_review.Core.Grounding.{Checkout, ground_candidate}
use specode_review.Core.Accept.{
  validated, checked, produce_failed, grounding_failed, lift, ground_in_time, accept,
}

pub time_changes_nothing :
    {W : Type 0} (deadline : Option ReviewDeadline) (clock : W → ℕ) (stage : String)
    (left : Option ℕ) (w w' : W)
    → remaining_review_time deadline clock stage w ≡ (ok left, w')
    → w ≡ w'
unfolding remaining_review_time
time_changes_nothing none clock stage left w w' h = ap (λ p. p.1) h
time_changes_nothing (some deadline) clock stage left w w' h = ap (λ p. p.1) h

module _ {W : Type 0} (deadline : Option ReviewDeadline) (clock : W → ℕ)
    (produce : Exec W (Option Text)) (parse : Text → Option AgentReview) (max_bytes : ℕ)
    (checkout : Checkout) (changed_paths : List Text) where
  -- A check of the time changes nothing.
  timed_still :
      (stage : String) (left : Option ℕ) (w w' : W)
      → remaining_review_time deadline clock stage w ≡ (ok left, w')
      → w ≡ w'
  timed_still stage left w w' h = time_changes_nothing deadline clock stage left w w' h

  grounded_still :
      (candidate : AgentReview) (u : Unit {0}) (w w' : W)
      → catch
          (ground_in_time deadline clock produce parse max_bytes checkout changed_paths candidate)
          (λ e. raise (grounding_failed e))
          w
        ≡ (ok u, w')
      → w ≡ w'
  unfolding ground_in_time
  grounded_still candidate u w w' h =
      (leads {Q = λ _ x. w ≡ x} (remaining_review_time deadline clock "candidate_grounding") _
          λ l w1 first.
            leads (lift (ground_candidate checkout changed_paths candidate)) _ λ v w2 second.
              leads (remaining_review_time deadline clock "candidate_grounding") (λ _. pure tt)
                λ l' w3 third. record {
                  at = λ x w4 end.
                      timed_still "candidate_grounding" l w w1 first
                      ∙ ap (λ p. p.1) second
                      ∙ timed_still "candidate_grounding" l' w2 w3 third
                      ∙ ap (λ p. p.1) end;
                }).at
        u w' (ground (arith, h))

  checked_lem :
      (o : Option Text) (review : AgentReview)
      → checked parse max_bytes o ≡ ok review
      → (candidate : Text) × (o ≡ some candidate)
        × (length candidate ≤ max_bytes)
        × (parse candidate ≡ some review)
  unfolding checked validated
  checked_lem none review h = absurd (ground (arith, h))
  checked_lem (some candidate) review h = (candidate, refl, ground (arith, h), ground (arith, h))

  -- What is accepted was produced in the state in which it was asked for, is within the limit, and is
  -- what the reader made of it; nothing else changed the state.
  pub accept-produced :
      (w w' : W) (review : AgentReview)
      → accept deadline clock produce parse max_bytes checkout changed_paths w ≡ (ok review, w')
      → (candidate : Text) × (produce w ≡ (ok (some candidate), w'))
        × (length candidate ≤ max_bytes)
        × (parse candidate ≡ some review)
  unfolding accept
  accept-produced w w' review h =
      (leads
          {Q = λ review x.
            (candidate : Text) × (produce w ≡ (ok (some candidate), x))
            × (length candidate ≤ max_bytes)
            × (parse candidate ≡ some review)}
          (remaining_review_time deadline clock "review_runner") _
          λ l w1 first. leads (catch produce (λ e. raise (produce_failed e))) _ λ o w2 produced.
            leads (remaining_review_time deadline clock "review_runner") _ λ l' w3 second.
              leads (lift (checked parse max_bytes o)) _ λ candidate w4 fits.
                leads
                  (catch
                    (ground_in_time deadline clock produce parse max_bytes checkout changed_paths
                      candidate)
                    (λ e. raise (grounding_failed e)))
                  (λ _. pure candidate)
                  λ u w5 grounded. record {
                    at = λ c w6 end.
                        let (s, given, short, parsed) =
                          checked_lem o candidate (ap (λ p. p.0) fits) in
                        let same : candidate ≡ c = cc in
                        let still : w2 ≡ w6 =
                          timed_still "review_runner" l' w2 w3 second
                          ∙ ap (λ p. p.1) fits
                          ∙ grounded_still candidate u w4 w5 grounded
                          ∙ ap (λ p. p.1) end in
                        let made : produce w1 ≡ (ok o, w2) = ground (arith, produced) in
                        let start = timed_still "review_runner" l w w1 first in
                        (s, cc (start, made, given, still), short, cc (parsed, same));
                  }).at
        review w' h
