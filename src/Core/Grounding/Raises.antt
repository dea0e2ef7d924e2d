-- ===== src/Core/Grounding/Raises.antt =====
-- What grounding raises: nothing that `CandidateAcceptance.accept` would not turn into its own error.
use specode_review.Base.{◌≡◌, Bool, true, false, ◌||◌, List, [], ◌∷◌, arith, Text}
use specode_review.Errors.{Raised, is_grounding_failure, Result, ok, err}
use specode_review.Models.{Location, Finding, AgentReview}
use specode_review.Core.Grounding.{
  Checkout, parts, ground_contents, ground_line, ground_entry, ground_location, ground_locations,
  ground_findings, ground_candidate,
}

-- Reading a file raises an `OSError`, or something else that the handler names.
abbrev pub IsReadable : Checkout → Type 0
IsReadable checkout =
    (path : List Text) (e : Raised)
    → (checkout path).contents ≡ err e
    → is_grounding_failure e ≡ true

module _ (checkout : Checkout) (changed_paths : List Text) (readable : IsReadable checkout) where
  location_raises :
      (l : Location) (e : Raised)
      → ground_location checkout changed_paths l ≡ err e
      → is_grounding_failure e ≡ true
  unfolding ground_location ground_entry ground_line ground_contents
  location_raises l e h = ground (arith, h, readable (parts l.path) e)

  locations_raise :
      (has : Bool) (ls : List Location) (e : Raised)
      → ground_locations checkout changed_paths has ls ≡ err e
      → is_grounding_failure e ≡ true
  unfolding ground_locations
  locations_raise has [] e h = cc
  locations_raise has (l ∷ ls) e h =
      go (ground_location checkout changed_paths l) (location_raises l)
        (λ c. locations_raise (has || c) ls e) h
    where
      go :
          (r : Result Bool)
          → ((x : Raised) → r ≡ err x → is_grounding_failure x ≡ true)
          → ((c : Bool)
              → ground_locations checkout changed_paths (has || c) ls ≡ err e
              → is_grounding_failure e ≡ true)
          → (elim r as (λ _. Result Bool) [
            | ok c ↦ ground_locations checkout changed_paths (has || c) ls
            | err x ↦ err x
          ]
              ≡ err e)
          → is_grounding_failure e ≡ true
      go (ok c) first next k = next c k
      go (err x) first next k = first e k

  findings_raise :
      (fs : List Finding) (e : Raised)
      → ground_findings checkout changed_paths fs ≡ err e
      → is_grounding_failure e ≡ true
  unfolding ground_findings
  findings_raise [] e h = cc
  findings_raise (f ∷ fs) e h =
      ground (arith, h, locations_raise false f.locations e, findings_raise fs e)

  pub candidate_raises :
      (candidate : AgentReview) (e : Raised)
      → ground_candidate checkout changed_paths candidate ≡ err e
      → is_grounding_failure e ≡ true
  unfolding ground_candidate
  candidate_raises candidate e h = findings_raise candidate.findings e h
