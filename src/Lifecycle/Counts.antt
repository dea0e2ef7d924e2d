-- ===== src/Lifecycle/Counts.antt =====
-- Counting the claims of a dictionary by their phase, and the owners of a claim.
use specode_review.Base.{
  ℕ, suc, ◌+◌, ◌<◌, ◌≡◌, refl, Bool, not, none, [], ◌∷◌, arith, ◌==◌, nat_equal, length, All,
}
use specode_review.Base.Dict.{Dict, lookup, insert, pop, count}
use specode_review.Revision.{AcceptedRevision, revision_equal}
use specode_review.Lifecycle.{ClaimPhase, preflight, running, is_running}

abbrev pub is_preflight : ClaimPhase → Bool
is_preflight phase = not (is_running phase)

-- Every claim is in one of the two phases.
pub count-phases :
    (d : Dict AcceptedRevision ClaimPhase) → count is_preflight d + count is_running d ≡ length d
count-phases [] = refl
count-phases ((k, preflight) ∷ d) = omega (arith, count-phases d)
count-phases ((k, running) ∷ d) = omega (arith, count-phases d)

-- Owners of claims, by the number of a call or of a task.
abbrev pub Owners : Type 0
Owners = Dict ℕ AcceptedRevision

-- How many owners a revision has.
abbrev pub owners_of : AcceptedRevision → Owners → ℕ
owners_of r = count (λ s. r == s)

abbrev pub IsBelow : ℕ → Owners → Type 0
IsBelow n = All (λ e. e.0 < n)

pub lookup-IsBelow : (n : ℕ) (d : Owners) → IsBelow n d → lookup n d ≡ none
lookup-IsBelow n [] h = refl
lookup-IsBelow n ((k, r) ∷ d) h = ground (arith, lookup-IsBelow n d h.1)

pub length-insert_fresh :
    (n : ℕ) (r : AcceptedRevision) (d : Owners)
    → IsBelow n d
    → length (insert n r d) ≡ suc (length d)
length-insert_fresh n r [] h = refl
length-insert_fresh n r ((k, s) ∷ d) h = ground (arith, length-insert_fresh n r d h.1)

pub insert-IsBelow :
    (n : ℕ) (r : AcceptedRevision) (d : Owners) → IsBelow n d → IsBelow (suc n) (insert n r d)
insert-IsBelow n r [] h = omega arith
insert-IsBelow n r ((k, s) ∷ d) h = ground (arith, insert-IsBelow n r d h.1)

pub pop-IsBelow : (n k : ℕ) (d : Owners) → IsBelow n d → IsBelow n (pop k d)
pop-IsBelow n k [] h = tt
pop-IsBelow n k ((j, s) ∷ d) h = ground (arith, pop-IsBelow n k d h.1)
