-- ===== src/Exec/Leads.antt =====
-- Where a call that is made in a given state leads.
use specode_review.Base.{◌≡◌, refl}
use specode_review.Errors.{Raised, Result, ok, err}
use specode_review.Exec.{Exec, ◌>>=◌}

-- If the call returns, then `Q` holds of its value and of the state that it leaves.
pub record Leads {W A : Type 0} (Q : A → W → Type 0) (w : W) (m : Exec W A) : Type 0 where
  pub at : (a : A) (w' : W) → m w ≡ (ok a, w') → Q a w'

-- A sequence that returns: its first call does, and then the rest.
pub leads :
    {W A B : Type 0} {Q : B → W → Type 0} {w : W} (m : Exec W A) (f : A → Exec W B)
    → ((a : A) (w1 : W) → m w ≡ (ok a, w1) → Leads Q w1 (f a))
    → Leads Q w (m >>= f)
leads {W} {A} {B} {Q} {w} m f next = record { at = λ b w' h. go b w' (m w) refl h }
  where
    go :
        (b : B) (w' : W) (p : Result A × W)
        → m w ≡ p
        → (elim p.0 as (λ _. Result B × W) [ ok a ↦ f a p.1 | err e ↦ (err e, p.1) ]) ≡ (ok b, w')
        → Q b w'
    go b w' (ok a, w1) e k = (next a w1 e).at b w' k
    go b w' (err x, w1) e k = absurd (cc k)

-- However the call ends, `Q` holds of its result and of the state that it leaves.
pub record Ends {W A : Type 0} (Q : Result A → W → Type 0) (w : W) (m : Exec W A) : Type 0 where
  pub at : Q (m w).0 (m w).1

pub ends :
    {W A B : Type 0} {Q : Result B → W → Type 0} {w : W} (m : Exec W A) (f : A → Exec W B)
    → ((a : A) (w1 : W) → m w ≡ (ok a, w1) → Ends Q w1 (f a))
    → ((e : Raised) (w1 : W) → m w ≡ (err e, w1) → Q (err e) w1)
    → Ends Q w (m >>= f)
ends {W} {A} {B} {Q} {w} m f next raised = record { at = go (m w) refl }
  where
    outcome : Result A × W → Result B × W
    outcome p = elim p.0 as (λ _. Result B × W) [ ok a ↦ f a p.1 | err e ↦ (err e, p.1) ]

    go : (p : Result A × W) → m w ≡ p → Q (outcome p).0 (outcome p).1
    go (ok a, w1) e = (next a w1 e).at
    go (err x, w1) e = raised x w1 e
