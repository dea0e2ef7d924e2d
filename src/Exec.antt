-- ===== src/Exec.antt =====
-- Calls that change a state and may raise: what was done before a raise stays done.
pub mod Leads
use specode_review.Base.{List, ◌∷◌}
use specode_review.Errors.{Raised, Result, ok, err}

abbrev pub Exec : Type 0 → Type 0 → Type 0
Exec S A = S → Result A × S

module _ {S A : Type 0} where
  abbrev pub pure : A → Exec S A
  pure a s = (ok a, s)

  abbrev pub raise : Raised → Exec S A
  raise e s = (err e, s)

  -- `try: m; except: handler`
  abbrev pub catch : Exec S A → (Raised → Exec S A) → Exec S A
  catch m handler s = let (r, s') = m s in elim r [ ok a ↦ (ok a, s') | err e ↦ handler e s' ]
  -- A call to a collaborator: it is added to the history, and the answer may depend on all calls
  -- that were made before.

abbrev pub ask : {E A : Type 0} → E → (List E → Result A) → Exec (List E) A
ask event answer h = (answer h, event ∷ h)

infixl 5 ◌>>=◌ ◌>>◌
abbrev pub ◌>>=◌ : {S A B : Type 0} → Exec S A → (A → Exec S B) → Exec S B
◌>>=◌ m f s = let (r, s') = m s in elim r [ ok a ↦ f a s' | err e ↦ (err e, s') ]

abbrev pub ◌>>◌ : {S A B : Type 0} → Exec S A → Exec S B → Exec S B
m >> k = m >>= λ _. k
