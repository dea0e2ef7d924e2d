-- ===== src/Sandbox/Reports.antt =====
-- How a review in a sandbox fails, and that the sandbox is removed.
use Prim.Native.String.{String}
use specode_review.Base.{◌≡◌, ◌⊎◌, inl, inr, refl, ap, false, Text, arith}
use specode_review.Errors.{ReviewError, Raised, review_error, is_exception, Result, ok, err}
use specode_review.Exec.{Exec, raise, catch}
use specode_review.Sandbox.Control.{CandidateContract, write_control_artifacts}
use specode_review.Sandbox.Life.{
  SandboxContext, ReviewExecutionClient, lived, removed_after, settled, normalized, run,
}
use specode_review.Sandbox.Adapter.{CodexSandboxAdapter, control_of, review_in_sandbox, produce}

-- A `ReviewError`, or what is no `Exception`.
abbrev pub IsNormal : Raised → Type 0
IsNormal e = ((f : ReviewError) × (e ≡ review_error f)) ⊎ (is_exception e ≡ false)

normalized-IsNormal :
    (timeout_stage failure_stage : String) (e : Raised)
    → IsNormal (normalized timeout_stage failure_stage e)
unfolding normalized
normalized-IsNormal timeout_stage failure_stage Raised.base_exception = inr refl
normalized-IsNormal timeout_stage failure_stage (review_error f) = inl (f, refl)
normalized-IsNormal timeout_stage failure_stage Raised.timeout_error = inl (_, refl)
normalized-IsNormal timeout_stage failure_stage e = inl (_, refl)

module _ {W : Type 0} (client : ReviewExecutionClient W) (name : Text) (context : SandboxContext)
    {A : Type 0} (m : Exec W A) (handler : Raised → Raised)
    (normal : (e : Raised) → IsNormal (handler e)) where
  abbrev guarded : Exec W A
  guarded = removed_after client name context (catch m (λ e. raise (handler e)))

  settled-IsNormal :
      (r : Result A) (end : Result (Unit {0})) (e : Raised)
      → settled {A = A} (elim r as (λ _. Result A) [ ok a ↦ ok a | err x ↦ err (handler x) ]) end
        ≡ err e
      → IsNormal e
  unfolding settled
  settled-IsNormal (ok a) (ok u) e h = absurd (cc h)
  settled-IsNormal (ok a) (err x) e h = ground (arith, h)
  settled-IsNormal (err x) (ok u) e h = ground (arith, h, normal x)
  settled-IsNormal (err x) (err y) e h = ground (arith, h, normal x)

  guarded-IsNormal : (e : Raised) (w w' : W) → guarded w ≡ (err e, w') → IsNormal e
  unfolding removed_after
  guarded-IsNormal e w w' h = go (m w) (ap (λ (p : Result A × W). p.0) h)
    where
      go :
          (p : Result A × W)
          → (let (answer, w1) = elim p.0 as (λ _. Result A × W) [
            | ok a ↦ (ok a, p.1)
            | err x ↦ (err (handler x), p.1)
          ] in
              settled {A = A} answer (client.remove name w1).0)
            ≡ err e
          → IsNormal e
      go (ok a, w1) k = settled-IsNormal (ok a) (client.remove name w1).0 e k
      go (err x, w1) k = settled-IsNormal (err x) (client.remove name w1).0 e k

removes :
    {W A : Type 0} (client : ReviewExecutionClient W) (name : Text) (context : SandboxContext)
    (m : Exec W A) (handler : Raised → Raised) (w : W)
    → ((removed_after client name context (catch m (λ e. raise (handler e))) w).1
        ≡ (client.remove name (m w).1).1)
      × ((a : A)
          → (removed_after client name context (catch m (λ e. raise (handler e))) w).0 ≡ ok a
          → (client.remove name (m w).1).0 ≡ ok tt)
unfolding removed_after settled
removes client name context m handler w = (ground arith, λ a h. ground (arith, h))

module _ {W : Type 0} (a : CodexSandboxAdapter W) (context : SandboxContext)
    (contract : CandidateContract) where
  -- Whatever a review in a sandbox raises is a `ReviewError`, or is no `Exception`.
  pub produce-IsNormal :
      (e : Raised) (w w' : W)
      → produce a context contract w ≡ (err e, w')
      → ((f : ReviewError) × (e ≡ review_error f)) ⊎ (is_exception e ≡ false)
  unfolding produce run
  produce-IsNormal e w w' h =
      guarded-IsNormal a.client a.sandbox_name context
        (lived a.client a.sandbox_name context (a.mkdir (control_of context))
          (write_control_artifacts a.write a.chmod (control_of context) context.review contract)
          (a.client.create_codex a.sandbox_name (control_of context) context.checkout a.kit
            context.sandbox_resources)
          (review_in_sandbox a context contract.max_bytes))
        (normalized "codex_execution" "codex_sandbox_lifecycle")
        (normalized-IsNormal "codex_execution" "codex_sandbox_lifecycle") e w w' h

  -- What is done with the sandbox before its removal.
  abbrev pub life : Exec W Text
  life =
      lived a.client a.sandbox_name context (a.mkdir (control_of context))
        (write_control_artifacts a.write a.chmod (control_of context) context.review contract)
        (a.client.create_codex a.sandbox_name (control_of context) context.checkout a.kit
          context.sandbox_resources)
        (review_in_sandbox a context contract.max_bytes)

  -- However a review in a sandbox ends, also where its creation or a later step raises, the removal of
  -- the sandbox is called in the state that was left and is the last call; and a review that returns
  -- has been removed: its removal returned.
  pub produce_removes :
      (w : W)
      → ((produce a context contract w).1 ≡ (a.client.remove a.sandbox_name (life w).1).1)
        × ((candidate : Text)
            → (produce a context contract w).0 ≡ ok candidate
            → (a.client.remove a.sandbox_name (life w).1).0 ≡ ok tt)
  unfolding produce run
  produce_removes w =
      removes a.client a.sandbox_name context life
        (normalized "codex_execution" "codex_sandbox_lifecycle") w
