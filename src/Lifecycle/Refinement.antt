-- ===== src/Lifecycle/Refinement.antt =====
-- The lifecycle as its callers see it: which revisions are claimed, in which phase, and how many
-- reviews run. How claims and tasks are stored is forgotten.
use mathlib.Core.Path.{fun_ext, subst}
use specode_review.Base.{
  ℕ, suc, ◌-◌, ◌<◌, ◌≡◌, ◌≢◌, ◌⊎◌, refl, sym, inl, inr, true, Option, none, some, [], ◌∷◌, is_empty,
  arith, Text, nat_equal, text_equal, ◌==◌, if◌then◌else◌, Option-cases, Bool-cases, leb, leb→lt,
}
use specode_review.Base.Dict.{
  Dict, lookup, insert, pop, count, lookup-insert, lookup-pop, count-insert, count-pop,
}
use specode_review.Errors.{ok}
use specode_review.Revision.{AcceptedRevision, revision_equal}
use specode_review.Submission.{PreflightOutcome}
use specode_review.Lifecycle.{
  ReviewLifecycle, LifecycleState, created, accepting, stopping, stopped, is_accepting, ClaimPhase,
  preflight, running, is_running, PreflightReply, found, failed, cancelled, interrupted,
  new_lifecycle, exit_begin, exit_end, submit, resume, finish_run,
}
use specode_review.Lifecycle.Steps.{
  System, Step, entered, submitted, resumed, finished, exiting, exited, submit_call, resume_call,
  finish_task, Reach, here, next, start,
}
use specode_review.Lifecycle.Invariant.{exit_end-idle, enter_lem, start-IsValid, Reach-IsValid}
use specode_review.Lifecycle.Valid.{IsValid}
use specode_review.Lifecycle.Moves.{waiting-claimed, task-claimed}

abbrev pub Claims : Type 0
Claims = AcceptedRevision → Option ClaimPhase

-- The claims with one of them changed.
abbrev pub set : AcceptedRevision → Option ClaimPhase → Claims → Claims
set r phase claims x = if x == r then phase else claims x

pub record Service : Type 0 where
  pub capacity : ℕ
  pub state : LifecycleState
  pub claims : Claims
  pub reviews : ℕ

-- What may happen to the service: a revision is claimed only while it accepts and nobody holds it, and
-- goes from its preflight to a review, if fewer run than the capacity, or is free again; a review ends; the states follow one another,
-- and the last one wants every revision free.
pub data Happens (a : Service) : Service → Type 0 where
  claimed :
      (r : AcceptedRevision)
      → a.state ≡ accepting
      → a.claims r ≡ none
      → Happens a (record a { claims = set r (some preflight) a.claims })
  promoted :
      (r : AcceptedRevision)
      → a.state ≡ accepting
      → a.claims r ≡ some preflight
      → a.reviews < a.capacity
      → Happens a (record a { claims = set r (some running) a.claims; reviews = suc a.reviews })
  released :
      (r : AcceptedRevision)
      → a.claims r ≡ some preflight
      → Happens a (record a { claims = set r none a.claims })
  ended :
      (r : AcceptedRevision)
      → a.claims r ≡ some running
      → Happens a (record a { claims = set r none a.claims; reviews = a.reviews - 1 })
  opened : a.state ≡ created → Happens a (record a { state = accepting })
  closing : Happens a (record a { state = stopping })
  halted : ((r : AcceptedRevision) → a.claims r ≡ none) → Happens a (record a { state = stopped })

abbrev pub view : ReviewLifecycle → Service
view l = record {
  capacity = l.max_reviews;
  state = l.state;
  claims = λ r. lookup r l.claims;
  reviews = count is_running l.claims;
}

-- A step of the service, or none that its callers see.
abbrev pub Simulates : Service → Service → Type 0
Simulates a b = Happens a b ⊎ (a ≡ b)

-- A change of the stored claims that is one of the claims.
changed :
    (l : ReviewLifecycle) (claims : Dict AcceptedRevision ClaimPhase) (r : AcceptedRevision)
    (phase : Option ClaimPhase) (n : ℕ)
    → ((x : AcceptedRevision) → lookup x claims ≡ set r phase (view l).claims x)
    → n ≡ count is_running claims
    → Happens (view l) (record (view l) { claims = set r phase (view l).claims; reviews = n })
    → Simulates
        (view l)
        (record (view l) { claims = λ x. lookup x claims; reviews = count is_running claims })
changed l claims r phase n h e step =
    let same = sym (fun_ext h) in
    inl (subst (Happens (view l)) (λ i. record (view l) { claims = same i; reviews = e i }) step)

accepting_state : (state : LifecycleState) → is_accepting state ≡ true → state ≡ accepting
accepting_state state h = ground arith

submit_simulates :
    (r : AcceptedRevision) (s : System)
    → Simulates (view s.lifecycle) (view (submit_call r s).lifecycle)
unfolding submit_call submit
submit_simulates r s = elim (Bool-cases (is_accepting s.lifecycle.state)) [
  | inr closed ↦ rw closed (inr refl)
  | inl open_ ↦ elim (Option-cases (lookup r s.lifecycle.claims)) [
    | inr (phase, claim) ↦ rw (open_, claim) (inr refl)
    | inl free ↦
        rw (open_, free)
          (changed s.lifecycle (insert r preflight s.lifecycle.claims) r (some preflight)
            (count is_running s.lifecycle.claims)
            (λ x. lookup-insert x r preflight s.lifecycle.claims)
            (ground (arith, count-insert is_running r preflight s.lifecycle.claims, free))
            (claimed r (accepting_state s.lifecycle.state open_) free))
  ]
]

module _ (call : ℕ) (r : AcceptedRevision) (s : System) (v : IsValid s)
    (h : lookup call s.waiting ≡ some r) where
  gives_up : Simulates (view s.lifecycle) (record (view s.lifecycle) {
    claims = λ x. lookup x (pop r s.lifecycle.claims);
    reviews = count is_running (pop r s.lifecycle.claims);
  })
  gives_up =
      changed s.lifecycle (pop r s.lifecycle.claims) r none (count is_running s.lifecycle.claims)
        (λ x. lookup-pop x r s.lifecycle.claims v.distinct)
        (ground (arith, count-pop is_running r s.lifecycle.claims, waiting-claimed call r s v h))
        (released r (waiting-claimed call r s v h))

  resume_simulates :
      (reply : PreflightReply) (attempt_id : Option Text)
      → reply ≢ interrupted
      → Simulates (view s.lifecycle) (view (resume_call call reply attempt_id r s).lifecycle)
  unfolding resume_call resume
  resume_simulates interrupted attempt_id handled = absurd (handled refl)
  resume_simulates failed attempt_id handled = gives_up
  resume_simulates cancelled attempt_id handled = gives_up
  resume_simulates (found PreflightOutcome.already_reviewed) attempt_id handled = gives_up
  resume_simulates (found PreflightOutcome.not_authorized) attempt_id handled = gives_up
  resume_simulates (found PreflightOutcome.ready) none handled = gives_up
  resume_simulates (found PreflightOutcome.ready) (some attempt_id) handled =
      elim (Bool-cases (is_accepting s.lifecycle.state)) [
        | inr closed ↦ rw closed gives_up
        | inl open_ ↦
            elim (Bool-cases (leb s.lifecycle.max_reviews (count is_running s.lifecycle.claims))) [
              | inl full ↦ rw (open_, full) gives_up
              | inr room ↦
                  rw (open_, room)
                    (changed s.lifecycle (insert r running s.lifecycle.claims) r (some running)
                      (suc (count is_running s.lifecycle.claims))
                      (λ x. lookup-insert x r running s.lifecycle.claims)
                      (ground (
                        arith,
                        count-insert is_running r running s.lifecycle.claims,
                        waiting-claimed call r s v h,
                      ))
                      (promoted r (accepting_state s.lifecycle.state open_)
                        (waiting-claimed call r s v h) (leb→lt _ _ room)))
            ]
      ]

no_claims :
    (d : Dict AcceptedRevision ClaimPhase) (r : AcceptedRevision)
    → is_empty d ≡ true
    → lookup r d ≡ none
no_claims [] r h = refl
no_claims (e ∷ d) r h = absurd (cc h)

all_free :
    (l l' : ReviewLifecycle) (r : AcceptedRevision)
    → exit_end l ≡ some l'
    → lookup r l.claims ≡ none
unfolding exit_end
all_free l l' r h = no_claims l.claims r (ground (arith, h))

-- Every step of the event loop in a valid state is one of the service as its callers see it, or none.
pub Step-Simulates :
    {s t : System} → Step s t → IsValid s → Simulates (view s.lifecycle) (view t.lifecycle)
Step-Simulates {s = s} (entered l h) v =
    let (fresh, e) = enter_lem s.lifecycle l h in
    inl (subst (λ x. Happens (view s.lifecycle) (view x)) e (opened fresh))
Step-Simulates {s = s} (submitted r) v = submit_simulates r s
Step-Simulates {s = s} (resumed call reply attempt_id r h handled) v =
    resume_simulates call r s v h reply attempt_id handled
Step-Simulates {s = s} (finished task r h) v =
    unfold finish_task finish_run in
    changed s.lifecycle (pop r s.lifecycle.claims) r none (count is_running s.lifecycle.claims - 1)
      (λ x. lookup-pop x r s.lifecycle.claims v.distinct)
      (ground (arith, count-pop is_running r s.lifecycle.claims, task-claimed task r s v h))
      (ended r (task-claimed task r s v h))
Step-Simulates {s = s} exiting v = unfold exit_begin in inl closing
Step-Simulates {s = s} (exited l h) v =
    let (idle, e) = exit_end-idle s v h in
    inl (
      subst (λ x. Happens (view s.lifecycle) (view x)) e (halted (λ r. all_free s.lifecycle l r h)))

-- Any number of steps of the service.
pub data Runs (a : Service) : Service → Type 0 where
  still : Runs a a
  further : {b c : Service} → Runs a b → Happens b c → Runs a c

extended : {a b c : Service} → Runs a b → Simulates b c → Runs a c
extended r (inl step) = further r step
extended {a} r (inr same) = subst (Runs a) same r

runs : {s t : System} → IsValid s → Reach s t → Runs (view s.lifecycle) (view t.lifecycle)
runs v here = still
runs v (next {t} path step) = extended (runs v path) (Step-Simulates step (Reach-IsValid v path))

-- The lifecycle refines the service that its callers see: whatever its constructor accepts, every run of
-- the event loop from there, with submissions, preflights, reviews and the shutdown in any order, is a
-- run of that service.
pub lifecycle_refines :
    (limit : ℕ) (l : ReviewLifecycle) (s : System)
    → new_lifecycle limit ≡ ok l
    → Reach (start l) s
    → Runs (view l) (view s.lifecycle)
lifecycle_refines limit l s made path = runs (start-IsValid limit made) path
