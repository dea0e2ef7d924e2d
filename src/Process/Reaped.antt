-- ===== src/Process/Reaped.antt =====
-- Where a process may be left behind.
use specode_review.Base.{
  ℕ, ◌≡◌, ◌⊎◌, inl, inr, refl, Bool, false, Option, none, some, List, Text, arith,
}
use specode_review.Errors.{Raised, runtime_error, Result, ok, err}
use specode_review.Exec.{Exec}
use specode_review.Exec.Leads.{ends}
use specode_review.Process.{
  ProcessOptions, ReturnCode, Completed, System, Capture, demand, observed, finish, with_finish,
  concluded, end_of, enough_turns, run_bounded_process,
}

-- What the program relies on of the operating system for the end of a process, where `is_alive` says
-- whether it runs: `popen` starts it with both pipes or not at all, the calls of the `finally` return,
-- `poll` says whether it runs, and once `wait` without a timeout has returned it does not.
pub record SystemContract {W : Type 0} (system : System W) (is_alive : W → Bool) : Type 0 where
  pub starts :
      (arguments : List Text) (w w' : W)
      → system.popen arguments w ≡ (ok false, w')
      → is_alive w' ≡ false
  pub starts_not :
      (arguments : List Text) (e : Raised) (w w' : W)
      → system.popen arguments w ≡ (err e, w')
      → is_alive w' ≡ false
  pub closes : (w : W) → (w' : W) × (system.close_selector w ≡ (ok tt, w'))
  pub polls : (w : W) → (w' : W) × (system.poll w ≡ (ok (is_alive w'), w'))
  pub kills : (w : W) → (w' : W) × (system.kill w ≡ (ok tt, w'))
  pub waits :
      (w : W)
      → (code : Option ReturnCode) × (w' : W) × (system.wait none w ≡ (ok code, w'))
        × (is_alive w' ≡ false)
  pub shuts : (w : W) → (w' : W) × (system.close_pipes w ≡ (ok tt, w')) × (is_alive w' ≡ is_alive w)

module _ {W : Type 0} (system : System W) (is_alive : W → Bool)
    (contract : SystemContract system is_alive) (options : ProcessOptions) where
  -- The `finally` ends the process.
  finish_lem : (w : W) → is_alive (finish system options w).1 ≡ false
  unfolding finish
  finish_lem w =
      let (w1, closed) = contract.closes w in
      let (w2, polled) = contract.polls w1 in
      let (w3, killed) = contract.kills w2 in
      let (code, w4, waited, dead) = contract.waits w3 in
      let (w5, shut, kept) = contract.shuts w4 in
      let (w6, shut', kept') = contract.shuts w2 in
      ground (arith, closed, polled, killed, waited, dead, shut, kept, shut', kept')

  with_finish_dead :
      {A : Type 0} (m : Exec W A) (w : W) → is_alive (with_finish system options m w).1 ≡ false
  with_finish_dead m w = finish_lem (m w).1

  concluded_still :
      (o : Option (Capture × ReturnCode)) (w : W) → (concluded system options o w).1 ≡ w
  unfolding concluded
  concluded_still none w = refl
  concluded_still (some (c, code)) w = ground arith

  -- The process does not run, or it was left when the selector could not be set up.
  abbrev pub Reaped : Result (Option Completed) → W → Type 0
  Reaped r w' =
      (is_alive w' ≡ false)
      ⊎ ((e : Raised) × (u : W) × (system.open_selector u ≡ (err e, w')) × (r ≡ err e))

  -- However a run ends, whether it returns or raises and wherever it raises, its process does not run
  -- any more; but for one place: where the selector cannot be made or a pipe not registered, which is
  -- before the `try`, the run raises that error at once, and nothing is said of the process.
  pub run_bounded_process_dead :
      (arguments : List Text) (w : W)
      → Reaped
          (run_bounded_process system options arguments w).0
          (run_bounded_process system options arguments w).1
  unfolding run_bounded_process
  run_bounded_process_dead arguments w =
      let body = λ (now : ℕ).
        observed system options (enough_turns system options) (end_of system options now) in
      (ends {Q = Reaped} (λ (w : W). (ok (system.clock w), w)) _
        (λ now w1 _.
          ends (system.popen arguments) _
            (λ has_pipes w2 started.
              ends (demand system options has_pipes runtime_error) _
                (λ _ w3 _.
                  ends system.open_selector _
                    (λ _ w4 _.
                      ends (with_finish system options (body now)) (concluded system options)
                        (λ o w5 done.
                          let dead : is_alive w5 ≡ false =
                            ground (arith, done, with_finish_dead (body now) w4) in
                          record { at = inl (rw (concluded_still o w5) dead) })
                        (λ e w5 done. inl (ground (arith, done, with_finish_dead (body now) w4))))
                    (λ e w4 failed. inr (e, w3, failed, refl)))
                (λ e w3 h. inl (ground (arith, h, started, contract.starts arguments w1 w2))))
            (λ e w2 h. inl (contract.starts_not arguments e w1 w2 h)))
        (λ e w1 h. absurd (cc h))).at
