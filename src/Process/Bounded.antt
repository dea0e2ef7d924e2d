-- ===== src/Process/Bounded.antt =====
-- That a run ends, and how much output it keeps.
use specode_review.Base.{
  ℕ, zero, suc, ◌+◌, ◌-◌, ◌≤◌, ◌<◌, ◌≡◌, ◌≢◌, ◌⊎◌, inl, inr, refl, ap, true, false, not, Option,
  none, some, List, [], ◌∷◌, Text, arith, contains, filter, is_empty, length, ◌==◌, if◌then◌else◌,
  length-append, min, Bool-cases,
}
use specode_review.Errors.{runtime_error, ok}
use specode_review.Exec.{Exec, pure, ◌>>=◌}
use specode_review.Exec.Leads.{Leads, leads}
use specode_review.Deadline.{remaining}
use specode_review.Process.{
  ProcessOptions, Pipe, stdout_pipe, stderr_pipe, pipe_equal, ReturnCode, Completed, System,
  Capture, nothing_captured, demand, select_timeout, take_chunk, read_ready, take_turn, next_turn,
  capture, wait_timeout, ended, wait_after, observed, with_finish, concluded, end_of, enough_turns,
  run_bounded_process, is_success,
}

-- What `select` answers: pipes that are registered, or, once its timeout has passed, none.
abbrev pub Selected : {W : Type 0} → System W → Option ℕ → List Pipe → W → List Pipe → W → Type 0
Selected system timeout registered w [] w' =
    (ms : ℕ) × (timeout ≡ some ms) × (system.clock w + ms ≤ system.clock w')
Selected system timeout registered w (p ∷ ready) w' = contains registered p ≡ true

pub record Selects {W : Type 0} (system : System W) : Type 0 where
  pub at :
      (timeout : Option ℕ) (registered ready : List Pipe) (w w' : W)
      → system.select timeout registered w ≡ (ok ready, w')
      → Selected system timeout registered w ready w'

-- How much is left to read, and to close.
abbrev measure : ℕ → Capture → ℕ
measure limit c = limit - c.total_bytes + length c.registered

-- The output that is kept is what was read, within the limit unless it is exceeded.
record IsBounded (limit : ℕ) (c : Capture) : Type 0 where
  kept : length c.stdout + length c.stderr ≤ c.total_bytes
  within : (c.exceeded ≡ true) ⊎ (c.total_bytes ≤ limit)

filter-le : (p : Pipe) (ps : List Pipe) → length (filter (λ q. not (q == p)) ps) ≤ length ps
filter-le p [] = omega arith
filter-le p (q ∷ ps) = ground (arith, filter-le p ps)

filter-lt :
    (p : Pipe) (ps : List Pipe)
    → contains ps p ≡ true
    → length (filter (λ q. not (q == p)) ps) < length ps
filter-lt p [] h = cc
filter-lt p (q ∷ ps) h = ground (arith, filter-le p ps, filter-lt p ps)

module _ {W : Type 0} (system : System W) (options : ProcessOptions) where
  abbrev limit : ℕ
  limit = options.output_max_bytes

  -- A chunk brings the end nearer.
  abbrev Advanced : Capture → Capture → W → Type 0
  Advanced c c' w' =
      IsBounded limit c' × ((c'.exceeded ≡ true) ⊎ (measure limit c' < measure limit c))

  take_chunk_lem :
      (p : Pipe) (chunk : Text) (c : Capture) (w : W)
      → IsBounded limit c
      → c.exceeded ≡ false
      → Leads (Advanced c) w (take_chunk system options p chunk c)
  unfolding take_chunk
  take_chunk_lem p [] c w b e = record {
    at = λ c' w' h. ground (arith, h, b.kept, b.within, filter-lt p c.registered);
  }
  take_chunk_lem stdout_pipe (x ∷ chunk) c w b e = record {
    at = λ c' w' h. ground (arith, h, b.kept, b.within, length-append c.stdout (x ∷ chunk));
  }
  take_chunk_lem stderr_pipe (x ∷ chunk) c w b e = record {
    at = λ c' w' h. ground (arith, h, b.kept, b.within, length-append c.stderr (x ∷ chunk));
  }

  stopped :
      (c1 : Capture) (rest : Capture → Exec W Capture) (w2 w' : W) (c' : Capture)
      → (if c1.exceeded then pure c1 else rest c1) w2 ≡ (ok c', w')
      → ((c1.exceeded ≡ true) × (c' ≡ c1)) ⊎ ((c1.exceeded ≡ false) × (rest c1 w2 ≡ (ok c', w')))
  stopped c1 rest w2 w' c' h = ground (arith, h)

  -- The loop over the ready pipes brings the end nearer, if there is one.
  read_ready_lem :
      (ready : List Pipe) (c : Capture) (w : W)
      → IsBounded limit c
      → c.exceeded ≡ false
      → Leads
          (λ c' w'.
            IsBounded limit c'
            × ((c'.exceeded ≡ true)
                ⊎ (measure limit c' + (if is_empty ready then 0 else 1) ≤ measure limit c)))
          w
          (read_ready system options ready c)
  unfolding read_ready
  read_ready_lem [] c w b e = record { at = λ c' w' h. ground (arith, h, b) }
  read_ready_lem (p ∷ ready) c w b e =
      leads (system.read p (min 65536 (limit - c.total_bytes + 1))) _ λ chunk w1 _.
        leads (take_chunk system options p chunk c)
          (λ c'. if c'.exceeded then pure c' else read_ready system options ready c')
          λ c1 w2 taken.
            let (b1, nearer) = (take_chunk_lem p chunk c w1 b e).at c1 w2 taken in
            record {
              at = λ c' w' h. elim (stopped c1 (read_ready system options ready) w2 w' c' h) [
                | inl (over, same) ↦ rw same (b1, inl over)
                | inr (on, rest) ↦
                    let (b', further) = (read_ready_lem ready c1 w2 b1 on).at c' w' rest in
                    (b', ground (arith, nearer, further, on))
              ];
            }

  -- Reading the clock changes nothing.
  select_timeout_still :
      (timeout_at timeout : Option ℕ) (w w' : W)
      → select_timeout system options timeout_at w ≡ (ok timeout, w')
      → w' ≡ w
  unfolding select_timeout
  select_timeout_still timeout_at timeout w w' h = ground (arith, h)

  -- Once the timeout has passed, no other is given.
  select_timeout_late :
      (timeout_at timeout : Option ℕ) (ms : ℕ) (w w1 w2 w3 : W)
      → select_timeout system options timeout_at w ≡ (ok (some ms), w1)
      → system.clock w + ms ≤ system.clock w2
      → select_timeout system options timeout_at w2 ≢ (ok timeout, w3)
  unfolding select_timeout remaining
  select_timeout_late timeout_at timeout ms w w1 w2 w3 given late h = ground (arith, given, late, h)

  -- A turn that comes too late raises.
  take_turn_late :
      (timeout_at : Option ℕ) (c c' : Capture) (ms : ℕ) (w w1 w2 w' : W)
      → select_timeout system options timeout_at w ≡ (ok (some ms), w1)
      → system.clock w + ms ≤ system.clock w2
      → take_turn system options timeout_at c w2 ≢ (ok c', w')
  unfolding take_turn
  take_turn_late timeout_at c c' ms w w1 w2 w' given late h =
      (leads {Q = λ _ _. ⊥} (select_timeout system options timeout_at)
          (λ timeout.
            system.select timeout c.registered >>= λ ready. read_ready system options ready c)
          λ timeout w3 again.
            absurd (select_timeout_late timeout_at timeout ms w w1 w2 w3 given late again)).at
        c' w' h

  -- A turn brings the end nearer, or is the last before the timeout.
  abbrev Turned : Option ℕ → Capture → W → Capture → W → Type 0
  Turned timeout_at c w c' w' =
      IsBounded limit c'
      × ((c'.exceeded ≡ true)
          ⊎ ((measure limit c' < measure limit c)
              ⊎ ((c' ≡ c)
                  × ((ms : ℕ) × (select_timeout system options timeout_at w ≡ (ok (some ms), w))
                      × (system.clock w + ms ≤ system.clock w')))))

  abbrev Captured : Option Capture → W → Type 0
  Captured o w' = (c : Capture) × (o ≡ some c) × IsBounded limit c

  module _ (selects : Selects system) where
    take_turn_lem :
        (timeout_at : Option ℕ) (c : Capture) (w : W)
        → IsBounded limit c
        → c.exceeded ≡ false
        → Leads (Turned timeout_at c w) w (take_turn system options timeout_at c)
    unfolding take_turn
    take_turn_lem timeout_at c w b e =
        leads (select_timeout system options timeout_at) _ λ timeout w1 given.
          leads (system.select timeout c.registered) (λ ready. read_ready system options ready c)
            λ ready w2 selected.
              let still = select_timeout_still timeout_at timeout w w1 given in
              record {
                at = λ c' w' done.
                    read_lem ready c' w' timeout w1 w2 given still
                      (selects.at timeout c.registered ready w1 w2 selected) done
                      ((read_ready_lem ready c w2 b e).at c' w' done);
              }
      where
        read_lem :
            (ready : List Pipe) (c' : Capture) (w' : W) (timeout : Option ℕ) (w1 w2 : W)
            → select_timeout system options timeout_at w ≡ (ok timeout, w1)
            → w1 ≡ w
            → Selected system timeout c.registered w1 ready w2
            → read_ready system options ready c w2 ≡ (ok c', w')
            → IsBounded limit c'
              × ((c'.exceeded ≡ true)
                  ⊎ (measure limit c' + (if is_empty ready then 0 else 1) ≤ measure limit c))
            → Turned timeout_at c w c' w'
        read_lem [] c' w' timeout w1 w2 given still (ms, timed, late) done (b', nearer) =
            let same : c' ≡ c = cc done in
            let end : w2 ≡ w' = cc done in
            (b', inr (inr (same, (ms, cc, ground (arith, late, still, ap system.clock end)))))
        read_lem (p ∷ ready) c' w' timeout w1 w2 given still s done (b', nearer) =
            (b', ground (arith, nearer))

    capture_late :
        (turns : ℕ) (timeout_at : Option ℕ) (c : Capture) (ms : ℕ) (w w1 w2 : W)
        → measure limit c + 2 ≤ suc turns
        → is_empty c.registered ≡ false
        → select_timeout system options timeout_at w ≡ (ok (some ms), w1)
        → system.clock w + ms ≤ system.clock w2
        → Leads Captured w2 (capture system options turns timeout_at c)
    unfolding capture
    capture_late zero timeout_at c ms w w1 w2 enough open_pipe given late =
        ground (arith, enough, open_pipe)
    capture_late (suc turns) timeout_at c ms w w1 w2 enough open_pipe given late = rw open_pipe (
        leads (take_turn system options timeout_at c)
          (next_turn system options (capture system options turns timeout_at))
          λ c1 w3 turned. absurd (take_turn_late timeout_at c c1 ms w w1 w2 w3 given late turned))

    next_stops :
        (c1 : Capture) (rest : Capture → Exec W (Option Capture)) (w1 w' : W) (o : Option Capture)
        → next_turn system options rest c1 w1 ≡ (ok o, w')
        → ((c1.exceeded ≡ true) × (o ≡ some c1))
          ⊎ ((c1.exceeded ≡ false) × (rest c1 w1 ≡ (ok o, w')))
    next_stops c1 rest w1 w' o h = ground (arith, h)

    -- What follows a turn.
    next_lem :
        (turns : ℕ) (timeout_at : Option ℕ) (c c1 : Capture) (w w1 : W)
        → measure limit c + 2 ≤ suc turns
        → is_empty c.registered ≡ false
        → Turned timeout_at c w c1 w1
        → (IsBounded limit c1
            → c1.exceeded ≡ false
            → measure limit c1 + 2 ≤ turns
            → Leads Captured w1 (capture system options turns timeout_at c1))
        → Leads Captured w1 (next_turn system options (capture system options turns timeout_at) c1)
    next_lem turns timeout_at c c1 w w1 enough open_pipe (b1, turned) ih = record {
      at = λ o w' h. elim (next_stops c1 (capture system options turns timeout_at) w1 w' o h) [
        | inl (over, same) ↦ (c1, same, b1)
        | inr (on, rest) ↦ elim turned [
          | inl over ↦ absurd (cc)
          | inr (inl nearer) ↦ (ih b1 on (omega (arith, nearer, enough))).at o w' rest
          | inr (inr (same, (ms, given, late))) ↦
              (capture_late turns timeout_at c ms w w w1 enough open_pipe given late).at o w' (cc)
        ]
      ];
    }

    capture_lem :
        (turns : ℕ) (timeout_at : Option ℕ) (c : Capture) (w : W)
        → IsBounded limit c
        → c.exceeded ≡ false
        → measure limit c + 2 ≤ turns
        → Leads Captured w (capture system options turns timeout_at c)
    unfolding capture
    capture_lem zero timeout_at c w b e enough = absurd (omega arith)
    capture_lem (suc turns) timeout_at c w b e enough = elim (Bool-cases (is_empty c.registered)) [
      | inl closed ↦ rw closed (record { at = λ o w' h. (c, cc, b) })
      | inr open_pipe ↦ rw open_pipe (
          leads (take_turn system options timeout_at c)
            (next_turn system options (capture system options turns timeout_at))
            λ c1 w1 turned.
              next_lem turns timeout_at c c1 w w1 enough open_pipe
                ((take_turn_lem timeout_at c w b e).at c1 w1 turned)
                (capture_lem turns timeout_at c1 w1))
    ]

  -- The capture and the code that the `try` gives.
  abbrev Seen : Option (Capture × ReturnCode) → W → Type 0
  Seen o w' = (c : Capture) × (code : ReturnCode) × (o ≡ some (c, code)) × IsBounded limit c

  wait_after_lem :
      (timeout_at : Option ℕ) (o : Option Capture) (w w0 : W)
      → Captured o w0
      → Leads Seen w (wait_after system options timeout_at o)
  wait_after_lem timeout_at none w w0 (c, e, b) = absurd (cc e)
  wait_after_lem timeout_at (some c') w w0 (c, e, b) =
      leads (wait_timeout system options timeout_at) _ λ timeout w1 _.
        leads (system.wait timeout) _ λ outcome w2 _.
          leads (ended system options outcome) (λ code. pure (some (c', code)))
            λ code w3 _. record { at = λ o w' h. (c, code, cc, b) }

  observed_lem :
      (timeout_at : Option ℕ) (w : W)
      → Selects system
      → Leads Seen w (observed system options (enough_turns system options) timeout_at)
  unfolding observed
  observed_lem timeout_at w selects =
      leads (capture system options (enough_turns system options) timeout_at nothing_captured)
        (wait_after system options timeout_at)
        λ o w1 captured.
          let empty : IsBounded limit nothing_captured = record {
            kept = omega arith;
            within = inr (omega arith);
          } in
          let long =
            capture_lem selects (enough_turns system options) timeout_at nothing_captured w empty
              refl (omega arith) in
          wait_after_lem timeout_at o w1 w1 (long.at o w1 captured)

  -- What the `finally` does changes no value.
  with_finish_lem :
      {A : Type 0} (m : Exec W A) (w w' : W) (a : A)
      → with_finish system options m w ≡ (ok a, w')
      → m w ≡ (ok a, (m w).1)
  with_finish_lem m w w' a h = ground (arith, h)

  concluded_lem :
      (o : Option (Capture × ReturnCode)) (result : Option Completed) (w w' : W)
      → Seen o w
      → concluded system options o w ≡ (ok result, w')
      → (d : Completed) × (result ≡ some d)
        × (is_success d.return_code ≡ true)
        × (length d.stdout + length d.stderr ≤ limit)
  unfolding concluded
  concluded_lem none result w w' (c, code, e, b) h = absurd (cc e)
  concluded_lem (some (c', code')) result w w' (c, code, e, b) h =
      let same : c' ≡ c = cc in
      let b' : IsBounded limit c' = rw same b in
      (
        record { return_code = code'; stdout = c'.stdout; stderr = c'.stderr },
        ground (arith, h),
        ground (arith, h),
        ground (arith, h, b'.kept, b'.within),
      )

  -- Where `select` answers with registered pipes, or with none once its timeout has passed, a run that
  -- returns has not come to the end of its fuel: it returns a process that ended with the code 0, and
  -- keeps at most `output_max_bytes` bytes of its two outputs together.
  pub run_bounded_process-Ends :
      (arguments : List Text) (w w' : W) (o : Option Completed)
      → Selects system
      → run_bounded_process system options arguments w ≡ (ok o, w')
      → (done : Completed) × (o ≡ some done)
        × (is_success done.return_code ≡ true)
        × (length done.stdout + length done.stderr ≤ options.output_max_bytes)
  unfolding run_bounded_process
  run_bounded_process-Ends arguments w w' o selects h =
      (leads
          {Q = λ (o : Option Completed) _.
            (done : Completed) × (o ≡ some done)
            × (is_success done.return_code ≡ true)
            × (length done.stdout + length done.stderr ≤ options.output_max_bytes)}
          (λ (w : W). (ok (system.clock w), w)) _
          λ now w1 _. leads (system.popen arguments) _ λ has_pipes w2 _.
            leads (demand system options has_pipes runtime_error) _ λ _ w2 _.
              leads system.open_selector _ λ _ w3 _.
                leads
                  (with_finish system options (
                    observed system options (enough_turns system options)
                      (end_of system options now)))
                  (concluded system options)
                  λ seen w4 finished. record {
                    at = λ o w' last.
                        let body =
                          observed system options (enough_turns system options)
                            (end_of system options now) in
                        concluded_lem seen o w4 w'
                          ((observed_lem (end_of system options now) w3 selects).at seen (body w3).1
                            (with_finish_lem body w3 w4 seen finished))
                          last;
                  }).at
        o w' h
