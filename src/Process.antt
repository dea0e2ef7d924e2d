-- ===== src/Process.antt =====
-- src/specode_review/process.py: a process whose output is read up to a limit, over the calls of the
-- operating system. Times are milliseconds of the monotonic clock.
pub mod Bounded
pub mod Reaped
mod Tests
use Prim.Native.String.{String}
use specode_review.Base.{
  ℕ, zero, suc, ◌+◌, ◌-◌, ◌≡◌, Bool, true, false, not, Option, none, some, List, [], ◌∷◌, ◌++◌,
  Text, Equal, ◌==◌, contains, filter, is_empty, length, leb, ltb, min, if◌then◌else◌, arith, ◌↔◌,
}
use specode_review.Errors.{
  Raised, timeout_error, runtime_error, output_limit_error, called_process_error, other, Result, ok,
  err,
}
use specode_review.Exec.{Exec, pure, raise, ◌>>=◌, ◌>>◌}
use specode_review.Deadline.{ReviewDeadline, remaining_review_time}

-- The environment of the child is left out.
pub record ProcessOptions : Type 0 where
  pub output_max_bytes : ℕ
  pub stage : String
  pub timeout : Option ℕ
  pub use_review_deadline : Bool

pub data Pipe : Type 0 where
  stdout_pipe stderr_pipe : Pipe

abbrev pipe_eq : Pipe → Pipe → Bool
pipe_eq stdout_pipe stdout_pipe = true
pipe_eq stderr_pipe stderr_pipe = true
pipe_eq _ _ = false

pub pipe_eq_iff : (p q : Pipe) → (pipe_eq p q ≡ true) ↔ (p ≡ q)
pipe_eq_iff stdout_pipe stdout_pipe = ground arith
pipe_eq_iff stdout_pipe stderr_pipe = ground arith
pipe_eq_iff stderr_pipe stdout_pipe = ground arith
pipe_eq_iff stderr_pipe stderr_pipe = ground arith

instance abbrev pub pipe_equal : Equal Pipe
pipe_equal = record { equals = pipe_eq; equals_iff = pipe_eq_iff }

-- A return code, which is negative for a signal.
pub data ReturnCode : Type 0 where
  exited signalled : ℕ → ReturnCode

abbrev pub is_success : ReturnCode → Bool
is_success (exited zero) = true
is_success _ = false

-- `subprocess.CompletedProcess`
pub record Completed : Type 0 where
  pub return_code : ReturnCode
  pub stdout : Text
  pub stderr : Text

-- The operating system, for one process. `popen` says whether the process has both pipes; `wait` is
-- `none` for a `TimeoutExpired`, and `poll` says whether the process runs. `open_selector` makes the
-- selector and registers both pipes.
pub record System (W : Type 0) : Type 0 where
  pub deadline : Option ReviewDeadline
  pub clock : W → ℕ
  pub popen : List Text → Exec W Bool
  pub open_selector : Exec W (Unit {0})
  pub select : Option ℕ → List Pipe → Exec W (List Pipe)
  pub read : Pipe → ℕ → Exec W Text
  pub kill : Exec W (Unit {0})
  pub wait : Option ℕ → Exec W (Option ReturnCode)
  pub poll : Exec W Bool
  pub close_selector : Exec W (Unit {0})
  pub close_pipes : Exec W (Unit {0})

-- `captured`, `total_bytes`, `exceeded`, and the map of the selector.
pub record Capture : Type 0 where
  pub stdout : Text
  pub stderr : Text
  pub total_bytes : ℕ
  pub exceeded : Bool
  pub registered : List Pipe

abbrev pub nothing_captured : Capture
nothing_captured = record {
  stdout = [];
  stderr = [];
  total_bytes = 0;
  exceeded = false;
  registered = stdout_pipe ∷ stderr_pipe ∷ [];
}

-- `captured[key.data].extend(chunk)`
abbrev pub extend : Pipe → Text → Capture → Capture
extend stdout_pipe chunk c = record c { stdout = c.stdout ++ chunk }
extend stderr_pipe chunk c = record c { stderr = c.stderr ++ chunk }

abbrev pub unregister : Pipe → Capture → Capture
unregister p c = record c { registered = filter (λ q. not (q == p)) c.registered }

abbrev pub least : Option ℕ → Option ℕ → Option ℕ
least none b = b
least (some a) none = some a
least (some a) (some b) = some (min a b)

module _ {W : Type 0} (system : System W) (options : ProcessOptions) where
  abbrev pub demand : Bool → Raised → Exec W (Unit {0})
  demand test e w = (if test then ok tt else err e, w)

  -- What is left until a fixed end.
  abbrev pub fixed_timeout : Option ℕ → Exec W (Option ℕ)
  fixed_timeout none w = (ok none, w)
  fixed_timeout (some timeout_at) w = (
    if leb timeout_at (system.clock w)
        then err timeout_error
        else ok (some (timeout_at - system.clock w)),
    w,
  )

  abbrev pub review_timeout : Exec W (Option ℕ)
  review_timeout =
      if options.use_review_deadline
      then remaining_review_time system.deadline system.clock options.stage
      else pure none

  unfoldable pub select_timeout : Option ℕ → Exec W (Option ℕ)
  unfolding remaining_review_time
  select_timeout timeout_at = do
    review ← review_timeout
    fixed ← fixed_timeout timeout_at
    pure (least review fixed)

  -- What is done with a chunk that was read from a pipe.
  unfoldable pub take_chunk : Pipe → Text → Capture → Exec W Capture
  take_chunk p chunk c =
      if is_empty chunk
      then if contains c.registered p then pure (unregister p c) else raise other
      else if ltb options.output_max_bytes (c.total_bytes + length chunk)
      then system.kill
        >> pure (record c { total_bytes = c.total_bytes + length chunk; exceeded = true })
      else pure (extend p chunk (record c { total_bytes = c.total_bytes + length chunk }))

  -- The loop over the pipes that are ready.
  unfoldable pub read_ready : List Pipe → Capture → Exec W Capture
  unfolding take_chunk
  read_ready [] c = pure c
  read_ready (p ∷ ready) c = do
    chunk ← system.read p (min 65536 (options.output_max_bytes - c.total_bytes + 1))
    c' ← take_chunk p chunk c
    if c'.exceeded then pure c' else read_ready ready c'

  -- One turn of the loop over the selector.
  unfoldable pub take_turn : Option ℕ → Capture → Exec W Capture
  unfolding select_timeout read_ready
  take_turn timeout_at c = do
    timeout ← select_timeout timeout_at
    ready ← system.select timeout c.registered
    read_ready ready c

  abbrev pub next_turn : (Capture → Exec W (Option Capture)) → Capture → Exec W (Option Capture)
  next_turn rest c = elim c.exceeded as (λ _. Exec W (Option Capture)) [
    | true ↦ pure (some c)
    | false ↦ rest c
  ]

  -- The loop, on fuel: `none` is its end.
  unfoldable pub capture : ℕ → Option ℕ → Capture → Exec W (Option Capture)
  unfolding take_turn
  capture zero timeout_at c = pure none
  capture (suc turns) timeout_at c =
      if is_empty c.registered
      then pure (some c)
      else (take_turn timeout_at c >>= next_turn (capture turns timeout_at))

  unfoldable pub wait_timeout : Option ℕ → Exec W (Option ℕ)
  unfolding remaining_review_time
  wait_timeout none = review_timeout
  wait_timeout (some timeout_at) = fixed_timeout (some timeout_at)

  abbrev pub ended : Option ReturnCode → Exec W ReturnCode
  ended none = raise timeout_error
  ended (some code) = pure code

  abbrev pub wait_for : Option ℕ → Capture → Exec W (Option (Capture × ReturnCode))
  wait_for timeout_at c = do
    timeout ← wait_timeout timeout_at
    outcome ← system.wait timeout
    code ← ended outcome
    pure (some (c, code))

  abbrev pub wait_after : Option ℕ → Option Capture → Exec W (Option (Capture × ReturnCode))
  wait_after timeout_at none = pure none
  wait_after timeout_at (some c) = wait_for timeout_at c

  -- The body of the `try`.
  unfoldable pub observed : ℕ → Option ℕ → Exec W (Option (Capture × ReturnCode))
  unfolding capture wait_timeout
  observed turns timeout_at = do
    captured ← capture turns timeout_at nothing_captured
    wait_after timeout_at captured

  abbrev pub end_child : Bool → Exec W (Unit {0})
  end_child true = do system.kill; system.wait none; pure tt
  end_child false = pure tt

  -- The `finally`.
  unfoldable pub finish : Exec W (Unit {0})
  finish = do
    system.close_selector
    is_running ← system.poll
    end_child is_running
    system.close_pipes

  -- What the `finally` raises counts before what was raised.
  abbrev pub finally_result : {A : Type 0} → Result A → Result (Unit {0}) → Result A
  finally_result r (ok u) = r
  finally_result r (err e) = err e

  abbrev pub with_finish : {A : Type 0} → Exec W A → Exec W A
  with_finish m w = let (r, w') = m w in let (end, w'') = finish w' in (finally_result r end, w'')

  unfoldable pub concluded : Option (Capture × ReturnCode) → Exec W (Option Completed)
  concluded none = pure none
  concluded (some (c, code)) = do
    demand (not c.exceeded) output_limit_error
    demand (is_success code) called_process_error
    pure (some (record { return_code = code; stdout = c.stdout; stderr = c.stderr }))

  abbrev pub end_of : ℕ → Option ℕ
  end_of now = elim options.timeout as (λ _. Option ℕ) [ none ↦ none | some t ↦ some (now + t) ]

  -- Enough turns: each reads a byte or closes a pipe, or is the one before a timeout.
  abbrev pub enough_turns : ℕ
  enough_turns = options.output_max_bytes + 4

  -- `_run_bounded_process`
  unfoldable pub run_bounded_process : List Text → Exec W (Option Completed)
  unfolding observed finish concluded
  run_bounded_process arguments = do
    now ← λ (w : W). (ok (system.clock w), w)
    has_pipes ← system.popen arguments
    demand has_pipes runtime_error
    system.open_selector
    outcome ← with_finish (observed enough_turns (end_of now))
    concluded outcome
