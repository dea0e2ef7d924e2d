-- ===== src/Process/Tests.antt =====
-- A process that writes two bytes to its first pipe and exits.
use specode_review.Base.{
  ℕ, ◌≤◌, ◌+◌, ◌≡◌, refl, Bool, true, false, Option, none, some, List, [], ◌∷◌, Text, text, length,
  arith,
}
use specode_review.Errors.{os_error, output_limit_error, Result, ok, err}
use specode_review.Process.{
  ProcessOptions, Pipe, pipe_equal, exited, is_success, Completed, System, observed, capture,
  take_turn, select_timeout, read_ready, take_chunk, wait_timeout, finish, concluded,
  run_bounded_process,
}
use specode_review.Process.Bounded.{Selects, Selected, run_bounded_process-Ends}
use specode_review.Process.Reaped.{SystemContract, Reaped, run_bounded_process_dead}

record Child : Type 0 where
  written : Text
  alive : Bool

abbrev first_of : List Pipe → Child → Result (List Pipe) × Child
first_of [] w = (err os_error, w)
first_of (p ∷ ps) w = (ok (p ∷ []), w)

abbrev system : System Child
system = record {
  deadline = none;
  clock = λ w. 0;
  popen = λ arguments w. (ok true, record w { alive = true });
  open_selector = λ w. (ok tt, w);
  select = λ timeout registered. first_of registered;
  read = λ p n w. (ok w.written, record w { written = [] });
  kill = λ w. (ok tt, w);
  wait = λ timeout w. (ok (some (exited 0)), record w { alive = false });
  poll = λ w. (ok w.alive, w);
  close_selector = λ w. (ok tt, w);
  close_pipes = λ w. (ok tt, w);
}

abbrev options : ProcessOptions
options = record {
  output_max_bytes = 2;
  stage = "sandbox_list";
  timeout = some 5;
  use_review_deadline = false;
}

abbrev child : Child
child = record { written = text "ok"; alive = false }

abbrev done : Completed
done = record { return_code = exited 0; stdout = text "ok"; stderr = [] }

ran :
    run_bounded_process system options [] child
    ≡ (ok (some done), record { written = []; alive = false })
unfolding run_bounded_process observed capture take_turn select_timeout read_ready take_chunk
    wait_timeout finish concluded
ran = refl

-- Three bytes are too many.
exceeded :
    (run_bounded_process system options [] (record { written = text "oks"; alive = false })).0
    ≡ err output_limit_error
unfolding run_bounded_process observed capture take_turn select_timeout read_ready take_chunk
    wait_timeout finish concluded
exceeded = refl

selected :
    (timeout : Option ℕ) (registered ready : List Pipe) (w w' : Child)
    → first_of registered w ≡ (ok ready, w')
    → Selected system timeout registered w ready w'
selected timeout [] ready w w' h = absurd (cc h)
selected timeout (p ∷ ps) [] w w' h = absurd (cc h)
selected timeout (p ∷ ps) (q ∷ ready) w w' h = ground (arith, h)

selects : Selects system
selects = record { at = selected }

run_bounded_process-Ends_example :
    (c : Completed) × (◌≡◌ {A = Option Completed} (some done) (some c))
    × (is_success c.return_code ≡ true)
    × (length c.stdout + length c.stderr ≤ 2)
run_bounded_process-Ends_example =
    run_bounded_process-Ends system options [] child (record { written = []; alive = false })
      (some done) selects ran

is_alive : Child → Bool
is_alive w = w.alive

contract : SystemContract system is_alive
unfolding is_alive
contract = record {
  starts = λ arguments w w' h. absurd (cc h);
  starts_not = λ arguments e w w' h. absurd (cc h);
  closes = λ w. (w, refl);
  polls = λ w. (w, refl);
  kills = λ w. (w, refl);
  waits = λ w. (some (exited 0), record w { alive = false }, refl, refl);
  shuts = λ w. (w, refl, refl);
}

run_bounded_process_dead_example :
    Reaped system is_alive contract options
      (run_bounded_process system options [] child).0
      (run_bounded_process system options [] child).1
run_bounded_process_dead_example =
    run_bounded_process_dead system is_alive contract options [] child

-- Without a selector the child is left running.
abbrev poor : System Child
poor = record system { open_selector = λ w. (err os_error, w) }

left_running :
    run_bounded_process poor options [] child ≡ (err os_error, record child { alive = true })
unfolding run_bounded_process
left_running = refl
