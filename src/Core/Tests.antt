-- ===== src/Core/Tests.antt =====
-- A review in a checkout with one file.
use specode_review.Base.{
  ℕ, ◌≡◌, ◌↔◌, refl, true, false, Option, none, some, List, [], ◌∷◌, ◌++◌, Text, text, text_equal,
  ◌==◌, replicate, All, if◌then◌else◌,
}
use specode_review.Base.Decimal.{value}
use specode_review.Errors.{ReviewError, codex_or_limit, review_error, os_error, ok, err}
use specode_review.Exec.{Exec}
use specode_review.Models.{
  ReviewRequest, ReviewResult, AgentReview, Finding, Location, blocking, issues_found, is_sha,
  is_repository_name, name_head, name_tail, review_result, valid_agent_review, valid_finding,
  valid_location,
}
use specode_review.Deadline.{ReviewDeadline, remaining, remaining_review_time}
use specode_review.Publishing.Render.{rstrip}
use specode_review.Core.Grounding.{
  Entry, Checkout, parts, count_lines, ground_candidate, ground_location, ground_locations,
  ground_findings, ground_entry, ground_line, ground_contents,
}
use specode_review.Core.Grounding.Described.{IsSupported, ground_candidate_iff}
use specode_review.Core.Grounding.Raises.{IsReadable}
use specode_review.Core.Accept.{accept, checked, validated, ground_in_time}
use specode_review.Core.Reports.{IsReport, accept-IsReport}
use specode_review.Core.Diff.{
  lstrip, remove_nul, split_from, changed_paths, changed_text_lines, count_records, count_record,
  until_tab, read_int,
}
use specode_review.Core.Diff.Paths.{print_paths, changed_paths-print_paths}
use specode_review.Core.Review.{
  Reviewer, materialized, prepare_context, reviewed, cleaned_up, with_cleanup, create_workspace,
  review,
}
use specode_review.Core.Review.Sound.{IsSound, review-IsSound, review_removes}

abbrev head : Text
head = replicate 40 b'a'

abbrev base : Text
base = replicate 40 b'b'

abbrev request : ReviewRequest
request = record {
  repository = text "o/r";
  pr_number = 7;
  installation_id = 1;
  base_sha = base;
  head_sha = head;
  title = text "t";
  description = [];
}

abbrev location : Location
location = record { path = text "a.py"; line = some 2; description = none }

abbrev finding : Finding
finding = record {
  severity = blocking;
  title = text "t";
  locations = location ∷ [];
  evidence = text "e";
  impact = text "i";
  suggested_fix = text "f";
}

abbrev candidate : AgentReview
candidate = record { findings = finding ∷ [] }

abbrev file : Entry
file = record {
  is_inside = true;
  exists = true;
  is_file = true;
  is_symlink = false;
  contents = ok (text "x\r\ny\n");
}

abbrev checkout : Checkout
checkout path = file

abbrev changed : List Text
changed = text "a.py" ∷ []

grounded : ground_candidate checkout changed candidate ≡ ok tt
unfolding ground_candidate ground_findings ground_locations ground_location ground_entry ground_line
    ground_contents parts count_lines
grounded = refl

ground_candidate_iff_example :
    (ground_candidate checkout changed candidate ≡ ok tt)
    ↔ All (IsSupported checkout changed) candidate.findings
ground_candidate_iff_example = ground_candidate_iff checkout changed candidate

abbrev produce : Exec (Unit {0}) (Option Text)
produce w = (ok (some []), w)

abbrev clock : Unit {0} → ℕ
clock w = 5

abbrev deadline : Option ReviewDeadline
deadline = some (record { expires_at = 9 })

accepted_candidate :
    accept deadline clock produce (λ s. some candidate) 10 checkout changed tt ≡ (ok candidate, tt)
unfolding accept ground_in_time checked validated remaining_review_time remaining ground_candidate
    ground_findings ground_locations ground_location ground_entry ground_line ground_contents parts
    count_lines valid_agent_review valid_finding valid_location
accepted_candidate = refl

abbrev large : Exec (Unit {0}) (Option Text)
large w = (ok (some (text "{}")), w)

abbrev limit_error : ReviewError
limit_error = record { category = codex_or_limit; stage = "candidate_output" }

refused :
    accept deadline clock large (λ s. some candidate) 1 checkout changed tt
    ≡ (err (review_error limit_error), tt)
unfolding accept checked remaining_review_time remaining
refused = refl

readable : IsReadable checkout
readable path e h = cc

accept-IsReport_example : IsReport (review_error limit_error)
accept-IsReport_example =
    accept-IsReport deadline clock large (λ s. some candidate) 1 checkout changed (λ w. tt) readable
      tt tt (review_error limit_error) refused

changed_paths-print_paths_example :
    changed_paths (print_paths (text "a.py" ∷ text " b" ∷ [])) ≡ text "a.py" ∷ text " b" ∷ []
changed_paths-print_paths_example =
    changed_paths-print_paths (text "a.py" ∷ text " b" ∷ []) (refl, (refl, tt)) refl

-- A first path that begins with a space loses it.
stripped : changed_paths (print_paths (text " b" ∷ [])) ≡ text "b" ∷ []
unfolding changed_paths print_paths lstrip rstrip remove_nul split_from
stripped = refl

abbrev answer : Text → Text → Text
answer command format =
    if command == text "rev-parse"
    then head
    else if command == text "merge-base"
    then base
    else if format == text "--name-only"
    then text "a.py" ++ 0 ∷ []
    else if format == text "--numstat"
    then text "3\t1\ta.py" ++ 0 ∷ []
    else []

abbrev git : List Text → Exec (Unit {0}) Text
git [] w = (err os_error, w)
git (command ∷ []) w = (ok [], w)
git (command ∷ format ∷ arguments) w = (ok (answer command format), w)

abbrev reviewer : Reviewer (Unit {0})
reviewer = record {
  repository = text "o/r";
  max_bytes = 10;
  deadline = deadline;
  clock = clock;
  make_workspace = λ w. (ok true, w);
  remove_workspace = λ w. (ok tt, w);
  materialize = λ q w. (ok tt, w);
  git = git;
  produce = λ context. produce;
  parse = λ s. some candidate;
  checkout = λ context. checkout;
}

abbrev result : ReviewResult
result = record {
  repository = text "o/r";
  pr_number = 7;
  diff_range = record { start_sha = base; end_sha = head };
  status = issues_found;
  findings = finding ∷ [];
}

reviews : review reviewer request tt ≡ (ok result, tt)
unfolding review create_workspace cleaned_up with_cleanup reviewed prepare_context materialized
    accept ground_in_time checked validated remaining_review_time remaining ground_candidate
    ground_findings ground_locations ground_location ground_entry ground_line ground_contents parts
    count_lines valid_agent_review valid_finding valid_location lstrip rstrip remove_nul split_from
    changed_paths changed_text_lines count_records count_record until_tab read_int value is_sha
    is_repository_name name_head name_tail review_result
reviews = refl

review-IsSound_example : IsSound reviewer request result tt tt
review-IsSound_example = review-IsSound reviewer request tt tt result reviews

timed : remaining_review_time deadline clock "review" tt ≡ (ok (some 4), tt)
unfolding remaining_review_time remaining
timed = refl

review_removes_example : (last : Unit {0}) × ((review reviewer request tt).1 ≡ tt)
review_removes_example = review_removes reviewer request tt tt tt (some 4) timed refl refl
