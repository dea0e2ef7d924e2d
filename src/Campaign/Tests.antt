-- ===== src/Campaign/Tests.antt =====
-- A campaign whose review is done as soon as it is triggered.
use specode_review.Base.{
  ℕ, ◌+◌, ◌≡◌, ◌↔◌, refl, Bool, true, false, Option, none, some, List, [], ◌∷◌, ◌++◌, arith, Text,
  text, text_equal, ◌==◌, replicate, lower, utf8_length, utf8_width, if◌then◌else◌,
}
use specode_review.Base.Decimal.{decimal}
use specode_review.Base.Substring.{starts_with, occurs, split_text}
use specode_review.Errors.{ok}
use specode_review.Files.{path_text}
use specode_review.Models.{ReviewRequest, is_sha, is_repository_name, name_head, name_tail}
use specode_review.Revision.{revision_equal, from_review_request, external_id}
use specode_review.Core.Diff.{lstrip}
use specode_review.Publishing.Render.{join_lines, rstrip}
use specode_review.Publishing.Gateway.{ReviewComment, ReviewCommentGateway}
use specode_review.Publishing.Comment.{
  Library, owned_revision_comments, review_marker, is_owned_marker_comment, ends_with,
}
use specode_review.Live.{
  require_fresh_live_review, verify_live_review_evidence, is_evidence, severity_shown, sections_of,
  has_severity, is_severity_line,
}
use specode_review.Resources.{is_owned, is_attempt_id}
use specode_review.Campaign.Target.{
  CampaignTarget, campaign_target, is_test_repository, is_normalized_path, is_normalized_line,
  is_bounded_item, expected_revision,
}
use specode_review.Campaign.Records.{
  str, number, Record, read_records, matching_lifecycle_records, attempts_of, is_complete,
  first_complete, completed_attempt,
}
use specode_review.Campaign.Completed.{KeepsMembers, CompletedOnce, completed_attempt_iff}
use specode_review.Campaign.Run.{
  Campaign, CampaignEvidence, require_no_owned_resources, precondition, with_comment, look, pause,
  watch, run_signed_review_campaign,
}
use specode_review.Campaign.Proven.{IsProven}
use specode_review.Campaign.Ends.{IsTimed, campaign-IsProven}

record Service : Type 0 where
  now : ℕ
  triggered : Bool

abbrev head : Text
head = replicate 40 b'a'

abbrev request : ReviewRequest
request = record {
  repository = text "o/test";
  pr_number = 7;
  installation_id = 1;
  base_sha = head;
  head_sha = head;
  title = text "t";
  description = [];
}

abbrev target : CampaignTarget
target = record {
  repository = text "o/test";
  pr_number = 7;
  base_sha = head;
  head_sha = head;
  expected_finding = text "Bug";
  expected_path = text "a.py";
  expected_line = 2;
  forbidden_repository_text = text "secret" ∷ [];
  forbidden_log_text = [];
}

targeted : campaign_target lower target ≡ some target
unfolding campaign_target is_test_repository is_normalized_path is_normalized_line is_bounded_item
    is_repository_name name_head name_tail is_sha occurs starts_with split_text path_text lstrip
    rstrip lower
targeted = refl

-- A path that is a dot alone is taken for a normalized one.
dot_path : is_normalized_path (text ".") ≡ true
unfolding is_normalized_path split_text path_text
dot_path = refl

abbrev id : Text
id = replicate 32 b'b'

abbrev library : Library
library = record { is_other = λ c. false; sha256 = λ s. head }

abbrev entry : Text → Text → Text → Record
entry event key value =
    (text "repository", str (text "o/test"))
    ∷ (text "pull_request", number 7)
    ∷ (text "accepted_revision", str head)
    ∷ (text "attempt_id", str id)
    ∷ (text "event", str event)
    ∷ (key, str value)
    ∷ []

abbrev json : Text → Option Record
json s =
    if s == text "a"
    then some (entry (text "admission") (text "admission_disposition") (text "accepted"))
    else if s == text "b"
    then some (entry (text "cleanup") (text "cleanup_outcome") (text "confirmed"))
    else if s == text "c"
    then some (entry (text "publication") (text "publication_disposition") (text "created"))
    else if s == text "d"
    then some (entry (text "terminal_release") (text "terminal_outcome") (text "succeeded"))
    else none

abbrev records : List Record
records =
    entry (text "admission") (text "admission_disposition") (text "accepted")
    ∷ entry (text "cleanup") (text "cleanup_outcome") (text "confirmed")
    ∷ entry (text "publication") (text "publication_disposition") (text "created")
    ∷ entry (text "terminal_release") (text "terminal_outcome") (text "succeeded")
    ∷ []

abbrev iterate : List Text → List Text
iterate ids = ids

keeps : KeepsMembers iterate
keeps ids x = refl

completed_attempt_iff_example :
    (completed_attempt iterate records ≡ ok (some id)) ↔ CompletedOnce records id
completed_attempt_iff_example = completed_attempt_iff iterate keeps records id

abbrev comment : ReviewComment
comment = record {
  id = 5;
  body =
      text "### Finding 1: bug\n- Severity: ` blocking `\n- a.py:2\n"
      ++ review_marker library request
      ++ 10 ∷ [];
  performed_via_github_app = some 3;
}

abbrev gateway : ReviewCommentGateway Service
gateway = record {
  app_id = 3;
  list_review_comments = λ q w. (ok (if w.triggered then comment ∷ [] else []), w);
  create_review_comment = λ q body w. (ok comment, w);
  update_review_comment = λ q n body w. (ok comment, w);
}

abbrev campaign : Campaign Service
campaign = record {
  library = library;
  casefold = lower;
  json = json;
  iterate = iterate;
  gateway = gateway;
  review_request = λ pr installation w. (ok request, w);
  require_installed_service = λ w. (ok tt, w);
  journal_cursor = λ w. (ok (text "s=1"), w);
  trigger_reopened_event = λ repository pr w. (ok tt, record w { triggered = true });
  journal_lines_after =
      λ cursor w. (ok (text "a" ∷ text "-" ∷ text "b" ∷ text "c" ∷ text "d" ∷ []), w);
  owned_resource_names = λ w. (ok (text "other" ∷ [], []), w);
  clock = λ w. w.now;
  sleep = λ ms w. record w { now = w.now + ms };
}

abbrev idle : Service
idle = record { now = 3; triggered = false }

abbrev ended : Service
ended = record { now = 3; triggered = true }

abbrev evidence : CampaignEvidence
evidence = record { comment_id = 5; attempt_id = id }

ran : run_signed_review_campaign campaign target 1 20 5 idle ≡ (ok (some evidence), ended)
unfolding run_signed_review_campaign precondition require_no_owned_resources watch look pause
    with_comment require_fresh_live_review verify_live_review_evidence is_evidence severity_shown
    sections_of has_severity is_severity_line matching_lifecycle_records read_records join_lines
    completed_attempt attempts_of first_complete is_complete owned_revision_comments review_marker
    is_owned_marker_comment ends_with external_id from_review_request expected_revision is_owned
    is_attempt_id starts_with occurs split_text lower decimal utf8_length utf8_width
ran = refl

timed : IsTimed campaign
timed = record {
  sleeps = λ ms w. omega arith;
  lists = λ q w. omega arith;
  reads = λ cursor w. omega arith;
  names = λ w. omega arith;
}

campaign-IsProven_example :
    (e : CampaignEvidence) × (◌≡◌ {A = Option CampaignEvidence} (some evidence) (some e))
    × IsProven campaign keeps target 1 20 5 e idle ended
campaign-IsProven_example =
    campaign-IsProven campaign timed keeps target 1 20 5 (some evidence) idle ended ran
