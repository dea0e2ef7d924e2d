-- ===== src/Models.antt =====
-- src/specode_review/models.py: the data that passes between the components, with the constraints
-- that pydantic checks when a value is made, as tests.
mod Description
mod Tests
unfoldable pub use Description.{bound_description}
pub use Description.{
  description_max_chars, description_truncation_marker, length-bound_description,
  bound_description-idempotent,
}
use specode_review.Base.{
  ℕ, Bool, true, false, ◌&&◌, ◌||◌, Option, none, some, List, [], ◌∷◌, Text, text, length, leb, ltb,
  nat_eq, all, is_empty, if◌then◌else◌,
}

-- A character of the class `[0-9a-fA-F]`.
abbrev pub is_hex : ℕ → Bool
is_hex c = (leb b'0' c && leb c b'9') || ((leb b'a' c && leb c b'f') || (leb b'A' c && leb c b'F'))

-- `Sha`: forty hexadecimal digits.
unfoldable pub is_sha : Text → Bool
is_sha s = nat_eq (length s) 40 && all is_hex s

-- A character of the class `[A-Za-z0-9_.-]`.
abbrev pub is_name_char : ℕ → Bool
is_name_char c =
    (leb b'0' c && leb c b'9')
    || ((leb b'a' c && leb c b'z')
        || ((leb b'A' c && leb c b'Z') || (nat_eq c b'_' || (nat_eq c b'.' || nat_eq c b'-'))))

-- The pattern `[A-Za-z0-9_.-]+/[A-Za-z0-9_.-]+`: before the slash, with whether a character was
-- read, and after it.
unfoldable pub name_tail : Bool → Text → Bool
name_tail seen [] = seen
name_tail seen (c ∷ s) = is_name_char c && name_tail true s

unfoldable pub name_head : Bool → Text → Bool
name_head seen [] = false
name_head seen (c ∷ s) =
    if nat_eq c b'/' then seen && name_tail false s else is_name_char c && name_head true s

-- `RepositoryName`
unfoldable pub is_repository_name : Text → Bool
unfolding name_head name_tail
is_repository_name s = leb 3 (length s) && (leb (length s) 140 && name_head false s)

abbrev bounded : ℕ → ℕ → Text → Bool
bounded low high s = leb low (length s) && leb (length s) high

pub record ReviewRequest : Type 0 where
  pub repository : Text
  pub pr_number : ℕ
  pub installation_id : ℕ
  pub base_sha : Text
  pub head_sha : Text
  pub title : Text
  pub description : Text

-- The constructor of `ReviewRequest`, with the validator that runs before the checks.
unfoldable pub review_request :
    Text → ℕ → ℕ → Text → Text → Text → Option Text → Option ReviewRequest
unfolding is_repository_name is_sha
review_request repository pr_number installation_id base_sha head_sha title description =
    let bounded_description = bound_description description in
    if is_repository_name repository
      && (ltb 0 pr_number
          && (ltb 0 installation_id
              && (is_sha base_sha
                  && (is_sha head_sha
                      && (bounded 1 256 title
                          && leb (length bounded_description) description_max_chars)))))
    then some (record {
      repository = repository;
      pr_number = pr_number;
      installation_id = installation_id;
      base_sha = base_sha;
      head_sha = head_sha;
      title = title;
      description = bounded_description;
    })
    else none

pub record DiffRange : Type 0 where
  pub start_sha : Text
  pub end_sha : Text

pub record Location : Type 0 where
  pub path : Text
  pub line : Option ℕ
  pub description : Option Text

pub data Severity : Type 0 where
  blocking important : Severity

pub record Finding : Type 0 where
  pub severity : Severity
  pub title : Text
  pub locations : List Location
  pub evidence : Text
  pub impact : Text
  pub suggested_fix : Text

pub record AgentReview : Type 0 where
  pub findings : List Finding

pub data ReviewStatus : Type 0 where
  issues_found no_important_issues : ReviewStatus

pub record ReviewResult : Type 0 where
  pub repository : Text
  pub pr_number : ℕ
  pub diff_range : DiffRange
  pub status : ReviewStatus
  pub findings : List Finding

abbrev valid_line : Option ℕ → Bool
valid_line none = true
valid_line (some n) = ltb 0 n

abbrev valid_note : Option Text → Bool
valid_note none = true
valid_note (some s) = bounded 1 240 s

unfoldable pub valid_location : Location → Bool
valid_location l = bounded 1 512 l.path && (valid_line l.line && valid_note l.description)

unfoldable pub valid_finding : Finding → Bool
valid_finding f =
    bounded 1 160 f.title
    && ((leb 1 (length f.locations) && leb (length f.locations) 3)
        && (all valid_location f.locations
            && (bounded 1 1200 f.evidence
                && (bounded 1 600 f.impact && bounded 1 600 f.suggested_fix))))

unfoldable pub valid_agent_review : AgentReview → Bool
valid_agent_review r = leb (length r.findings) 5 && all valid_finding r.findings

-- `"issues_found" if self.findings else "no_important_issues"`
abbrev pub expected_status : List Finding → ReviewStatus
expected_status [] = no_important_issues
expected_status (f ∷ fs) = issues_found

abbrev same_status : ReviewStatus → ReviewStatus → Bool
same_status issues_found issues_found = true
same_status no_important_issues no_important_issues = true
same_status _ _ = false

-- The constructor of `ReviewResult`, with the validator that runs after the checks.
unfoldable pub review_result :
    Text → ℕ → DiffRange → ReviewStatus → List Finding → Option ReviewResult
unfolding is_repository_name is_sha
review_result repository pr_number diff_range status findings =
    if is_repository_name repository
      && (ltb 0 pr_number
          && (is_sha diff_range.start_sha
              && (is_sha diff_range.end_sha
                  && (leb (length findings) 5 && same_status status (expected_status findings)))))
    then some (record {
      repository = repository;
      pr_number = pr_number;
      diff_range = diff_range;
      status = status;
      findings = findings;
    })
    else none
