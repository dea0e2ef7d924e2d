-- ===== src/Publishing/Render.antt =====
-- `render_review_comment` of src/specode_review/publishing.py.
pub mod Size
use specode_review.Base.{
  ℕ, suc, ◌+◌, Bool, ◌&&◌, ◌||◌, Option, none, some, List, [], ◌∷◌, ◌++◌, Text, text, nat_eq, leb,
  is_empty, utf8_length, if◌then◌else◌,
}
use specode_review.Base.Decimal.{decimal}
use specode_review.Errors.{Result, ok, err, value_error}
use specode_review.Models.{Location, Finding, ReviewResult, Severity, blocking, important}
use specode_review.Publishing.SafeText.{safe_model_text}

abbrev pub github_comment_max_bytes : ℕ
github_comment_max_bytes = 65536

unfoldable pub severity_value : Severity → Text
severity_value blocking = text "blocking"
severity_value important = text "important"

-- `"\n".join(lines)`
unfoldable pub join_lines : List Text → Text
join_lines [] = []
join_lines (line ∷ []) = line
join_lines (line ∷ next ∷ rest) = line ++ 10 ∷ join_lines (next ∷ rest)

-- The characters that `str.rstrip` takes off.
abbrev pub is_space : ℕ → Bool
is_space c =
    (leb 9 c && leb c 13)
    || ((leb 28 c && leb c 32)
        || (nat_eq c 0x85
            || (nat_eq c 0xa0
                || (nat_eq c 0x1680
                    || ((leb 0x2000 c && leb c 0x200a)
                        || ((leb 0x2028 c && leb c 0x2029)
                            || (nat_eq c 0x202f || (nat_eq c 0x205f || nat_eq c 0x3000))))))))

unfoldable pub rstrip : Text → Text
rstrip [] = []
rstrip (c ∷ s) = let rest = rstrip s in if is_empty rest && is_space c then [] else c ∷ rest

module _ (is_other : ℕ → Bool) where
  line_suffix : Option ℕ → Text
  line_suffix none = []
  line_suffix (some line) = b':' ∷ decimal line

  location_note : Option Text → Text
  location_note none = []
  location_note (some description) = 32 ∷ 0x2014 ∷ 32 ∷ safe_model_text is_other description 240

  unfoldable pub location_line : Location → Text
  unfolding line_suffix location_note
  location_line location =
      text "  - "
      ++ (safe_model_text is_other (location.path ++ line_suffix location.line) 524
          ++ location_note location.description)

  unfoldable pub location_lines : List Location → List Text
  location_lines [] = []
  location_lines (location ∷ rest) = location_line location ∷ location_lines rest

  unfoldable pub finding_lines : ℕ → Finding → List Text
  finding_lines index finding =
      (text "### Finding "
        ++ (decimal index ++ (text ": " ++ safe_model_text is_other finding.title 160)))
      ∷ []
      ∷ (text "- Severity: " ++ safe_model_text is_other (severity_value finding.severity) 9)
      ∷ text "- Locations:"
      ∷ (location_lines finding.locations
          ++ ((text "- Evidence: " ++ safe_model_text is_other finding.evidence 1200)
              ∷ (text "- Impact: " ++ safe_model_text is_other finding.impact 600)
              ∷ (text "- Suggested fix: " ++ safe_model_text is_other finding.suggested_fix 600)
              ∷ []
              ∷ []))

  -- `for index, finding in enumerate(result.findings, start=index)`
  unfoldable pub findings_lines : ℕ → List Finding → List Text
  findings_lines index [] = []
  findings_lines index (finding ∷ rest) =
      finding_lines index finding ++ findings_lines (suc index) rest

  unfoldable pub result_lines : List Finding → List Text
  result_lines [] =
      text "## No important issues found"
      ∷ []
      ∷ text "No blocking or important defects were found in this revision."
      ∷ []
  result_lines (finding ∷ rest) = text "## Issues found" ∷ [] ∷ findings_lines 1 (finding ∷ rest)

  unfoldable pub comment_lines : ReviewResult → List Text
  comment_lines result =
      text "# Automated code review"
      ∷ []
      ∷ text "This comment was generated by the automated reviewer."
      ∷ (text "Reviewed commit range: `"
          ++ (result.diff_range.start_sha
              ++ (text ".." ++ (result.diff_range.end_sha ++ text "`"))))
      ∷ []
      ∷ result_lines result.findings

  unfoldable pub render_review_comment : ReviewResult → Result Text
  render_review_comment result =
      let comment = rstrip (join_lines (comment_lines result)) ++ 10 ∷ [] in
      if leb github_comment_max_bytes (utf8_length comment) then err value_error else ok comment
