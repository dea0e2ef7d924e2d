-- ===== src/Live.antt =====
-- src/specode_review/live.py: what a campaign checks of the comments of a pull request before and after
-- a review.
pub mod Evidence
use specode_review.Base.{
  ℕ, Bool, true, false, not, ◌&&◌, ◌||◌, Option, none, some, List, [], ◌∷◌, ◌++◌, map, Text, text,
  text_equal, nat_equal, ◌==◌, length, drop, any, all, is_empty, filter, nat_eq, if◌then◌else◌,
}
use specode_review.Base.Decimal.{decimal}
use specode_review.Base.Substring.{starts_with, occurs, split_text}
use specode_review.Errors.{Raised, live_precondition_error, live_evidence_error, Result, ok, err}
use specode_review.Exec.{Exec, pure, ◌>>=◌, ◌>>◌}
use specode_review.Models.{ReviewRequest}
use specode_review.Revision.{AcceptedRevision, revision_equal, from_review_request}
use specode_review.Publishing.Gateway.{ReviewComment, ReviewCommentGateway}
use specode_review.Publishing.Comment.{Library, owned_revision_comments}

-- The rest behind one backtick or more.
abbrev behind_ticks : Bool → Text → Option Text
behind_ticks seen [] = if seen then some [] else none
behind_ticks seen (c ∷ s) =
    let rest = behind_ticks true s in
    if nat_eq c b'`' then rest else if seen then some (c ∷ s) else none

abbrev pub only_ticks : Text → Bool
only_ticks s = not (is_empty s) && all (λ c. nat_eq c b'`') s

abbrev word_then_ticks : Text → Text → Bool
word_then_ticks word s = starts_with word s && only_ticks (drop (length word) s)

abbrev ends_severity : Option Text → Bool
ends_severity none = false
ends_severity (some s) =
    word_then_ticks (text " blocking ") s || word_then_ticks (text " important ") s

-- A line that `_ALLOWED_SEVERITY` matches.
unfoldable pub is_severity_line : Text → Bool
unfolding starts_with
is_severity_line line =
    starts_with (text "- Severity: ") line
    && ends_severity (behind_ticks false (drop (length (text "- Severity: ")) line))

-- `_ALLOWED_SEVERITY.search`
unfoldable pub has_severity : Text → Bool
unfolding is_severity_line split_text
has_severity body = any is_severity_line (split_text (10 ∷ []) 0 [] body)

abbrev pub raise_if : {W : Type 0} → Bool → Raised → Exec W (Unit {0})
raise_if test e w = (if test then err e else ok tt, w)

abbrev finding_mark : Text
finding_mark = text "### Finding "

-- The sections of a body: those behind each mark, or the whole.
abbrev marked : List Text → Text → List Text
marked [] body = body ∷ []
marked (section ∷ sections) body = map (λ s. finding_mark ++ s) (section ∷ sections)

unfoldable pub sections_of : Text → List Text
unfolding split_text
sections_of body = marked (drop 1 (split_text finding_mark 0 [] body)) body

-- `f"{expected_path}:{expected_line}"`
abbrev location_text : Text → Option ℕ → Text
location_text path none = path
location_text path (some line) = path ++ b':' ∷ decimal line

-- What a campaign expects of the comment.
pub record Expected : Type 0 where
  pub finding : Text
  pub path : Option Text
  pub line : Option ℕ
  pub forbidden : List Text

module _ (casefold : Text → Text) where
  abbrev pub mentions : Text → Text → Bool
  mentions part s = occurs (casefold part) (casefold s)

  abbrev pub matching_sections : Text → Text → Text → List Text
  matching_sections finding location body =
      filter (λ s. mentions finding s && mentions location s) (sections_of body)

  -- The checks of the severity, with the place of the finding where one is expected.
  unfoldable pub severity_shown : Expected → Text → Bool
  unfolding occurs sections_of has_severity
  severity_shown expected body = elim expected.path as (λ _. Bool) [
    | none ↦ has_severity body
    | some path ↦
        let sections = matching_sections expected.finding (location_text path expected.line) body in
        not (is_empty sections) && any has_severity sections
  ]

  -- The checks of the one comment.
  unfoldable pub is_evidence : Expected → ReviewComment → Bool
  unfolding severity_shown occurs
  is_evidence expected comment =
      mentions expected.finding comment.body
      && (severity_shown expected comment.body
          && not (any (λ part. occurs part comment.body) expected.forbidden))

abbrev pub only : List ReviewComment → Option ReviewComment
only [] = none
only (c ∷ []) = some c
only (c ∷ d ∷ cs) = none

module _ {W : Type 0} (library : Library) (gateway : ReviewCommentGateway W)
    (request : ReviewRequest) where
  -- `require_fresh_live_review`
  unfoldable pub require_fresh_live_review : AcceptedRevision → Exec W (Unit {0})
  require_fresh_live_review expected = do
    raise_if (not (from_review_request request == expected)) live_precondition_error
    comments ← owned_revision_comments library gateway request
    raise_if (not (is_empty comments)) live_precondition_error

  abbrev pub checked : (Text → Text) → Expected → Option ReviewComment → Result ℕ
  checked casefold expected none = err live_evidence_error
  checked casefold expected (some comment) =
      if is_evidence casefold expected comment then ok comment.id else err live_evidence_error

  -- `verify_live_review_evidence`, which returns the identifier of the comment.
  unfoldable pub verify_live_review_evidence : (Text → Text) → Expected → Exec W ℕ
  unfolding is_evidence
  verify_live_review_evidence casefold expected = do
    comments ← owned_revision_comments library gateway request
    λ (w : W). (checked casefold expected (only comments), w)
