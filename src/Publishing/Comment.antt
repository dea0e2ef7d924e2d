-- ===== src/Publishing/Comment.antt =====
-- The comment that src/specode_review/publishing.py expects for a revision: its body, the marker by
-- which it is found again, and which comments of a pull request are the application's own.
pub mod Marker
pub mod Total
use specode_review.Base.{
  ℕ, Bool, true, false, ◌&&◌, ◌||◌, Option, none, some, List, [], ◌∷◌, ◌++◌, Text, text, leb,
  nat_eq, utf8_length, ◌==◌, text_equal, nat_equal, lower, if◌then◌else◌,
}
use specode_review.Errors.{value_error, Result, ok, err}
use specode_review.Exec.{Exec, pure, ◌>>=◌}
use specode_review.Models.{ReviewRequest, ReviewResult}
use specode_review.Revision.{from_review_request, external_id}
use specode_review.Publishing.Render.{github_comment_max_bytes, render_review_comment}
use specode_review.Publishing.Gateway.{ReviewComment, ReviewCommentGateway}

-- The tables and the hash function of the Python libraries that the publication relies on.
pub record Library : Type 0 where
  pub is_other : ℕ → Bool
  pub sha256 : Text → Text

unfoldable pub same_identity : ReviewRequest → ReviewResult → Bool
same_identity request result =
    (lower request.repository == lower result.repository)
    && ((request.pr_number == result.pr_number)
        && (lower request.head_sha == lower result.diff_range.end_sha))

-- `comment.body.endswith(marker_line)`
abbrev ends_at : Bool → Text → Text → Bool
ends_at longer suffix s = (s == suffix) || longer

unfoldable pub ends_with : Text → Text → Bool
ends_with suffix [] = [] == suffix
ends_with suffix (c ∷ s) = ends_at (ends_with suffix s) suffix (c ∷ s)

abbrev has_app : ℕ → Option ℕ → Bool
has_app app_id none = false
has_app app_id (some id) = id == app_id

-- `_is_owned_marker_comment`
unfoldable pub is_owned_marker_comment : Text → ℕ → ReviewComment → Bool
is_owned_marker_comment marker app_id comment =
    ends_with (10 ∷ (marker ++ 10 ∷ [])) comment.body
    && has_app app_id comment.performed_via_github_app

abbrev pub select : (ReviewComment → Bool) → List ReviewComment → List ReviewComment
select p [] = []
select p (c ∷ cs) = let rest = select p cs in if p c then c ∷ rest else rest

module _ (library : Library) where
  -- `_review_marker`
  unfoldable pub review_marker : ReviewRequest → Text
  review_marker request =
      text "<!-- " ++ (external_id library.sha256 (from_review_request request) ++ text " -->")

  -- `_expected_review_comment`
  expected_from : ReviewRequest → Result Text → Result Text
  expected_from request (err e) = err e
  expected_from request (ok comment) =
      let body = comment ++ 10 ∷ (review_marker request ++ 10 ∷ []) in
      if leb github_comment_max_bytes (utf8_length body) then err value_error else ok body

  unfoldable pub expected_review_comment : ReviewRequest → ReviewResult → Result Text
  unfolding expected_from
  expected_review_comment request result =
      expected_from request (render_review_comment library.is_other result)

module _ {W : Type 0} (library : Library) (gateway : ReviewCommentGateway W)
    (request : ReviewRequest) where
  -- `owned_revision_comments`
  unfoldable pub owned_revision_comments : Exec W (List ReviewComment)
  owned_revision_comments = do
    comments ← gateway.list_review_comments request
    pure (select (is_owned_marker_comment (review_marker library request) gateway.app_id) comments)

-- Where Python's `str.splitlines` ends a line; a carriage return takes a line feed along.
abbrev pub is_line_break : ℕ → Bool
is_line_break c =
    (leb 10 c && leb c 13)
    || ((leb 28 c && leb c 30) || (nat_eq c 0x85 || (leb 0x2028 c && leb c 0x2029)))

-- A last line with no end; there is none after the end of a line.
abbrev pub unended : Text → List Text
unended [] = []
unended (c ∷ current) = (c ∷ current) ∷ []

-- `splitlines`, with whether a carriage return was read last and the line that is being read.
unfoldable pub split_lines : Bool → Text → Text → List Text
split_lines after_return current [] = unended current
split_lines after_return current (c ∷ s) =
    let paired = split_lines false [] s in
    let ended = current ∷ split_lines (nat_eq c 13) [] s in
    let longer = split_lines false (current ++ c ∷ []) s in
    if after_return && nat_eq c 10 then paired else if is_line_break c then ended else longer

abbrev pub last_line : List Text → Option Text
last_line [] = none
last_line (line ∷ []) = some line
last_line (line ∷ next ∷ rest) = last_line (next ∷ rest)
