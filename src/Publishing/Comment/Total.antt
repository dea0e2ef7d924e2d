-- ===== src/Publishing/Comment/Total.antt =====
-- The expected comment of a valid review can always be rendered.
use specode_review.Base.{
  ◌+◌, ◌<◌, ◌≡◌, true, [], ◌∷◌, ◌++◌, arith, Text, text, lt→leb_false, utf8_length, utf8_width,
}
use specode_review.Errors.{ok}
use specode_review.Models.{ReviewRequest, ReviewResult, is_sha, valid_agent_review}
use specode_review.Revision.{external_id, canonical, from_review_request}
use specode_review.Publishing.CodeSpan.Width.{utf8_length-append}
use specode_review.Publishing.Render.{github_comment_max_bytes}
use specode_review.Publishing.Render.Size.{render_review_comment_total, utf8_length-hex}
use specode_review.Publishing.Comment.{
  Library, review_marker, expected_review_comment, expected_from,
}
use specode_review.Publishing.Comment.Marker.{IsDigest}

marker-size :
    (library : Library) (request : ReviewRequest)
    → IsDigest library.sha256
    → utf8_length (review_marker library request) ≡ 91
unfolding review_marker external_id utf8_length utf8_width
marker-size library request d =
    let digest = library.sha256 (canonical (from_review_request request)) in
    omega (
      arith,
      utf8_length-append digest (text " -->"),
      utf8_length-hex digest (d.hex (canonical (from_review_request request))),
      d.size (canonical (from_review_request request)),
    )

utf8_length-line_feed : (s : Text) → utf8_length (10 ∷ s) ≡ 1 + utf8_length s
unfolding utf8_length utf8_width
utf8_length-line_feed s = omega arith

utf8_length-empty : utf8_length [] ≡ 0
unfolding utf8_length
utf8_length-empty = omega arith

-- For a result with valid commit hashes and at most five valid findings the expected comment exists:
-- neither of the two size tests raises. It has fewer bytes than GitHub's limit.
pub expected_review_comment_total :
    (library : Library) (request : ReviewRequest) (result : ReviewResult)
    → IsDigest library.sha256
    → is_sha result.diff_range.start_sha ≡ true
    → is_sha result.diff_range.end_sha ≡ true
    → valid_agent_review (record { findings = result.findings }) ≡ true
    → (body : Text) × (expected_review_comment library request result ≡ ok body)
      × (utf8_length body < github_comment_max_bytes)
unfolding expected_review_comment expected_from
expected_review_comment_total library request result d hs he hv =
    let (comment, rendered, small) = render_review_comment_total library.is_other result hs he hv in
    let tail = review_marker library request ++ 10 ∷ [] in
    let fits : utf8_length (comment ++ 10 ∷ tail) < github_comment_max_bytes = omega (
      arith,
      small,
      utf8_length-append comment (10 ∷ tail),
      utf8_length-line_feed tail,
      utf8_length-append (review_marker library request) (10 ∷ []),
      utf8_length-line_feed [],
      utf8_length-empty,
      marker-size library request d,
    ) in
    (
      comment ++ 10 ∷ tail,
      rw (
        rendered,
        lt→leb_false github_comment_max_bytes (utf8_length (comment ++ 10 ∷ tail)) fits,
      ),
      fits,
    )
