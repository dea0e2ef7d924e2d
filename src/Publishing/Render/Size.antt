-- ===== src/Publishing/Render/Size.antt =====
-- The size of a rendered comment: a valid review is never above the limit of GitHub.
use specode_review.Base.{
  ℕ, suc, ◌+◌, ◌*◌, ◌≤◌, ◌<◌, ◌≡◌, refl, Bool, true, Option, none, some, List, [], ◌∷◌, ◌++◌, arith,
  Text, text, length, all, utf8_width, utf8_length, nat_eq, and_left, and_right, lt→leb_false,
  leb→le,
}
use specode_review.Base.Decimal.{decimal}
use specode_review.Errors.{ok}
use specode_review.Models.{
  Location, Finding, ReviewResult, Severity, blocking, important, is_sha, is_hex, valid_finding,
  valid_agent_review,
}
use specode_review.Publishing.CodeSpan.Width.{utf8_length-append}
use specode_review.Publishing.SafeText.{safe_model_text}
use specode_review.Publishing.SafeText.Bound.{utf8_length-safe_model_text}
use specode_review.Publishing.Render.{
  github_comment_max_bytes, join_lines, rstrip, line_suffix, location_note, location_line,
  location_lines, severity_value, finding_lines, findings_lines, result_lines, comment_lines,
  render_review_comment,
}

-- The bytes of lines, each with a line feed.
abbrev lines_size : List Text → ℕ
lines_size [] = 0
lines_size (line ∷ rest) = utf8_length line + 1 + lines_size rest

lines_size-append : (xs ys : List Text) → lines_size (xs ++ ys) ≡ lines_size xs + lines_size ys
lines_size-append [] ys = omega arith
lines_size-append (x ∷ xs) ys = omega (arith, lines_size-append xs ys)

utf8_length-join_lines : (lines : List Text) → utf8_length (join_lines lines) ≤ lines_size lines
unfolding join_lines utf8_length utf8_width
utf8_length-join_lines [] = omega arith
utf8_length-join_lines (line ∷ []) = omega arith
utf8_length-join_lines (line ∷ next ∷ rest) = omega (
  arith,
  utf8_length-append line (10 ∷ join_lines (next ∷ rest)),
  utf8_length-join_lines (next ∷ rest),
)

utf8_length-rstrip : (s : Text) → utf8_length (rstrip s) ≤ utf8_length s
unfolding rstrip utf8_length
utf8_length-rstrip [] = omega arith
utf8_length-rstrip (c ∷ s) = ground (arith, utf8_length-rstrip s)

hex_width : (c : ℕ) → is_hex c ≡ true → utf8_width c ≡ 1
unfolding utf8_width
hex_width c h = ground arith

pub utf8_length-hex : (s : Text) → all is_hex s ≡ true → utf8_length s ≡ length s
unfolding utf8_length
utf8_length-hex [] h = refl
utf8_length-hex (c ∷ s) h =
    omega (arith, hex_width c (and_left _ _ h), utf8_length-hex s (and_right _ _ h))

nat_eq→eq : (a b : ℕ) → nat_eq a b ≡ true → a ≡ b
nat_eq→eq a b h = ground arith

utf8_length-sha : (s : Text) → is_sha s ≡ true → utf8_length s ≡ 40
unfolding is_sha
utf8_length-sha s h = omega (
  arith,
  utf8_length-hex s (and_right (nat_eq (length s) 40) _ h),
  nat_eq→eq (length s) 40 (and_left _ (all is_hex s) h),
)

one_digit : (n : ℕ) → n < 10 → utf8_length (decimal n) ≡ 1
unfolding decimal utf8_length utf8_width
one_digit n h = ground arith

severity-size : (s : Severity) → utf8_length (severity_value s) ≤ 9
unfolding severity_value utf8_length utf8_width
severity-size blocking = omega arith
severity-size important = omega arith

line_feed_size : utf8_length (10 ∷ []) ≡ 1
unfolding utf8_length utf8_width
line_feed_size = omega arith

module _ (is_other : ℕ → Bool) where
  note-size : (o : Option Text) → utf8_length (location_note is_other o) ≤ 517
  unfolding location_note utf8_length utf8_width
  note-size none = omega arith
  note-size (some d) = omega (arith, utf8_length-safe_model_text is_other d 240)

  location_line-size : (l : Location) → utf8_length (location_line is_other l) ≤ 1601
  unfolding location_line utf8_length utf8_width
  location_line-size l =
      let place = l.path ++ line_suffix is_other l.line in
      omega (
        arith,
        utf8_length-append (safe_model_text is_other place 524)
            (location_note is_other l.description),
        utf8_length-safe_model_text is_other place 524,
        note-size l.description,
      )

  location_lines-size :
      (ls : List Location) → lines_size (location_lines is_other ls) ≤ length ls * 1602
  unfolding location_lines
  location_lines-size [] = omega arith
  location_lines-size (l ∷ ls) = omega (arith, location_line-size l, location_lines-size ls)

  finding_lines-size :
      (index : ℕ) (f : Finding)
      → index < 10
      → length f.locations ≤ 3
      → lines_size (finding_lines is_other index f) ≤ 10190
  unfolding finding_lines utf8_length utf8_width
  finding_lines-size index f h k =
      let title = safe_model_text is_other f.title 160 in
      let last_lines : List Text =
        (text "- Evidence: " ++ safe_model_text is_other f.evidence 1200)
        ∷ (text "- Impact: " ++ safe_model_text is_other f.impact 600)
        ∷ (text "- Suggested fix: " ++ safe_model_text is_other f.suggested_fix 600)
        ∷ []
        ∷ [] in
      omega (
        arith,
        one_digit index h,
        utf8_length-append (decimal index) (text ": " ++ title),
        utf8_length-safe_model_text is_other f.title 160,
        utf8_length-safe_model_text is_other (severity_value f.severity) 9,
        lines_size-append (location_lines is_other f.locations) last_lines,
        location_lines-size f.locations,
        utf8_length-safe_model_text is_other f.evidence 1200,
        utf8_length-safe_model_text is_other f.impact 600,
        utf8_length-safe_model_text is_other f.suggested_fix 600,
      )

  few_locations : (f : Finding) → valid_finding f ≡ true → length f.locations ≤ 3
  unfolding valid_finding
  few_locations f h = ground arith

  findings_lines-size :
      (index : ℕ) (fs : List Finding)
      → index + length fs ≤ 10
      → all valid_finding fs ≡ true
      → lines_size (findings_lines is_other index fs) ≤ length fs * 10190
  unfolding findings_lines
  findings_lines-size index [] h k = omega arith
  findings_lines-size index (f ∷ fs) h k = omega (
    arith,
    lines_size-append (finding_lines is_other index f) (findings_lines is_other (suc index) fs),
    finding_lines-size index f (omega arith) (few_locations f (and_left _ _ k)),
    findings_lines-size (suc index) fs (omega arith) (and_right _ _ k),
  )

  result_lines-size :
      (fs : List Finding)
      → length fs ≤ 5
      → all valid_finding fs ≡ true
      → lines_size (result_lines is_other fs) ≤ 51000
  unfolding result_lines utf8_length utf8_width
  result_lines-size [] h k = omega arith
  result_lines-size (f ∷ fs) h k = omega (arith, findings_lines-size 1 (f ∷ fs) (omega arith) k)

  comment_lines-size :
      (r : ReviewResult)
      → is_sha r.diff_range.start_sha ≡ true
      → is_sha r.diff_range.end_sha ≡ true
      → length r.findings ≤ 5
      → all valid_finding r.findings ≡ true
      → lines_size (comment_lines is_other r) ≤ 52000
  unfolding comment_lines utf8_length utf8_width
  comment_lines-size r hs he hn hv = omega (
    arith,
    utf8_length-sha r.diff_range.start_sha hs,
    utf8_length-sha r.diff_range.end_sha he,
    utf8_length-append r.diff_range.start_sha (text ".." ++ (r.diff_range.end_sha ++ text "`")),
    utf8_length-append r.diff_range.end_sha (text "`"),
    result_lines-size r.findings hn hv,
  )

  -- A result with valid commit hashes and at most five valid findings always becomes a comment, of
  -- at most 52001 bytes: the size test behind the rendering never fails.
  pub render_review_comment_total :
      (r : ReviewResult)
      → is_sha r.diff_range.start_sha ≡ true
      → is_sha r.diff_range.end_sha ≡ true
      → valid_agent_review (record { findings = r.findings }) ≡ true
      → (comment : Text) × (render_review_comment is_other r ≡ ok comment)
        × (utf8_length comment ≤ 52001)
  unfolding render_review_comment valid_agent_review
  render_review_comment_total r hs he hv =
      let body = rstrip (join_lines (comment_lines is_other r)) in
      let small : utf8_length (body ++ 10 ∷ []) ≤ 52001 = omega (
        arith,
        utf8_length-append body (10 ∷ []),
        line_feed_size,
        utf8_length-rstrip (join_lines (comment_lines is_other r)),
        utf8_length-join_lines (comment_lines is_other r),
        comment_lines-size r hs he (leb→le _ _ (and_left _ _ hv)) (and_right _ _ hv),
      ) in
      (
        body ++ 10 ∷ [],
        rw (
            lt→leb_false github_comment_max_bytes (utf8_length (body ++ 10 ∷ []))
              (omega (arith, small))),
        small,
      )
