-- ===== src/Publishing/Comment/Marker.antt =====
-- The body that is published ends with the marker of its revision, so that it is found again.
use specode_review.Base.{
  ℕ, ◌≡◌, refl, ap, ◌∙◌, not, if◌then◌else◌, Bool, true, false, ◌&&◌, some, List, [], ◌∷◌, ◌++◌,
  arith, Text, text, text_eq_iff, length, All, all, nat_eq, and_left, and_right, text_equal,
  nat_equal, ◌<◌,
}
use mathlib.Core.List.{append_assoc}
use specode_review.Errors.{Result, ok, err}
use specode_review.Models.{ReviewRequest, ReviewResult, is_hex}
use specode_review.Revision.{external_id, canonical, from_review_request}
use specode_review.Publishing.Render.{render_review_comment}
use specode_review.Publishing.Comment.{
  Library, ends_with, is_owned_marker_comment, review_marker, expected_from,
  expected_review_comment, is_line_break, split_lines, last_line,
}

-- What the documentation of `hashlib` says of a SHA-256 digest in hexadecimal.
pub record IsDigest (sha256 : Text → Text) : Type 0 where
  pub hex : (s : Text) → all is_hex (sha256 s) ≡ true
  pub size : (s : Text) → length (sha256 s) ≡ 64

abbrev IsOneLine : Text → Type 0
IsOneLine = All (λ c. is_line_break c ≡ false)

hex-IsOneLine : (s : Text) → all is_hex s ≡ true → IsOneLine s
hex-IsOneLine [] h = tt
hex-IsOneLine (c ∷ s) h = (hex_no_break c (and_left _ _ h), hex-IsOneLine s (and_right _ _ h))
  where
    hex_no_break : (c : ℕ) → is_hex c ≡ true → is_line_break c ≡ false
    hex_no_break c h = ground arith

literal-IsOneLine : (s : Text) → all (λ c. not (is_line_break c)) s ≡ true → IsOneLine s
literal-IsOneLine [] h = tt
literal-IsOneLine (c ∷ s) h = ground (arith, literal-IsOneLine s)

IsOneLine-append : (s t : Text) → IsOneLine s → IsOneLine t → IsOneLine (s ++ t)
IsOneLine-append [] t hs ht = ht
IsOneLine-append (c ∷ s) t hs ht = (hs.0, IsOneLine-append s t hs.1 ht)

marker-IsOneLine :
    (library : Library) (q : ReviewRequest)
    → IsDigest library.sha256
    → IsOneLine (review_marker library q)
unfolding review_marker external_id
marker-IsOneLine library q d =
    let digest : Text = library.sha256 (canonical (from_review_request q)) in
    let name : Text = text "specode-review:v1:" in
    IsOneLine-append (text "<!-- ") ((name ++ digest) ++ text " -->")
      (literal-IsOneLine (text "<!-- ") refl)
      (IsOneLine-append (name ++ digest) (text " -->")
        (IsOneLine-append name digest (literal-IsOneLine name refl)
          (hex-IsOneLine digest (d.hex (canonical (from_review_request q)))))
        (literal-IsOneLine (text " -->") refl))

ends_with_self : (suffix : Text) → ends_with suffix suffix ≡ true
unfolding ends_with
ends_with_self [] = refl
ends_with_self (c ∷ s) = ground (arith, text_eq_iff (c ∷ s) (c ∷ s))

pub ends_with-append : (before suffix : Text) → ends_with suffix (before ++ suffix) ≡ true
unfolding ends_with
ends_with-append [] suffix = ends_with_self suffix
ends_with-append (c ∷ before) suffix = ground (arith, ends_with-append before suffix)

-- The lines that begin with `m` and end with the text are `m` alone.
split-line :
    (current m : Text) (c : ℕ)
    → IsOneLine m
    → split_lines false (current ++ c ∷ []) (m ++ 10 ∷ []) ≡ (current ++ (c ∷ m)) ∷ []
unfolding split_lines
split-line current [] c h = refl
split-line current (d ∷ m) c h = rw h.0 (
    split-line (current ++ c ∷ []) m d h.1
    ∙ ap (λ (t : Text). t ∷ []) (append_assoc current (c ∷ []) (d ∷ m)))

split-marker :
    (m : Text) → IsOneLine m → 0 < length m → split_lines false [] (m ++ 10 ∷ []) ≡ m ∷ []
unfolding split_lines
split-marker [] h p = absurd (omega arith)
split-marker (c ∷ m) h p = rw h.0 (split-line [] m c h.1)

last_line-cons :
    (line : Text) (lines : List Text) {m : Text}
    → last_line lines ≡ some m
    → last_line (line ∷ lines) ≡ some m
last_line-cons line [] h = ground arith
last_line-cons line (next ∷ rest) h = h

branch-last :
    (a b : Bool) (line : Text) (xs ys zs : List Text) {m : Text}
    → last_line xs ≡ some m
    → last_line ys ≡ some m
    → last_line zs ≡ some m
    → last_line (if a then xs else if b then line ∷ ys else zs) ≡ some m
branch-last true b line xs ys zs hx hy hz = hx
branch-last false true line xs ys zs hx hy hz = last_line-cons line ys hy
branch-last false false line xs ys zs hx hy hz = hz

last_line-split :
    (after_return : Bool) (current before m : Text)
    → IsOneLine m
    → 0 < length m
    → last_line (split_lines after_return current (before ++ 10 ∷ (m ++ 10 ∷ []))) ≡ some m
unfolding split_lines
last_line-split after_return current [] m h p =
    let rest = split_lines false [] (m ++ 10 ∷ []) in
    let e : last_line rest ≡ some m = rw (split-marker m h p) in
    branch-last (after_return && true) true current rest rest rest e e e
last_line-split after_return current (c ∷ before) m h p =
    branch-last (after_return && nat_eq c 10) (is_line_break c) current _ _ _
      (last_line-split false [] before m h p) (last_line-split (nat_eq c 13) [] before m h p)
      (last_line-split false (current ++ c ∷ []) before m h p)

-- The marker that `_confirmed_receipt` reads off the expected body is the marker of the revision,
-- and a comment with that body by the application is its own.
module _ (library : Library) (digest : IsDigest library.sha256) (request : ReviewRequest) where
  expected_shape :
      (rendered : Result Text) (body : Text)
      → expected_from library request rendered ≡ ok body
      → (comment : Text) × (body ≡ comment ++ 10 ∷ (review_marker library request ++ 10 ∷ []))
  unfolding expected_from
  expected_shape (err e) body h = cc
  expected_shape (ok comment) body h = (comment, ground arith)

  marker-length : 0 < length (review_marker library request)
  unfolding review_marker
  marker-length = omega arith

  pub last_line-expected :
      (result : ReviewResult) (body : Text)
      → expected_review_comment library request result ≡ ok body
      → last_line (split_lines false [] body) ≡ some (review_marker library request)
  unfolding expected_review_comment
  last_line-expected result body h =
      let (comment, shape) =
        expected_shape (render_review_comment library.is_other result) body h in
      rw shape (
        last_line-split false [] comment (review_marker library request)
          (marker-IsOneLine library request digest) marker-length)

  pub expected-owned :
      (result : ReviewResult) (body : Text) (app_id id : ℕ)
      → expected_review_comment library request result ≡ ok body
      → is_owned_marker_comment
          (review_marker library request)
          app_id
          (record { id = id; body = body; performed_via_github_app = some app_id })
        ≡ true
  unfolding expected_review_comment is_owned_marker_comment
  expected-owned result body app_id id h =
      let (comment, shape) =
        expected_shape (render_review_comment library.is_other result) body h in
      let marker_line = 10 ∷ (review_marker library request ++ 10 ∷ []) in
      let ends : ends_with marker_line body ≡ true =
        rw shape (ends_with-append comment marker_line) in
      rw ends (ground arith)
