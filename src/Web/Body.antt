-- ===== src/Web/Body.antt =====
-- `_read_bounded_body` of src/specode_review/web.py.
use specode_review.Base.{
  ℕ, suc, ◌+◌, ◌-◌, ◌*◌, ◌≤◌, ◌<◌, ◌≡◌, ◌⊎◌, refl, sym, inl, inr, Bool, true, false, ◌&&◌, Option,
  none, some, List, [], ◌∷◌, ◌++◌, arith, Text, nat_eq, leb, ltb, length, length-append, Bool-cases,
  ltb→lt, if◌then◌else◌,
}
use specode_review.Core.Diff.{is_digit, strip}

abbrev pub max_webhook_body_bytes : ℕ
max_webhook_body_bytes = 256 * 1024

-- `int` of a header's text: white space round it, a sign, digits with single underscores between
-- them, and at most 4300 digits; 0 where it raises a `ValueError` or is below zero.
unfoldable pub read_digits : Bool → ℕ → ℕ → Text → Option ℕ
read_digits after_digit count value [] = if after_digit && leb count 4300 then some value else none
read_digits after_digit count value (c ∷ s) =
    let more = read_digits true (suc count) (value * 10 + (c - 48)) s in
    let next = read_digits false count value s in
    if is_digit c then more else if nat_eq c b'_' && after_digit then next else none

abbrev or_zero : Option ℕ → ℕ
or_zero none = 0
or_zero (some n) = n

unfoldable pub read_signed : Text → ℕ
unfolding read_digits
read_signed [] = 0
read_signed (c ∷ s) =
    if nat_eq c b'-'
    then 0
    else or_zero (read_digits false 0 0 (if nat_eq c b'+' then s else c ∷ s))

unfoldable pub declared_length : Option Text → ℕ
unfolding read_signed
declared_length none = 0
declared_length (some content_length) = read_signed (strip content_length)

-- The loop over the chunks; `none` is the answer 413.
unfoldable pub read_chunks : Text → List Text → Option Text
read_chunks body [] = some body
read_chunks body (chunk ∷ chunks) =
    let rest = read_chunks (body ++ chunk) chunks in
    if ltb max_webhook_body_bytes (length body + length chunk) then none else rest

unfoldable pub read_bounded_body : Option Text → List Text → Option Text
unfolding declared_length read_chunks
read_bounded_body content_length chunks =
    if ltb max_webhook_body_bytes (declared_length content_length)
    then none
    else read_chunks [] chunks

abbrev pub joined : List Text → Text
joined [] = []
joined (chunk ∷ chunks) = chunk ++ joined chunks

append_assoc : (a b c : Text) → (a ++ b) ++ c ≡ a ++ (b ++ c)
append_assoc [] b c = refl
append_assoc (x ∷ a) b c = cc (append_assoc a b c)

append_empty : (a : Text) → a ++ [] ≡ a
append_empty [] = refl
append_empty (x ∷ a) = cc (append_empty a)

-- The loop gives the chunks together exactly if they are within the limit.
read_chunks_lem :
    (body : Text) (chunks : List Text)
    → length body ≤ max_webhook_body_bytes
    → ((length (body ++ joined chunks) ≤ max_webhook_body_bytes)
        × (read_chunks body chunks ≡ some (body ++ joined chunks)))
      ⊎ ((max_webhook_body_bytes < length (body ++ joined chunks))
          × (read_chunks body chunks ≡ none))
unfolding read_chunks
read_chunks_lem body [] h = rw (append_empty body) (inl (h, refl))
read_chunks_lem body (chunk ∷ chunks) h =
    elim (Bool-cases (ltb max_webhook_body_bytes (length body + length chunk))) [
      | inl over ↦
          let longer = ltb→lt max_webhook_body_bytes (length body + length chunk) over in
          rw over (
            inr (
              omega (
                arith,
                longer,
                length-append body (chunk ++ joined chunks),
                length-append chunk (joined chunks),
              ),
              refl,
            ))
      | inr within ↦
          rw (within, sym (append_assoc body chunk (joined chunks)))
            (read_chunks_lem (body ++ chunk) chunks
              (ground (arith, within, length-append body chunk)))
    ]

-- A body is read exactly if the chunks together are within 256 KiB and the declared length is too;
-- then it is the chunks together.
pub read_bounded_body_lem :
    (content_length : Option Text) (chunks : List Text)
    → ((declared_length content_length ≤ max_webhook_body_bytes)
        × (length (joined chunks) ≤ max_webhook_body_bytes)
        × (read_bounded_body content_length chunks ≡ some (joined chunks)))
      ⊎ (((max_webhook_body_bytes < declared_length content_length)
            ⊎ (max_webhook_body_bytes < length (joined chunks)))
          × (read_bounded_body content_length chunks ≡ none))
unfolding read_bounded_body
read_bounded_body_lem content_length chunks =
    ground (arith, read_chunks_lem [] chunks (omega arith))
