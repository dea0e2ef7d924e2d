-- ===== src/Publishing/SafeText.antt =====
-- `_safe_model_text` of src/specode_review/publishing.py: model text as a code span of bounded size.
pub mod Bound
pub mod Clean
use specode_review.Base.{
  ℕ, zero, suc, ◌+◌, ◌-◌, ◌*◌, ◌/◌, Bool, ◌&&◌, [], ◌∷◌, ◌++◌, Text, text, map, nat_eq, leb, ltb,
  take, length, utf8_length, if◌then◌else◌,
}
use specode_review.Publishing.CodeSpan.{render_code_span}

-- `value.replace("\r\n", " ")`
abbrev pub replace_crlf : Text → Text
replace_crlf [] = []
replace_crlf (c ∷ []) = c ∷ []
replace_crlf (c ∷ d ∷ rest) =
    let both = 32 ∷ replace_crlf rest in
    let one = c ∷ replace_crlf (d ∷ rest) in if nat_eq c 13 && nat_eq d 10 then both else one

-- `value.replace(old, " ")` for one character.
abbrev pub replace_char : ℕ → Text → Text
replace_char old = map (λ c. if nat_eq c old then 32 else c)

-- `is_other` is `category(character).startswith("C")`, a table of the Unicode standard.
unfoldable pub sanitize : (ℕ → Bool) → Text → Text
sanitize is_other value =
    map (λ c. if nat_eq c 9 then 32 else if is_other c then 0xfffd else c)
      (replace_char 10 (replace_char 13 (replace_crlf value)))

abbrev pub truncation_marker : Text
truncation_marker = 0x2026 ∷ text " [truncated]"

abbrev pub byte_budget : ℕ → ℕ
byte_budget declared_max = declared_max * 2 + 32

-- The code span of a prefix, with the marker.
unfoldable pub truncated_span : Text → ℕ → Text
truncated_span sanitized n = render_code_span (take n sanitized ++ truncation_marker)

-- The loop `while low < high`, on fuel.
unfoldable pub longest_fit : ℕ → ℕ → Text → ℕ → ℕ → ℕ
longest_fit zero budget sanitized low high = low
longest_fit (suc fuel) budget sanitized low high =
    let midpoint = (low + high + 1) / 2 in
    let longer = longest_fit fuel budget sanitized midpoint high in
    let shorter = longest_fit fuel budget sanitized low (midpoint - 1) in
    if ltb low high
    then (if leb (utf8_length (truncated_span sanitized midpoint)) budget then longer else shorter)
    else low

unfoldable pub safe_model_text : (ℕ → Bool) → Text → ℕ → Text
unfolding longest_fit sanitize
safe_model_text is_other value declared_max =
    let sanitized = sanitize is_other value in
    let rendered = render_code_span sanitized in
    let budget = byte_budget declared_max in
    let low = longest_fit (length sanitized) budget sanitized 0 (length sanitized) in
    if leb (utf8_length rendered) budget then rendered else truncated_span sanitized low
