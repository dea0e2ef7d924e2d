-- ===== src/Models/Description.antt =====
-- `bound_description` of src/specode_review/models.py.
use specode_review.Base.{
  ℕ, ◌-◌, ◌≤◌, ◌<◌, ◌≡◌, inl, inr, Option, none, some, [], ◌∷◌, ◌++◌, arith, Text, text, length,
  take, leb, if◌then◌else◌, length-append, length-take, le→leb, lt→leb_false, leb-cases,
}

abbrev pub description_max_chars : ℕ
description_max_chars = 10000

abbrev pub description_truncation_marker : Text
description_truncation_marker = 10 ∷ 10 ∷ text "[truncated]"

-- `value` is a string or `None`; for anything else the source raises a `TypeError`.
unfoldable pub bound_description : Option Text → Text
bound_description none = []
bound_description (some value) =
    if leb (length value) description_max_chars
    then value
    else take (description_max_chars - length description_truncation_marker) value
      ++ description_truncation_marker

length-truncated :
    (limit : ℕ) (marker value : Text)
    → length marker ≤ limit
    → limit ≤ length value
    → length (take (limit - length marker) value ++ marker) ≡ limit
length-truncated limit marker value h k = omega (
  arith,
  length-append (take (limit - length marker) value) marker,
  length-take (limit - length marker) value,
)

length-bound_description_long :
    (value : Text)
    → description_max_chars < length value
    → length (bound_description (some value)) ≡ description_max_chars
unfolding bound_description
length-bound_description_long value h = rw (lt→leb_false (length value) description_max_chars h) (
    length-truncated description_max_chars description_truncation_marker value (omega arith)
      (omega arith))

bound_description_short :
    (value : Text) → length value ≤ description_max_chars → bound_description (some value) ≡ value
unfolding bound_description
bound_description_short value h = rw (le→leb (length value) description_max_chars h)

-- A bounded description is never above the limit.
pub length-bound_description :
    (value : Option Text) → length (bound_description value) ≤ description_max_chars
length-bound_description none = unfold bound_description in omega arith
length-bound_description (some value) = elim (leb-cases (length value) description_max_chars) [
  | inl short ↦ rw (bound_description_short value short) short
  | inr long ↦ omega (arith, length-bound_description_long value long)
]

-- Bounding a second time changes nothing.
pub bound_description-idempotent :
    (value : Option Text)
    → bound_description (some (bound_description value)) ≡ bound_description value
bound_description-idempotent value =
    bound_description_short (bound_description value) (length-bound_description value)
