-- ===== src/Publishing/SafeText/Clean.antt =====
-- What `_safe_model_text` quotes has no line feed, and no control or format characters.
use specode_review.Base.{
  ℕ, ◌≡◌, ◌≢◌, Bool, false, [], ◌∷◌, arith, Text, map, nat_eq, All, if◌then◌else◌,
}
use specode_review.Publishing.SafeText.{replace_crlf, sanitize}

-- A character that is no tab, line feed or carriage return, and that Unicode does not call "other".
abbrev pub IsClean : (ℕ → Bool) → ℕ → Type 0
IsClean is_other c = (is_other c ≡ false) × (c ≢ 9) × (c ≢ 10) × (c ≢ 13)

module _ (is_other : ℕ → Bool) (space : is_other 32 ≡ false)
    (replacement : is_other 0xfffd ≡ false) where
  replaced : ℕ → ℕ
  replaced c = if nat_eq c 9 then 32 else if is_other c then 0xfffd else c

  unbroken : ℕ → ℕ → ℕ
  unbroken old c = if nat_eq c old then 32 else c

  replaced-IsClean : (c : ℕ) → IsClean is_other (replaced (unbroken 10 (unbroken 13 c)))
  unfolding replaced unbroken
  replaced-IsClean c = ground (arith, space, replacement)

  map-IsClean :
      (s : Text) → All (IsClean is_other) (map replaced (map (unbroken 10) (map (unbroken 13) s)))
  map-IsClean [] = tt
  map-IsClean (c ∷ s) = (replaced-IsClean c, map-IsClean s)

  -- Whatever the model wrote, its sanitized text has no line feed, no carriage return, no tab and no
  -- character of the Unicode categories "other", as long as the space and the replacement character are
  -- in neither. Of the separators U+2028 and U+2029, which are in other categories, it says nothing.
  pub sanitize-IsClean : (value : Text) → All (IsClean is_other) (sanitize is_other value)
  unfolding sanitize replaced unbroken
  sanitize-IsClean value = map-IsClean (replace_crlf value)
