-- ===== src/Publishing/SafeText/Bound.antt =====
-- The binary search of `_safe_model_text` finds the longest prefix that fits, and what it renders is
-- within the byte budget.
use mathlib.Core.Path.{subst}
use specode_review.Base.{
  ℕ, zero, suc, ◌+◌, ◌-◌, ◌*◌, ◌/◌, ◌≤◌, ◌<◌, ◌≡◌, ◌⊎◌, inl, inr, Bool, arith, Text, leb, ltb,
  length, utf8_length, utf8_width, Bool-cases, leb→le, leb-cases, leb→lt, lt→leb_false,
}
use specode_review.Publishing.CodeSpan.{render_code_span, longest_backtick_run, longest_run_from}
use specode_review.Publishing.SafeText.{
  sanitize, byte_budget, truncated_span, longest_fit, safe_model_text,
}

-- With fuel for the interval the search ends at a prefix that fits, if the first one does, and one
-- more character no longer fits, if none above `high` does.
module _ (budget : ℕ) (s : Text) where
  abbrev Fits : ℕ → Type 0
  Fits n = utf8_length (truncated_span s n) ≤ budget

  longest_fit-Fits : (fuel low high : ℕ) → Fits low → Fits (longest_fit fuel budget s low high)
  unfolding longest_fit
  longest_fit-Fits zero low high h = h
  longest_fit-Fits (suc fuel) low high h = ground (
    arith,
    longest_fit-Fits fuel ((low + high + 1) / 2) high,
    longest_fit-Fits fuel low ((low + high + 1) / 2 - 1) h,
  )

  longest_fit_maximal :
      (fuel low high : ℕ)
      → low ≤ high
      → high - low ≤ fuel
      → (high < length s → budget < utf8_length (truncated_span s (high + 1)))
      → let n = longest_fit fuel budget s low high in
        (low ≤ n) × (n ≤ high) × (n < length s → budget < utf8_length (truncated_span s (n + 1)))
  unfolding longest_fit
  longest_fit_maximal zero low high le enough h = (
    omega arith,
    omega arith,
    subst (λ k. k < length s → budget < utf8_length (truncated_span s (k + 1))) (omega arith) h,
  )
  longest_fit_maximal (suc fuel) low high le enough h = elim (Bool-cases (ltb low high)) [
    | inr meet ↦ rw meet (
      omega arith,
      le,
      subst (λ k. k < length s → budget < utf8_length (truncated_span s (k + 1))) (ground arith) h,
    )
    | inl apart ↦
        let midpoint = (low + high + 1) / 2 in
        elim (Bool-cases (leb (utf8_length (truncated_span s midpoint)) budget)) [
          | inl fits ↦
              let (above, below, next) =
                longest_fit_maximal fuel midpoint high (ground arith) (ground arith) h in
              rw (apart, fits) (ground arith, below, next)
          | inr too_long ↦
              let (above, below, next) =
                longest_fit_maximal fuel low (midpoint - 1) (ground arith) (ground arith) (λ _.
                  subst (λ k. budget < utf8_length (truncated_span s k)) (ground arith)
                    (leb→lt _ _ too_long)) in
              rw (apart, too_long) (above, ground arith, next)
        ]
  ]

empty_prefix_fits :
    (declared_max : ℕ) (s : Text) → utf8_length (truncated_span s 0) ≤ byte_budget declared_max
unfolding truncated_span render_code_span longest_backtick_run utf8_length longest_run_from
    utf8_width
empty_prefix_fits declared_max s = omega arith

-- What is published of a model text never has more bytes than the budget of its field: twice the
-- declared size and 32.
pub utf8_length-safe_model_text :
    (is_other : ℕ → Bool) (value : Text) (declared_max : ℕ)
    → utf8_length (safe_model_text is_other value declared_max) ≤ declared_max * 2 + 32
unfolding safe_model_text
utf8_length-safe_model_text is_other value declared_max =
    let s = sanitize is_other value in
    elim (Bool-cases (leb (utf8_length (render_code_span s)) (byte_budget declared_max))) [
      | inl fits ↦ rw fits (leb→le _ _ fits)
      | inr too_long ↦ rw too_long (
          longest_fit-Fits (byte_budget declared_max) s (length s) 0 (length s)
            (empty_prefix_fits declared_max s))
    ]

-- A text whose whole code span is above the budget is cut at some prefix, with the marker behind it,
-- and the prefix is the whole text or a prefix with one character more would be above the budget.
pub safe_model_text_maximal :
    (is_other : ℕ → Bool) (value : Text) (declared_max : ℕ)
    → byte_budget declared_max < utf8_length (render_code_span (sanitize is_other value))
    → (n : ℕ) × (safe_model_text is_other value declared_max
        ≡ truncated_span (sanitize is_other value) n)
      × (n ≤ length (sanitize is_other value))
      × ((n ≡ length (sanitize is_other value))
          ⊎ (byte_budget declared_max
              < utf8_length (truncated_span (sanitize is_other value) (n + 1))))
unfolding safe_model_text
safe_model_text_maximal is_other value declared_max h =
    let s = sanitize is_other value in
    let (above, below, next) =
      longest_fit_maximal (byte_budget declared_max) s (length s) 0 (length s) (omega arith)
        (omega arith) (λ k. absurd (omega arith)) in
    let n = longest_fit (length s) (byte_budget declared_max) s 0 (length s) in
    (
      n,
      rw (lt→leb_false _ _ h),
      below,
      elim (leb-cases (length s) n) [
        | inl whole ↦ inl (omega (arith, below))
        | inr cut ↦ inr (next cut)
      ],
    )
