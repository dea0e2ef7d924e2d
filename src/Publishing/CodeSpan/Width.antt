-- ===== src/Publishing/CodeSpan/Width.antt =====
-- The size of a code span in bytes, and that a longer prefix of a text never makes a shorter span.
use specode_review.Base.{
  ℕ, zero, suc, ◌+◌, ◌*◌, ◌≤◌, ◌≡◌, [], ◌∷◌, ◌++◌, arith, Text, max, replicate, utf8_width,
  utf8_length,
}
use specode_review.Publishing.CodeSpan.Delimiter.{longest-le}
use specode_review.Publishing.CodeSpan.Run.{
  longest_run_from, longest_backtick_run, render_code_span, backtick,
}

pub utf8_length-append : (s t : Text) → utf8_length (s ++ t) ≡ utf8_length s + utf8_length t
unfolding utf8_length
utf8_length-append [] t = omega arith
utf8_length-append (c ∷ s) t = omega (arith, utf8_length-append s t)

utf8_length-ticks : (n : ℕ) → utf8_length (replicate n backtick) ≡ n
unfolding utf8_length utf8_width
utf8_length-ticks zero = omega arith
utf8_length-ticks (suc n) = omega (arith, utf8_length-ticks n)

utf8_length-space : (s : Text) → utf8_length (32 ∷ s) ≡ 1 + utf8_length s
unfolding utf8_length utf8_width
utf8_length-space s = omega arith

pub utf8_length-render :
    (value : Text)
    → utf8_length (render_code_span value)
      ≡ 2 * (longest_backtick_run value + 1) + 2 + utf8_length value
unfolding render_code_span
utf8_length-render value =
    let n = longest_backtick_run value + 1 in
    omega (
      arith,
      utf8_length-append (replicate n backtick) (32 ∷ (value ++ 32 ∷ replicate n backtick)),
      utf8_length-space (value ++ 32 ∷ replicate n backtick),
      utf8_length-append value (32 ∷ replicate n backtick),
      utf8_length-space (replicate n backtick),
      utf8_length-ticks n,
    )

-- The run of a text with something behind it.
longest-append :
    (longest current : ℕ) (s t : Text)
    → longest_run_from longest current s ≤ longest_run_from longest current (s ++ t)
unfolding longest_run_from
longest-append longest current [] t = longest-le longest current t
longest-append longest current (c ∷ s) t = ground (
  arith,
  longest-append (max longest (suc current)) (suc current) s t,
  longest-append longest 0 s t,
)
