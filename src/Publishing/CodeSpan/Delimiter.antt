-- ===== src/Publishing/CodeSpan/Delimiter.antt =====
-- The delimiter of a code span does not occur in the text that it quotes, so that no quoted text can
-- end the span.
use specode_review.Base.{
  ℕ, zero, suc, ◌+◌, ◌≤◌, ◌≡◌, ◌≢◌, refl, ap, [], ◌∷◌, ◌++◌, arith, Text, max, replicate,
}
use specode_review.Publishing.CodeSpan.Run.{
  longest_run_from, longest_backtick_run, render_code_span, backtick,
}

-- The loop never forgets a run that it has counted.
pub longest-le : (longest current : ℕ) (s : Text) → longest ≤ longest_run_from longest current s
unfolding longest_run_from
longest-le longest current [] = omega arith
longest-le longest current (c ∷ s) =
    ground (arith, longest-le (max longest (suc current)) (suc current) s, longest-le longest 0 s)

-- A run at the front of what is left is counted on top of the current one.
run-le :
    (longest current n : ℕ) (s : Text)
    → current ≤ longest
    → current + n ≤ longest_run_from longest current (replicate n backtick ++ s)
unfolding longest_run_from
run-le longest current zero s h = omega (arith, longest-le longest current s)
run-le longest current (suc n) s h =
    ground (arith, run-le (max longest (suc current)) (suc current) n s)

-- So is a run further on.
infix_run-le :
    (longest current n : ℕ) (before after : Text)
    → current ≤ longest
    → n ≤ longest_run_from longest current (before ++ (replicate n backtick ++ after))
unfolding longest_run_from
infix_run-le longest current n [] after h = omega (arith, run-le longest current n after h)
infix_run-le longest current n (c ∷ before) after h = ground (
  arith,
  infix_run-le (max longest (suc current)) (suc current) n before after,
  infix_run-le longest 0 n before after,
)

absent :
    (value before after : Text)
    → value ≢ before ++ (replicate (longest_backtick_run value + 1) backtick ++ after)
unfolding longest_backtick_run
absent value before after e = absurd (
    omega (
      arith,
      infix_run-le 0 0 (longest_backtick_run value + 1) before after (omega arith),
      ap (longest_run_from 0 0) e,
    ))

-- A code span is its value between two equal runs of backticks, one at least, with a space at each
-- side; and wherever the value is cut, this run does not stand there.
pub delimiter_absent :
    (value : Text)
    → (n : ℕ) × (1 ≤ n)
      × (render_code_span value ≡ replicate n backtick ++ 32 ∷ (value ++ 32 ∷ replicate n backtick))
      × ((before after : Text) → value ≢ before ++ (replicate n backtick ++ after))
unfolding render_code_span
delimiter_absent value = (longest_backtick_run value + 1, omega arith, refl, absent value)
