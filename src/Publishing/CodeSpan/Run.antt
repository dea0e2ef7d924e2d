-- ===== src/Publishing/CodeSpan/Run.antt =====
-- The longest run of backticks in a text, and the code span that it is quoted in.
use specode_review.Base.{ℕ, suc, ◌+◌, [], ◌∷◌, ◌++◌, Text, max, nat_eq, replicate, if◌then◌else◌}

abbrev pub backtick : ℕ
backtick = 96

-- The loop of `_longest_backtick_run`, over its variables `longest` and `current`.
unfoldable pub longest_run_from : ℕ → ℕ → Text → ℕ
longest_run_from longest current [] = longest
longest_run_from longest current (character ∷ rest) =
    let ticked = longest_run_from (max longest (suc current)) (suc current) rest in
    let other = longest_run_from longest 0 rest in
    if nat_eq character backtick then ticked else other

unfoldable pub longest_backtick_run : Text → ℕ
longest_backtick_run value = longest_run_from 0 0 value

-- `delimiter value delimiter`, with a space on each side of the value.
unfoldable pub render_code_span : Text → Text
render_code_span value =
    let delimiter = replicate (longest_backtick_run value + 1) backtick in
    delimiter ++ 32 ∷ (value ++ 32 ∷ delimiter)
