-- ===== src/Core/Diff.antt =====
-- `Reviewer._changed_paths` and `_changed_text_lines` of src/specode_review/core.py: what they read
-- from the output of `git diff`.
pub mod Paths
use specode_review.Base.{
  ℕ, zero, suc, ◌+◌, Bool, true, false, not, ◌&&◌, ◌||◌, Option, none, some, List, [], ◌∷◌, ◌++◌,
  Text, text, text_equal, ◌==◌, nat_eq, leb, is_empty, all, if◌then◌else◌,
}
use specode_review.Base.Decimal.{value}
use specode_review.Errors.{value_error, Result, ok, err}
use specode_review.Publishing.Render.{is_space, rstrip}

-- `str.strip`
unfoldable pub lstrip : Text → Text
lstrip [] = []
lstrip (c ∷ s) = let rest = lstrip s in if is_space c then rest else c ∷ s

abbrev pub strip : Text → Text
strip s = rstrip (lstrip s)

-- `removesuffix("\0")`
unfoldable pub remove_nul : Text → Text
remove_nul [] = []
remove_nul (c ∷ []) = if nat_eq c 0 then [] else c ∷ []
remove_nul (c ∷ d ∷ s) = c ∷ remove_nul (d ∷ s)

-- `split(separator)`, with the piece that is being read.
unfoldable pub split_from : ℕ → Text → Text → List Text
split_from separator current [] = current ∷ []
split_from separator current (c ∷ s) =
    let ended = current ∷ split_from separator [] s in
    let longer = split_from separator (current ++ c ∷ []) s in
    if nat_eq c separator then ended else longer

-- `_changed_paths`, of the decoded output.
unfoldable pub changed_paths : Text → List Text
unfolding lstrip rstrip remove_nul split_from
changed_paths stdout =
    let output = strip stdout in if is_empty output then [] else split_from 0 [] (remove_nul output)

-- `int` of a text of decimal digits; of the other texts that `int` takes git prints none.
abbrev pub is_digit : ℕ → Bool
is_digit c = leb b'0' c && leb c b'9'

unfoldable pub read_int : Text → Result ℕ
read_int [] = err value_error
read_int (c ∷ s) = if all is_digit (c ∷ s) then ok (value 0 (c ∷ s)) else err value_error

-- `split("\t", maxsplit=2)` into exactly three parts: up to a tab, and behind it.
unfoldable pub until_tab : Text → Text → Option (Text × Text)
until_tab current [] = none
until_tab current (c ∷ s) =
    let longer = until_tab (current ++ c ∷ []) s in if nat_eq c 9 then some (current, s) else longer

abbrev add_lines : Result ℕ → Result ℕ → ℕ → Result ℕ
add_lines (ok added) (ok deleted) total = ok (total + (added + deleted))
add_lines (err e) deleted total = err e
add_lines (ok added) (err e) total = err e

-- One turn of the loop.
unfoldable pub count_record : Text → ℕ → Result ℕ
count_record line total = elim (until_tab [] line) [
  | none ↦ err value_error
  | some (added, behind) ↦ elim (until_tab [] behind) [
    | none ↦ err value_error
    | some (deleted, path) ↦
        if (added == text "-") || (deleted == text "-")
        then ok total
        else add_lines (read_int added) (read_int deleted) total
  ]
]

unfoldable pub count_records : List Text → ℕ → Result ℕ
count_records [] total = ok total
count_records (line ∷ lines) total = elim (count_record line total) [
  | ok more ↦ count_records lines more
  | err e ↦ err e
]

-- `_changed_text_lines`, of the decoded output.
unfoldable pub changed_text_lines : Text → Result ℕ
unfolding count_records count_record until_tab read_int
changed_text_lines stdout =
    let output = strip stdout in
    if is_empty output then ok 0 else count_records (split_from 0 [] (remove_nul output)) 0
