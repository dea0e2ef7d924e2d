-- ===== src/Base/Substring.antt =====
-- Parts of texts: `in`, `startswith`, `split` and `removeprefix` of Python's strings.
use Prim.Native.Nat.{ℕ, zero, suc}
use mathlib.Core.Bool.{Bool, true, false, ◌&&◌, ◌||◌}
use mathlib.Core.List.{List, [], ◌∷◌, ◌++◌}
use specode_review.Base.Tests.{nat_eq, if◌then◌else◌}
use specode_review.Base.Lists.{length, drop}
use specode_review.Base.Codes.{Text}

-- `s.startswith(prefix)`
unfoldable pub starts_with : Text → Text → Bool
starts_with [] s = true
starts_with (c ∷ prefix) [] = false
starts_with (c ∷ prefix) (d ∷ s) = nat_eq c d && starts_with prefix s

-- `part in s`
unfoldable pub occurs : Text → Text → Bool
unfolding starts_with
occurs part [] = starts_with part []
occurs part (c ∷ s) = starts_with part (c ∷ s) || occurs part s

-- `s.split(separator)` for a separator that is not empty: how much of one is still to be passed over,
-- and the piece that is being read.
unfoldable pub split_text : Text → ℕ → Text → Text → List Text
unfolding starts_with
split_text separator skip current [] = current ∷ []
split_text separator (suc skip) current (c ∷ s) = split_text separator skip current s
split_text [] zero current (c ∷ s) = split_text [] zero (current ++ c ∷ []) s
split_text (b ∷ separator) zero current (c ∷ s) =
    let ended = current ∷ split_text (b ∷ separator) (length separator) [] s in
    let longer = split_text (b ∷ separator) zero (current ++ c ∷ []) s in
    if starts_with (b ∷ separator) (c ∷ s) then ended else longer

-- `s.removeprefix(prefix)`
abbrev pub remove_prefix : Text → Text → Text
remove_prefix prefix s = if starts_with prefix s then drop (length prefix) s else s
