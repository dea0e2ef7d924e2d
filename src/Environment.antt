-- ===== src/Environment.antt =====
-- The environment file of the installed service, as src/specode_review/campaign.py and
-- src/specode_review/verification.py read it.
use specode_review.Base.{
  Bool, true, false, not, ◌&&◌, ◌||◌, Option, none, some, List, [], ◌∷◌, ◌++◌, Text, text,
  text_equal, ◌==◌, nat_eq, is_empty, if◌then◌else◌,
}
use specode_review.Base.Dict.{Dict, lookup, insert}
use specode_review.Base.Substring.{starts_with}
use specode_review.Core.Diff.{strip}
use specode_review.Publishing.Comment.{split_lines}

abbrev pub Environment : Type 0
Environment = Dict Text Text

-- `line.partition("=")`, or `none` where there is no `=`.
unfoldable pub partition_equals : Text → Text → Option (Text × Text)
partition_equals current [] = none
partition_equals current (c ∷ s) =
    let longer = partition_equals (current ++ c ∷ []) s in
    if nat_eq c b'=' then some (current, s) else longer

abbrev is_known : Option Text → Bool
is_known none = false
is_known (some value) = true

-- Whether a name may stand before the `=`; verification.py wants no space around it.
abbrev pub is_valid_name : Bool → Text → Environment → Bool
is_valid_name strict key environment =
    not (is_empty key)
    && ((not strict || (strip key == key)) && not (is_known (lookup key environment)))

abbrev add_setting : Bool → Option (Text × Text) → Environment → Option Environment
add_setting strict none environment = none
add_setting strict (some (key, value)) environment =
    if is_valid_name strict key environment then some (insert key value environment) else none

-- One line: a blank one and a comment say nothing.
unfoldable pub read_line : Bool → Text → Environment → Option Environment
unfolding partition_equals starts_with
read_line strict raw_line environment =
    let line = strip raw_line in
    if is_empty line || starts_with (text "#") line
    then some environment
    else add_setting strict (partition_equals [] line) environment

unfoldable pub read_lines : Bool → List Text → Environment → Option Environment
unfolding read_line
read_lines strict [] environment = some environment
read_lines strict (line ∷ lines) environment =
    elim (read_line strict line environment) as (λ _. Option Environment) [
      | none ↦ none
      | some environment' ↦ read_lines strict lines environment'
    ]

-- `none` where the file is refused.
unfoldable pub parse_environment : Bool → Text → Option Environment
unfolding read_lines split_lines
parse_environment strict content = read_lines strict (split_lines false [] content) []
