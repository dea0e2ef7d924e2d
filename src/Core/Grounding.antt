-- ===== src/Core/Grounding.antt =====
-- `CandidateAcceptance._ground_candidate` and `_ground_location` of src/specode_review/core.py: each
-- location of a finding must name a file of the reviewed head.
pub mod Exact
pub mod Raises
pub mod Described
use specode_review.Base.{
  ℕ, zero, suc, Bool, true, false, not, ◌&&◌, ◌||◌, Option, none, some, List, [], ◌∷◌, ◌++◌, Text,
  text, text_equal, ◌==◌, nat_eq, ltb, length, any, if◌then◌else◌,
}
use specode_review.Errors.{Raised, value_error, Result, ok, err}
use specode_review.Models.{Location, Finding, AgentReview}

-- Where a path of the checkout leads: `is_inside` is whether the resolved path is below the resolved
-- checkout, `contents` what `read_bytes` returns or raises.
pub record Entry : Type 0 where
  pub is_inside : Bool
  pub exists : Bool
  pub is_file : Bool
  pub is_symlink : Bool
  pub contents : Result Text

abbrev pub Checkout : Type 0
Checkout = List Text → Entry

-- `PurePosixPath(path).parts` of a relative path: no empty part and no `.`.
abbrev is_part : Text → Bool
is_part part = not (part == []) && not (part == text ".")

abbrev add_part : Text → List Text → List Text
add_part part parts = if is_part part then part ∷ parts else parts

unfoldable pub parts_from : Text → Text → List Text
parts_from current [] = add_part current []
parts_from current (c ∷ path) =
    let closed = parts_from [] path in
    let longer = parts_from (current ++ c ∷ []) path in
    if nat_eq c b'/' then add_part current closed else longer

unfoldable pub parts : Text → List Text
unfolding parts_from
parts = parts_from []

abbrev pub is_absolute : Text → Bool
is_absolute [] = false
is_absolute (c ∷ path) = nat_eq c b'/'

abbrev pub mem : Text → List Text → Bool
mem t = any (λ u. t == u)

-- `len(contents.splitlines())` for bytes, which end a line at `\n`, `\r` and `\r\n`; with whether a
-- line is begun, and whether a carriage return was read last.
unfoldable pub count_lines : Bool → Bool → Text → ℕ
count_lines true after_return [] = 1
count_lines false after_return [] = 0
count_lines begun after_return (c ∷ s) =
    let paired = count_lines false false s in
    let ended = suc (count_lines false (nat_eq c 13) s) in
    let longer = count_lines true false s in
    if after_return && nat_eq c 10
    then paired
    else if nat_eq c 10 || nat_eq c 13
    then ended
    else longer

-- The last part of `_ground_location`, for a location with a line.
unfoldable pub ground_contents : ℕ → Bool → Result Text → Result Bool
ground_contents line is_changed (err e) = err e
ground_contents line is_changed (ok contents) =
    if any (nat_eq 0) contents
    then err value_error
    else if ltb (count_lines false false contents) line
    then err value_error
    else ok is_changed

unfoldable pub ground_line : Option ℕ → Bool → Entry → Result Bool
unfolding ground_contents
ground_line none is_changed entry = ok is_changed
ground_line (some line) is_changed entry =
    if not entry.exists || not entry.is_file
    then err value_error
    else ground_contents line is_changed entry.contents

unfoldable pub ground_entry : Option ℕ → Bool → Entry → Result Bool
unfolding ground_line
ground_entry line is_changed entry =
    if not entry.is_inside
    then err value_error
    else if not entry.exists && not is_changed
    then err value_error
    else if entry.exists && not (entry.is_file || entry.is_symlink)
    then err value_error
    else ground_line line is_changed entry

unfoldable pub ground_location : Checkout → List Text → Location → Result Bool
unfolding ground_entry parts
ground_location checkout changed_paths location =
    if is_absolute location.path
      || (mem (text "..") (parts location.path) || any (nat_eq 0) location.path)
    then err value_error
    else ground_entry location.line (mem location.path changed_paths)
        (checkout (parts location.path))

-- The inner loop, with `has_changed_location`.
unfoldable pub ground_locations : Checkout → List Text → Bool → List Location → Result Bool
ground_locations checkout changed_paths has_changed [] = ok has_changed
ground_locations checkout changed_paths has_changed (location ∷ locations) =
    elim (ground_location checkout changed_paths location) [
      | ok is_changed ↦
          ground_locations checkout changed_paths (has_changed || is_changed) locations
      | err e ↦ err e
    ]

-- What follows it.
abbrev pub require_changed : Result Bool → Result (Unit {0}) → Result (Unit {0})
require_changed (ok has_changed) rest = if has_changed then rest else err value_error
require_changed (err e) rest = err e

unfoldable pub ground_findings : Checkout → List Text → List Finding → Result (Unit {0})
ground_findings checkout changed_paths [] = ok tt
ground_findings checkout changed_paths (finding ∷ findings) =
    require_changed (ground_locations checkout changed_paths false finding.locations)
      (ground_findings checkout changed_paths findings)

-- `_ground_candidate`
unfoldable pub ground_candidate : Checkout → List Text → AgentReview → Result (Unit {0})
unfolding ground_findings
ground_candidate checkout changed_paths candidate =
    ground_findings checkout changed_paths candidate.findings
