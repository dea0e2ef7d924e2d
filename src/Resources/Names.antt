-- ===== src/Resources/Names.antt =====
-- The patterns of src/specode_review/resources.py, and `AttemptResources`.
use specode_review.Base.{
  ℕ, ◌+◌, ◌-◌, Bool, false, not, ◌&&◌, ◌||◌, [], ◌∷◌, ◌++◌, Text, text, text_equal, ◌==◌, length,
  take, drop, all, leb, nat_eq, replicate, if◌then◌else◌,
}
use specode_review.Errors.{value_error, Result, ok, err}
use specode_review.Files.{FilePath, path_equal, is_absolute, root_of, child, parent, name}

-- `[0-9a-f]`
abbrev pub is_hex_digit : ℕ → Bool
is_hex_digit c = (leb b'0' c && leb c b'9') || (leb b'a' c && leb c b'f')

-- `_ATTEMPT_ID`
unfoldable pub is_attempt_id : Text → Bool
is_attempt_id s = nat_eq (length s) 32 && all is_hex_digit s

-- `[a-z0-9]` and `[a-z0-9.-]`
abbrev pub is_word_start : ℕ → Bool
is_word_start c = (leb b'a' c && leb c b'z') || (leb b'0' c && leb c b'9')

abbrev pub is_word : ℕ → Bool
is_word c = is_word_start c || (nat_eq c b'.' || nat_eq c b'-')

-- A character of the one class, from `low` to `high` of the other, and a hyphen.
unfoldable pub ends_with_hyphen : Text → Bool
ends_with_hyphen [] = false
ends_with_hyphen (c ∷ []) = nat_eq c b'-'
ends_with_hyphen (c ∷ d ∷ s) = is_word c && ends_with_hyphen (d ∷ s)

unfoldable pub is_prefix : (low high : ℕ) → Text → Bool
unfolding ends_with_hyphen
is_prefix low high [] = false
is_prefix low high (c ∷ s) =
    is_word_start c
    && (ends_with_hyphen s && (leb (low + 1) (length s) && leb (length s) (high + 1)))

-- `_SANDBOX_NAME`: the hexadecimal digits of the pattern are the last 32 characters, since it fixes
-- their number.
unfoldable pub is_sandbox_name : Text → Bool
is_sandbox_name s =
    let n = length s in
    leb 32 n && (is_prefix 2 30 (take (n - 32) s) && is_attempt_id (drop (n - 32) s))

-- `^{re.escape(prefix)}[0-9a-f]{32}$`
unfoldable pub is_owned : Text → Text → Bool
unfolding is_attempt_id
is_owned [] s = is_attempt_id s
is_owned (c ∷ prefix) [] = false
is_owned (c ∷ prefix) (d ∷ s) = nat_eq c d && is_owned prefix s

abbrev pub workspace_prefix : Text
workspace_prefix = text "specode-review-workspace-"

-- `_validate_workspace_root`, with whether the root is a symbolic link.
unfoldable pub validate_workspace_root : Bool → FilePath → Result (Unit {0})
validate_workspace_root is_symlink root =
    if not (is_absolute root) || ((root == root_of root) || is_symlink)
    then err value_error
    else ok tt

pub record AttemptResources : Type 0 where
  pub attempt_id : Text
  pub workspace_root : FilePath
  pub workspace : FilePath
  pub sandbox_prefix : Text
  pub sandbox_name : Text

abbrev pub zeros : Text
zeros = replicate 32 b'0'

-- The constructor, with `__post_init__`.
unfoldable pub attempt_resources : Bool → AttemptResources → Result AttemptResources
attempt_resources is_symlink r = elim (validate_workspace_root is_symlink r.workspace_root) [
  | err e ↦ err e
  | ok u ↦
      if not (is_attempt_id r.attempt_id)
      then err value_error
      else if not (parent r.workspace == r.workspace_root)
          || not (name r.workspace == (workspace_prefix ++ r.attempt_id))
      then err value_error
      else if not (is_sandbox_name (r.sandbox_prefix ++ zeros))
          || not (r.sandbox_name == (r.sandbox_prefix ++ r.attempt_id))
      then err value_error
      else ok r
]

-- `AttemptResources.for_attempt`
unfoldable pub for_attempt : Bool → Text → FilePath → Text → Result AttemptResources
for_attempt is_symlink attempt_id workspace_root sandbox_prefix =
    if not (is_attempt_id attempt_id)
    then err value_error
    else if not (is_sandbox_name (sandbox_prefix ++ attempt_id))
    then err value_error
    else attempt_resources is_symlink (record {
      attempt_id = attempt_id;
      workspace_root = workspace_root;
      workspace = child workspace_root (workspace_prefix ++ attempt_id);
      sandbox_prefix = sandbox_prefix;
      sandbox_name = sandbox_prefix ++ attempt_id;
    })
