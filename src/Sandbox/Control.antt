-- ===== src/Sandbox/Control.antt =====
-- The control directory of `CodexSandboxAdapter` in src/specode_review/sandbox.py: what is written into
-- it, and how it is checked afterwards.
use specode_review.Base.{
  ℕ, Bool, true, false, not, ◌&&◌, Option, none, some, List, [], ◌∷◌, map, Text, text, text_equal,
  nat_equal, ◌==◌, all, contains, if◌then◌else◌,
}
use specode_review.Base.Dict.{Dict, lookup}
use specode_review.Base.Decimal.{decimal}
use specode_review.Errors.{
  invalid_model_output, Raised, os_error, review_error, is_os_error, Result, ok, err,
}
use specode_review.Exec.{Exec, ◌>>◌}
use specode_review.Files.{FilePath, path_equal, child}
use specode_review.Json.{json_string, json_array, json_object}
use specode_review.Core.Review.{ReviewContext}

-- What `is_file`, `is_symlink`, `read_bytes` (`none` for an `OSError`) and `stat` say of a path below
-- the control directory.
pub record TreeEntry : Type 0 where
  pub is_file : Bool
  pub is_symlink : Bool
  pub contents : Option Text
  pub mode : ℕ

abbrev pub Tree : Type 0
Tree = Dict FilePath TreeEntry

-- The text of `request.json`.
unfoldable pub request_json : ReviewContext → Text
request_json context = json_object (
    (text "schema_version", decimal 1)
    ∷ (text "repository", json_string context.request.repository)
    ∷ (text "pr_number", decimal context.request.pr_number)
    ∷ (
      text "diff_range",
      json_object (
          (text "start_sha", json_string context.diff_range.start_sha)
          ∷ (text "end_sha", json_string context.diff_range.end_sha)
          ∷ []),
    )
    ∷ (text "changed_paths", json_array (map json_string context.paths))
    ∷ (text "changed_files", decimal context.changed_files)
    ∷ (text "changed_text_lines", decimal context.changed_text_lines)
    ∷ (
      text "untrusted_pull_request",
      json_object (
          (text "title", json_string context.request.title)
          ∷ (text "description", json_string context.request.description)
          ∷ []),
    )
    ∷ [])

-- `CandidateContract`
pub record CandidateContract : Type 0 where
  pub schema_json : Text
  pub max_bytes : ℕ

-- The paths of the control directory.
abbrev pub schema_path : FilePath → FilePath
schema_path control = child control (text "review.schema.json")

abbrev pub request_path : FilePath → FilePath
request_path control = child control (text "request.json")

abbrev pub diff_path : FilePath → FilePath
diff_path control = child control (text "diff.patch")

abbrev pub result_path : FilePath → FilePath
result_path control = child control (text "result.json")

-- `0o444`
abbrev pub read_only : ℕ
read_only = 292

-- `_write_control_artifacts`
unfoldable pub write_control_artifacts :
    {W : Type 0}
    → (write : FilePath → Text → Exec W (Unit {0})) → (chmod : FilePath → ℕ → Exec W (Unit {0}))
    → FilePath
    → ReviewContext
    → CandidateContract
    → Exec W (Unit {0})
unfolding request_json
write_control_artifacts write chmod control context contract = do
  write (schema_path control) contract.schema_json
  write (diff_path control) context.primary_diff
  write (request_path control) (request_json context)
  chmod (schema_path control) read_only
  chmod (diff_path control) read_only
  chmod (request_path control) read_only

-- A snapshot: the bytes and the mode of each path.
abbrev pub Snapshot : Type 0
Snapshot = Dict FilePath (Text × ℕ)

abbrev pub add_entry : FilePath → TreeEntry → Result Snapshot → Result Snapshot
add_entry path entry (err e) = err e
add_entry path entry (ok rest) = elim entry.contents as (λ _. Result Snapshot) [
  | none ↦ err os_error
  | some contents ↦ ok ((path, (contents, entry.mode)) ∷ rest)
]

abbrev pub is_trusted : FilePath → FilePath → TreeEntry → Bool
is_trusted result path entry = not (path == result) && (entry.is_file && not entry.is_symlink)

-- `_snapshot_trusted_tree`; a raise while a path is read is one of the whole call.
unfoldable pub snapshot_trusted_tree : FilePath → Tree → Result Snapshot
snapshot_trusted_tree result [] = ok []
snapshot_trusted_tree result ((path, entry) ∷ tree) =
    let rest = snapshot_trusted_tree result tree in
    if is_trusted result path entry then add_entry path entry rest else rest

-- `current_paths`
unfoldable pub current_paths : FilePath → Tree → List FilePath
current_paths result [] = []
current_paths result ((path, entry) ∷ tree) =
    let rest = current_paths result tree in
    if not (path == result) && entry.is_file then path ∷ rest else rest

abbrev pub keys : {V : Type 0} → Dict FilePath V → List FilePath
keys [] = []
keys ((key, value) ∷ d) = key ∷ keys d

abbrev pub same_set : (xs ys : List FilePath) → Bool
same_set xs ys = all (contains ys) xs && all (contains xs) ys

abbrev pub is_unchanged : Option TreeEntry → Text × ℕ → Bool
is_unchanged none (contents, mode) = false
is_unchanged (some entry) (contents, mode) =
    elim entry.contents as (λ _. Bool) [ none ↦ false | some now ↦ now == contents ]
    && (entry.mode == mode)

abbrev pub all_unchanged : Tree → Snapshot → Bool
all_unchanged tree [] = true
all_unchanged tree ((path, value) ∷ snapshot) =
    is_unchanged (lookup path tree) value && all_unchanged tree snapshot

-- `intact`, of the tree that is there now.
unfoldable pub is_intact : FilePath → Snapshot → Tree → Bool
unfolding current_paths
is_intact result snapshot tree =
    same_set (current_paths result tree) (keys snapshot) && all_unchanged tree snapshot

abbrev pub not_intact : Raised
not_intact =
    review_error (record { category = invalid_model_output; stage = "trusted_control_integrity" })

-- `_verify_trusted_artifacts`, of the answer of `rglob`.
unfoldable pub verify_trusted_artifacts : FilePath → Snapshot → Result Tree → Result (Unit {0})
verify_trusted_artifacts result snapshot (ok tree) =
    if is_intact result snapshot tree then ok tt else err not_intact
verify_trusted_artifacts result snapshot (err e) = if is_os_error e then err not_intact else err e
