-- ===== src/Resources/Manager.antt =====
-- `ReviewResourceManager` of src/specode_review/resources.py, over the file system and the client of
-- the sandboxes.
use specode_review.Base.{
  Bool, false, not, ◌&&◌, ◌||◌, List, [], ◌∷◌, ◌++◌, Text, text_equal, contains, if◌then◌else◌,
}
use specode_review.Errors.{value_error, is_exception, Result, ok, err}
use specode_review.Exec.{Exec, pure, ◌>>=◌, ◌>>◌}
use specode_review.Files.{FilePath, name}
use specode_review.Resources.Names.{
  AttemptResources, is_sandbox_name, is_owned, validate_workspace_root, workspace_prefix, zeros,
  for_attempt,
}

-- What `is_symlink`, `exists` and `is_dir` say of a path.
pub record Entry : Type 0 where
  pub is_symlink : Bool
  pub exists : Bool
  pub is_dir : Bool

-- `os.path.lexists`
abbrev pub lexists : Entry → Bool
lexists e = e.is_symlink || e.exists

-- The file system, with the entries of the workspace root by their names, and the client.
pub record ResourceHost (W : Type 0) : Type 0 where
  pub root : W → Entry
  pub entry : Text → W → Entry
  pub rmtree : Text → Exec W (Unit {0})
  pub iterdir : Exec W (List Text)
  pub list_names : Exec W (List Text)
  pub remove : Text → Exec W (Unit {0})

pub record ReviewResourceManager : Type 0 where
  pub workspace_root : FilePath
  pub sandbox_prefix : Text

-- The constructor, with whether the root is a symbolic link.
unfoldable pub review_resource_manager : Bool → FilePath → Text → Result ReviewResourceManager
review_resource_manager is_symlink workspace_root sandbox_prefix =
    if not (is_sandbox_name (sandbox_prefix ++ zeros))
    then err value_error
    else elim (validate_workspace_root is_symlink workspace_root) [
      | err e ↦ err e
      | ok u ↦ ok (record { workspace_root = workspace_root; sandbox_prefix = sandbox_prefix })
    ]

-- The two attempts of a cleanup: the second is made unless the first raises what is no `Exception`,
-- and the first failure counts.
unfoldable pub first_failure : Result (Unit {0}) → Result (Unit {0}) → Result (Unit {0})
first_failure (ok u) second = second
first_failure (err e) (ok u) = err e
first_failure (err e) (err f) = if is_exception f then err e else err f

abbrev pub stops : Result (Unit {0}) → Bool
stops (ok u) = false
stops (err e) = not (is_exception e)

unfoldable pub attempt_both : {W : Type 0} → (first second : Exec W (Unit {0})) → Exec W (Unit {0})
unfolding first_failure
attempt_both first second w =
    let (r, w') = first w in
    if stops r then (r, w') else let (q, w'') = second w' in (first_failure r q, w'')

module _ {W : Type 0} (host : ResourceHost W) where
  abbrev pub refuse : (W → Bool) → Exec W (Unit {0})
  refuse test w = (if test w then err value_error else ok tt, w)

  unfoldable pub remove_workspace : Text → Exec W (Unit {0})
  remove_workspace entry_name w =
      if (host.entry entry_name w).exists then host.rmtree entry_name w else (ok tt, w)

  unfoldable pub remove_sandbox : Text → Exec W (Unit {0})
  remove_sandbox sandbox_name = do
    names ← host.list_names
    if contains names sandbox_name then host.remove sandbox_name else pure tt

  -- `cleanup`, once the resources of the attempt are known.
  unfoldable pub cleanup_of : AttemptResources → Exec W (Unit {0})
  unfolding attempt_both remove_workspace remove_sandbox
  cleanup_of resources = do
    refuse (λ w. (host.root w).is_symlink)
    refuse (λ w. (host.entry (name resources.workspace) w).is_symlink)
    refuse (λ w.
        lexists (host.entry (name resources.workspace) w)
        && not (host.entry (name resources.workspace) w).is_dir)
    attempt_both (remove_workspace (name resources.workspace))
        (remove_sandbox resources.sandbox_name)

  module _ (manager : ReviewResourceManager) where
    unfoldable pub attempt_of : Text → Exec W AttemptResources
    attempt_of attempt_id w = (
      for_attempt (host.root w).is_symlink attempt_id manager.workspace_root manager.sandbox_prefix,
      w,
    )

    unfoldable pub cleanup : Text → Exec W (Unit {0})
    unfolding attempt_of cleanup_of
    cleanup attempt_id = do resources ← attempt_of attempt_id; cleanup_of resources

  -- The loops of `sweep_stale`.
  unfoldable pub sweep_sandboxes : Text → List Text → Exec W (Unit {0})
  sweep_sandboxes prefix [] = pure tt
  sweep_sandboxes prefix (sandbox_name ∷ names) = do
    if is_owned prefix sandbox_name then host.remove sandbox_name else pure tt
    sweep_sandboxes prefix names

  unfoldable pub sweep_entry : Text → Exec W (Unit {0})
  sweep_entry entry_name = do
    refuse (λ w. (host.entry entry_name w).is_symlink || not (host.entry entry_name w).is_dir)
    host.rmtree entry_name

  unfoldable pub sweep_workspaces : List Text → Exec W (Unit {0})
  unfolding sweep_entry
  sweep_workspaces [] = pure tt
  sweep_workspaces (entry_name ∷ names) = do
    if is_owned workspace_prefix entry_name then sweep_entry entry_name else pure tt
    sweep_workspaces names

  unfoldable pub sweep_stale : ReviewResourceManager → Exec W (Unit {0})
  unfolding sweep_sandboxes sweep_workspaces
  sweep_stale manager = do
    refuse (λ w. (host.root w).is_symlink || not (host.root w).is_dir)
    names ← host.list_names
    sweep_sandboxes manager.sandbox_prefix names
    entries ← host.iterdir
    sweep_workspaces entries
