-- ===== src/Resources/Owned.antt =====
-- Which names are owned.
use specode_review.Base.{
  ◌≡◌, ◌↔◌, refl, ap, ◌∙◌, Bool, true, [], ◌∷◌, ◌++◌, arith, Text, text_equal,
}
use specode_review.Errors.{ok}
use specode_review.Files.{FilePath, path_equal, child, parent, name, parent-child, name-child}
use specode_review.Resources.Names.{
  AttemptResources, is_attempt_id, is_sandbox_name, is_owned, for_attempt, attempt_resources,
  workspace_prefix,
}

-- A name is owned exactly if it is the prefix followed by the identity of an attempt.
pub is_owned_iff :
    (prefix s : Text)
    → (is_owned prefix s ≡ true) ↔ ((id : Text) × (is_attempt_id id ≡ true) × (s ≡ prefix ++ id))
unfolding is_owned
is_owned_iff [] s = ((λ h. (s, h, refl)), λ (id, h, e). rw e h)
is_owned_iff (c ∷ prefix) [] = ground arith
is_owned_iff (c ∷ prefix) (d ∷ s) =
    let (to, from) = is_owned_iff prefix s in
    (
      (λ h.
          let (id, valid, e) = to (ground arith) in
          let same : c ≡ d = ground arith in (id, valid, cc)),
      λ (id, h, e).
          let rest : s ≡ prefix ++ id = cc in
          let same : d ≡ c = cc in ground (arith, from (id, h, rest)),
    )

abbrev made : Text → FilePath → Text → AttemptResources
made attempt_id root prefix = record {
  attempt_id = attempt_id;
  workspace_root = root;
  workspace = child root (workspace_prefix ++ attempt_id);
  sandbox_prefix = prefix;
  sandbox_name = prefix ++ attempt_id;
}

-- What the checks of an attempt establish.
pub for_attempt-Checked :
    (is_symlink : Bool) (attempt_id : Text) (root : FilePath) (prefix : Text) (r : AttemptResources)
    → for_attempt is_symlink attempt_id root prefix ≡ ok r
    → (is_attempt_id attempt_id ≡ true)
      × (is_sandbox_name (prefix ++ attempt_id) ≡ true)
      × (r ≡ made attempt_id root prefix)
unfolding for_attempt attempt_resources
for_attempt-Checked is_symlink attempt_id root prefix r h = ground (arith, h)

-- The two names of an attempt.
pub for_attempt-Names :
    (is_symlink : Bool) (attempt_id : Text) (root : FilePath) (prefix : Text) (r : AttemptResources)
    → for_attempt is_symlink attempt_id root prefix ≡ ok r
    → (r.sandbox_name ≡ prefix ++ attempt_id) × (name r.workspace ≡ workspace_prefix ++ attempt_id)
for_attempt-Names is_symlink attempt_id root prefix r h =
    let (_, _, e) = for_attempt-Checked is_symlink attempt_id root prefix r h in
    (
      ap (λ (a : AttemptResources). a.sandbox_name) e,
      ap (λ (a : AttemptResources). name a.workspace) e
          ∙ name-child root (workspace_prefix ++ attempt_id),
    )

-- The resources that an attempt is given carry its identity, lie in the workspace root, and have names
-- that the sweep of the manager with the same prefix knows as owned and that a sandbox may have.
pub for_attempt-Owned :
    (is_symlink : Bool) (attempt_id : Text) (root : FilePath) (prefix : Text) (r : AttemptResources)
    → for_attempt is_symlink attempt_id root prefix ≡ ok r
    → (r.attempt_id ≡ attempt_id)
      × (parent r.workspace ≡ root)
      × (is_owned workspace_prefix (name r.workspace) ≡ true)
      × (is_owned prefix r.sandbox_name ≡ true)
      × (is_sandbox_name r.sandbox_name ≡ true)
for_attempt-Owned is_symlink attempt_id root prefix r h =
    let (valid, named, e) = for_attempt-Checked is_symlink attempt_id root prefix r h in
    let mine : is_owned workspace_prefix (workspace_prefix ++ attempt_id) ≡ true =
      (is_owned_iff workspace_prefix _).1 (attempt_id, valid, refl) in
    (
      ap (λ (a : AttemptResources). a.attempt_id) e,
      ap (λ (a : AttemptResources). parent a.workspace) e
          ∙ parent-child root (workspace_prefix ++ attempt_id),
      ap (λ (a : AttemptResources). is_owned workspace_prefix (name a.workspace)) e
          ∙ ap (is_owned workspace_prefix) (name-child root (workspace_prefix ++ attempt_id))
          ∙ mine,
      rw e ((is_owned_iff prefix _).1 (attempt_id, valid, refl)),
      rw e named,
    )
