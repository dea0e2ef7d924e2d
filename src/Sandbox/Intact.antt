-- ===== src/Sandbox/Intact.antt =====
-- What the check of the control directory says of its files.
use specode_review.Base.{
  ℕ, ◌≡◌, ◌⊎◌, inl, inr, refl, sym, ◌∙◌, Bool, true, false, not, ◌&&◌, Option, none, some, List, [],
  ◌∷◌, arith, Text, text_equal, text_eq_iff, nat_equal, ◌==◌, all, contains, if◌then◌else◌,
  Option-cases,
}
use specode_review.Base.Dict.{Dict, lookup, IsDistinct}
use specode_review.Errors.{Result, ok, err}
use specode_review.Files.{FilePath, path_equal, path_eq_iff}
use specode_review.Sandbox.Control.{
  Tree, TreeEntry, Snapshot, is_trusted, add_entry, snapshot_trusted_tree, current_paths, keys,
  same_set, is_unchanged, all_unchanged, is_intact,
}

-- The bytes and the mode of a path, if it is a file and not the result.
abbrev pub file_view : FilePath → FilePath → Tree → Option (Option Text × ℕ)
file_view result path tree = elim (lookup path tree) as (λ _. Option (Option Text × ℕ)) [
  | none ↦ none
  | some entry ↦
      if not (path == result) && entry.is_file then some (entry.contents, entry.mode) else none
]

-- The same, of a file that is no symbolic link.
abbrev pub trusted_view : FilePath → FilePath → Tree → Option (Option Text × ℕ)
trusted_view result path tree = elim (lookup path tree) as (λ _. Option (Option Text × ℕ)) [
  | none ↦ none
  | some entry ↦ if is_trusted result path entry then some (entry.contents, entry.mode) else none
]

abbrev recorded : Option (Text × ℕ) → Option (Option Text × ℕ)
recorded none = none
recorded (some (contents, mode)) = some (some contents, mode)

abbrev is_some : {A : Type 0} → Option A → Bool
is_some none = false
is_some (some a) = true

-- A snapshot records the trusted files.
snapshot-view :
    (result path : FilePath) (tree : Tree) (snapshot : Snapshot)
    → IsDistinct tree
    → snapshot_trusted_tree result tree ≡ ok snapshot
    → recorded (lookup path snapshot) ≡ trusted_view result path tree
unfolding snapshot_trusted_tree
snapshot-view result path [] snapshot d h = ground (arith, h)
snapshot-view result path ((p, entry) ∷ tree) snapshot d h =
    go (snapshot_trusted_tree result tree) (λ s e. snapshot-view result path tree s d.1 e) h
  where
    go :
        (r : Result Snapshot)
        → ((s : Snapshot) → r ≡ ok s → recorded (lookup path s) ≡ trusted_view result path tree)
        → (if is_trusted result p entry then add_entry p entry r else r) ≡ ok snapshot
        → recorded (lookup path snapshot) ≡ trusted_view result path ((p, entry) ∷ tree)
    go (ok s) ih k = ground (arith, ih s refl, k, d, path_eq_iff path p)
    go (err e) ih k = ground (arith, k)

current-view :
    (result path : FilePath) (tree : Tree)
    → IsDistinct tree
    → contains (current_paths result tree) path ≡ is_some (file_view result path tree)
unfolding current_paths
current-view result path [] d = refl
current-view result path ((p, entry) ∷ tree) d =
    ground (arith, d, path_eq_iff path p, path_eq_iff p path, current-view result path tree d.1)

keys-lookup :
    {V : Type 0} (path : FilePath) (d : Dict FilePath V)
    → contains (keys d) path ≡ is_some (lookup path d)
keys-lookup path [] = refl
keys-lookup path ((p, v) ∷ d) =
    ground (arith, path_eq_iff path p, path_eq_iff p path, keys-lookup path d)

all-contains :
    (xs ys : List FilePath) (path : FilePath)
    → all (contains ys) xs ≡ true
    → (contains xs path ≡ false) ⊎ (contains ys path ≡ true)
all-contains [] ys path h = inl refl
all-contains (x ∷ xs) ys path h = ground (arith, path_eq_iff x path, all-contains xs ys path)

same_set-contains :
    (xs ys : List FilePath) (path : FilePath)
    → same_set xs ys ≡ true
    → contains xs path ≡ contains ys path
same_set-contains xs ys path h = ground (arith, h, all-contains xs ys path, all-contains ys xs path)

all_unchanged_lem :
    (tree : Tree) (snapshot : Snapshot) (path : FilePath) (v : Text × ℕ)
    → all_unchanged tree snapshot ≡ true
    → lookup path snapshot ≡ some v
    → is_unchanged (lookup path tree) v ≡ true
all_unchanged_lem tree [] path v h e = absurd (cc e)
all_unchanged_lem tree ((p, u) ∷ snapshot) path v h e =
    ground (arith, h, e, path_eq_iff path p, all_unchanged_lem tree snapshot path v)

-- An entry that is unchanged is there, with what was recorded.
unchanged :
    (o : Option TreeEntry) (contents : Text) (mode : ℕ)
    → is_unchanged o (contents, mode) ≡ true
    → (entry : TreeEntry) × (o ≡ some entry)
      × (entry.contents ≡ some contents)
      × (entry.mode ≡ mode)
unchanged none contents mode h = absurd (cc h)
unchanged (some entry) contents mode h = elim (Option-cases entry.contents) [
  | inl missing ↦ absurd (ground (arith, h, missing))
  | inr (now, e) ↦ (entry, refl, ground (arith, h, e, text_eq_iff now contents), ground (arith, h))
]

-- If the check passes, the files of the control directory other than the result are the trusted ones of
-- the snapshot, with their bytes and their modes.
pub is_intact-views :
    (result path : FilePath) (before after : Tree) (snapshot : Snapshot)
    → IsDistinct before
    → IsDistinct after
    → snapshot_trusted_tree result before ≡ ok snapshot
    → is_intact result snapshot after ≡ true
    → file_view result path after ≡ trusted_view result path before
unfolding is_intact
is_intact-views result path before after snapshot d d' taken intact =
    let sets = same_set-contains (current_paths result after) (keys snapshot) path in
    let now = current-view result path after d' in
    let listed = keys-lookup path snapshot in
    let then_ = snapshot-view result path before snapshot d taken in
    let same : is_some (file_view result path after) ≡ is_some (lookup path snapshot) =
      sym now ∙ sets (ground (arith, intact)) ∙ listed in
    elim (Option-cases (lookup path snapshot)) [
      | inl missing ↦ ground (arith, same, then_, missing)
      | inr ((contents, mode), found) ↦
          let (entry, there, bytes, bits) = unchanged (lookup path after) contents mode (
            all_unchanged_lem after snapshot path (contents, mode) (ground (arith, intact))
              found) in
          ground (arith, same, then_, found, there, bytes, bits)
    ]
