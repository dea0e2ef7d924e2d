-- ===== src/Resources/Tests.antt =====
-- A host with two sandboxes and two workspaces, one of each of the program.
use specode_review.Base.{
  ◌≡◌, ◌⊎◌, refl, Bool, true, false, not, List, [], ◌∷◌, ◌++◌, arith, Text, text, text_equal,
  text_eq_iff, ◌==◌, contains, filter, replicate, if◌then◌else◌,
}
use specode_review.Errors.{ok}
use specode_review.Files.{FilePath, child}
use specode_review.Resources.Names.{
  AttemptResources, is_attempt_id, is_owned, is_sandbox_name, is_prefix, ends_with_hyphen,
  for_attempt, attempt_resources, validate_workspace_root, workspace_prefix,
}
use specode_review.Resources.Manager.{
  Entry, ResourceHost, ReviewResourceManager, review_resource_manager, remove_workspace,
  remove_sandbox, attempt_both, first_failure, cleanup_of, attempt_of, cleanup, sweep_sandboxes,
  sweep_entry, sweep_workspaces, sweep_stale,
}
use specode_review.Resources.Contract.{has_entry, HostContract}
use specode_review.Resources.Sweep.{sweep_exact}
use specode_review.Resources.Cleanup.{cleanup_exact}
use specode_review.Resources.Spared.{cleanup_spares}

record Files : Type 0 where
  names : List Text
  entries : List Text

abbrev without : Text → List Text → List Text
without m = filter (λ n. not (n == m))

contains-without :
    (m n : Text) (xs : List Text)
    → contains (without m xs) n ≡ (if n == m then false else contains xs n)
contains-without m n [] = ground arith
contains-without m n (x ∷ xs) =
    ground (arith, text_eq_iff x m, text_eq_iff x n, text_eq_iff n m, contains-without m n xs)

abbrev entry_of : Bool → Entry
entry_of is_there = record { is_symlink = false; exists = is_there; is_dir = is_there }

abbrev host : ResourceHost Files
host = record {
  root = λ w. entry_of true;
  entry = λ n w. entry_of (contains w.entries n);
  rmtree = λ m w. (ok tt, record w { entries = without m w.entries });
  iterdir = λ w. (ok w.entries, w);
  list_names = λ w. (ok w.names, w);
  remove = λ m w. (ok tt, record w { names = without m w.names });
}

abbrev has_sandbox : Text → Files → Bool
has_sandbox n w = contains w.names n

without_spares :
    (m n : Text) (xs : List Text) → (n ≡ m) ⊎ (contains (without m xs) n ≡ contains xs n)
without_spares m n xs = ground (arith, contains-without m n xs, text_eq_iff n m)

contract : HostContract host has_sandbox
contract = record {
  lists = λ w w' names h. (cc, λ n. cc);
  enumerates = λ w w' names h. (cc, λ n. cc);
  removes = λ m n w w' h. ground (arith, h, contains-without m n w.names);
  deletes = λ m n w w' h. ground (arith, h, contains-without m n w.entries);
  listing = λ n w. (refl, refl);
  removing = λ m n w. (without_spares m n w.names, refl);
  deleting = λ m n w. (without_spares m n w.entries, refl);
}

abbrev id : Text
id = replicate 32 b'a'

abbrev other : Text
other = text "other"

abbrev files : Files
files = record {
  names = (text "abc-" ++ id) ∷ other ∷ [];
  entries = (workspace_prefix ++ id) ∷ other ∷ [];
}

abbrev left : Files
left = record { names = other ∷ []; entries = other ∷ [] }

abbrev root : FilePath
root = record { anchor = text "/"; parts = text "w" ∷ [] }

abbrev manager : ReviewResourceManager
manager = record { workspace_root = root; sandbox_prefix = text "abc-" }

abbrev resources : AttemptResources
resources = record {
  attempt_id = id;
  workspace_root = root;
  workspace = child root (workspace_prefix ++ id);
  sandbox_prefix = text "abc-";
  sandbox_name = text "abc-" ++ id;
}

managed : review_resource_manager false root (text "abc-") ≡ ok manager
unfolding review_resource_manager validate_workspace_root is_sandbox_name is_prefix ends_with_hyphen
    is_attempt_id
managed = refl

given : for_attempt false id root (text "abc-") ≡ ok resources
unfolding for_attempt attempt_resources validate_workspace_root is_sandbox_name is_prefix
    ends_with_hyphen is_attempt_id
given = refl

swept : sweep_stale host manager files ≡ (ok tt, left)
unfolding sweep_stale sweep_sandboxes sweep_workspaces sweep_entry is_owned
swept = refl

sweep_exact_example :
    (has_sandbox other left
      ≡ (if is_owned (text "abc-") other then false else has_sandbox other files))
    × (has_entry host other left
        ≡ (if is_owned workspace_prefix other then false else has_entry host other files))
sweep_exact_example = sweep_exact host has_sandbox contract manager files left other swept

cleaned : cleanup host manager id files ≡ (ok tt, left)
unfolding cleanup attempt_of cleanup_of attempt_both first_failure remove_workspace remove_sandbox
    for_attempt attempt_resources validate_workspace_root is_sandbox_name is_prefix ends_with_hyphen
    is_attempt_id
cleaned = refl

cleanup_exact_example :
    (has_sandbox other left
      ≡ (if other == (text "abc-" ++ id) then false else has_sandbox other files))
    × (has_entry host other left
        ≡ (if other == (workspace_prefix ++ id) then false else has_entry host other files))
cleanup_exact_example = cleanup_exact host has_sandbox contract manager id other files left cleaned

cleanup_spares_example :
    ((other ≡ text "abc-" ++ id)
      ⊎ (has_sandbox other (cleanup host manager id files).1 ≡ has_sandbox other files))
    × ((other ≡ workspace_prefix ++ id)
        ⊎ (has_entry host other (cleanup host manager id files).1 ≡ has_entry host other files))
cleanup_spares_example = cleanup_spares host has_sandbox contract manager id other files
