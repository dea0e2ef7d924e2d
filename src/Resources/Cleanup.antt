-- ===== src/Resources/Cleanup.antt =====
-- What a cleanup leaves.
use specode_review.Base.{
  ◌≡◌, ◌⊎◌, ap, sym, Bool, false, not, ◌&&◌, ◌++◌, arith, Text, text_equal, text_eq_iff, ◌==◌,
  contains, if◌then◌else◌,
}
use specode_review.Errors.{Result, ok}
use specode_review.Exec.{Exec, pure}
use specode_review.Exec.Leads.{Leads, leads}
use specode_review.Files.{name}
use specode_review.Resources.Names.{workspace_prefix, AttemptResources}
use specode_review.Resources.Contract.{has_entry, HostContract}
use specode_review.Resources.Owned.{for_attempt-Names}
use specode_review.Resources.Manager.{
  ResourceHost, ReviewResourceManager, lexists, remove_workspace, remove_sandbox, refuse,
  attempt_both, cleanup_of, attempt_of, cleanup,
}

module _ {W : Type 0} (host : ResourceHost W) (has_sandbox : Text → W → Bool)
    (contract : HostContract host has_sandbox) where
  -- The name `n` is not there if it is the one of the attempt, and otherwise as it was.
  abbrev Removed : (sandbox entry n : Text) → W → W → Type 0
  Removed sandbox entry n w w' =
      (has_sandbox n w' ≡ (if n == sandbox then false else has_sandbox n w))
      × (has_entry host n w' ≡ (if n == entry then false else has_entry host n w))

  -- The name `n` is as it was, if it is not the one of the attempt.
  abbrev Spared : (sandbox entry n : Text) → W → W → Type 0
  Spared sandbox entry n w w' =
      ((n ≡ sandbox) ⊎ (has_sandbox n w' ≡ has_sandbox n w))
      × ((n ≡ entry) ⊎ (has_entry host n w' ≡ has_entry host n w))

  remove_sandbox_lem :
      (x n : Text) (w w' : W)
      → remove_sandbox host x w ≡ (ok tt, w')
      → (has_sandbox n w' ≡ (if n == x then false else has_sandbox n w))
        × (has_entry host n w' ≡ has_entry host n w)
  unfolding remove_sandbox
  remove_sandbox_lem x n w w' h =
      (leads
          {Q = λ (u : Unit {0}) w'.
            (has_sandbox n w' ≡ (if n == x then false else has_sandbox n w))
            × (has_entry host n w' ≡ has_entry host n w)}
          host.list_names (λ names. if contains names x then host.remove x else pure tt)
          λ names w1 listed. record {
            at = λ u w2 rest. ground (
              arith,
              rest,
              (contract.lists w w1 names listed).0,
              (contract.lists w w1 names listed).1 x,
              text_eq_iff n x,
              contract.removes x n w1 w2,
            );
          }).at
        tt w' h

  remove_workspace_lem :
      (x n : Text) (w w' : W)
      → (host.entry x w).is_symlink ≡ false
      → remove_workspace host x w ≡ (ok tt, w')
      → (has_entry host n w' ≡ (if n == x then false else has_entry host n w))
        × (has_sandbox n w' ≡ has_sandbox n w)
  unfolding remove_workspace
  remove_workspace_lem x n w w' plain h =
      ground (arith, h, text_eq_iff n x, contract.deletes x n w w')

  -- Both attempts of a cleanup that returns have returned.
  both_ok :
      (first second : Exec W (Unit {0})) (w w' : W)
      → attempt_both first second w ≡ (ok tt, w')
      → (first w ≡ (ok tt, (first w).1)) × (second (first w).1 ≡ (ok tt, w'))
  unfolding attempt_both
  both_ok first second w w' h = ground (arith, h)

  cleanup_of_lem :
      (r : AttemptResources) (n : Text) (w : W)
      → Leads (λ u w'. Removed r.sandbox_name (name r.workspace) n w w') w (cleanup_of host r)
  unfolding cleanup_of
  cleanup_of_lem r n w =
      let entry = name r.workspace in
      leads (refuse host (λ w. (host.root w).is_symlink)) _ λ _ w0 rooted.
        leads (refuse host (λ w. (host.entry entry w).is_symlink)) _ λ _ w1 plain.
          leads (refuse host (λ w. lexists (host.entry entry w) && not (host.entry entry w).is_dir))
            (λ _. attempt_both (remove_workspace host entry) (remove_sandbox host r.sandbox_name))
            λ _ w2 checked. record {
              at = λ u w' h.
                  let (first, second) =
                    both_ok (remove_workspace host entry) (remove_sandbox host r.sandbox_name) w2 w'
                      h in
                  let same : w2 ≡ w = ground (arith, rooted, plain, checked) in
                  let here : (host.entry entry w2).is_symlink ≡ false =
                    ground (arith, plain, checked) in
                  ground (
                    arith,
                    same,
                    remove_workspace_lem entry n w2 (remove_workspace host entry w2).1 here first,
                    remove_sandbox_lem r.sandbox_name n (remove_workspace host entry w2).1 w'
                        second,
                  );
            }

  module _ (manager : ReviewResourceManager) (attempt_id : Text) (n : Text) where
    cleanup_leads :
        (w : W)
        → Leads
            (λ u w'.
              Removed
                (manager.sandbox_prefix ++ attempt_id)
                (workspace_prefix ++ attempt_id)
                n
                w
                w')
            w
            (cleanup host manager attempt_id)
    unfolding cleanup attempt_of
    cleanup_leads w = leads (attempt_of host manager attempt_id) (cleanup_of host) λ r w1 made.
        record {
          at = λ u w' h.
              let given = ap (λ (p : Result AttemptResources × W). p.0) made in
              let (sandbox, entry) =
                for_attempt-Names (host.root w).is_symlink attempt_id manager.workspace_root
                  manager.sandbox_prefix r given in
              let same : w ≡ w1 = ap (λ (p : Result AttemptResources × W). p.1) made in
              rw (same, sym sandbox, sym entry) ((cleanup_of_lem r n w1).at u w' h);
        }

    -- A cleanup that returns has removed the sandbox and the workspace whose names are the two prefixes
    -- with the identity of the attempt, and every other name is there if it was there before.
    pub cleanup_exact :
        (w w' : W)
        → cleanup host manager attempt_id w ≡ (ok tt, w')
        → (has_sandbox n w'
            ≡ (if n == (manager.sandbox_prefix ++ attempt_id) then false else has_sandbox n w))
          × (has_entry host n w'
              ≡ (if n == (workspace_prefix ++ attempt_id) then false else has_entry host n w))
    cleanup_exact w w' h = (cleanup_leads w).at tt w' h
