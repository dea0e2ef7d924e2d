-- ===== src/Resources/Sweep.antt =====
-- What a sweep leaves.
use specode_review.Base.{
  ◌≡◌, Bool, false, ◌&&◌, ◌||◌, not, List, [], ◌∷◌, arith, Text, text_equal, text_eq_iff, ◌==◌,
  contains, if◌then◌else◌,
}
use specode_review.Errors.{ok}
use specode_review.Exec.{Exec, pure}
use specode_review.Exec.Leads.{Leads, leads}
use specode_review.Resources.Names.{is_owned, workspace_prefix}
use specode_review.Resources.Contract.{has_entry, HostContract}
use specode_review.Resources.Manager.{
  ResourceHost, ReviewResourceManager, refuse, sweep_sandboxes, sweep_entry, sweep_workspaces,
  sweep_stale,
}

module _ {W : Type 0} (host : ResourceHost W) (has_sandbox : Text → W → Bool)
    (contract : HostContract host has_sandbox) where
  -- Of the names that pass a test the one kind is gone, and nothing else has changed.
  abbrev Gone : Bool → Text → W → Unit {0} → W → Type 0
  Gone is_gone n w u w' =
      (has_sandbox n w' ≡ (if is_gone then false else has_sandbox n w))
      × (has_entry host n w' ≡ has_entry host n w)

  abbrev Cleared : Bool → Text → W → Unit {0} → W → Type 0
  Cleared is_gone n w u w' =
      (has_entry host n w' ≡ (if is_gone then false else has_entry host n w))
      × (has_sandbox n w' ≡ has_sandbox n w)

  -- The loop over the sandboxes removes the owned ones of the list.
  sweep_sandboxes_lem :
      (prefix : Text) (names : List Text) (w : W) (n : Text)
      → Leads
          (Gone (contains names n && is_owned prefix n) n w)
          w
          (sweep_sandboxes host prefix names)
  unfolding sweep_sandboxes
  sweep_sandboxes_lem prefix [] w n = record { at = λ u w' h. ground (arith, h) }
  sweep_sandboxes_lem prefix (x ∷ names) w n =
      let step : Exec W (Unit {0}) = if is_owned prefix x then host.remove x else pure tt in
      leads step (λ _. sweep_sandboxes host prefix names)
        λ _ w1 removed. record {
          at = λ u w' rest. ground (
            arith,
            removed,
            text_eq_iff n x,
            text_eq_iff x n,
            contract.removes x n w w1,
            (sweep_sandboxes_lem prefix names w1 n).at u w' rest,
          );
        }

  sweep_entry_lem :
      (x n : Text) (w w' : W) → sweep_entry host x w ≡ (ok tt, w') → Cleared (n == x) n w tt w'
  unfolding sweep_entry
  sweep_entry_lem x n w w' h = ground (arith, h, contract.deletes x n w w')

  -- The loop over the entries of the root removes the owned ones of the list.
  sweep_workspaces_lem :
      (names : List Text) (w : W) (n : Text)
      → Leads
          (Cleared (contains names n && is_owned workspace_prefix n) n w)
          w
          (sweep_workspaces host names)
  unfolding sweep_workspaces
  sweep_workspaces_lem [] w n = record { at = λ u w' h. ground (arith, h) }
  sweep_workspaces_lem (x ∷ names) w n =
      let step : Exec W (Unit {0}) =
        if is_owned workspace_prefix x then sweep_entry host x else pure tt in
      leads step (λ _. sweep_workspaces host names)
        λ _ w1 removed. record {
          at = λ u w' rest. ground (
            arith,
            removed,
            text_eq_iff n x,
            text_eq_iff x n,
            sweep_entry_lem x n w w1,
            (sweep_workspaces_lem names w1 n).at u w' rest,
          );
        }

  sweep_leads :
      (manager : ReviewResourceManager) (w : W) (n : Text)
      → Leads
          (λ u w'.
            (has_sandbox n w'
              ≡ (if is_owned manager.sandbox_prefix n then false else has_sandbox n w))
            × (has_entry host n w'
                ≡ (if is_owned workspace_prefix n then false else has_entry host n w)))
          w
          (sweep_stale host manager)
  unfolding sweep_stale
  sweep_leads manager w n =
      leads (refuse host (λ w. (host.root w).is_symlink || not (host.root w).is_dir)) _
        λ _ w0 checked. leads host.list_names _ λ names w1 listed.
          leads (sweep_sandboxes host manager.sandbox_prefix names) _ λ _ w2 swept.
            leads host.iterdir (sweep_workspaces host) λ entries w3 found. record {
              at = λ u w' cleared.
                  let same : w0 ≡ w = ground (arith, checked) in
                  ground (
                    arith,
                    same,
                    (contract.lists w0 w1 names listed).0,
                    (contract.lists w0 w1 names listed).1 n,
                    (contract.enumerates w2 w3 entries found).0,
                    (contract.enumerates w2 w3 entries found).1 n,
                    (sweep_sandboxes_lem manager.sandbox_prefix names w1 n).at tt w2 swept,
                    (sweep_workspaces_lem entries w3 n).at u w' cleared,
                  );
            }

  -- A sweep that returns has removed exactly the sandboxes whose name is the prefix of the manager with
  -- the identity of an attempt, and exactly the workspaces whose name is the prefix of the program with
  -- one; every other name is there if it was there before.
  pub sweep_exact :
      (manager : ReviewResourceManager) (w w' : W) (n : Text)
      → sweep_stale host manager w ≡ (ok tt, w')
      → (has_sandbox n w' ≡ (if is_owned manager.sandbox_prefix n then false else has_sandbox n w))
        × (has_entry host n w'
            ≡ (if is_owned workspace_prefix n then false else has_entry host n w))
  sweep_exact manager w w' n h = (sweep_leads manager w n).at tt w' h
