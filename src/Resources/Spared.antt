-- ===== src/Resources/Spared.antt =====
-- What a cleanup does not touch, however it ends.
use specode_review.Base.{
  ◌≡◌, ◌⊎◌, inr, refl, ap, sym, Bool, not, ◌&&◌, ◌++◌, arith, Text, text_equal,
}
use specode_review.Errors.{Raised, Result, ok, err}
use specode_review.Exec.{Exec}
use specode_review.Exec.Leads.{Ends, ends}
use specode_review.Files.{name}
use specode_review.Resources.Names.{workspace_prefix, AttemptResources}
use specode_review.Resources.Contract.{has_entry, HostContract}
use specode_review.Resources.Owned.{for_attempt-Names}
use specode_review.Resources.Manager.{
  ResourceHost, ReviewResourceManager, lexists, remove_workspace, remove_sandbox, refuse,
  attempt_both, cleanup_of, attempt_of, cleanup,
}

module _ {W : Type 0} (host : ResourceHost W) (has_sandbox : Text → W → Bool)
    (contract : HostContract host has_sandbox) where
  -- The name `n` is as it was, unless it is the one of the attempt.
  abbrev Spared : (sandbox entry n : Text) → W → Result (Unit {0}) → W → Type 0
  Spared sandbox entry n w r w' =
      ((n ≡ sandbox) ⊎ (has_sandbox n w' ≡ has_sandbox n w))
      × ((n ≡ entry) ⊎ (has_entry host n w' ≡ has_entry host n w))

  remove_sandbox_Spares :
      (x entry n : Text) (w : W) → Spared x entry n w (ok tt) (remove_sandbox host x w).1
  unfolding remove_sandbox
  remove_sandbox_Spares x entry n w =
      ground (arith, contract.listing n w, contract.removing x n (host.list_names w).1)

  remove_workspace_Spares :
      (sandbox x n : Text) (w : W) → Spared sandbox x n w (ok tt) (remove_workspace host x w).1
  unfolding remove_workspace
  remove_workspace_Spares sandbox x n w = ground (arith, contract.deleting x n w)

  attempt_both_Spares :
      (sandbox entry n : Text) (first second : Exec W (Unit {0})) (w : W)
      → Spared sandbox entry n w (ok tt) (first w).1
      → Spared sandbox entry n (first w).1 (ok tt) (second (first w).1).1
      → Spared sandbox entry n w (ok tt) (attempt_both first second w).1
  unfolding attempt_both
  attempt_both_Spares sandbox entry n first second w a b = ground arith

  cleanup_of_Spares :
      (r : AttemptResources) (n : Text) (w : W)
      → Ends (Spared r.sandbox_name (name r.workspace) n w) w (cleanup_of host r)
  unfolding cleanup_of
  cleanup_of_Spares r n w =
      let entry = name r.workspace in
      let nothing : (e : Raised) → Spared r.sandbox_name entry n w (err e) w =
        λ e. (inr refl, inr refl) in
      ends (refuse host (λ w. (host.root w).is_symlink)) _
        (λ _ w0 rooted.
          ends (refuse host (λ w. (host.entry entry w).is_symlink)) _
            (λ _ w1 plain.
              ends
                (refuse host (λ w. lexists (host.entry entry w) && not (host.entry entry w).is_dir))
                (λ _.
                  attempt_both (remove_workspace host entry) (remove_sandbox host r.sandbox_name))
                (λ _ w2 checked.
                  let same : w2 ≡ w = ground (arith, rooted, plain, checked) in
                  record {
                    at = rw same (
                        attempt_both_Spares r.sandbox_name entry n (remove_workspace host entry)
                          (remove_sandbox host r.sandbox_name) w
                          (remove_workspace_Spares r.sandbox_name entry n w)
                          (remove_sandbox_Spares r.sandbox_name entry n
                            (remove_workspace host entry w).1));
                  })
                (λ e w2 h. ground (arith, rooted, plain, h)))
            (λ e w1 h. ground (arith, rooted, h)))
        (λ e w0 h. ground (arith, h))

  -- However a cleanup ends, every sandbox but the one and every entry but the one whose names are the two
  -- prefixes with the identity of the attempt is there exactly if it was there before.
  pub cleanup_spares :
      (manager : ReviewResourceManager) (attempt_id n : Text) (w : W)
      → ((n ≡ manager.sandbox_prefix ++ attempt_id)
          ⊎ (has_sandbox n (cleanup host manager attempt_id w).1 ≡ has_sandbox n w))
        × ((n ≡ workspace_prefix ++ attempt_id)
            ⊎ (has_entry host n (cleanup host manager attempt_id w).1 ≡ has_entry host n w))
  unfolding cleanup attempt_of
  cleanup_spares manager attempt_id n w =
      (ends
        {Q = λ (r : Result (Unit {0})) w'.
          ((n ≡ manager.sandbox_prefix ++ attempt_id) ⊎ (has_sandbox n w' ≡ has_sandbox n w))
          × ((n ≡ workspace_prefix ++ attempt_id) ⊎ (has_entry host n w' ≡ has_entry host n w))}
        (attempt_of host manager attempt_id) (cleanup_of host)
        (λ r w1 made.
          let given = ap (λ (p : Result AttemptResources × W). p.0) made in
          let (sandbox, entry) =
            for_attempt-Names (host.root w).is_symlink attempt_id manager.workspace_root
              manager.sandbox_prefix r given in
          let same : w ≡ w1 = ap (λ (p : Result AttemptResources × W). p.1) made in
          record { at = rw (same, sym sandbox, sym entry) ((cleanup_of_Spares r n w1).at) })
        (λ e w1 h. ground (arith, h))).at
