-- ===== src/Resources/Contract.antt =====
-- What the program relies on of the file system and of the client of the sandboxes.
use specode_review.Base.{
  ◌≡◌, ◌⊎◌, Bool, false, List, Text, text_equal, ◌==◌, contains, if◌then◌else◌,
}
use specode_review.Errors.{ok}
use specode_review.Resources.Manager.{ResourceHost, lexists}

abbrev pub has_entry : {W : Type 0} → ResourceHost W → Text → W → Bool
has_entry host n w = lexists (host.entry n w)

-- What the program relies on of the file system and of the client: a listing is right and changes
-- nothing, and a removal that returns has removed the name. Whatever a removal answers, the other
-- names stay as they are.
pub record HostContract {W : Type 0} (host : ResourceHost W) (has_sandbox : Text → W → Bool)
    : Type 0 where
  pub lists :
      (w w' : W) (names : List Text)
      → host.list_names w ≡ (ok names, w')
      → (w' ≡ w) × ((n : Text) → contains names n ≡ has_sandbox n w)
  pub enumerates :
      (w w' : W) (names : List Text)
      → host.iterdir w ≡ (ok names, w')
      → (w' ≡ w) × ((n : Text) → contains names n ≡ has_entry host n w)
  pub removes :
      (m n : Text) (w w' : W)
      → host.remove m w ≡ (ok tt, w')
      → (has_sandbox n w' ≡ (if n == m then false else has_sandbox n w))
        × (has_entry host n w' ≡ has_entry host n w)
  pub deletes :
      (m n : Text) (w w' : W)
      → host.rmtree m w ≡ (ok tt, w')
      → (has_entry host n w' ≡ (if n == m then false else has_entry host n w))
        × (has_sandbox n w' ≡ has_sandbox n w)
  pub listing :
      (n : Text) (w : W)
      → (has_sandbox n (host.list_names w).1 ≡ has_sandbox n w)
        × (has_entry host n (host.list_names w).1 ≡ has_entry host n w)
  pub removing :
      (m n : Text) (w : W)
      → ((n ≡ m) ⊎ (has_sandbox n (host.remove m w).1 ≡ has_sandbox n w))
        × (has_entry host n (host.remove m w).1 ≡ has_entry host n w)
  pub deleting :
      (m n : Text) (w : W)
      → ((n ≡ m) ⊎ (has_entry host n (host.rmtree m w).1 ≡ has_entry host n w))
        × (has_sandbox n (host.rmtree m w).1 ≡ has_sandbox n w)
