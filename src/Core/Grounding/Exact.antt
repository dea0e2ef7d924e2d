-- ===== src/Core/Grounding/Exact.antt =====
-- Grounding accepts a candidate exactly when each of its locations stands in the reviewed head and
-- each of its findings has a location on a changed path.
use specode_review.Base.{
  ℕ, ◌≤◌, ◌≡◌, ◌↔◌, ◌⊎◌, refl, sym, ◌∙◌, Bool, true, false, ◌||◌, Option, none, some, List, [], ◌∷◌,
  arith, Text, text, text_equal, nat_eq, any, All,
}
use specode_review.Errors.{Result, ok, err}
use specode_review.Models.{Location, Finding, AgentReview}
use specode_review.Core.Grounding.{
  Entry, Checkout, parts, is_absolute, mem, require_changed, count_lines, ground_contents,
  ground_line, ground_entry, ground_location, ground_locations, ground_findings, ground_candidate,
}

-- A line of a file that is no binary.
abbrev pub HasLine : ℕ → Result Text → Type 0
HasLine n (ok s) = (any (nat_eq 0) s ≡ false) × (n ≤ count_lines false false s)
HasLine n (err e) = ⊥

abbrev pub IsNumbered : Option ℕ → Entry → Type 0
IsNumbered none entry = Unit
IsNumbered (some n) entry =
    (entry.exists ≡ true) × (entry.is_file ≡ true) × HasLine n entry.contents

-- A file, a link, or the path of a file that the change deletes.
abbrev pub IsThere : Bool → Entry → Type 0
IsThere is_changed entry =
    ((entry.exists ≡ true) × (entry.is_file || entry.is_symlink ≡ true))
    ⊎ ((entry.exists ≡ false) × (is_changed ≡ true))

abbrev pub IsRelative : Text → Type 0
IsRelative path =
    (is_absolute path ≡ false)
    × (mem (text "..") (parts path) ≡ false)
    × (any (nat_eq 0) path ≡ false)

abbrev pub IsLocated : Checkout → List Text → Location → Type 0
IsLocated checkout changed_paths l =
    IsRelative l.path
    × ((checkout (parts l.path)).is_inside ≡ true)
    × IsThere (mem l.path changed_paths) (checkout (parts l.path))
    × IsNumbered l.line (checkout (parts l.path))

abbrev pub HasChanged : List Text → List Location → Type 0
HasChanged changed_paths ls = any (λ l. mem l.path changed_paths) ls ≡ true

abbrev pub IsGrounded : Checkout → List Text → Finding → Type 0
IsGrounded checkout changed_paths f =
    All (IsLocated checkout changed_paths) f.locations × HasChanged changed_paths f.locations

contents_iff :
    (n : ℕ) (is_changed b : Bool) (contents : Result Text)
    → (ground_contents n is_changed contents ≡ ok b) ↔ (HasLine n contents × (b ≡ is_changed))
unfolding ground_contents
contents_iff n is_changed b (ok s) = ground arith
contents_iff n is_changed b (err e) = ground arith

IsLine-iff :
    (line : Option ℕ) (is_changed b : Bool) (entry : Entry)
    → (ground_line line is_changed entry ≡ ok b) ↔ (IsNumbered line entry × (b ≡ is_changed))
unfolding ground_line
IsLine-iff none is_changed b entry = ground arith
IsLine-iff (some n) is_changed b entry = ground (arith, contents_iff n is_changed b entry.contents)

entry_iff :
    (line : Option ℕ) (is_changed b : Bool) (entry : Entry)
    → (ground_entry line is_changed entry ≡ ok b) ↔ (
        (entry.is_inside ≡ true)
        × IsThere is_changed entry
        × IsNumbered line entry
        × (b ≡ is_changed))
unfolding ground_entry
entry_iff line is_changed b entry = ground (arith, IsLine-iff line is_changed b entry)

location_iff :
    (checkout : Checkout) (changed_paths : List Text) (l : Location) (b : Bool)
    → (ground_location checkout changed_paths l ≡ ok b)
      ↔ (IsLocated checkout changed_paths l × (b ≡ mem l.path changed_paths))
unfolding ground_location
location_iff checkout changed_paths l b =
    ground (arith, entry_iff l.line (mem l.path changed_paths) b (checkout (parts l.path)))

locations_iff :
    (checkout : Checkout) (changed_paths : List Text) (has b : Bool) (ls : List Location)
    → (ground_locations checkout changed_paths has ls ≡ ok b) ↔ (
        All (IsLocated checkout changed_paths) ls
        × (b ≡ has || any (λ l. mem l.path changed_paths) ls))
unfolding ground_locations
locations_iff checkout changed_paths has b [] = ground arith
locations_iff checkout changed_paths has b (l ∷ ls) =
    go (ground_location checkout changed_paths l) (location_iff checkout changed_paths l)
      (λ c. locations_iff checkout changed_paths (has || c) b ls)
  where
    go :
        (r : Result Bool)
        → ((c : Bool)
            → (r ≡ ok c) ↔ (IsLocated checkout changed_paths l × (c ≡ mem l.path changed_paths)))
        → ((c : Bool)
            → (ground_locations checkout changed_paths (has || c) ls ≡ ok b) ↔ (
                All (IsLocated checkout changed_paths) ls
                × (b ≡ (has || c) || any (λ l. mem l.path changed_paths) ls)))
        → (elim r as (λ _. Result Bool) [
          | ok c ↦ ground_locations checkout changed_paths (has || c) ls
          | err e ↦ err e
        ]
            ≡ ok b)
          ↔ (All (IsLocated checkout changed_paths) (l ∷ ls)
              × (b ≡ has || any (λ l. mem l.path changed_paths) (l ∷ ls)))
    go (ok c) k next =
        let (located, same) = (k c).0 refl in
        let rest = next c in
        (
          (λ e. ((located, (rest.0 e).0), ground (arith, (rest.0 e).1, same))),
          (λ h. rest.1 (h.0.1, ground (arith, h.1, same))),
        )
    go (err e) k next =
        ((λ x. cc), (λ h. absurd (cc ((k (mem l.path changed_paths)).1 (h.0.0, refl)))))

findings_iff :
    (checkout : Checkout) (changed_paths : List Text) (fs : List Finding)
    → (ground_findings checkout changed_paths fs ≡ ok tt)
      ↔ All (IsGrounded checkout changed_paths) fs
unfolding ground_findings
findings_iff checkout changed_paths [] = ground arith
findings_iff checkout changed_paths (f ∷ fs) =
    go (ground_locations checkout changed_paths false f.locations)
      (λ c. locations_iff checkout changed_paths false c f.locations)
      (findings_iff checkout changed_paths fs)
  where
    go :
        (r : Result Bool)
        → ((c : Bool)
            → (r ≡ ok c) ↔ (
                All (IsLocated checkout changed_paths) f.locations
                × (c ≡ any (λ l. mem l.path changed_paths) f.locations)))
        → ((ground_findings checkout changed_paths fs ≡ ok tt)
            ↔ All (IsGrounded checkout changed_paths) fs)
        → (require_changed r (ground_findings checkout changed_paths fs) ≡ ok tt)
          ↔ All (IsGrounded checkout changed_paths) (f ∷ fs)
    go (ok true) k rest =
        let (located, same) = (k true).0 refl in
        ((λ e. ((located, sym same), rest.0 e)), (λ h. rest.1 h.1))
    go (ok false) k rest =
        let (located, same) = (k false).0 refl in ((λ e. cc), (λ h. cc (same ∙ h.0.1)))
    go (err e) k rest = ((λ x. cc), (λ h. cc ((k true).1 (h.0.0, sym h.0.1))))

-- `_ground_candidate` returns exactly for the candidates whose findings are grounded: each location
-- is a relative path that stays in the checkout, names a file or link of the reviewed head or a
-- changed path, and has its line in a text file, if it has one; and each finding has a location on a
-- changed path.
pub candidate_iff :
    (checkout : Checkout) (changed_paths : List Text) (candidate : AgentReview)
    → (ground_candidate checkout changed_paths candidate ≡ ok tt)
      ↔ All (IsGrounded checkout changed_paths) candidate.findings
unfolding ground_candidate
candidate_iff checkout changed_paths candidate =
    findings_iff checkout changed_paths candidate.findings
