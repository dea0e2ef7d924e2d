-- ===== src/Core/Diff/Paths.antt =====
-- The changed paths that are read from the output of git are those that it printed.
use specode_review.Base.{
  ℕ, ◌≡◌, refl, sym, ap, ◌∙◌, Bool, false, List, [], ◌∷◌, ◌++◌, arith, Text, nat_eq, is_empty, any,
  All,
}
use specode_review.Publishing.Render.{is_space, rstrip}
use specode_review.Core.Diff.{lstrip, strip, remove_nul, split_from, changed_paths}

-- What `git diff --name-only -z` prints: each path with a NUL behind it.
unfoldable pub print_paths : List Text → Text
print_paths [] = []
print_paths (p ∷ ps) = p ++ 0 ∷ print_paths ps

abbrev pub HasNoNul : Text → Type 0
HasNoNul p = any (λ c. nat_eq c 0) p ≡ false

append_assoc : (a : Text) (c : ℕ) (b : Text) → (a ++ c ∷ []) ++ b ≡ a ++ c ∷ b
append_assoc [] c b = refl
append_assoc (x ∷ a) c b = ap (λ (y : Text). x ∷ y) (append_assoc a c b)

append-empty : (a : Text) → a ++ [] ≡ a
append-empty [] = refl
append-empty (x ∷ a) = ap (λ (y : Text). x ∷ y) (append-empty a)

printed_filled : (p s : Text) → is_empty (p ++ 0 ∷ s) ≡ false
printed_filled [] s = refl
printed_filled (c ∷ p) s = refl

remove_nul-cons : (c : ℕ) (s : Text) → is_empty s ≡ false → remove_nul (c ∷ s) ≡ c ∷ remove_nul s
unfolding remove_nul
remove_nul-cons c [] h = cc
remove_nul-cons c (d ∷ s) h = refl

split-printed :
    (current p : Text) (ps : List Text)
    → HasNoNul p
    → All HasNoNul ps
    → split_from 0 current (remove_nul (p ++ 0 ∷ print_paths ps)) ≡ (current ++ p) ∷ ps
unfolding split_from print_paths
split-printed current [] [] h hs =
    unfold remove_nul in ap (λ (x : Text). x ∷ []) (sym (append-empty current))
split-printed current [] (q ∷ qs) h hs =
    rw (remove_nul-cons 0 (q ++ 0 ∷ print_paths qs) (printed_filled q (print_paths qs)))
      (rw (split-printed [] q qs hs.0 hs.1, append-empty current) refl)
split-printed current (c ∷ p) ps h hs =
    let not_nul : nat_eq c 0 ≡ false = ground (arith, h) in
    rw
      (
        remove_nul-cons c (p ++ 0 ∷ print_paths ps) (printed_filled p (print_paths ps)),
        not_nul,
        split-printed (current ++ c ∷ []) p ps (ground (arith, h)) hs,
        append_assoc current c p,
      )
      refl

rstrip-printed :
    (p : Text) (ps : List Text) → rstrip (p ++ 0 ∷ print_paths ps) ≡ p ++ 0 ∷ print_paths ps
unfolding rstrip print_paths
rstrip-printed [] [] = refl
rstrip-printed [] (q ∷ qs) = rw (rstrip-printed q qs, printed_filled q (print_paths qs)) refl
rstrip-printed (c ∷ p) ps = rw (rstrip-printed p ps, printed_filled p (print_paths ps)) refl

abbrev pub begins_with_space : List Text → Bool
begins_with_space ((c ∷ p) ∷ ps) = is_space c
begins_with_space _ = false

lstrip-printed :
    (p : Text) (ps : List Text)
    → begins_with_space (p ∷ ps) ≡ false
    → lstrip (p ++ 0 ∷ print_paths ps) ≡ p ++ 0 ∷ print_paths ps
unfolding lstrip
lstrip-printed [] ps h = refl
lstrip-printed (c ∷ p) ps h = rw h refl

-- The paths that are read are the paths that git printed, as long as the first does not begin with
-- white space, which `strip` would take off.
pub changed_paths-print_paths :
    (ps : List Text)
    → All HasNoNul ps
    → begins_with_space ps ≡ false
    → changed_paths (print_paths ps) ≡ ps
unfolding changed_paths
changed_paths-print_paths [] h k = unfold print_paths in refl
changed_paths-print_paths (p ∷ ps) h k =
    let kept : strip (p ++ 0 ∷ print_paths ps) ≡ p ++ 0 ∷ print_paths ps =
      ap rstrip (lstrip-printed p ps k) ∙ rstrip-printed p ps in
    unfold print_paths in
    rw (kept, printed_filled p (print_paths ps)) (split-printed [] p ps h.0 h.1)
