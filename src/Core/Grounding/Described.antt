-- ===== src/Core/Grounding/Described.antt =====
-- What grounding asks of a finding, without the functions that it is computed with: the parts of a path
-- and the lines of a file are described by where the text is cut.
use mathlib.Core.Path.{subst}
use mathlib.Core.List.{append_assoc}
use specode_review.Base.{
  ℕ, zero, suc, ◌≤◌, ◌≡◌, ◌≢◌, ◌↔◌, ◌⊎◌, inl, inr, refl, sym, ap, ◌∙◌, Bool, true, false, not, ◌&&◌,
  ◌||◌, Option, none, some, List, [], ◌∷◌, ◌++◌, arith, Text, text, text_equal, text_eq_iff, ◌==◌,
  nat_eq, any, filter, All, Bool-cases, if◌then◌else◌,
}
use specode_review.Errors.{Result, ok, err}
use specode_review.Models.{Location, Finding, AgentReview}
use specode_review.Core.Grounding.{
  Entry, Checkout, parts_from, parts, is_absolute, mem, count_lines, ground_candidate,
}
use specode_review.Core.Grounding.Exact.{
  IsGrounded, IsLocated, IsThere, IsNumbered, HasLine, candidate_iff,
}

-- A text behind a line feed that it may begin with.
abbrev after_newline : Text → Text
after_newline [] = []
after_newline (c ∷ s) = if nat_eq c 10 then s else c ∷ s

-- A text behind its first line, whose end is a line feed, a carriage return, or both in this order.
abbrev pub after_line : Text → Text
after_line [] = []
after_line (c ∷ s) =
    let rest = after_line s in
    if nat_eq c 13 then after_newline s else if nat_eq c 10 then s else rest

-- At least so many lines, the last of which may have no end.
abbrev pub HasLines : ℕ → Text → Type 0
HasLines zero s = Unit
HasLines (suc n) s = (s ≢ []) × HasLines n (after_line s)

abbrev add_first : ℕ → List Text → List Text
add_first c [] = (c ∷ []) ∷ []
add_first c (p ∷ ps) = (c ∷ p) ∷ ps

-- The pieces of a path between its slashes.
abbrev pub pieces : Text → List Text
pieces [] = [] ∷ []
pieces (c ∷ s) = let rest = pieces s in if nat_eq c b'/' then [] ∷ rest else add_first c rest

-- Those that name something.
abbrev pub names_of : Text → List Text
names_of path = filter (λ p. not (p == []) && not (p == text ".")) (pieces path)

abbrev pub Within : Text → List Text → Type 0
Within t [] = ⊥
Within t (u ∷ us) = (t ≡ u) ⊎ Within t us

abbrev pub Some : {A : Type 0} → (A → Type 0) → List A → Type 0
Some P [] = ⊥
Some P (x ∷ xs) = P x ⊎ Some P xs

abbrev IsText : ℕ → Result Text → Type 0
IsText n (ok s) = All (λ c. c ≢ 0) s × HasLines n s
IsText n (err e) = ⊥

abbrev IsLine : Option ℕ → Entry → Type 0
IsLine none entry = Unit
IsLine (some n) entry = (entry.exists ≡ true) × (entry.is_file ≡ true) × IsText n entry.contents

-- A path with no slash in front, no piece that is `..`, and no NUL.
abbrev pub IsRelativePath : Text → Type 0
IsRelativePath path =
    ((rest : Text) → path ≢ b'/' ∷ rest)
    × All (λ p. p ≢ text "..") (names_of path)
    × All (λ c. c ≢ 0) path

-- A place that stays in the checkout, is a file or a link there, or is gone and among the changed paths,
-- and has the line.
abbrev pub IsPlaced : Checkout → List Text → Location → Type 0
IsPlaced checkout changed_paths l =
    IsRelativePath l.path
    × ((checkout (names_of l.path)).is_inside ≡ true)
    × ((((checkout (names_of l.path)).exists ≡ true)
          × (((checkout (names_of l.path)).is_file ≡ true)
              ⊎ ((checkout (names_of l.path)).is_symlink ≡ true)))
        ⊎ (((checkout (names_of l.path)).exists ≡ false) × Within l.path changed_paths))
    × IsLine l.line (checkout (names_of l.path))

abbrev pub IsSupported : Checkout → List Text → Finding → Type 0
IsSupported checkout changed_paths f =
    All (IsPlaced checkout changed_paths) f.locations
    × Some (λ l. Within l.path changed_paths) f.locations

after_return_lem : (s : Text) → count_lines false true s ≡ count_lines false false (after_newline s)
unfolding count_lines
after_return_lem [] = refl
after_return_lem (c ∷ s) = ground arith

begun_lem : (s : Text) → count_lines true false s ≡ suc (count_lines false false (after_line s))
unfolding count_lines
begun_lem [] = refl
begun_lem (c ∷ s) = ground (arith, begun_lem s, after_return_lem s)

first_line :
    (c : ℕ) (s : Text)
    → count_lines false false (c ∷ s) ≡ suc (count_lines false false (after_line (c ∷ s)))
unfolding count_lines
first_line c s = ground (arith, begun_lem s, after_return_lem s)

lines_iff : (n : ℕ) (s : Text) → (n ≤ count_lines false false s) ↔ HasLines n s
lines_iff zero s = ((λ h. tt), (λ h. omega arith))
lines_iff (suc n) [] = unfold count_lines in ((λ h. absurd (omega arith)), (λ h. absurd (h.0 refl)))
lines_iff (suc n) (c ∷ s) =
    let rest = lines_iff n (after_line (c ∷ s)) in
    let counted = first_line c s in
    (
      (λ h. ((λ e. cc e), rest.0 (omega (arith, counted, h)))),
      (λ h. omega (arith, counted, rest.1 h.1)),
    )

mem_iff : (t : Text) (us : List Text) → (mem t us ≡ true) ↔ Within t us
mem_iff t [] = ground arith
mem_iff t (u ∷ us) = ground (arith, text_eq_iff t u, mem_iff t us)

Some-iff :
    (changed_paths : List Text) (ls : List Location)
    → (any (λ l. mem l.path changed_paths) ls ≡ true) ↔ Some (λ l. Within l.path changed_paths) ls
Some-iff changed_paths [] = ground arith
Some-iff changed_paths (l ∷ ls) =
    ground (arith, mem_iff l.path changed_paths, Some-iff changed_paths ls)

no_nul_iff : (s : Text) → (any (nat_eq 0) s ≡ false) ↔ All (λ c. c ≢ 0) s
no_nul_iff [] = ground arith
no_nul_iff (c ∷ s) = ground (arith, no_nul_iff s)

none_is_iff : (t : Text) (ps : List Text) → (mem t ps ≡ false) ↔ All (λ p. p ≢ t) ps
none_is_iff t [] = ground arith
none_is_iff t (p ∷ ps) = ground (arith, text_eq_iff t p, none_is_iff t ps)

head_of : Text → ℕ
head_of [] = 0
head_of (c ∷ s) = c

absolute_iff : (path : Text) → (is_absolute path ≡ false) ↔ ((rest : Text) → path ≢ b'/' ∷ rest)
unfolding head_of
absolute_iff [] = ((λ h rest e. cc e), (λ h. refl))
absolute_iff (c ∷ path) = (
  (λ h rest e. absurd (ground (arith, h, ap head_of e))),
  (λ h. elim (Bool-cases (nat_eq c b'/')) [
    | inl slash ↦ absurd (h path (ap (λ (x : ℕ). x ∷ path) (ground (arith, slash))))
    | inr other ↦ other
  ]),
)

abbrev put_first : Text → List Text → List Text
put_first current [] = current ∷ []
put_first current (p ∷ ps) = (current ++ p) ∷ ps

nil_end : (s : Text) → s ++ [] ≡ s
nil_end [] = refl
nil_end (c ∷ s) = cc (nil_end s)

put_first-nil : (path : Text) → put_first [] (pieces path) ≡ pieces path
put_first-nil [] = refl
put_first-nil (c ∷ path) = elim (Bool-cases (nat_eq c b'/')) [
  | inl slash ↦ rw slash refl
  | inr other ↦ rw other (unnamed (pieces path))
]
  where
    unnamed : (ps : List Text) → put_first [] (add_first c ps) ≡ add_first c ps
    unnamed [] = refl
    unnamed (p ∷ ps) = refl

put_first-add :
    (current : Text) (c : ℕ) (ps : List Text)
    → put_first (current ++ c ∷ []) ps ≡ put_first current (add_first c ps)
put_first-add current c [] = refl
put_first-add current c (p ∷ ps) = ap (λ (t : Text). t ∷ ps) (append_assoc current (c ∷ []) p)

parts_lem :
    (current path : Text)
    → parts_from current path
      ≡ filter (λ p. not (p == []) && not (p == text ".")) (put_first current (pieces path))
unfolding parts_from
parts_lem current [] = rw (nil_end current) refl
parts_lem current (c ∷ path) = elim (Bool-cases (nat_eq c b'/')) [
  | inl slash ↦ rw slash rw (nil_end current, parts_lem [] path, put_first-nil path) refl
  | inr other ↦ rw other (
      parts_lem (current ++ c ∷ []) path
      ∙ ap (filter (λ p. not (p == []) && not (p == text ".")))
          (put_first-add current c (pieces path)))
]

names_of-parts : (path : Text) → parts path ≡ names_of path
unfolding parts
names_of-parts path = parts_lem [] path ∙ ap (filter _) (put_first-nil path)

pub All-iff :
    {A : Type 0} {P Q : A → Type 0} → ((x : A) → P x ↔ Q x) → (xs : List A) → All P xs ↔ All Q xs
All-iff same [] = ((λ h. h), (λ h. h))
All-iff same (x ∷ xs) =
    let first = same x in
    let rest = All-iff same xs in
    ((λ h. (first.0 h.0, rest.0 h.1)), (λ h. (first.1 h.0, rest.1 h.1)))

text_iff : (n : ℕ) (contents : Result Text) → HasLine n contents ↔ IsText n contents
text_iff n (ok s) = ground (arith, no_nul_iff s, lines_iff n s)
text_iff n (err e) = ground arith

IsLine-iff : (line : Option ℕ) (entry : Entry) → IsNumbered line entry ↔ IsLine line entry
IsLine-iff none entry = ground arith
IsLine-iff (some n) entry = ground (arith, text_iff n entry.contents)

IsThere-iff :
    {C : Type 0} (is_changed : Bool) (entry : Entry)
    → (is_changed ≡ true) ↔ C
    → IsThere is_changed entry ↔ (
        ((entry.exists ≡ true) × ((entry.is_file ≡ true) ⊎ (entry.is_symlink ≡ true)))
        ⊎ ((entry.exists ≡ false) × C))
IsThere-iff is_changed entry same = (
  (λ h. elim h [
    | inl there ↦ inl (there.0, either entry.is_file entry.is_symlink there.1)
    | inr gone ↦ inr (gone.0, same.0 gone.1)
  ]),
  (λ h. elim h [
    | inl there ↦
        inl (there.0, elim there.1 [ inl file ↦ rw file refl | inr link ↦ ground (arith, link) ])
    | inr gone ↦ inr (gone.0, same.1 gone.1)
  ]),
)
  where
    either : (b c : Bool) → (b || c) ≡ true → (b ≡ true) ⊎ (c ≡ true)
    either true c h = inl refl
    either false c h = inr h

IsPlaced-iff :
    (checkout : Checkout) (changed_paths : List Text) (l : Location)
    → IsLocated checkout changed_paths l ↔ IsPlaced checkout changed_paths l
IsPlaced-iff checkout changed_paths l =
    let entry = checkout (names_of l.path) in
    let a = absolute_iff l.path in
    let u = none_is_iff (text "..") (names_of l.path) in
    let z = no_nul_iff l.path in
    let t = IsThere-iff (mem l.path changed_paths) entry (mem_iff l.path changed_paths) in
    let n = IsLine-iff l.line entry in
    subst
      (λ (ps : List Text).
        (((is_absolute l.path ≡ false)
            × (mem (text "..") ps ≡ false)
            × (any (nat_eq 0) l.path ≡ false))
          × ((checkout ps).is_inside ≡ true)
          × IsThere (mem l.path changed_paths) (checkout ps)
          × IsNumbered l.line (checkout ps))
        ↔ IsPlaced checkout changed_paths l)
      (sym (names_of-parts l.path))
      (
        (λ h. ((a.0 h.0.0, u.0 h.0.1, z.0 h.0.2), h.1, t.0 h.2, n.0 h.3)),
        (λ h. ((a.1 h.0.0, u.1 h.0.1, z.1 h.0.2), h.1, t.1 h.2, n.1 h.3)),
      )

-- A finding is grounded for the functions of the code exactly if the description supports it.
pub IsSupported-iff :
    (checkout : Checkout) (changed_paths : List Text) (f : Finding)
    → IsGrounded checkout changed_paths f ↔ IsSupported checkout changed_paths f
IsSupported-iff checkout changed_paths f =
    let places = All-iff (IsPlaced-iff checkout changed_paths) f.locations in
    let changed = Some-iff changed_paths f.locations in
    ((λ h. (places.0 h.0, changed.0 h.1)), (λ h. (places.1 h.0, changed.1 h.1)))

-- `_ground_candidate` returns exactly for the candidates whose findings are supported: each location
-- is a path with no slash in front, no NUL and no `..` between its slashes, whose names lead to a place
-- inside the checkout that is a file or a link, or is gone and among the changed paths; its line, if it
-- has one, is among the lines of a file without a NUL, where a last line with no end counts; and each
-- finding has a location among the changed paths.
pub ground_candidate_iff :
    (checkout : Checkout) (changed_paths : List Text) (candidate : AgentReview)
    → (ground_candidate checkout changed_paths candidate ≡ ok tt)
      ↔ All (IsSupported checkout changed_paths) candidate.findings
ground_candidate_iff checkout changed_paths candidate =
    let grounded = candidate_iff checkout changed_paths candidate in
    let supported = All-iff (IsSupported-iff checkout changed_paths) candidate.findings in
    ((λ h. supported.0 (grounded.0 h)), (λ h. grounded.1 (supported.1 h)))
