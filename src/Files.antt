-- ===== src/Files.antt =====
-- The paths of the program, as `pathlib` reads them: an anchor, which a relative path has empty, and
-- the names behind it.
use specode_review.Base.{
  ◌≡◌, ◌↔◌, ap, Bool, true, not, ◌&&◌, List, [], ◌∷◌, ◌++◌, arith, Text, text, text_equal,
  text_eq_iff, Equal, ◌==◌, list_eq, list_eq_iff, is_empty,
}

pub record FilePath : Type 0 where
  pub anchor : Text
  pub parts : List Text

abbrev path_eq : FilePath → FilePath → Bool
path_eq p q = (p.anchor == q.anchor) && list_eq p.parts q.parts

pub path_eq_iff : (p q : FilePath) → (path_eq p q ≡ true) ↔ (p ≡ q)
path_eq_iff p q = ground (arith, text_eq_iff p.anchor q.anchor, list_eq_iff p.parts q.parts)

instance abbrev pub path_equal : Equal FilePath
path_equal = record { equals = path_eq; equals_iff = path_eq_iff }

abbrev pub is_absolute : FilePath → Bool
is_absolute p = not (is_empty p.anchor)

-- `Path(path.anchor)`
abbrev pub root_of : FilePath → FilePath
root_of p = record { anchor = p.anchor; parts = [] }

-- `path / name`, for a name without a slash that is not a dot.
abbrev pub child : FilePath → Text → FilePath
child p name = record p { parts = p.parts ++ name ∷ [] }

abbrev without_last : List Text → List Text
without_last [] = []
without_last (x ∷ []) = []
without_last (x ∷ y ∷ xs) = x ∷ without_last (y ∷ xs)

abbrev last_of : List Text → Text
last_of [] = []
last_of (x ∷ []) = x
last_of (x ∷ y ∷ xs) = last_of (y ∷ xs)

abbrev pub parent : FilePath → FilePath
parent p = record p { parts = without_last p.parts }

abbrev pub name : FilePath → Text
name p = last_of p.parts

without_last-append : (xs : List Text) (x : Text) → without_last (xs ++ x ∷ []) ≡ xs
without_last-append [] x = cc
without_last-append (y ∷ []) x = cc
without_last-append (y ∷ z ∷ xs) x = cc (without_last-append (z ∷ xs) x)

last_of-append : (xs : List Text) (x : Text) → last_of (xs ++ x ∷ []) ≡ x
last_of-append [] x = cc
last_of-append (y ∷ []) x = cc
last_of-append (y ∷ z ∷ xs) x = last_of-append (z ∷ xs) x

pub parent-child : (p : FilePath) (x : Text) → parent (child p x) ≡ p
parent-child p x = ap (λ (xs : List Text). record p { parts = xs }) (without_last-append p.parts x)

pub name-child : (p : FilePath) (x : Text) → name (child p x) ≡ x
name-child p x = last_of-append p.parts x

-- `str(path)`: the names joined by slashes behind the anchor, or a dot.
abbrev joined : List Text → Text
joined [] = []
joined (x ∷ []) = x
joined (x ∷ y ∷ xs) = x ++ b'/' ∷ joined (y ∷ xs)

abbrev shown : Text → Text
shown [] = text "."
shown (c ∷ s) = c ∷ s

unfoldable pub path_text : FilePath → Text
path_text p = shown (p.anchor ++ joined p.parts)
