-- ===== src/Base/Dict.antt =====
-- Python's `dict`, in insertion order, over keys with `==`.
use specode_review.Base.{
  ℕ, suc, ◌+◌, ◌≡◌, refl, Bool, Option, none, some, List, [], ◌∷◌, arith, Equal, ◌==◌,
  if◌then◌else◌, length,
}

abbrev pub Dict {ℓ κ} : Type ℓ → Type κ → Type (ℓ ⊔ κ)
Dict K V = List (K × V)

-- How often a value that is or is not there passes a test: 0 or 1.
abbrev pub weight {κ} : {V : Type κ} → (V → Bool) → Option V → ℕ
weight p none = 0
weight p (some v) = if p v then 1 else 0

module _ {ℓ κ} {K : Type ℓ} {V : Type κ} ⦃e : Equal K⦄ where
  -- `d.get(wanted)`
  abbrev pub lookup : (wanted : K) → Dict K V → Option V
  lookup wanted [] = none
  lookup wanted ((key, value) ∷ rest) = if wanted == key then some value else lookup wanted rest

  -- `d[key] = value`
  abbrev pub insert : (key : K) (value : V) → Dict K V → Dict K V
  insert key value [] = (key, value) ∷ []
  insert key value ((old, w) ∷ rest) =
      if key == old then (key, value) ∷ rest else (old, w) ∷ insert key value rest

  -- `d.pop(key, None)`
  abbrev pub pop : (key : K) → Dict K V → Dict K V
  pop key [] = []
  pop key ((old, w) ∷ rest) = if key == old then rest else (old, w) ∷ pop key rest

  -- No key stands twice.
  abbrev pub IsDistinct : Dict K V → Type κ
  IsDistinct [] = Unit
  IsDistinct ((k, v) ∷ d) = (lookup k d ≡ none) × IsDistinct d

  pub lookup-insert :
      (j k : K) (v : V) (d : Dict K V)
      → lookup j (insert k v d) ≡ (if j == k then some v else lookup j d)
  lookup-insert j k v [] = refl
  lookup-insert j k v ((i, w) ∷ d) =
      ground (arith, e.equals_iff k i, e.equals_iff j k, e.equals_iff j i, lookup-insert j k v d)

  pub lookup-pop :
      (j k : K) (d : Dict K V)
      → IsDistinct d
      → lookup j (pop k d) ≡ (if j == k then none else lookup j d)
  lookup-pop j k [] h = ground arith
  lookup-pop j k ((i, w) ∷ d) h =
      ground (arith, e.equals_iff k i, e.equals_iff j k, e.equals_iff j i, lookup-pop j k d h.1)

  pub insert-IsDistinct : (k : K) (v : V) (d : Dict K V) → IsDistinct d → IsDistinct (insert k v d)
  insert-IsDistinct k v [] h = (refl, tt)
  insert-IsDistinct k v ((i, w) ∷ d) h = ground (
    arith,
    e.equals_iff k i,
    e.equals_iff i k,
    lookup-insert i k v d,
    insert-IsDistinct k v d h.1,
  )

  pub pop-IsDistinct : (k : K) (d : Dict K V) → IsDistinct d → IsDistinct (pop k d)
  pop-IsDistinct k [] h = tt
  pop-IsDistinct k ((i, w) ∷ d) h = ground (arith, lookup-pop i k d h.1, pop-IsDistinct k d h.1)

  -- The entries whose value passes a test.
  abbrev pub count : (V → Bool) → Dict K V → ℕ
  count p [] = 0
  count p ((k, v) ∷ d) = (if p v then 1 else 0) + count p d

  pub count-insert :
      (p : V → Bool) (k : K) (v : V) (d : Dict K V)
      → count p (insert k v d) + weight p (lookup k d) ≡ count p d + weight p (some v)
  count-insert p k v [] = ground arith
  count-insert p k v ((i, w) ∷ d) = ground (arith, count-insert p k v d)

  pub count-pop :
      (p : V → Bool) (k : K) (d : Dict K V) → count p (pop k d) + weight p (lookup k d) ≡ count p d
  count-pop p k [] = refl
  count-pop p k ((i, w) ∷ d) = ground (arith, count-pop p k d)

  pub length-pop :
      (k : K) (v : V) (d : Dict K V) → lookup k d ≡ some v → length d ≡ suc (length (pop k d))
  length-pop k v [] h = ground arith
  length-pop k v ((i, w) ∷ d) h = ground (arith, length-pop k v d)
