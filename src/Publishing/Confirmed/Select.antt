-- ===== src/Publishing/Confirmed/Select.antt =====
-- Selecting comments: behind a new one, and after one was replaced.
use mathlib.Core.Path.{subst}
use specode_review.Base.{
  ℕ, ◌≡◌, ◌≢◌, ◌≤◌, ◌+◌, refl, Bool, true, false, length, Bool-cases, inl, inr, [], ◌∷◌, ◌++◌, List,
  arith, Text, All,
}
use specode_review.Publishing.Gateway.{ReviewComment}
use specode_review.Publishing.Contract.{replace_body, HasDistinctIds}
use specode_review.Publishing.Comment.{select}

module _ (own : ReviewComment → Bool) where
  pub select-append :
      (cs : List ReviewComment) (c : ReviewComment)
      → own c ≡ true
      → select own (cs ++ c ∷ []) ≡ select own cs ++ c ∷ []
  select-append [] c h = rw h
  select-append (d ∷ cs) c h = ground (arith, select-append cs c h)

  replace_body-none :
      (cs : List ReviewComment) (id : ℕ) (body : Text)
      → All (λ d. d.id ≢ id) cs
      → replace_body id body cs ≡ cs
  replace_body-none [] id body h = refl
  replace_body-none (d ∷ cs) id body h = ground (arith, replace_body-none cs id body h.1, h.0)

  selected-id :
      (cs : List ReviewComment) (c : ReviewComment) (id : ℕ)
      → select own cs ≡ c ∷ []
      → All (λ d. d.id ≢ id) cs
      → c.id ≢ id
  selected-id [] c id h a = ground arith
  selected-id (d ∷ cs) c id h a = ground (arith, selected-id cs c id, a.0)

  -- If one comment is selected, giving it another body that is selected too changes it alone.
  pub select-replace_body :
      (cs : List ReviewComment) (c : ReviewComment) (body : Text)
      → HasDistinctIds cs
      → select own cs ≡ c ∷ []
      → own (record c { body = body }) ≡ true
      → select own (replace_body c.id body cs) ≡ (record c { body = body }) ∷ []
  select-replace_body [] c body distinct h o = ground arith
  select-replace_body (d ∷ cs) c body distinct h o = elim (Bool-cases (own d)) [
    | inl mine ↦
        let e : d ∷ select own cs ≡ c ∷ [] = rw mine at h in
        let same : d ≡ c = cc in
        let alone : select own cs ≡ [] = cc in
        let here : All (λ x. x.id ≢ c.id) cs =
          subst (λ x. All (λ y. y.id ≢ x.id) cs) same distinct.0 in
        ground (arith, o, same, alone, replace_body-none cs c.id body here)
    | inr not_mine ↦
        let e : select own cs ≡ c ∷ [] = rw not_mine at h in
        ground (
          arith,
          not_mine,
          selected-id cs c d.id e distinct.0,
          select-replace_body cs c body distinct.1 e o,
        )
  ]

  -- If the other body is not selected, nothing is.
  select-replace_body_none :
      (cs : List ReviewComment) (c : ReviewComment) (body : Text)
      → HasDistinctIds cs
      → select own cs ≡ c ∷ []
      → own (record c { body = body }) ≡ false
      → select own (replace_body c.id body cs) ≡ []
  select-replace_body_none [] c body distinct h o = ground arith
  select-replace_body_none (d ∷ cs) c body distinct h o = elim (Bool-cases (own d)) [
    | inl mine ↦
        let e : d ∷ select own cs ≡ c ∷ [] = rw mine at h in
        let same : d ≡ c = cc in
        let alone : select own cs ≡ [] = cc in
        let here : All (λ x. x.id ≢ c.id) cs =
          subst (λ x. All (λ y. y.id ≢ x.id) cs) same distinct.0 in
        ground (arith, o, same, alone, replace_body-none cs c.id body here)
    | inr not_mine ↦
        let e : select own cs ≡ c ∷ [] = rw not_mine at h in
        ground (
          arith,
          not_mine,
          selected-id cs c d.id e distinct.0,
          select-replace_body_none cs c body distinct.1 e o,
        )
  ]

  -- One comment more selects one more at most, and another body for the one that is selected none.
  pub length-select_append :
      (cs : List ReviewComment) (c : ReviewComment)
      → length (select own (cs ++ c ∷ [])) ≤ length (select own cs) + 1
  length-select_append [] c = ground arith
  length-select_append (d ∷ cs) c = ground (arith, length-select_append cs c)

  pub length-select_replaced :
      (cs : List ReviewComment) (c : ReviewComment) (body : Text)
      → HasDistinctIds cs
      → select own cs ≡ c ∷ []
      → length (select own (replace_body c.id body cs)) ≤ 1
  length-select_replaced cs c body distinct h = elim (Bool-cases (own (record c { body = body }))) [
    | inl owned ↦ rw (select-replace_body cs c body distinct h owned) (omega arith)
    | inr other ↦ rw (select-replace_body_none cs c body distinct h other) (omega arith)
  ]

  -- What is selected passes the test.
  pub select-own :
      (cs : List ReviewComment) (c : ReviewComment) → select own cs ≡ c ∷ [] → own c ≡ true
  select-own [] c h = cc
  select-own (d ∷ cs) c h = elim (Bool-cases (own d)) [
    | inl mine ↦
        let e : d ∷ select own cs ≡ c ∷ [] = rw mine at h in
        let same : d ≡ c = cc in subst (λ x. own x ≡ true) same mine
    | inr not_mine ↦ select-own cs c (rw not_mine at h)
  ]
