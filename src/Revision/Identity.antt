-- ===== src/Revision/Identity.antt =====
-- When two requests have one identity, and that the identity is told by its canonical text.
use specode_review.Base.{
  ℕ, ◌≡◌, ◌≢◌, refl, [], ◌∷◌, ◌++◌, arith, Text, text, All, lower, lower_char, Bool, true, false,
  ◌&&◌, all, nat_eq, inl, inr, Bool-cases, and_left, and_right,
}
use specode_review.Base.Decimal.{decimal, decimal-injective, decimal-IsDigit, IsDigit}
use specode_review.Models.{
  ReviewRequest, is_sha, is_hex, is_name_char, name_tail, name_head, is_repository_name,
}
use specode_review.Revision.{from_review_request, canonical}

-- A text with no line feed in it.
abbrev pub IsOneLine : Text → Type 0
IsOneLine = All (λ c. c ≢ 10)

-- Two texts that begin with a line each agree in the line and in what follows.
line_unique :
    (s t s' t' : Text)
    → IsOneLine s
    → IsOneLine t
    → (s ++ 10 ∷ s') ≡ (t ++ 10 ∷ t')
    → (s ≡ t) × (s' ≡ t')
line_unique [] [] s' t' hs ht e = ground arith
line_unique [] (d ∷ t) s' t' hs ht e = ground (arith, ht.0)
line_unique (c ∷ s) [] s' t' hs ht e = ground (arith, hs.0)
line_unique (c ∷ s) (d ∷ t) s' t' hs ht e = ground (arith, line_unique s t s' t' hs.1 ht.1)

digits-IsOneLine : (s : Text) → All IsDigit s → IsOneLine s
digits-IsOneLine [] h = tt
digits-IsOneLine (c ∷ s) h = ((λ e. omega arith), digits-IsOneLine s h.1)

decimal-IsOneLine : (n : ℕ) → IsOneLine (decimal n)
decimal-IsOneLine n = digits-IsOneLine (decimal n) (decimal-IsDigit n)

-- The characters that the patterns of the fields admit are no line feeds, lowered or not.
lower-IsOneLine :
    (p : ℕ → Bool) (s : Text)
    → ((c : ℕ) → p c ≡ true → lower_char c ≢ 10)
    → all p s ≡ true
    → IsOneLine (lower s)
unfolding lower
lower-IsOneLine p [] h e = tt
lower-IsOneLine p (c ∷ s) h e = (h c (ground arith), lower-IsOneLine p s h (ground arith))

sha-IsOneLine : (s : Text) → is_sha s ≡ true → IsOneLine (lower s)
unfolding is_sha
sha-IsOneLine s e = lower-IsOneLine is_hex s (λ c h. ground arith) (ground arith)

name_char_lowered : (c : ℕ) → is_name_char c ≡ true → lower_char c ≢ 10
name_char_lowered c h = ground arith

tail-IsOneLine : (seen : Bool) (s : Text) → name_tail seen s ≡ true → IsOneLine (lower s)
unfolding name_tail lower
tail-IsOneLine seen [] e = tt
tail-IsOneLine seen (c ∷ s) e =
    (name_char_lowered c (and_left _ _ e), tail-IsOneLine true s (and_right _ _ e))

head-IsOneLine : (seen : Bool) (s : Text) → name_head seen s ≡ true → IsOneLine (lower s)
unfolding name_head lower
head-IsOneLine seen [] e = tt
head-IsOneLine seen (c ∷ s) e = elim (Bool-cases (nat_eq c b'/')) [
  | inl slash ↦ (ground arith, tail-IsOneLine false s (and_right seen _ (rw slash at e)))
  | inr other ↦
      let e' = rw other at e in
      (name_char_lowered c (and_left _ _ e'), head-IsOneLine true s (and_right _ _ e'))
]

name-IsOneLine : (s : Text) → is_repository_name s ≡ true → IsOneLine (lower s)
unfolding is_repository_name
name-IsOneLine s e = head-IsOneLine false s (and_right _ _ (and_right _ _ e))

abbrev pub valid_identity : ReviewRequest → Bool
valid_identity q = is_repository_name q.repository && (is_sha q.base_sha && is_sha q.head_sha)

-- Two requests whose repository and hashes match the patterns of their fields, and whose revisions
-- have the same canonical text, are for the same revision.
pub canonical-injective :
    (q q' : ReviewRequest)
    → valid_identity q ≡ true
    → valid_identity q' ≡ true
    → canonical (from_review_request q) ≡ canonical (from_review_request q')
    → from_review_request q ≡ from_review_request q'
unfolding canonical from_review_request
canonical-injective q q' h h' e =
    let first = line_unique (text "v1") (text "v1") _ _ (omega arith) (omega arith) e in
    let second =
      line_unique (lower q.repository) (lower q'.repository) _ _
        (name-IsOneLine q.repository (ground arith)) (name-IsOneLine q'.repository (ground arith))
        first.1 in
    let third =
      line_unique (decimal q.pr_number) (decimal q'.pr_number) _ _ (decimal-IsOneLine q.pr_number)
        (decimal-IsOneLine q'.pr_number) second.1 in
    let fourth =
      line_unique (lower q.base_sha) (lower q'.base_sha) _ _
        (sha-IsOneLine q.base_sha (ground arith)) (sha-IsOneLine q'.base_sha (ground arith))
        third.1 in
    cc (second.0, decimal-injective q.pr_number q'.pr_number third.0, fourth.0, fourth.1)

lower_char-idempotent : (c : ℕ) → lower_char (lower_char c) ≡ lower_char c
lower_char-idempotent c = ground arith

lower-idempotent : (s : Text) → lower (lower s) ≡ lower s
unfolding lower
lower-idempotent [] = refl
lower-idempotent (c ∷ s) = cc (lower_char-idempotent c, lower-idempotent s)

abbrev pub revised : ReviewRequest → Text → Text → Text → ReviewRequest
revised q repository base_sha head_sha = record q {
  repository = repository;
  base_sha = base_sha;
  head_sha = head_sha;
}

-- The identity does not depend on the case of the repository's name or of the commit hashes: a
-- request that was lowered before, as webhooks are, has the identity of the request itself.
pub from_review_request-lower :
    (q : ReviewRequest)
    → from_review_request (revised q (lower q.repository) (lower q.base_sha) (lower q.head_sha))
      ≡ from_review_request q
unfolding from_review_request
from_review_request-lower q =
    cc (lower-idempotent q.repository, lower-idempotent q.base_sha, lower-idempotent q.head_sha)
