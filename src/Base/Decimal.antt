-- ===== src/Base/Decimal.antt =====
-- `str(n)` of a natural number, and that no two numbers have the same digits.
use specode_review.Base.{
  ℕ, zero, suc, ◌+◌, ◌-◌, ◌*◌, ◌/◌, ◌%◌, ◌≤◌, ◌<◌, ◌≡◌, sym, ap, ◌∙◌, inl, inr, [], ◌∷◌, arith,
  Text, ltb, if◌then◌else◌, All, Bool-cases,
}

-- The digits of `n`, before `rest`. A fuel above `n` is enough, since each round divides by 10.
digits : ℕ → ℕ → Text → Text
digits zero n rest = rest
digits (suc fuel) n rest =
    let more = digits fuel (n / 10) ((48 + n % 10) ∷ rest) in
    if ltb n 10 then (48 + n) ∷ rest else more

unfoldable pub decimal : ℕ → Text
unfolding digits
decimal n = digits (suc n) n []

-- Reading digits back, from the left.
unfoldable pub value : ℕ → Text → ℕ
value acc [] = acc
value acc (c ∷ s) = value (acc * 10 + (c - 48)) s

value-digits : (fuel n : ℕ) (rest : Text) → n < fuel → value 0 (digits fuel n rest) ≡ value n rest
unfolding digits value
value-digits zero n rest h = absurd (omega arith)
value-digits (suc fuel) n rest h = elim (Bool-cases (ltb n 10)) [
  | inl small ↦ rw small (ap (λ (a : ℕ). value a rest) (omega arith))
  | inr large ↦ rw large (
      value-digits fuel (n / 10) ((48 + n % 10) ∷ rest) (ground arith)
      ∙ ap (λ (a : ℕ). value a rest) (omega arith))
]

pub value-decimal : (n : ℕ) → value 0 (decimal n) ≡ n
unfolding decimal value
value-decimal n = value-digits (suc n) n [] (omega arith)

pub decimal-injective : (m n : ℕ) → decimal m ≡ decimal n → m ≡ n
unfolding decimal value
decimal-injective m n h =
    sym (value-digits (suc m) m [] (omega arith))
    ∙ ap (value 0) h
    ∙ value-digits (suc n) n [] (omega arith)

abbrev pub IsDigit : ℕ → Type 0
IsDigit c = (48 ≤ c) × (c ≤ 57)

digits-IsDigit : (fuel n : ℕ) (rest : Text) → All IsDigit rest → All IsDigit (digits fuel n rest)
unfolding digits
digits-IsDigit zero n rest h = h
digits-IsDigit (suc fuel) n rest h = elim (Bool-cases (ltb n 10)) [
  | inl small ↦ rw small ((omega arith, ground arith), h)
  | inr large ↦
      rw large (digits-IsDigit fuel (n / 10) ((48 + n % 10) ∷ rest) ((omega arith, omega arith), h))
]

pub decimal-IsDigit : (n : ℕ) → All IsDigit (decimal n)
unfolding decimal
decimal-IsDigit n = digits-IsDigit (suc n) n [] tt
