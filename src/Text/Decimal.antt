-- ===== src/Text/Decimal.antt =====
-- `%d` of a number that is not negative.
use void_init.Base.{
  ℕ, zero, suc, ◌+◌, ◌-◌, ◌*◌, ◌/◌, ◌%◌, ◌<◌, ◌≤◌, All, ◌≡◌, ap, sym, ◌∙◌, [], ◌∷◌, arith, ltb,
  if◌then◌else◌, Bytes, Bool-cases, inl, inr,
}

-- The digits of `n` in front of `rest`; the fuel bounds the number of digits.
digits_onto : ℕ → ℕ → Bytes → Bytes
digits_onto zero n rest = rest
digits_onto (suc fuel) n rest =
    let more = digits_onto fuel (n / 10) ((b'0' + n % 10) ∷ rest) in
    if ltb n 10 then (b'0' + n) ∷ rest else more

unfoldable pub decimal : ℕ → Bytes
unfolding digits_onto
decimal n = digits_onto (suc n) n []

-- The number that digits spell behind those that were read.
value : ℕ → Bytes → ℕ
value acc [] = acc
value acc (c ∷ s) = value (acc * 10 + (c - b'0')) s

value-digits_onto :
    (fuel n : ℕ) (rest : Bytes) → n < fuel → value 0 (digits_onto fuel n rest) ≡ value n rest
unfolding digits_onto value
value-digits_onto zero n rest h = absurd (omega arith)
value-digits_onto (suc fuel) n rest h = elim (Bool-cases (ltb n 10)) [
  | inl small ↦ rw small (ap (λ k. value k rest) (omega arith))
  | inr large ↦ rw large (
      value-digits_onto fuel (n / 10) ((b'0' + n % 10) ∷ rest) (ground arith)
      ∙ ap (λ k. value k rest) (omega arith))
]

-- The fuel suffices for every number, so different numbers are written differently.
pub decimal-injective : (m n : ℕ) → decimal m ≡ decimal n → m ≡ n
unfolding decimal value
decimal-injective m n h =
    sym (value-digits_onto (suc m) m [] (omega arith))
    ∙ ap (value 0) h
    ∙ value-digits_onto (suc n) n [] (omega arith)

digits_onto-All :
    (fuel n : ℕ) (rest : Bytes)
    → All (λ c. b'0' ≤ c) rest
    → All (λ c. b'0' ≤ c) (digits_onto fuel n rest)
unfolding digits_onto
digits_onto-All zero n rest h = h
digits_onto-All (suc fuel) n rest h = elim (Bool-cases (ltb n 10)) [
  | inl small ↦ rw small (omega arith, h)
  | inr large ↦ rw large (digits_onto-All fuel (n / 10) _ (omega arith, h))
]

-- Every byte is a digit or stands behind the digits in ASCII, so none is `/` or `.`.
pub decimal-All : (n : ℕ) → All (λ c. b'0' ≤ c) (decimal n)
unfolding decimal
decimal-All n = digits_onto-All (suc n) n [] tt
