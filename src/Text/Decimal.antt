-- ===== src/Text/Decimal.antt =====
-- Printed numbers can be read back, so two numbers with one text are the same.
use name_spread.Prelude.{
  ℕ, zero, suc, ◌+◌, ◌-◌, ◌*◌, ◌/◌, ◌%◌, ◌<◌, ◌≤◌, ◌≡◌, length, [], ◌∷◌, arith, sym, ap, ◌∙◌, leb,
  Bool-cases, inl, inr, false,
}
use name_spread.Text.{Str, digits_onto, decimal}

-- The number that a text stands for behind digits worth `acc`.
value : ℕ → Str → ℕ
value acc [] = acc
value acc (c ∷ s) = value (acc * 10 + (c - b'0')) s

digit-back : (n : ℕ) → n / 10 * 10 + (b'0' + n % 10 - b'0') ≡ n
digit-back n = omega arith

small-back : (n : ℕ) → leb 10 n ≡ false → 0 * 10 + (b'0' + n % 10 - b'0') ≡ n
small-back n h = ground arith

value-digits_onto : (k n : ℕ) (s : Str) → n < k → value 0 (digits_onto k n s) ≡ value n s
unfolding value digits_onto
value-digits_onto zero n s h = absurd (omega arith)
value-digits_onto (suc k) n s h = elim (Bool-cases (leb 10 n)) [
  | inl more ↦ rw more (
      value-digits_onto k (n / 10) ((b'0' + n % 10) ∷ s) (ground arith)
      ∙ ap (λ a. value a s) (digit-back n))
  | inr done ↦ rw done (ap (λ a. value a s) (small-back n done))
]

value-decimal : (n : ℕ) → value 0 (decimal n) ≡ n
unfolding value decimal
value-decimal n = value-digits_onto (suc n) n [] (omega arith)

-- Two timer ids with the same text are the same.
pub decimal_injective : (m n : ℕ) → decimal m ≡ decimal n → m ≡ n
decimal_injective m n e = sym (value-decimal m) ∙ ap (value 0) e ∙ value-decimal n

length_one : (k n : ℕ) (s : Str) → n < 10 → length (digits_onto k n s) ≤ 1 + length s
unfolding digits_onto
length_one zero n s lt = omega arith
length_one (suc k) n s lt = ground arith

length_two : (k n : ℕ) (s : Str) → n < 100 → length (digits_onto k n s) ≤ 2 + length s
unfolding digits_onto
length_two zero n s lt = omega arith
length_two (suc k) n s lt = elim (Bool-cases (leb 10 n)) [
  | inl more ↦ rw more (omega (arith, length_one k (n / 10) ((b'0' + n % 10) ∷ s) (omega arith)))
  | inr done ↦ rw done (omega arith)
]

length_three : (k n : ℕ) (s : Str) → n < 1000 → length (digits_onto k n s) ≤ 3 + length s
unfolding digits_onto
length_three zero n s lt = omega arith
length_three (suc k) n s lt = elim (Bool-cases (leb 10 n)) [
  | inl more ↦ rw more (omega (arith, length_two k (n / 10) ((b'0' + n % 10) ∷ s) (omega arith)))
  | inr done ↦ rw done (omega arith)
]

-- A number below a thousand has at most three digits.
pub length-decimal : (n : ℕ) → n < 1000 → length (decimal n) ≤ 3
unfolding decimal
length-decimal n lt = length_three (suc n) n [] lt
