-- ===== src/Words/Step.antt =====
-- One equation for the lowest binary digit of each bit operation.
use Prim.Native.Nat.{
  min, max, differ, digits, bitwise, bit_and-bitwise, bit_or-bitwise, bit_xor-bitwise,
}
use lua2sc.Prelude.{
  ℕ, zero, suc, ◌+◌, ◌-◌, ◌*◌, ◌/◌, ◌%◌, ◌≤◌, ◌<◌, bit_and, bit_or, bit_xor, ◌≡◌, refl, sym, ap,
  ◌∙◌, arith,
}

-- An operation on digits, and what the whole operation makes of a first operand that is 0.
module _ (first_zero : ℕ → ℕ) (on_digits : ℕ → ℕ → ℕ) where
  -- One more unit of fuel does not matter where the fuel bounds the number.
  digits_more :
      (b a fuel : ℕ)
      → a ≤ fuel
      → digits first_zero on_digits (suc fuel) a b ≡ digits first_zero on_digits fuel a b
  digits_more b zero zero bounded = refl
  digits_more b zero (suc fuel) bounded = refl
  digits_more b (suc a) zero bounded = absurd (omega arith)
  digits_more b (suc a) (suc fuel) bounded = rw (digits_more (b / 2) (suc a / 2) fuel (omega arith))

  digits_much_more :
      (extra a b fuel : ℕ)
      → a ≤ fuel
      → digits first_zero on_digits (extra + fuel) a b ≡ digits first_zero on_digits fuel a b
  digits_much_more zero a b fuel bounded =
      let none_more : 0 + fuel ≡ fuel = omega arith in
      ap (λ n. digits first_zero on_digits n a b) none_more
  digits_much_more (suc extra) a b fuel bounded =
      let one_more : suc extra + fuel ≡ suc (extra + fuel) = omega arith in
      ap (λ n. digits first_zero on_digits n a b) one_more
      ∙ digits_more b a (extra + fuel) (omega arith)
      ∙ digits_much_more extra a b fuel bounded

  -- The lowest digit and the half.
  bitwise_step :
      ((b : ℕ) → first_zero b ≡ first_zero (b / 2) * 2 + on_digits 0 (b % 2))
      → (a b : ℕ)
      → bitwise first_zero on_digits a b
        ≡ bitwise first_zero on_digits (a / 2) (b / 2) * 2 + on_digits (a % 2) (b % 2)
  bitwise_step at_zero zero b = at_zero b
  bitwise_step at_zero (suc a) b =
      let place : a - suc a / 2 + suc a / 2 ≡ a = omega arith in
      let same : digits first_zero on_digits a (suc a / 2) (b / 2)
          ≡ digits first_zero on_digits (suc a / 2) (suc a / 2) (b / 2) =
        ap (λ n. digits first_zero on_digits n (suc a / 2) (b / 2)) (sym place)
        ∙ digits_much_more (a - suc a / 2) (suc a / 2) (b / 2) (suc a / 2) (omega arith) in
      ap (λ (t : ℕ). t * 2 + on_digits (suc a % 2) (b % 2)) same

-- The sum of two digits without the carry.
differ_digits : (x y : ℕ) → x < 2 → y < 2 → differ x y ≡ (x + y) % 2
differ_digits zero y p q = omega arith
differ_digits (suc zero) zero p q = omega arith
differ_digits (suc zero) (suc zero) p q = omega arith
differ_digits (suc zero) (suc (suc y)) p q = absurd (omega arith)
differ_digits (suc (suc x)) y p q = absurd (omega arith)

pub bit_xor_step : (a b : ℕ) → bit_xor a b ≡ bit_xor (a / 2) (b / 2) * 2 + (a % 2 + b % 2) % 2
bit_xor_step a b =
    simp bit_xor-bitwise (bitwise_step (λ b. b) differ (λ b. omega arith) a b)
    ∙ ap (λ (t : ℕ). bit_xor (a / 2) (b / 2) * 2 + t)
        (differ_digits (a % 2) (b % 2) (omega arith) (omega arith))

pub bit_and_step : (a b : ℕ) → bit_and a b ≡ bit_and (a / 2) (b / 2) * 2 + min (a % 2) (b % 2)
bit_and_step a b = simp bit_and-bitwise (bitwise_step (λ b. 0) min (λ b. omega arith) a b)

pub bit_or_step : (a b : ℕ) → bit_or a b ≡ bit_or (a / 2) (b / 2) * 2 + max (a % 2) (b % 2)
bit_or_step a b = simp bit_or-bitwise (bitwise_step (λ b. b) max (λ b. omega arith) a b)
