-- ===== src/Words/Fields.antt =====
-- `|` of disjoint fields, and `&` with a mask of high bits.
use native.Mathlib.Nat.{
  mul-add-div_right, div-eq_of_lt, one-le-pow, mul-add-mod_self_right, mod-eq_of_lt,
}
use lua2sc.Prelude.{
  ℕ, ◌+◌, ◌-◌, ◌*◌, ◌/◌, ◌%◌, ◌^◌, ◌<◌, bit_and, bit_or, ◌≡◌, ap, ◌∙◌, ◌⊎◌, inl, inr, arith,
}
use lua2sc.Words.Digits.{
  digit, digit-zero, digits_ext, digit-bit_and, digit-bit_or, digit-shr, digit_high, digit-shl,
  digit-shl_low, digit-mod,
}

low_or_high : (j k : ℕ) → (k < j) ⊎ (j + (k - j) ≡ k)
low_or_high j k = omega arith

-- A mask shifted up takes the high field.
pub bit_and-shl : (j a m : ℕ) → bit_and a (m * 2 ^ j) ≡ bit_and (a / 2 ^ j) m * 2 ^ j
bit_and-shl j a m = digits_ext _ _ λ k. by_place k
  where
    by_place : (k : ℕ) → digit k (bit_and a (m * 2 ^ j)) ≡ digit k (bit_and (a / 2 ^ j) m * 2 ^ j)
    by_place k = elim (low_or_high j k) [
      | inl low ↦ omega (
        arith,
        digit-bit_and k a (m * 2 ^ j),
        digit-shl_low j k m low,
        digit-shl_low j k (bit_and (a / 2 ^ j) m) low,
      )
      | inr high ↦ rw (← high) (
          omega (
            arith,
            digit-bit_and (j + (k - j)) a (m * 2 ^ j),
            digit-shl j (k - j) m,
            digit-shl j (k - j) (bit_and (a / 2 ^ j) m),
            digit-bit_and (k - j) (a / 2 ^ j) m,
            digit-shr j (k - j) a,
          ))
    ]

bit_or-zero : (a : ℕ) → bit_or a 0 ≡ a
bit_or-zero a = digits_ext _ _ λ k. omega (arith, digit-bit_or k a 0, digit-zero k)

-- `(q << j) | r` is a sum when `r` fits in `j` bits.
pub bit_or_fields : (j q r : ℕ) → r < 2 ^ j → bit_or (q * 2 ^ j) r ≡ q * 2 ^ j + r
bit_or_fields j q r h = digits_ext _ _ λ k. by_place k
  where
    above : (q * 2 ^ j + r) / 2 ^ j ≡ q
    above =
        mul-add-div_right (one-le-pow j 2 (omega arith)) q r
        ∙ ap (λ (t : ℕ). q + t) (div-eq_of_lt h)
        ∙ omega arith

    below : (q * 2 ^ j + r) % 2 ^ j ≡ r
    below = mul-add-mod_self_right q (2 ^ j) r ∙ mod-eq_of_lt h

    by_place : (k : ℕ) → digit k (bit_or (q * 2 ^ j) r) ≡ digit k (q * 2 ^ j + r)
    by_place k = elim (low_or_high j k) [
      | inl low ↦ omega (
        arith,
        digit-bit_or k (q * 2 ^ j) r,
        digit-shl_low j k q low,
        digit-mod j k (q * 2 ^ j + r) low,
        ap (digit k) below,
      )
      | inr high ↦ rw (← high) (
          omega (
            arith,
            digit-bit_or (j + (k - j)) (q * 2 ^ j) r,
            digit-shl j (k - j) q,
            digit_high j (j + (k - j)) r h (omega arith),
            digit-shr j (k - j) (q * 2 ^ j + r),
            ap (digit (k - j)) above,
          ))
    ]
