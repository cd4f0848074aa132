-- ===== src/Random/Tempering.antt =====
-- The tempering of random/random.c and its inverse.
use lua2sc.Prelude.{
  ℕ, zero, suc, ◌+◌, ◌-◌, ◌*◌, ◌/◌, ◌^◌, ◌<◌, ◌≤◌, ◌≡◌, refl, sym, ap, ◌∙◌, ◌⊎◌, inl, inr, arith,
  bit_and, bit_xor,
}
use lua2sc.Words.{
  digit, digit-zero, digits_ext, digit-bit_and, digit-shl, digit-shl_low, digit_high, bit_xor_assoc,
  bit_xor_cancel, bit_xor-zero, shr-bit_xor, shl-bit_xor, bit_and-bit_xor, bit_and-lt_right,
}
use lua2sc.Random.State.{LongWidth}
use lua2sc.Random.Generate.{temper}
use lua2sc.Random.Reference.{temper_word}
use lua2sc.Random.Steps.{temper-eq-temper_word, xor_shr-lt, xor_mask-lt}

abbrev IsLinear : (ℕ → ℕ) → Type 0
IsLinear l = (a b : ℕ) → l (bit_xor a b) ≡ bit_xor (l a) (l b)

abbrev iterate : ℕ → (ℕ → ℕ) → ℕ → ℕ
iterate zero l y = y
iterate (suc n) l y = l (iterate n l y)

-- Solves `u = y ^ l y` for `y` by substituting `rounds` times.
unmix : ℕ → (ℕ → ℕ) → ℕ → ℕ
unmix zero l u = u
unmix (suc rounds) l u = bit_xor u (l (unmix rounds l u))

unmix_error :
    (l : ℕ → ℕ)
    → IsLinear l
    → (rounds y : ℕ) → unmix rounds l (bit_xor y (l y)) ≡ bit_xor y (iterate (suc rounds) l y)
unfolding unmix
unmix_error l linear zero y = refl
unmix_error l linear (suc rounds) y =
    rw (unmix_error l linear rounds y, linear y (iterate (suc rounds) l y))
      (rw (← bit_xor_assoc (bit_xor y (l y)) (l y) (l (iterate (suc rounds) l y)))
        (rw bit_xor_cancel))

-- Once the iterated map vanishes the solution is exact.
unmix_exact :
    (l : ℕ → ℕ)
    → IsLinear l
    → (rounds y : ℕ) → iterate (suc rounds) l y ≡ 0
    → unmix rounds l (bit_xor y (l y)) ≡ y
unmix_exact l linear rounds y h = unmix_error l linear rounds y ∙ ap (bit_xor y) h ∙ bit_xor-zero y

-- `y >> k`, and `(y << k) & m`.
abbrev down : ℕ → ℕ → ℕ
down k y = y / 2 ^ k

abbrev up : ℕ → ℕ → ℕ → ℕ
up k m y = bit_and (y * 2 ^ k) m

up-IsLinear : (k m : ℕ) → IsLinear (up k m)
up-IsLinear k m a b = rw (shl-bit_xor k a b) (bit_and-bit_xor _ _ m)

abbrev LowZero : ℕ → ℕ → Type 0
LowZero j y = (k : ℕ) → k < j → digit k y ≡ 0

up-LowZero : (s m j y : ℕ) → LowZero j y → LowZero (s + j) (up s m y)
up-LowZero s m j y low k h = elim (place k) [
  | inl below ↦ omega (arith, digit-bit_and k (y * 2 ^ s) m, digit-shl_low s k y below)
  | inr above ↦ rw (← above) (
      omega (
        arith,
        digit-bit_and (s + (k - s)) (y * 2 ^ s) m,
        digit-shl s (k - s) y,
        low (k - s) (omega arith),
      ))
]
  where
    place : (k : ℕ) → (k < s) ⊎ (s + (k - s) ≡ k)
    place k = omega arith

-- A 32-bit word whose low 32 digits are zero is zero.
eq-zero_of_LowZero : (j y : ℕ) → 32 ≤ j → LowZero j y → y < 2 ^ 32 → y ≡ 0
eq-zero_of_LowZero j y h low fits = digits_ext y 0 λ k. elim (place k) [
  | inl below ↦ low k (omega arith) ∙ sym (digit-zero k)
  | inr above ↦ digit_high 32 k y fits above ∙ sym (digit-zero k)
]
  where
    place : (k : ℕ) → (k < 32) ⊎ (32 ≤ k)
    place k = omega arith

up_seven-vanishes : (m y : ℕ) → m < 2 ^ 32 → iterate 5 (up 7 m) y ≡ 0
up_seven-vanishes m y h =
    eq-zero_of_LowZero 35 _ (omega arith)
      (up-LowZero 7 m 28 _ (
        up-LowZero 7 m 21 _ (
          up-LowZero 7 m 14 _
            (up-LowZero 7 m 7 _ (up-LowZero 7 m 0 y (λ k p. absurd (omega arith)))))))
      (bit_and-lt_right 32 _ m h)

up_fifteen-vanishes : (y : ℕ) → iterate 2 (up 15 0xefc6_0000) y ≡ 0
up_fifteen-vanishes y =
    eq-zero_of_LowZero 32 _ (omega arith) (up-LowZero 15 0xefc6_0000 17 _ under_mask)
      (bit_and-lt_right 32 _ 0xefc6_0000 (omega arith))
  where
    under_mask : LowZero 17 (up 15 0xefc6_0000 y)
    under_mask k h =
        omega (arith, digit-bit_and k (y * 2 ^ 15) 0xefc6_0000, digit-shl_low 17 k 0x77e3 h)

-- The inverse of the tempering, step by step from the last.
untemper : ℕ → ℕ
untemper z =
    let y₃ = unmix 1 (down 18) z in
    let y₂ = unmix 1 (up 15 0xefc6_0000) y₃ in
    let y₁ = unmix 4 (up 7 0x9d2c_5680) y₂ in unmix 2 (down 11) y₁

untemper-temper_word : (y : ℕ) → y < 2 ^ 32 → untemper (temper_word y) ≡ y
unfolding temper_word untemper
untemper-temper_word y h =
    let y₁ = bit_xor y (down 11 y) in
    let y₂ = bit_xor y₁ (up 7 0x9d2c_5680 y₁) in
    let y₃ = bit_xor y₂ (up 15 0xefc6_0000 y₂) in
    let fits₁ : y₁ < 2 ^ 32 = xor_shr-lt 11 y h in
    let fits₂ : y₂ < 2 ^ 32 = xor_mask-lt _ y₁ 0x9d2c_5680 fits₁ (omega arith) in
    let fits₃ : y₃ < 2 ^ 32 = xor_mask-lt _ y₂ 0xefc6_0000 fits₂ (omega arith) in
    rw (unmix_exact (down 18) (shr-bit_xor 18) 1 y₃ (omega arith)) (
      rw
        (unmix_exact (up 15 0xefc6_0000) (up-IsLinear 15 0xefc6_0000) 1 y₂ (up_fifteen-vanishes y₂))
        (rw
          (unmix_exact (up 7 0x9d2c_5680) (up-IsLinear 7 0x9d2c_5680) 4 y₁
            (up_seven-vanishes 0x9d2c_5680 y₁ (omega arith)))
          (unmix_exact (down 11) (shr-bit_xor 11) 2 y (omega arith))))

-- For both widths of `unsigned long`, the word of the state is recovered from the output: two
-- 32-bit words with the same output are the same.
pub temper-injective :
    (w : LongWidth) (y z : ℕ) → y < 2 ^ 32 → z < 2 ^ 32 → temper w y ≡ temper w z → y ≡ z
temper-injective w y z hy hz e =
    sym (untemper-temper_word y hy)
    ∙ ap untemper (sym (temper-eq-temper_word w y) ∙ e ∙ temper-eq-temper_word w z)
    ∙ untemper-temper_word z hz
