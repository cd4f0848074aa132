-- ===== src/Words/Digits.antt =====
-- A number by its binary digits, and the operations of C on unsigned words by what they do to them.
use Prim.Native.Nat.{min, max}
use native.Mathlib.Nat.{
  div-div-eq-div-mul, pow-succ', one-le-pow, div-one, zero-add, suc-add, mul-one,
  add-mul-mod_self_right, mod-eq_of_lt, mod-lt, div-add-mod,
}
use lua2sc.Prelude.{
  ℕ, zero, suc, ◌+◌, ◌*◌, ◌/◌, ◌%◌, ◌^◌, ◌≤◌, ◌<◌, bit_and, bit_or, bit_xor, ◌≡◌, refl, sym, ap,
  ◌∙◌, arith,
}
use lua2sc.Words.Step.{bit_or_step, bit_and_step, bit_xor_step}

-- The digit of weight 2 ^ k.
abbrev pub digit : ℕ → ℕ → ℕ
digit zero n = n % 2
digit (suc k) n = digit k (n / 2)

pub digit-lt : (k n : ℕ) → digit k n < 2
digit-lt zero n = omega arith
digit-lt (suc k) n = digit-lt k (n / 2)

pub digit-zero : (k : ℕ) → digit k 0 ≡ 0
digit-zero zero = refl
digit-zero (suc k) = digit-zero k

digits_ext_below : (n a b : ℕ) → a ≤ n → b ≤ n → ((k : ℕ) → digit k a ≡ digit k b) → a ≡ b
digits_ext_below zero a b p q h = omega arith
digits_ext_below (suc n) a b p q h =
    omega
      (arith, h 0, digits_ext_below n (a / 2) (b / 2) (omega arith) (omega arith) (λ k. h (suc k)))

-- Numbers with the same digits are equal.
pub digits_ext : (a b : ℕ) → ((k : ℕ) → digit k a ≡ digit k b) → a ≡ b
digits_ext a b h = digits_ext_below (a + b) a b (omega arith) (omega arith) h

pub digit-bit_xor : (k a b : ℕ) → digit k (bit_xor a b) ≡ (digit k a + digit k b) % 2
digit-bit_xor zero a b = omega (arith, bit_xor_step a b)
digit-bit_xor (suc k) a b = ap (digit k) (halved a b) ∙ digit-bit_xor k (a / 2) (b / 2)
  where
    halved : (a b : ℕ) → bit_xor a b / 2 ≡ bit_xor (a / 2) (b / 2)
    halved a b = omega (arith, bit_xor_step a b)

pub digit-bit_and : (k a b : ℕ) → digit k (bit_and a b) ≡ min (digit k a) (digit k b)
digit-bit_and zero a b = omega (arith, bit_and_step a b)
digit-bit_and (suc k) a b = ap (digit k) (halved a b) ∙ digit-bit_and k (a / 2) (b / 2)
  where
    halved : (a b : ℕ) → bit_and a b / 2 ≡ bit_and (a / 2) (b / 2)
    halved a b = omega (arith, bit_and_step a b)

pub digit-bit_or : (k a b : ℕ) → digit k (bit_or a b) ≡ max (digit k a) (digit k b)
digit-bit_or zero a b = omega (arith, bit_or_step a b)
digit-bit_or (suc k) a b = ap (digit k) (halved a b) ∙ digit-bit_or k (a / 2) (b / 2)
  where
    halved : (a b : ℕ) → bit_or a b / 2 ≡ bit_or (a / 2) (b / 2)
    halved a b = omega (arith, bit_or_step a b)

div-two-pow-suc : (n j : ℕ) → n / 2 ^ suc j ≡ n / 2 / 2 ^ j
div-two-pow-suc n j = rw (pow-succ' 2 j) (sym (div-div-eq-div-mul n 2 (2 ^ j)))

-- `>>` moves the digits down.
pub digit-shr : (j k n : ℕ) → digit k (n / 2 ^ j) ≡ digit (j + k) n
digit-shr zero k n = rw (div-one, zero-add)
digit-shr (suc j) k n = rw (div-two-pow-suc, suc-add) (digit-shr j k (n / 2))

-- A number below 2 ^ w has no digit at w or above.
pub digit_high : (w k n : ℕ) → n < 2 ^ w → w ≤ k → digit k n ≡ 0
digit_high zero k n h p = let e : n ≡ 0 = omega arith in rw e (digit-zero k)
digit_high (suc w) zero n h p = absurd (omega arith)
digit_high (suc w) (suc k) n h p =
    digit_high w k (n / 2) (omega (arith, pow-succ' 2 w)) (omega arith)

-- A number with no digit at w or above is below 2 ^ w.
pub lt-two-pow_of_digits : (w n : ℕ) → ((k : ℕ) → w ≤ k → digit k n ≡ 0) → n < 2 ^ w
lt-two-pow_of_digits zero n h =
    let e : n ≡ 0 = digits_ext n 0 (λ k. h k (omega arith) ∙ sym (digit-zero k)) in
    rw e (omega arith)
lt-two-pow_of_digits (suc w) n h =
    let half = lt-two-pow_of_digits w (n / 2) (λ k p. h (suc k) (omega arith)) in
    omega (arith, pow-succ' 2 w)

shl-half : (n j : ℕ) → n * 2 ^ suc j / 2 ≡ n * 2 ^ j
shl-half n j = omega (arith, ap (λ (t : ℕ). n * t) (pow-succ' 2 j))

-- `<<` moves the digits up,
pub digit-shl : (j k n : ℕ) → digit (j + k) (n * 2 ^ j) ≡ digit k n
digit-shl zero k n = rw (zero-add, mul-one)
digit-shl (suc j) k n = rw suc-add (ap (digit (j + k)) (shl-half n j) ∙ digit-shl j k n)

-- and fills with zeros from below.
pub digit-shl_low : (j k n : ℕ) → k < j → digit k (n * 2 ^ j) ≡ 0
digit-shl_low zero k n h = absurd (omega arith)
digit-shl_low (suc j) zero n h = omega (arith, ap (λ (t : ℕ). n * t) (pow-succ' 2 j))
digit-shl_low (suc j) (suc k) n h = ap (digit k) (shl-half n j) ∙ digit-shl_low j k n (omega arith)

-- The remainder by 2 ^ (w + 1), in terms of the half and the lowest digit.
pub mod-two-pow-suc : (w n : ℕ) → n % 2 ^ suc w ≡ n / 2 % 2 ^ w * 2 + n % 2
mod-two-pow-suc w n =
    let below = mod-lt (n / 2) (one-le-pow w 2 (omega arith)) in
    let split = div-add-mod (n / 2) (2 ^ w) in
    let whole : n ≡ n / 2 % 2 ^ w * 2 + n % 2 + n / 2 / 2 ^ w * 2 ^ suc w =
      omega (arith, ap (λ (t : ℕ). n / 2 / 2 ^ w * t) (pow-succ' 2 w)) in
    ap (λ (t : ℕ). t % 2 ^ suc w) whole
    ∙ add-mul-mod_self_right (n / 2 % 2 ^ w * 2 + n % 2) (n / 2 / 2 ^ w) (2 ^ suc w)
    ∙ mod-eq_of_lt (omega (arith, pow-succ' 2 w))

-- A conversion to w bits keeps the digits below w.
pub digit-mod : (w k n : ℕ) → k < w → digit k (n % 2 ^ w) ≡ digit k n
digit-mod zero k n h = absurd (omega arith)
digit-mod (suc w) zero n h = omega (arith, mod-two-pow-suc w n)
digit-mod (suc w) (suc k) n h =
    let half : n % 2 ^ suc w / 2 ≡ n / 2 % 2 ^ w = omega (arith, mod-two-pow-suc w n) in
    ap (digit k) half ∙ digit-mod w k (n / 2) (omega arith)
