-- ===== src/Words/Laws.antt =====
-- Laws of `^`, `&`, `|` and the shifts on unsigned words, each proved digit by digit.
use native.Mathlib.Nat.{pow-succ', one-le-pow}
use lua2sc.Prelude.{
  ℕ, zero, suc, ◌+◌, ◌-◌, ◌*◌, ◌/◌, ◌%◌, ◌^◌, ◌≤◌, ◌<◌, bit_and, bit_or, bit_xor, ◌≡◌, ◌⊎◌, inl,
  inr, arith,
}
use lua2sc.Words.Step.{bit_and_step}
use lua2sc.Words.Digits.{
  digit, digit-lt, digit-zero, digits_ext, digit-bit_xor, digit-bit_and, digit-bit_or, digit-shr,
  digit_high, lt-two-pow_of_digits, digit-shl, digit-shl_low, digit-mod, mod-two-pow-suc,
}

-- `^` is an addition without carries.
pub bit_xor_comm : (a b : ℕ) → bit_xor a b ≡ bit_xor b a
bit_xor_comm a b = digits_ext _ _ λ k. omega (arith, digit-bit_xor k a b, digit-bit_xor k b a)

pub bit_xor_assoc : (a b c : ℕ) → bit_xor (bit_xor a b) c ≡ bit_xor a (bit_xor b c)
bit_xor_assoc a b c = digits_ext _ _ λ k. omega (
  arith,
  digit-bit_xor k (bit_xor a b) c,
  digit-bit_xor k a b,
  digit-bit_xor k a (bit_xor b c),
  digit-bit_xor k b c,
)

pub bit_xor_self : (a : ℕ) → bit_xor a a ≡ 0
bit_xor_self a = digits_ext _ _ λ k. omega (arith, digit-bit_xor k a a, digit-zero k)

pub bit_xor-zero : (a : ℕ) → bit_xor a 0 ≡ a
bit_xor-zero a = digits_ext _ _ λ k. omega (arith, digit-bit_xor k a 0, digit-zero k, digit-lt k a)

-- What was mixed in twice is gone.
pub bit_xor_cancel : (a b : ℕ) → bit_xor (bit_xor a b) b ≡ a
bit_xor_cancel a b = rw (bit_xor_assoc, bit_xor_self) (bit_xor-zero a)

-- `>>`, `<<`, `&` with a mask and the conversion to w bits distribute over `^`.
pub shr-bit_xor : (j a b : ℕ) → bit_xor a b / 2 ^ j ≡ bit_xor (a / 2 ^ j) (b / 2 ^ j)
shr-bit_xor j a b = digits_ext _ _ λ k. omega (
  arith,
  digit-shr j k (bit_xor a b),
  digit-bit_xor (j + k) a b,
  digit-bit_xor k (a / 2 ^ j) (b / 2 ^ j),
  digit-shr j k a,
  digit-shr j k b,
)

pub bit_and-bit_xor : (a b m : ℕ) → bit_and (bit_xor a b) m ≡ bit_xor (bit_and a m) (bit_and b m)
bit_and-bit_xor a b m = digits_ext _ _ λ k. omega (
  arith,
  digit-bit_and k (bit_xor a b) m,
  digit-bit_xor k a b,
  digit-bit_xor k (bit_and a m) (bit_and b m),
  digit-bit_and k a m,
  digit-bit_and k b m,
  digit-lt k a,
  digit-lt k b,
  digit-lt k m,
)

pub shl-bit_xor : (j a b : ℕ) → bit_xor a b * 2 ^ j ≡ bit_xor (a * 2 ^ j) (b * 2 ^ j)
shl-bit_xor j a b = digits_ext _ _ λ k. by_place k
  where
    low_or_high : (k : ℕ) → (k < j) ⊎ (j + (k - j) ≡ k)
    low_or_high k = omega arith

    by_place : (k : ℕ) → digit k (bit_xor a b * 2 ^ j) ≡ digit k (bit_xor (a * 2 ^ j) (b * 2 ^ j))
    by_place k = elim (low_or_high k) [
      | inl low ↦ omega (
        arith,
        digit-shl_low j k (bit_xor a b) low,
        digit-bit_xor k (a * 2 ^ j) (b * 2 ^ j),
        digit-shl_low j k a low,
        digit-shl_low j k b low,
      )
      | inr high ↦ rw (← high) (
          omega (
            arith,
            digit-shl j (k - j) (bit_xor a b),
            digit-bit_xor (k - j) a b,
            digit-bit_xor (j + (k - j)) (a * 2 ^ j) (b * 2 ^ j),
            digit-shl j (k - j) a,
            digit-shl j (k - j) b,
          ))
    ]

pub bit_xor-lt : (w a b : ℕ) → a < 2 ^ w → b < 2 ^ w → bit_xor a b < 2 ^ w
bit_xor-lt w a b p q =
    lt-two-pow_of_digits w _
      λ k h. omega (arith, digit-bit_xor k a b, digit_high w k a p h, digit_high w k b q h)

pub bit_or-lt : (w a b : ℕ) → a < 2 ^ w → b < 2 ^ w → bit_or a b < 2 ^ w
bit_or-lt w a b p q =
    lt-two-pow_of_digits w _
      λ k h. omega (arith, digit-bit_or k a b, digit_high w k a p h, digit_high w k b q h)

pub bit_and-lt_right : (w a m : ℕ) → m < 2 ^ w → bit_and a m < 2 ^ w
bit_and-lt_right w a m q =
    lt-two-pow_of_digits w _ λ k h. omega (arith, digit-bit_and k a m, digit_high w k m q h)

pub bit_and-lt_left : (w a m : ℕ) → a < 2 ^ w → bit_and a m < 2 ^ w
bit_and-lt_left w a m q =
    lt-two-pow_of_digits w _ λ k h. omega (arith, digit-bit_and k a m, digit_high w k a q h)

-- Digits above a mask's do not matter under it.
pub bit_and-mod : (w a m : ℕ) → m < 2 ^ w → bit_and (a % 2 ^ w) m ≡ bit_and a m
bit_and-mod w a m h = digits_ext _ _ λ k. by_place k
  where
    below_or_above : (k : ℕ) → (k < w) ⊎ (w ≤ k)
    below_or_above k = omega arith

    by_place : (k : ℕ) → digit k (bit_and (a % 2 ^ w) m) ≡ digit k (bit_and a m)
    by_place k = elim (below_or_above k) [
      | inl below ↦
          omega (arith, digit-bit_and k (a % 2 ^ w) m, digit-bit_and k a m, digit-mod w k a below)
      | inr above ↦
          omega
            (arith, digit-bit_and k (a % 2 ^ w) m, digit-bit_and k a m, digit_high w k m h above)
    ]

bit_and-zero : (a : ℕ) → bit_and a 0 ≡ 0
bit_and-zero a = digits_ext _ _ λ k. omega (arith, digit-bit_and k a 0, digit-zero k)

-- A mask of w ones takes the remainder by 2 ^ w.
pub bit_and_mask : (w a : ℕ) → bit_and a (2 ^ w - 1) ≡ a % 2 ^ w
bit_and_mask zero a = rw bit_and-zero (omega arith)
bit_and_mask (suc w) a =
    let half : (2 ^ suc w - 1) / 2 ≡ 2 ^ w - 1 =
      omega (arith, pow-succ' 2 w, one-le-pow w 2 (omega arith)) in
    let rest : bit_and (a / 2) ((2 ^ suc w - 1) / 2) ≡ a / 2 % 2 ^ w =
      rw half (bit_and_mask w (a / 2)) in
    omega (
      arith,
      bit_and_step a (2 ^ suc w - 1),
      mod-two-pow-suc w a,
      pow-succ' 2 w,
      one-le-pow w 2 (omega arith),
    )
