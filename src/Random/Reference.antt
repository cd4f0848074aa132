-- ===== src/Random/Reference.antt =====
-- The Mersenne Twister as its authors define it: a sequence of 32-bit words by a recurrence, and a
-- tempering of each word, over unbounded numbers, with no array and no machine width.
use lua2sc.Prelude.{
  ℕ, zero, suc, ◌+◌, ◌-◌, ◌*◌, ◌/◌, ◌%◌, ◌^◌, ◌<◌, ◌≤◌, ◌≡◌, bit_and, bit_xor, arith, ltb, lt→ltb,
  ◌==◌, if◌then◌else◌, true, false, ◌⊎◌, inl, inr,
}

-- The words that a seed gives, by Knuth's linear recurrence.
unfoldable pub seed_word : ℕ → ℕ → ℕ
seed_word s zero = s % 2 ^ 32
seed_word s (suc n) =
    let prev = seed_word s n in (1812433253 * bit_xor prev (prev / 2 ^ 30) + suc n) % 2 ^ 32

-- The word 624 places after `a`, from it, its successor `b` and the word `m` 397 places after it.
unfoldable pub next_word : ℕ → ℕ → ℕ → ℕ
next_word m a b =
    let y = a / 2 ^ 31 * 2 ^ 31 + b % 2 ^ 31 in
    bit_xor m (bit_xor (y / 2) (if y % 2 == 0 then 0 else 0x9908_b0df))

-- The recurrence with fuel, from the first words `first`.
word_fuel : (ℕ → ℕ) → ℕ → ℕ → ℕ
word_fuel first zero n = 0
word_fuel first (suc fuel) n =
    let later =
      next_word (word_fuel first fuel (n - 227)) (word_fuel first fuel (n - 624))
        (word_fuel first fuel (n - 623)) in
    if ltb n 624 then first n else later

-- The sequence of words from the first 624.
pub word : (ℕ → ℕ) → ℕ → ℕ
word first n = word_fuel first (suc n) n

-- The reference tempering.
unfoldable pub temper_word : ℕ → ℕ
temper_word y =
    let y₁ = bit_xor y (y / 2 ^ 11) in
    let y₂ = bit_xor y₁ (bit_and (y₁ * 2 ^ 7) 0x9d2c_5680) in
    let y₃ = bit_xor y₂ (bit_and (y₂ * 2 ^ 15) 0xefc6_0000) in bit_xor y₃ (y₃ / 2 ^ 18)

word_fuel-enough :
    (first : ℕ → ℕ) (j k n : ℕ) → n < j → n < k → word_fuel first j n ≡ word_fuel first k n
unfolding word_fuel
word_fuel-enough first zero k n p q = absurd (omega arith)
word_fuel-enough first (suc j) zero n p q = absurd (omega arith)
word_fuel-enough first (suc j) (suc k) n p q = elim (place n) [
  | inl low ↦ rw low
  | inr high ↦ rw (
    high.0,
    word_fuel-enough first j k (n - 227) (omega (arith, high.1)) (omega (arith, high.1)),
    word_fuel-enough first j k (n - 624) (omega (arith, high.1)) (omega (arith, high.1)),
    word_fuel-enough first j k (n - 623) (omega (arith, high.1)) (omega (arith, high.1)),
  )
]
  where
    place : (n : ℕ) → (ltb n 624 ≡ true) ⊎ ((ltb n 624 ≡ false) × (624 ≤ n))
    place n = ground arith

-- The first words are those given.
pub word-first : (first : ℕ → ℕ) (n : ℕ) → n < 624 → word first n ≡ first n
unfolding word word_fuel
word-first first n h = rw (lt→ltb n 624 h)

word_fuel-eq-word : (first : ℕ → ℕ) (k n : ℕ) → n < k → word_fuel first k n ≡ word first n
unfolding word
word_fuel-eq-word first k n h = word_fuel-enough first k (suc n) n h (omega arith)

-- With the three places it is computed from named by equations.
word_at :
    (first : ℕ → ℕ) (n m a b : ℕ)
    → m + 227 ≡ n
    → a + 624 ≡ n
    → b + 623 ≡ n
    → word first n ≡ next_word (word first m) (word first a) (word first b)
unfolding word word_fuel
word_at first n m a b em ea eb =
    let late : ltb n 624 ≡ false = ground arith in
    let m' : n - 227 ≡ m = omega arith in
    let a' : n - 624 ≡ a = omega arith in
    let b' : n - 623 ≡ b = omega arith in
    rw (late, m', a', b')
      (rw (
        word_fuel-eq-word first n m (omega arith),
        word_fuel-eq-word first n a (omega arith),
        word_fuel-eq-word first n b (omega arith),
      ))

-- The others follow the recurrence.
pub word-next :
    (first : ℕ → ℕ) (k : ℕ)
    → word first (k + 624) ≡ next_word (word first (k + 397)) (word first k) (word first (k + 1))
word-next first k =
    word_at first (k + 624) (k + 397) k (k + 1) (omega arith) (omega arith) (omega arith)
