-- ===== src/Random/Steps.antt =====
-- Each computation of random/random.c on one word, compared with the reference.
use native.Mathlib.Nat.{le_trans, div-le_self}
use native.Mathlib.Decide.{dec_lt}
use Prim.Native.Nat.{suc-le-suc}
use lua2sc.Prelude.{ℕ, zero, suc, ◌+◌, ◌-◌, ◌*◌, ◌/◌, ◌%◌, ◌^◌, ◌<◌, ◌≡◌, bit_and, bit_xor, arith}
use lua2sc.Words.{
  bit_and_mask, bit_and-shl, bit_or_fields, bit_xor-lt, bit_and-mod, bit_and-lt_right,
  bit_xor_assoc,
}
use lua2sc.Random.State.{LongWidth, long32, long64, ulong_mod, init_word}
use lua2sc.Random.Generate.{join_bits, twist_word, temper}
use lua2sc.Random.Reference.{seed_word, next_word, word, temper_word, word-next, word-first}

-- The seeding's word, in terms of unbounded numbers.
pub init_word_lem :
    (w : LongWidth) (prev mti : ℕ)
    → init_word w prev mti ≡ (1812433253 * bit_xor prev (prev / 2 ^ 30) + mti) % 2 ^ 32
unfolding init_word
init_word_lem long32 prev mti = rw (bit_and_mask 32) (omega arith)
init_word_lem long64 prev mti = rw (bit_and_mask 32) (omega arith)

join_bits_lem : (a b : ℕ) → a < 2 ^ 32 → join_bits a b ≡ a / 2 ^ 31 * 2 ^ 31 + b % 2 ^ 31
unfolding join_bits
join_bits_lem a b h =
    let high : bit_and a (1 * 2 ^ 31) ≡ a / 2 ^ 31 * 2 ^ 31 =
      omega (arith, bit_and-shl 31 a 1, bit_and_mask 1 (a / 2 ^ 31)) in
    rw (high, bit_and_mask 31 b) (bit_or_fields 31 (a / 2 ^ 31) (b % 2 ^ 31) (omega arith))

pub twist_word-eq-next_word :
    (m a b : ℕ) → a < 2 ^ 32 → twist_word m (join_bits a b) ≡ next_word m a b
unfolding twist_word next_word
twist_word-eq-next_word m a b h = rw (join_bits_lem a b h, bit_and_mask 1) (bit_xor_assoc _ _ _)

-- What a machine width cuts off a shifted word lies above the 32-bit mask.
bit_and-wrap : (w : LongWidth) (x m : ℕ) → m < 2 ^ 32 → bit_and (x % ulong_mod w) m ≡ bit_and x m
bit_and-wrap long32 x m h = bit_and-mod 32 x m h
bit_and-wrap long64 x m h = bit_and-mod 64 x m (omega arith)

pub temper-eq-temper_word : (w : LongWidth) (y : ℕ) → temper w y ≡ temper_word y
unfolding temper temper_word
temper-eq-temper_word w y =
    rw (bit_and-wrap w _ 0x9d2c_5680 (omega arith))
      (rw (bit_and-wrap w _ 0xefc6_0000 (omega arith)))

pub next_word-lt : (m a b : ℕ) → m < 2 ^ 32 → a < 2 ^ 32 → next_word m a b < 2 ^ 32
unfolding next_word
next_word-lt m a b hm ha = bit_xor-lt 32 _ _ hm (bit_xor-lt 32 _ _ (omega arith) (ground arith))

pub xor_shr-lt : (k y : ℕ) → y < 2 ^ 32 → bit_xor y (y / 2 ^ k) < 2 ^ 32
xor_shr-lt k y h = bit_xor-lt 32 _ _ h (le_trans (suc-le-suc (div-le_self y (2 ^ k))) h)

pub xor_mask-lt : (x y m : ℕ) → y < 2 ^ 32 → m < 2 ^ 32 → bit_xor y (bit_and x m) < 2 ^ 32
xor_mask-lt x y m h k = bit_xor-lt 32 _ _ h (bit_and-lt_right 32 x m k)

pub temper_word-lt : (y : ℕ) → y < 2 ^ 32 → temper_word y < 2 ^ 32
unfolding temper_word
temper_word-lt y h = xor_shr-lt 18 _ (
    xor_mask-lt _ _ 0xefc6_0000 (xor_mask-lt _ _ 0x9d2c_5680 (xor_shr-lt 11 y h) (omega arith))
      (omega arith))

pub seed_word-lt : (s n : ℕ) → seed_word s n < 2 ^ 32
unfolding seed_word
seed_word-lt s zero = omega arith
seed_word-lt s (suc n) = omega arith

-- Every word of a sequence stays below 2 ^ 32 if its first 624 do.
pub word-lt :
    (first : ℕ → ℕ) → ((n : ℕ) → n < 624 → first n < 2 ^ 32) → (n : ℕ) → word first n < 2 ^ 32
word-lt first h n = below (suc n) n (omega arith)
  where
    below : (fuel n : ℕ) → n < fuel → word first n < 2 ^ 32
    below zero n p = absurd (omega arith)
    below (suc fuel) n p = elim (dec_lt n 624) [
      | yes early ↦ rw (word-first first n early) (h n early)
      | no late ↦
          let k = n - 624 in
          let e : n ≡ k + 624 = omega arith in
          rw (e, word-next)
            (next_word-lt _ _ (word first (k + 1)) (below fuel (k + 397) (omega arith))
              (below fuel k (omega arith)))
    ]
