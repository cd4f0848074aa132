-- ===== src/Random/State.antt =====
-- The generator's state and its seeding, of random/random.c. `unsigned long` has 32 bits on Windows
-- and 64 on Linux: every operation takes the width. An access out of the array's bounds is `none`.
use lua2sc.Prelude.{
  ℕ, zero, suc, ◌+◌, ◌-◌, ◌*◌, ◌/◌, ◌%◌, ◌^◌, bit_and, bit_xor, List, Option, some, ◌>>=◌,
  get_elem?, write,
}

pub data LongWidth : Type 0 where
  long32 long64 : LongWidth

-- The number of values of `unsigned long`.
abbrev pub ulong_mod : LongWidth → ℕ
ulong_mod long32 = 2 ^ 32
ulong_mod long64 = 2 ^ 64

-- `N` and `M`.
abbrev pub n_words : ℕ
n_words = 624

abbrev pub m_words : ℕ
m_words = 397

-- `MT`, over the type of doubles: `v` the words, `i` the next one to use, `iset` and `gset` the
-- normal variate that waits.
pub record Mt (D : Type 0) : Type 0 where
  pub v : List ℕ
  pub i : ℕ
  pub iset : ℕ
  pub gset : D

-- The word that the seeding computes at index `mti` from the one before it.
unfoldable pub init_word : LongWidth → ℕ → ℕ → ℕ
init_word w prev mti =
    let product = 1812433253 * bit_xor prev (prev / 2 ^ 30) % ulong_mod w in
    bit_and ((product + mti) % ulong_mod w) 0xffff_ffff

-- The loop of `init_genrand` with `left` rounds to go, at index `mti`.
unfoldable pub init_loop : LongWidth → ℕ → ℕ → List ℕ → Option (List ℕ)
init_loop w zero mti v = some v
init_loop w (suc left) mti v = do
  prev ← get_elem? v (mti - 1)
  v' ← write v mti (init_word w prev mti)
  init_loop w left (mti + 1) v'

module _ {D : Type 0} where
  unfoldable pub init_genrand : LongWidth → Mt D → ℕ → Option (Mt D)
  init_genrand w o s = do
    v₀ ← write o.v 0 (bit_and s 0xffff_ffff)
    v ← init_loop w (n_words - 1) 1 v₀
    some (record o { v = v; i = n_words; iset = 0 })
