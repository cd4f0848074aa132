-- ===== src/Random/Generate.antt =====
-- `genrand_int32` of random/random.c: the words are made 624 at a time, in place, and tempered one
-- by one.
use lua2sc.Prelude.{
  ℕ, zero, suc, ◌+◌, ◌-◌, ◌*◌, ◌/◌, ◌%◌, ◌^◌, bit_and, bit_or, bit_xor, List, Option, some, ◌>>=◌,
  get_elem?, write, if◌then◌else◌, ◌==◌, leb,
}
use lua2sc.Random.State.{LongWidth, ulong_mod, n_words, m_words, Mt, init_genrand}

abbrev pub matrix_a : ℕ
matrix_a = 0x9908_b0df

abbrev pub upper_mask : ℕ
upper_mask = 0x8000_0000

abbrev pub lower_mask : ℕ
lower_mask = 0x7fff_ffff

-- The highest bit of one word and the other bits of the next.
unfoldable pub join_bits : ℕ → ℕ → ℕ
join_bits a b = bit_or (bit_and a upper_mask) (bit_and b lower_mask)

-- `m ^ (y >> 1) ^ mag01[y & 1]`.
unfoldable pub twist_word : ℕ → ℕ → ℕ
twist_word m y = bit_xor (bit_xor m (y / 2 ^ 1)) (if bit_and y 1 == 0 then 0 else matrix_a)

-- One round of a loop of the refill: the word at `kk`, from the one at `far`.
unfoldable pub refill_word : ℕ → ℕ → ℕ → List ℕ → Option (List ℕ)
refill_word kk next far v = do
  a ← get_elem? v kk
  b ← get_elem? v next
  m ← get_elem? v far
  write v kk (twist_word m (join_bits a b))

-- `for (kk=0;kk<N-M;kk++)`, with `left` rounds to go.
unfoldable pub refill_low : ℕ → ℕ → List ℕ → Option (List ℕ)
refill_low zero kk v = some v
refill_low (suc left) kk v = do
  v' ← refill_word kk (kk + 1) (kk + m_words) v
  refill_low left (kk + 1) v'

-- `for (;kk<N-1;kk++)`, with `left` rounds to go; the far index is `kk+(M-N)`.
unfoldable pub refill_high : ℕ → ℕ → List ℕ → Option (List ℕ)
refill_high zero kk v = some v
refill_high (suc left) kk v = do
  v' ← refill_word kk (kk + 1) (kk + m_words - n_words) v
  refill_high left (kk + 1) v'

-- The refill of the whole array.
unfoldable pub refill : List ℕ → Option (List ℕ)
refill v = do
  v₁ ← refill_low (n_words - m_words) 0 v
  v₂ ← refill_high (m_words - 1) (n_words - m_words) v₁
  refill_word (n_words - 1) 0 (m_words - 1) v₂

-- The four steps of the tempering.
unfoldable pub temper : LongWidth → ℕ → ℕ
temper w y =
    let y₁ = bit_xor y (y / 2 ^ 11) in
    let y₂ = bit_xor y₁ (bit_and (y₁ * 2 ^ 7 % ulong_mod w) 0x9d2c_5680) in
    let y₃ = bit_xor y₂ (bit_and (y₂ * 2 ^ 15 % ulong_mod w) 0xefc6_0000) in
    bit_xor y₃ (y₃ / 2 ^ 18)

module _ {D : Type 0} where
  -- `if (mti == N+1)`: a state that was never seeded gets the default seed.
  unfoldable pub ensure_seeded : LongWidth → Mt D → Option (Mt D)
  ensure_seeded w o = if o.i == n_words + 1 then init_genrand w o 5489 else some o

  -- The body of `if (mti >= N)`.
  unfoldable pub next_block : LongWidth → Mt D → Option (Mt D)
  next_block w o = do o₁ ← ensure_seeded w o; v ← refill o₁.v; some (record o₁ { v = v; i = 0 })

  unfoldable pub genrand_int32 : LongWidth → Mt D → Option (ℕ × Mt D)
  genrand_int32 w o = do
    o' ← if leb n_words o.i then next_block w o else some o
    y ← get_elem? o'.v o'.i
    some (temper w y, record o' { i = o'.i + 1 })
