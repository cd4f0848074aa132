-- ===== src/Random/Stream.antt =====
-- The generator of random/random.c along the reference sequence, call after call.
use lua2sc.Prelude.{
  ℕ, zero, suc, ◌+◌, ◌<◌, ◌≤◌, ◌^◌, ◌≡◌, refl, sym, ap, ◌∙◌, arith, List, some, length, get_elem?,
  set, write-eq-some, length-set, get_elem?-set_self, get_elem?-set_ne, lt→leb, le→leb, ne→==,
  bit_and,
}
use native.Mathlib.Nat.{zero-add}
use native.Mathlib.Numerals.{add-one, sub-one}
use native.Mathlib.Decide.{ℕ_discrete, dec_lt}
use lua2sc.Words.{bit_and_mask}
use lua2sc.Random.State.{LongWidth, Mt, init_loop, init_genrand, init_word}
use lua2sc.Random.Generate.{genrand_int32, next_block, ensure_seeded}
use lua2sc.Random.Reference.{seed_word, next_word, word, word-first, temper_word}
use lua2sc.Random.Steps.{init_word_lem, temper-eq-temper_word}
use lua2sc.Random.Blocks.{Window, refill-Window}

-- The first `k` words are seeded.
record Seeded (s k : ℕ) (v : List ℕ) : Type 0 where
  size : length v ≡ 624
  filled : (j : ℕ) → j < k → get_elem? v j ≡ some (seed_word s j)

Seeded-set :
    (s k : ℕ) (v : List ℕ) → k < 624 → Seeded s k v → Seeded s (k + 1) (set v k (seed_word s k))
Seeded-set s k v h p = record {
  size = length-set v k _ ∙ p.size;
  filled = λ j q. elim (ℕ_discrete j k) [
    | yes here ↦ rw here (get_elem?-set_self v k _ (omega (arith, p.size)))
    | no other ↦ get_elem?-set_ne v k j _ (λ e. other (sym e)) ∙ p.filled j (omega arith)
  ];
}

seed_word-zero : (s : ℕ) → bit_and s 0xffff_ffff ≡ seed_word s 0
unfolding seed_word
seed_word-zero s = bit_and_mask 32 s

seed_word-suc :
    (w : LongWidth) (s k : ℕ) → init_word w (seed_word s k) (suc k) ≡ seed_word s (suc k)
unfolding seed_word
seed_word-suc w s k = init_word_lem w (seed_word s k) (suc k)

init_loop-Seeded :
    (w : LongWidth) (s left k : ℕ) (v : List ℕ)
    → suc k + left ≡ 624
    → Seeded s (suc k) v
    → (v' : List ℕ) × (init_loop w left (suc k) v ≡ some v') × Seeded s 624 v'
unfolding init_loop
init_loop-Seeded w s zero k v e p = let e' : suc k ≡ 624 = omega arith in (v, refl, rw e' at p)
init_loop-Seeded w s (suc left) k v e p =
    let next = set v (suc k) (seed_word s (suc k)) in
    let (v', runs, done) =
      init_loop-Seeded w s left (suc k) next (omega arith)
        (rw add-one at (Seeded-set s (suc k) v (omega arith) p)) in
    (
      v',
      rw (sub-one, p.filled k (omega arith))
          (rw (seed_word-suc, write-eq-some v (suc k) (seed_word s (suc k)) (omega (arith, p.size)))
            (rw add-one runs)),
      done,
    )

-- The words of the generator seeded with `s`.
abbrev pub stream : ℕ → ℕ → ℕ
stream s = word (seed_word s)

module _ {D : Type 0} where
  -- The next output of the state is made from the word `x c`.
  pub record Tracks (x : ℕ → ℕ) (c : ℕ) (o : Mt D) : Type 0 where
    pub base : ℕ
    pub window : Window x base o.v
    pub index : o.i ≤ 624
    pub place : base + o.i ≡ c

  -- Seeding succeeds on an array of 624 words, whatever it holds, and clears the waiting variate.
  pub init_genrand-Tracks :
      (w : LongWidth) (o : Mt D) (s : ℕ)
      → length o.v ≡ 624
      → (o' : Mt D) × (init_genrand w o s ≡ some o')
        × Tracks (stream s) 624 o'
        × (o'.iset ≡ 0)
        × (o'.i ≡ 624)
  unfolding init_genrand
  init_genrand-Tracks w o s size =
      let first =
        Seeded-set s 0 o.v (omega arith)
          (record { size = size; filled = λ j h. absurd (omega arith) }) in
      let (v, runs, done) = init_loop-Seeded w s 623 0 _ (omega arith) (rw zero-add at first) in
      (
        record o { v = v; i = 624; iset = 0 },
        rw seed_word-zero
            (rw (write-eq-some o.v 0 (seed_word s 0) (omega (arith, size))) (rw runs)),
        record {
          base = 0;
          window = record {
            size = done.size;
            holds = λ j h. rw (zero-add, word-first (seed_word s) j h) (done.filled j h);
          };
          index = omega arith;
          place = omega arith;
        },
        refl,
        refl,
      )

  module _ (w : LongWidth) (x : ℕ → ℕ) (bounded : (n : ℕ) → x n < 2 ^ 32)
      (recurs : (k : ℕ) → x (k + 624) ≡ next_word (x (k + 397)) (x k) (x (k + 1))) where
    next_block-Tracks :
        (c : ℕ) (o : Mt D)
        → o.i ≡ 624
        → Tracks x c o
        → (o' : Mt D) × (next_block w o ≡ some o')
          × Tracks x c o'
          × (o'.i ≡ 0)
          × (o'.iset ≡ o.iset)
          × (o'.gset ≡ o.gset)
    unfolding next_block ensure_seeded
    next_block-Tracks c o full t =
        let (v, runs, next) = refill-Window x bounded recurs t.base o.v t.window in
        (
          record o { v = v; i = 0 },
          rw (ne→== o.i 625 (λ e. omega arith)) (rw runs),
          record {
            base = t.base + 624;
            window = next;
            index = omega arith;
            place = omega (arith, t.place);
          },
          refl,
          refl,
          refl,
        )

    use_word : (c : ℕ) (o : Mt D) → o.i < 624 → Tracks x c o → get_elem? o.v o.i ≡ some (x c)
    use_word c o h t = t.window.holds o.i h ∙ ap (λ (n : ℕ). some (x n)) t.place

    advance :
        (c : ℕ) (o : Mt D) → o.i < 624 → Tracks x c o → Tracks x (c + 1) (record o { i = o.i + 1 })
    advance c o h t = record {
      base = t.base;
      window = t.window;
      index = omega arith;
      place = omega (arith, t.place);
    }

    -- A call yields the tempered word and moves to the next one; the waiting variate stays.
    pub genrand_int32-Tracks :
        (c : ℕ) (o : Mt D)
        → Tracks x c o
        → (o' : Mt D) × (genrand_int32 w o ≡ some (temper_word (x c), o'))
          × Tracks x (c + 1) o'
          × (o'.iset ≡ o.iset)
          × (o'.gset ≡ o.gset)
    unfolding genrand_int32
    genrand_int32-Tracks c o t = elim (dec_lt o.i 624) [
      | yes more ↦ (
        record o { i = o.i + 1 },
        rw (lt→leb 624 o.i more) (rw (use_word c o more t) (rw temper-eq-temper_word)),
        advance c o more t,
        refl,
        refl,
      )
      | no spent ↦
          let full : o.i ≡ 624 = omega (arith, t.index) in
          let (o₁, runs, t₁, fresh, same_set, same_variate) = next_block-Tracks c o full t in
          let more : o₁.i < 624 = omega arith in
          (
            record o₁ { i = o₁.i + 1 },
            rw (le→leb 624 o.i (omega arith))
                (rw runs (rw (use_word c o₁ more t₁) (rw temper-eq-temper_word))),
            advance c o₁ more t₁,
            same_set,
            same_variate,
          )
    ]
