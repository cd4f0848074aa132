-- ===== src/Random/Width.antt =====
-- The generator of random/random.c under the two widths of `unsigned long`, on Windows and Linux.
use lua2sc.Prelude.{ℕ, zero, suc, ◌≡◌, refl, ◌∙◌, sym, List}
use lua2sc.Random.State.{long32, long64, Mt, init_genrand, init_loop, init_word}
use lua2sc.Random.Generate.{genrand_int32, next_block, ensure_seeded, temper}
use lua2sc.Random.Steps.{init_word_lem, temper-eq-temper_word}

same_init_word : (prev mti : ℕ) → init_word long32 prev mti ≡ init_word long64 prev mti
same_init_word prev mti = init_word_lem long32 prev mti ∙ sym (init_word_lem long64 prev mti)

same_temper : (y : ℕ) → temper long32 y ≡ temper long64 y
same_temper y = temper-eq-temper_word long32 y ∙ sym (temper-eq-temper_word long64 y)

same_init_loop :
    (left mti : ℕ) (v : List ℕ) → init_loop long32 left mti v ≡ init_loop long64 left mti v
unfolding init_loop
same_init_loop zero mti v = refl
same_init_loop (suc left) mti v = simp (same_init_word, same_init_loop left)

module _ {D : Type 0} where
  -- Both seeding and drawing are the same function of the state for both widths, from every state,
  -- also one that is not well formed or was never seeded.
  pub width_independent :
      (o : Mt D) (s : ℕ)
      → (init_genrand long32 o s ≡ init_genrand long64 o s)
        × (genrand_int32 long32 o ≡ genrand_int32 long64 o)
  width_independent o s = (same_init o s, same_draw o)
    where
      same_init : (o : Mt D) (s : ℕ) → init_genrand long32 o s ≡ init_genrand long64 o s
      same_init o s = unfold init_genrand in simp same_init_loop

      same_draw : (o : Mt D) → genrand_int32 long32 o ≡ genrand_int32 long64 o
      same_draw o = unfold genrand_int32 next_block ensure_seeded in simp (same_init, same_temper)
