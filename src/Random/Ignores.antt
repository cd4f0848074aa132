-- ===== src/Random/Ignores.antt =====
-- The draws of random/random.c and the waiting variate: which of them read or change it.
use mathlib.Core.Option
use lua2sc.Prelude.{
  ℕ, zero, suc, ◌≡◌, refl, ap, ◌∙◌, arith, Option, none, some, ℤ, pos, ◌+ℤ◌, ◌-ℤ◌, Bool, true,
  false,
}
use lua2sc.Random.State.{LongWidth, Mt, init_genrand}
use lua2sc.Random.Generate.{genrand_int32, next_block, ensure_seeded}
use lua2sc.Random.Double.{Double}
use lua2sc.Random.Run
use lua2sc.Random.Run.{Run, done, fault, overflow, out_of_fuel, arg_error, of_option, ◌>>=◌}
use lua2sc.Random.Real.{
  genrand_real1, genrand_real2, genrand_res53, draw_point, draw_accepted, is_rejected,
}
use lua2sc.Random.Binding.{draw_integer, as_int}

module _ {D : Type 0} where
  -- `o` with another waiting variate.
  abbrev pub with_gset : D → Mt D → Mt D
  with_gset g o = record o { gset = g }

  abbrev relabel : D → ℕ × Mt D → ℕ × Mt D
  relabel g (y, p) = (y, record p { gset = g })

  init_genrand-gset :
      (w : LongWidth) (o : Mt D) (s : ℕ) (g : D)
      → init_genrand w (with_gset g o) s ≡ Option.map (with_gset g) (init_genrand w o s)
  unfolding init_genrand
  init_genrand-gset w o s g = ground arith

  next_block-gset :
      (w : LongWidth) (o : Mt D) (g : D)
      → next_block w (with_gset g o) ≡ Option.map (with_gset g) (next_block w o)
  unfolding next_block ensure_seeded
  next_block-gset w o g = ground (arith, init_genrand-gset w o 5489 g)

  -- Drawing a word does not look at the waiting variate.
  genrand_int32-gset :
      (w : LongWidth) (o : Mt D) (g : D)
      → genrand_int32 w (with_gset g o) ≡ Option.map (relabel g) (genrand_int32 w o)
  unfolding genrand_int32
  genrand_int32-gset w o g = ground (arith, next_block-gset w o g)

  next_block-iset :
      (w : LongWidth) (o : Mt D) {p : Mt D} → o.iset ≡ 0 → next_block w o ≡ some p → p.iset ≡ 0
  unfolding next_block ensure_seeded init_genrand
  next_block-iset w o h e = ground arith

  -- No word draw sets a variate waiting.
  genrand_int32-iset :
      (w : LongWidth) (o : Mt D) {y : ℕ} {p : Mt D}
      → o.iset ≡ 0
      → genrand_int32 w o ≡ some (y, p)
      → p.iset ≡ 0
  unfolding genrand_int32
  genrand_int32-iset w o h e = grind (arith, next_block-iset)

of_option-eq-done : {A : Type 0} (r : Option A) (a : A) → of_option r ≡ done a → r ≡ some a
of_option-eq-done none a e = cc
of_option-eq-done (some b) a e = cc

-- Computations over the state, whose rules follow how the code composes them.
module _ {D : Type 0} where
  abbrev pub regset : {A : Type 0} → D → A × Mt D → A × Mt D
  regset g (a, p) = (a, record p { gset = g })

  -- A draw that does not look at the waiting variate, and leaves none waiting.
  pub record Ignores {A : Type 0} (f : Mt D → Run (A × Mt D)) : Type 0 where
    pub gset_free : (o : Mt D) (g : D) → f (with_gset g o) ≡ Run.map (regset g) (f o)
    pub iset_kept : (o : Mt D) (a : A) (p : Mt D) → o.iset ≡ 0 → f o ≡ done (a, p) → p.iset ≡ 0

  done-Ignores : {A : Type 0} (a : A) → Ignores (λ o. done (a, o))
  done-Ignores a = record { gset_free = λ o g. refl; iset_kept = λ o a p h e. cc }

  map_bind :
      {A B : Type 0} (r : Run (A × Mt D)) (k : A → Mt D → Run (B × Mt D)) (g : D)
      → ((a : A) (o : Mt D) → k a (with_gset g o) ≡ Run.map (regset g) (k a o))
      → (Run.map (regset g) r >>= λ (a, p). k a p) ≡ Run.map (regset g) (r >>= λ (a, p). k a p)
  map_bind (done (a, p)) k g h = h a p
  map_bind fault k g h = refl
  map_bind overflow k g h = refl
  map_bind out_of_fuel k g h = refl
  map_bind (arg_error n) k g h = refl

  bind-iset :
      {A B : Type 0} (r : Run (A × Mt D)) (k : A → Mt D → Run (B × Mt D)) (b : B) (q : Mt D)
      → ((a : A) (p : Mt D) → r ≡ done (a, p) → p.iset ≡ 0)
      → ((a : A) (p : Mt D) → p.iset ≡ 0 → k a p ≡ done (b, q) → q.iset ≡ 0)
      → (r >>= λ (a, p). k a p) ≡ done (b, q)
      → q.iset ≡ 0
  bind-iset (done (a, p)) k b q first later e = later a p (first a p refl) e
  bind-iset fault k b q first later e = cc
  bind-iset overflow k b q first later e = cc
  bind-iset out_of_fuel k b q first later e = cc
  bind-iset (arg_error n) k b q first later e = cc

  bind-Ignores :
      {A B : Type 0} (f : Mt D → Run (A × Mt D)) (k : A → Mt D → Run (B × Mt D))
      → Ignores f
      → ((a : A) → Ignores (k a))
      → Ignores (λ o. f o >>= λ (a, p). k a p)
  bind-Ignores f k hf hk = record {
    gset_free = λ o g. rw (hf.gset_free o g) (map_bind (f o) k g (λ a p. (hk a).gset_free p g));
    iset_kept = λ o b q h e.
        bind-iset (f o) k b q (λ a p. hf.iset_kept o a p h) (λ a p. (hk a).iset_kept p b q) e;
  }

  -- A computation that does not touch the state.
  pure-Ignores :
      {A B : Type 0} (r : Run A) (k : A → Mt D → Run (B × Mt D))
      → ((a : A) → Ignores (k a))
      → Ignores (λ o. r >>= λ a. k a o)
  pure-Ignores (done a) k hk = hk a
  pure-Ignores fault k hk = record { gset_free = λ o g. refl; iset_kept = λ o b q h e. cc }
  pure-Ignores overflow k hk = record { gset_free = λ o g. refl; iset_kept = λ o b q h e. cc }
  pure-Ignores out_of_fuel k hk = record { gset_free = λ o g. refl; iset_kept = λ o b q h e. cc }
  pure-Ignores (arg_error n) k hk = record { gset_free = λ o g. refl; iset_kept = λ o b q h e. cc }

  of_option-map :
      {A : Type 0} (r : Option (A × Mt D)) (g : D)
      → of_option (Option.map (regset g) r) ≡ Run.map (regset g) (of_option r)
  of_option-map none g = refl
  of_option-map (some a) g = refl

  word-Ignores : (w : LongWidth) → Ignores (λ (o : Mt D). of_option (genrand_int32 w o))
  word-Ignores w = record {
    gset_free =
        λ o g. ap of_option (genrand_int32-gset w o g) ∙ of_option-map (genrand_int32 w o) g;
    iset_kept = λ o y p h e. genrand_int32-iset w o h (of_option-eq-done _ _ e);
  }

  if-Ignores :
      {A : Type 0} (b : Bool) (f k : Mt D → Run (A × Mt D))
      → Ignores f
      → Ignores k
      → Ignores (λ o. elim b [ true ↦ f o | false ↦ k o ])
  if-Ignores true f k hf hk = hf
  if-Ignores false f k hf hk = hk

module _ (d : Double) (w : LongWidth) where
  open d use {Carrier}

  pub real1-Ignores : Ignores (genrand_real1 d w)
  unfolding genrand_real1
  real1-Ignores = bind-Ignores _ _ (word-Ignores w) (λ y. done-Ignores _)

  real2-Ignores : Ignores (genrand_real2 d w)
  unfolding genrand_real2
  real2-Ignores = bind-Ignores _ _ (word-Ignores w) (λ y. done-Ignores _)

  pub res53-Ignores : Ignores (genrand_res53 d w)
  unfolding genrand_res53
  res53-Ignores =
      bind-Ignores _ _ (word-Ignores w)
        (λ y. bind-Ignores _ _ (word-Ignores w) (λ z. done-Ignores _))

  pub integer-Ignores : (a b : ℤ) → Ignores (draw_integer d w a b)
  unfolding draw_integer
  integer-Ignores a b = bind-Ignores _ _ real2-Ignores (λ r.
      pure-Ignores (as_int (b -ℤ a)) _
        λ span. pure-Ignores (as_int (span +ℤ pos 1)) _ λ count. done-Ignores _)

  point-Ignores : Ignores (draw_point d w)
  unfolding draw_point
  point-Ignores =
      bind-Ignores _ _ real2-Ignores (λ r. bind-Ignores _ _ real2-Ignores (λ s. done-Ignores _))

  pub accepted-Ignores : (fuel : ℕ) → Ignores (draw_accepted d fuel w)
  unfolding draw_accepted
  accepted-Ignores zero = record { gset_free = λ o g. refl; iset_kept = λ o b q h e. cc }
  accepted-Ignores (suc fuel) =
      bind-Ignores _ _ point-Ignores
        (λ p. if-Ignores (is_rejected d p) _ _ (accepted-Ignores fuel) (done-Ignores p))
