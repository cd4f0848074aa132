-- ===== src/Random/Restart.antt =====
-- Seeding in random/random.c and what is left of the state before it.
use lua2sc.Prelude.{
  ℕ, ◌+◌, ◌≡◌, refl, sym, ap, ◌∙◌, arith, List, [], ◌∷◌, some, length, ℤ, get_elem?_ext,
}
use lua2sc.Random.State.{LongWidth, Mt, init_genrand}
use lua2sc.Random.Double.{Double}
use lua2sc.Random.Run
use lua2sc.Random.Run.{Run, done, fault, overflow, out_of_fuel, arg_error, ◌>>=◌}
use lua2sc.Random.Real.{
  Drawn, Point, genrand_real1, genrand_res53, genrand_normal, draw_accepted, fresh_pair,
}
use lua2sc.Random.Binding.{draw_integer}
use lua2sc.Random.Stream.{Tracks, stream, init_genrand-Tracks}
use lua2sc.Random.Ignores.{
  Ignores, with_gset, regset, real1-Ignores, res53-Ignores, integer-Ignores, accepted-Ignores,
}

-- The draws that the Lua functions make: `value`, `valuei`, `valuex` and `valueN`.
pub data Variate : Type 0 where
  real real53 normal : Variate
  integer : ℤ → ℤ → Variate

module _ (d : Double) (fuel : ℕ) (w : LongWidth) where
  open d use {Carrier}

  unfoldable pub draw_variate : Variate → Mt Carrier → Drawn d
  draw_variate real = genrand_real1 d w
  draw_variate real53 = genrand_res53 d w
  draw_variate normal = genrand_normal d fuel w
  draw_variate (integer a b) = draw_integer d w a b

  -- Draws one after the other, the numbers in order.
  unfoldable pub draw_all : List Variate → Mt Carrier → Run (List Carrier)
  draw_all [] o = done []
  draw_all (c ∷ cs) o = do (x, o') ← draw_variate c o; xs ← draw_all cs o'; done (x ∷ xs)

  keep_pair :
      (r : Run (Point d × Mt Carrier)) (k : Point d → Mt Carrier → Drawn d) (g : Carrier)
      → ((p : Point d) (o : Mt Carrier) → k p (with_gset g o) ≡ k p o)
      → (Run.map (regset g) r >>= λ (p, o). k p o) ≡ (r >>= λ (p, o). k p o)
  keep_pair (done (p, o)) k g h = h p o
  keep_pair fault k g h = refl
  keep_pair overflow k g h = refl
  keep_pair out_of_fuel k g h = refl
  keep_pair (arg_error n) k g h = refl

  -- A new pair overwrites the waiting variate.
  fresh_pair-gset :
      (o : Mt Carrier) (g : Carrier) → fresh_pair d fuel w (with_gset g o) ≡ fresh_pair d fuel w o
  unfolding fresh_pair
  fresh_pair-gset o g =
      rw ((accepted-Ignores d w fuel).gset_free o g)
        (keep_pair (draw_accepted d fuel w o) _ g (λ p q. refl))

  pub genrand_normal_fresh :
      (o : Mt Carrier) → o.iset ≡ 0 → genrand_normal d fuel w o ≡ fresh_pair d fuel w o
  unfolding genrand_normal
  genrand_normal_fresh o h = ground arith

  genrand_normal-gset :
      (o : Mt Carrier) (g : Carrier)
      → o.iset ≡ 0
      → genrand_normal d fuel w (with_gset g o) ≡ genrand_normal d fuel w o
  genrand_normal-gset o g h =
      genrand_normal_fresh (with_gset g o) h ∙ fresh_pair-gset o g ∙ sym (genrand_normal_fresh o h)

  -- A draw that ignores the waiting variate, followed by draws that do.
  after_draw :
      (f : Mt Carrier → Drawn d) (cs : List Variate) (o : Mt Carrier) (g : Carrier)
      → Ignores f
      → o.iset ≡ 0
      → ((p : Mt Carrier) → p.iset ≡ 0 → draw_all cs (with_gset g p) ≡ draw_all cs p)
      → (f (with_gset g o) >>= λ (x, p). draw_all cs p >>= λ xs. done (x ∷ xs))
        ≡ (f o >>= λ (x, p). draw_all cs p >>= λ xs. done (x ∷ xs))
  after_draw f cs o g hf h later = rw (hf.gset_free o g) (go (f o) (λ x p. hf.iset_kept o x p h))
    where
      go :
          (r : Drawn d)
          → ((x : Carrier) (p : Mt Carrier) → r ≡ done (x, p) → p.iset ≡ 0)
          → (Run.map (regset g) r >>= λ (x, p). draw_all cs p >>= λ xs. done (x ∷ xs))
            ≡ (r >>= λ (x, p). draw_all cs p >>= λ xs. done (x ∷ xs))
      go (done (x, p)) zero_set = rw (later p (zero_set x p refl))
      go fault zero_set = refl
      go overflow zero_set = refl
      go out_of_fuel zero_set = refl
      go (arg_error n) zero_set = refl

  -- With no variate waiting, the content of `gset` never shows.
  draw_all-gset :
      (cs : List Variate) (g : Carrier) (o : Mt Carrier)
      → o.iset ≡ 0
      → draw_all cs (with_gset g o) ≡ draw_all cs o
  unfolding draw_all draw_variate
  draw_all-gset [] g o h = refl
  draw_all-gset (real ∷ cs) g o h =
      after_draw (genrand_real1 d w) cs o g (real1-Ignores d w) h (draw_all-gset cs g)
  draw_all-gset (real53 ∷ cs) g o h =
      after_draw (genrand_res53 d w) cs o g (res53-Ignores d w) h (draw_all-gset cs g)
  draw_all-gset (integer a b ∷ cs) g o h =
      after_draw (draw_integer d w a b) cs o g (integer-Ignores d w a b) h (draw_all-gset cs g)
  draw_all-gset (normal ∷ cs) g o h =
      ap (λ (r : Drawn d). r >>= λ (x, p). draw_all cs p >>= λ xs. done (x ∷ xs))
        (genrand_normal-gset o g h)

-- Seeding fixes the words and the index.
seeded_alike :
    {D : Type 0} (s : ℕ) (o o' : Mt D)
    → Tracks (stream s) 624 o
    → Tracks (stream s) 624 o'
    → o.iset ≡ 0
    → o'.iset ≡ 0
    → o.i ≡ 624
    → o'.i ≡ 624
    → o' ≡ with_gset o'.gset o
seeded_alike s o o' t t' z z' i i' =
    let base : t.base ≡ 0 = omega (arith, t.place) in
    let base' : t'.base ≡ 0 = omega (arith, t'.place) in
    let same : o'.v ≡ o.v = get_elem?_ext o'.v o.v (t'.window.size ∙ sym t.window.size) λ j h.
      t'.window.holds j (omega (arith, t'.window.size))
      ∙ ap (λ (n : ℕ). some (stream s (n + j))) (base' ∙ sym base)
      ∙ sym (t.window.holds j (omega (arith, t'.window.size))) in
    cc

-- Two states with arrays of 624 words, whatever they hold and whether or not a variate waits in
-- them, answer every list of draws alike, with any fuel, once they are seeded alike.
pub init_genrand-draw_all :
    (d : Double) (fuel : ℕ) (w : LongWidth) (s : ℕ) (cs : List Variate) (o o' : Mt d.Carrier)
    → length o.v ≡ 624
    → length o'.v ≡ 624
    → (p : Mt d.Carrier) × (p' : Mt d.Carrier) × (init_genrand w o s ≡ some p)
      × (init_genrand w o' s ≡ some p')
      × (draw_all d fuel w cs p ≡ draw_all d fuel w cs p')
init_genrand-draw_all d fuel w s cs o o' size size' =
    let (p, seeded, t, z, i) = init_genrand-Tracks w o s size in
    let (p', seeded', t', z', i') = init_genrand-Tracks w o' s size' in
    let alike = seeded_alike s p p' t t' z z' i i' in
    (
      p,
      p',
      seeded,
      seeded',
      sym (ap (draw_all d fuel w cs) alike ∙ draw_all-gset d fuel w cs p'.gset p z),
    )
