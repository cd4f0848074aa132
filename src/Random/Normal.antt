-- ===== src/Random/Normal.antt =====
-- `genrand_normal` of random/random.c: pairs of variates, and the point that the loop accepts.
use lua2sc.Prelude.{ℕ, suc, zero, ◌≤◌, ◌≡◌, refl, arith, true, false}
use lua2sc.Random.State.{LongWidth, Mt}
use lua2sc.Random.Double.{Double}
use lua2sc.Random.Run.{done, ◌>>=◌}
use lua2sc.Random.Real.{
  Point, draw_point, is_rejected, draw_accepted, polar_factor, fresh_pair, genrand_normal,
}
use lua2sc.Random.Restart.{genrand_normal_fresh}

module _ (d : Double) (w : LongWidth) where
  open d use {Carrier, mul}

  -- From the state `o` the point `p` is the first that passes, at the `n`-th attempt, and `o'` is
  -- the state after it.
  pub data AcceptedAt (p : Point d) (o' : Mt Carrier) : ℕ → Mt Carrier → Type 0 where
    now :
        {o : Mt Carrier}
        → draw_point d w o ≡ done (p, o')
        → is_rejected d p ≡ false
        → AcceptedAt p o' 1 o
    later :
        {n : ℕ} {o : Mt Carrier} (q : Point d) (o₁ : Mt Carrier)
        → draw_point d w o ≡ done (q, o₁)
        → is_rejected d q ≡ true
        → AcceptedAt p o' n o₁
        → AcceptedAt p o' (suc n) o

  draw_accepted_lem :
      {p : Point d} {o' : Mt Carrier} (fuel : ℕ) {n : ℕ} {o : Mt Carrier}
      → AcceptedAt p o' n o
      → n ≤ fuel
      → draw_accepted d fuel w o ≡ done (p, o')
  unfolding draw_accepted
  draw_accepted_lem zero (now e a) h = absurd (omega arith)
  draw_accepted_lem zero (later q o₁ e a rest) h = absurd (omega arith)
  draw_accepted_lem (suc fuel) (now e a) h = rw e (rw (a, ◌>>=◌))
  draw_accepted_lem (suc fuel) (later q o₁ e a rest) h =
      rw e (rw (a, ◌>>=◌) (draw_accepted_lem fuel rest (omega arith)))

  genrand_normal_waiting :
      (fuel : ℕ) (o : Mt Carrier)
      → o.iset ≡ 1
      → genrand_normal d fuel w o ≡ done (o.gset, record o { iset = 0 })
  unfolding genrand_normal
  genrand_normal_waiting fuel o h = ground arith

  -- With no variate waiting and fuel for `n` attempts, where the loop accepts the point `p` at its
  -- `n`-th: two calls succeed and yield `v2` and then `v1`, each times the factor of `p`; the second
  -- draws no word, and leaves no variate waiting.
  pub genrand_normal_pair :
      (fuel : ℕ) (o : Mt Carrier) {p : Point d} {o' : Mt Carrier} {n : ℕ}
      → o.iset ≡ 0
      → AcceptedAt p o' n o
      → n ≤ fuel
      → (o₁ : Mt Carrier) × (o₂ : Mt Carrier) × (genrand_normal d fuel w o
          ≡ done (mul p.v2 (polar_factor d p), o₁))
        × (genrand_normal d fuel w o₁ ≡ done (mul p.v1 (polar_factor d p), o₂))
        × (o₂.iset ≡ 0)
        × (o₂.v ≡ o'.v)
        × (o₂.i ≡ o'.i)
  unfolding fresh_pair
  genrand_normal_pair fuel o {p} {o'} z at h =
      let after_first : Mt Carrier = record o' { gset = mul p.v1 (polar_factor d p); iset = 1 } in
      (
        after_first,
        record after_first { iset = 0 },
        rw (genrand_normal_fresh d fuel w o z, draw_accepted_lem fuel at h),
        genrand_normal_waiting fuel after_first refl,
        refl,
        refl,
        refl,
      )
