-- ===== src/Random/Real.antt =====
-- `genrand_real1`, `genrand_real2`, `genrand_res53` and `genrand_normal` of random/random.c.
use mathlib.Core.Bool.{◌||◌}
use lua2sc.Prelude.{ℕ, zero, suc, ◌/◌, ◌^◌, Bool, true, false, if◌then◌else◌, ◌==◌}
use lua2sc.Random.State.{LongWidth, Mt}
use lua2sc.Random.Generate.{genrand_int32}
use lua2sc.Random.Double.{Double}
use lua2sc.Random.Run.{Run, done, out_of_fuel, of_option, ◌>>=◌}

module _ (d : Double) where
  open d use {Carrier, of_ℕ, add, sub, mul, div, neg, sqrt, log, ge, eq}

  -- A call that yields a double and the next state.
  abbrev pub Drawn : Type 0
  Drawn = Run (Carrier × Mt Carrier)

  unfoldable pub genrand_real1 : LongWidth → Mt Carrier → Drawn
  genrand_real1 w o = do
    (y, o') ← of_option (genrand_int32 w o)
    done (mul (of_ℕ y) (div (of_ℕ 1) (of_ℕ 4294967295)), o')

  unfoldable pub genrand_real2 : LongWidth → Mt Carrier → Drawn
  genrand_real2 w o = do
    (y, o') ← of_option (genrand_int32 w o)
    done (mul (of_ℕ y) (div (of_ℕ 1) (of_ℕ 4294967296)), o')

  unfoldable pub genrand_res53 : LongWidth → Mt Carrier → Drawn
  genrand_res53 w o = do
    (y, o₁) ← of_option (genrand_int32 w o)
    (z, o₂) ← of_option (genrand_int32 w o₁)
    let a = y / 2 ^ 5
    let b = z / 2 ^ 6
    done (
      mul (add (mul (of_ℕ a) (of_ℕ 67108864)) (of_ℕ b)) (div (of_ℕ 1) (of_ℕ 9007199254740992)),
      o₂,
    )

  -- A point of the square, and the square of its distance from the centre.
  pub record Point : Type 0 where
    pub v1 : Carrier
    pub v2 : Carrier
    pub rsq : Carrier

  -- The body of the `do` loop.
  unfoldable pub draw_point : LongWidth → Mt Carrier → Run (Point × Mt Carrier)
  draw_point w o = do
    (r₁, o₁) ← genrand_real2 w o
    (r₂, o₂) ← genrand_real2 w o₁
    let v1 = sub (mul (of_ℕ 2) r₁) (of_ℕ 1)
    let v2 = sub (mul (of_ℕ 2) r₂) (of_ℕ 1)
    done (record { v1 = v1; v2 = v2; rsq = add (mul v1 v1) (mul v2 v2) }, o₂)

  -- The test of the loop: outside the circle, or in its centre.
  unfoldable pub is_rejected : Point → Bool
  is_rejected p = ge p.rsq (of_ℕ 1) || eq p.rsq (of_ℕ 0)

  -- `do { ... } while (rsq >= 1.0 || rsq == 0.0)`
  unfoldable pub draw_accepted : ℕ → LongWidth → Mt Carrier → Run (Point × Mt Carrier)
  draw_accepted zero w o = out_of_fuel
  draw_accepted (suc fuel) w o = do
    (p, o') ← draw_point w o
    elim (is_rejected p) [ true ↦ draw_accepted fuel w o' | false ↦ done (p, o') ]

  unfoldable pub polar_factor : Point → Carrier
  polar_factor p = sqrt (div (mul (neg (of_ℕ 2)) (log p.rsq)) p.rsq)

  -- A new pair of variates: the first waits in `gset`, the second is returned.
  unfoldable pub fresh_pair : ℕ → LongWidth → Mt Carrier → Drawn
  fresh_pair fuel w o = do
    (p, o') ← draw_accepted fuel w o
    let fac = polar_factor p
    done (mul p.v2 fac, record o' { gset = mul p.v1 fac; iset = 1 })

  unfoldable pub genrand_normal : ℕ → LongWidth → Mt Carrier → Drawn
  genrand_normal fuel w o =
      if o.iset == 0 then fresh_pair fuel w o else done (o.gset, record o { iset = 0 })
