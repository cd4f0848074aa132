-- ===== src/Random/Resolution.antt =====
-- `genrand_res53` of random/random.c and the two words it draws.
use lua2sc.Prelude.{ℕ, ◌+◌, ◌*◌, ◌/◌, ◌^◌, ◌<◌, ◌≡◌, arith, some}
use lua2sc.Random.State.{LongWidth, Mt}
use lua2sc.Random.Generate.{genrand_int32}
use lua2sc.Random.Double.{Double, IsExact}
use lua2sc.Random.Run.{done}
use lua2sc.Random.Real.{genrand_res53}
use lua2sc.Random.Sequence.{IsValid, genrand_int32-IsValid}

-- From a well-formed state, where whole numbers below 2 ^ 53 are exact doubles: the result is a
-- whole number below 2 ^ 53, whose high 27 bits are those of the first word and low 26 bits those
-- of the second, times the double 1 / 2 ^ 53; and the state stays well formed.
pub genrand_res53_lem :
    (d : Double) (w : LongWidth) (o : Mt d.Carrier)
    → IsExact d
    → IsValid o
    → (y : ℕ) × (z : ℕ) × (o₁ : Mt d.Carrier) × (o₂ : Mt d.Carrier) × (genrand_int32 w o
        ≡ some (y, o₁))
      × (genrand_int32 w o₁ ≡ some (z, o₂))
      × (genrand_res53 d w o
          ≡ done (
            d.mul (d.of_ℕ (y / 2 ^ 5 * 2 ^ 26 + z / 2 ^ 6)) (d.div (d.of_ℕ 1) (d.of_ℕ (2 ^ 53))),
            o₂,
          ))
      × (y / 2 ^ 5 * 2 ^ 26 + z / 2 ^ 6 < 2 ^ 53)
      × (z / 2 ^ 6 < 2 ^ 26)
      × IsValid o₂
unfolding genrand_res53
genrand_res53_lem d w o exact valid =
    let (y, o₁, first, fits, valid₁, _, _) = genrand_int32-IsValid w o valid in
    let (z, o₂, second, fits', valid₂, _, _) = genrand_int32-IsValid w o₁ valid₁ in
    (
      y,
      z,
      o₁,
      o₂,
      first,
      second,
      rw first (
          rw second (
            rw (exact.mul_exact (y / 2 ^ 5) 67108864 (omega arith))
              (rw (exact.add_exact (y / 2 ^ 5 * 67108864) (z / 2 ^ 6) (omega arith))))),
      omega arith,
      omega arith,
      valid₂,
    )
