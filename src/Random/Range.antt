-- ===== src/Random/Range.antt =====
-- The interval of `valuei` in random/lrandom.c, and of the real numbers of random/random.c that it
-- is drawn with.
use lua2sc.Prelude.{
  ℕ, suc, ◌+◌, ◌-◌, ◌*◌, ◌/◌, ◌^◌, ◌<◌, ◌≤◌, ◌≡◌, refl, sym, subst, ap, ◌∙◌, arith, some, [], ◌∷◌,
  get_elem?, set, ℤ, pos, negsuc, ◌+ℤ◌, ◌-ℤ◌, ◌≤ℤ◌,
}
use native.Mathlib.Nat.{mul-le-mul_right}
use lua2sc.Random.State.{LongWidth, Mt}
use lua2sc.Random.Generate.{genrand_int32}
use lua2sc.Random.Double.{Double, AtMost, IsMonotone}
use lua2sc.Random.Run.{done}
use lua2sc.Random.Real.{genrand_real2}
use lua2sc.Random.Binding.{
  as_int, draw_integer, number, handle, value, Handles, to_int, get_state, check_handle, check_int,
  check_integer, valuei_range, l_draw, l_valuei,
}
use lua2sc.Random.Sequence.{IsValid, genrand_int32-IsValid}

IsInt : ℤ → Type 0
IsInt z = (negsuc (2 ^ 31 - 1) ≤ℤ z) × (z ≤ℤ pos (2 ^ 31 - 1))

as_int-done : (z : ℤ) → negsuc (2 ^ 31 - 1) ≤ℤ z → z ≤ℤ pos (2 ^ 31 - 1) → as_int z ≡ done z
unfolding as_int
as_int-done (pos n) low high = ground arith
as_int-done (negsuc n) low high = ground arith

-- The count of an interval, and what it is worth.
count :
    (a b : ℤ)
    → a ≤ℤ b
    → (n : ℕ) × ((b -ℤ a) ≡ pos n)
      × ((b -ℤ a) +ℤ pos 1 ≡ pos (n + 1))
      × (a +ℤ pos (n + 1) ≡ b +ℤ pos 1)
unfolding ◌-ℤ◌ ◌+ℤ◌
count (pos a) (pos b) h = (b - a, ground arith, ground arith, ground arith)
count (pos a) (negsuc b) h = absurd (omega arith)
count (negsuc a) (pos b) h = (b + suc a, ground arith, ground arith, ground arith)
count (negsuc a) (negsuc b) h = (a - b, ground arith, ground arith, ground arith)

module _ (y n k : ℕ) where
  -- A word's share of `n` numbers.
  share_below : y < 2 ^ 32 → n ≡ k + 1 → y * n / 2 ^ 32 < n
  share_below word positive =
      let limit : y * n ≤ (2 ^ 32 - 1) * n = mul-le-mul_right n (omega (arith, word)) in
      share_of (y * n) limit
    where
      share_of : (z : ℕ) → z ≤ (2 ^ 32 - 1) * n → z / 2 ^ 32 < n
      share_of z limit = omega (arith, limit, positive)

share_least : (z : ℕ) → z / 2 ^ 32 * 2 ^ 32 ≤ z
share_least z = omega arith

share_most : (z : ℕ) → z ≤ (z / 2 ^ 32 + 1) * 2 ^ 32
share_most z = omega arith

below_end : (a b : ℤ) (n q : ℕ) → a +ℤ pos n ≡ b +ℤ pos 1 → q < n → a +ℤ pos q ≤ℤ b
unfolding ◌+ℤ◌
below_end (pos a) (pos b) n q e h = ground arith
below_end (pos a) (negsuc b) n q e h = ground arith
below_end (negsuc a) (pos b) n q e h = ground arith
below_end (negsuc a) (negsuc b) n q e h = ground arith

-- The number `x` is the one in the interval of `n` numbers from `a` on to which the word `y` falls,
-- or the next one.
abbrev pub FallsTo : (d : Double) → ℤ → ℤ → ℕ → ℕ → d.Carrier → Type 0
FallsTo d a b y n x =
    AtMost d (d.of_int (a +ℤ pos (y * n / 2 ^ 32))) x
    × AtMost d x (d.of_int (a +ℤ pos (y * n / 2 ^ 32 + 1)))
    × (a +ℤ pos (y * n / 2 ^ 32) ≤ℤ b)

module _ (d : Double) (w : LongWidth) (laws : IsMonotone d) where
  open d use {Carrier, of_ℕ, of_int, add, mul, div, floor}

  -- What `genrand_real2` makes of a word.
  abbrev scale : ℕ → Carrier
  scale y = mul (of_ℕ y) (div (of_ℕ 1) (of_ℕ 4294967296))

  module _ (a : ℤ) (y n : ℕ) (low : negsuc (2 ^ 31 - 1) ≤ℤ a) (high : a ≤ℤ pos (2 ^ 31 - 1))
      (word : y < 2 ^ 32) (few : n < 2 ^ 31) (share : y * n / 2 ^ 32 < n) where
    abbrev least : Carrier
    least = of_int (pos (y * n / 2 ^ 32))

    abbrev most : Carrier
    most = of_int (pos (y * n / 2 ^ 32 + 1))

    abbrev drawn : Carrier
    drawn = mul (scale y) (of_int (pos n))

    drawn-least : AtMost d least drawn
    drawn-least = laws.product_least y n (y * n / 2 ^ 32) word few (share_least (y * n))

    drawn-most : AtMost d drawn most
    drawn-most =
        laws.product_most y n (y * n / 2 ^ 32 + 1) word few (omega (arith, few, share))
          (share_most (y * n))

    least_positive : AtMost d (of_int (pos 0)) least
    least_positive = laws.int_monotone 0 (y * n / 2 ^ 32) (omega arith) (omega (arith, few, share))

    most_small : AtMost d most (of_int (pos (2 ^ 31)))
    most_small =
        laws.int_monotone (y * n / 2 ^ 32 + 1) (2 ^ 31) (omega (arith, few, share)) (omega arith)

    floor_whole :
        (k : ℕ) → k < 2 ^ 31 → floor (add (of_int a) (of_int (pos k))) ≡ of_int (a +ℤ pos k)
    floor_whole k h = ap floor (laws.add_int a k low high h) ∙ laws.floor_int (a +ℤ pos k)

    floor_range :
        AtMost d (of_int (a +ℤ pos (y * n / 2 ^ 32))) (floor (add (of_int a) drawn))
        × AtMost d (floor (add (of_int a) drawn)) (of_int (a +ℤ pos (y * n / 2 ^ 32 + 1)))
    floor_range = (
      subst (λ z. AtMost d z (floor (add (of_int a) drawn)))
          (floor_whole (y * n / 2 ^ 32) (omega (arith, few, share)))
          (laws.floor_monotone (
            laws.add_monotone a low high least_positive drawn-least
              (laws.transitive drawn-most most_small))),
      subst (AtMost d (floor (add (of_int a) drawn)))
          (floor_whole (y * n / 2 ^ 32 + 1) (omega (arith, few, share)))
          (laws.floor_monotone (
            laws.add_monotone a low high (laws.transitive least_positive drawn-least) drawn-most
              most_small)),
    )

  draw_integer_range :
      (a b : ℤ) (o : Mt Carrier)
      → negsuc (2 ^ 31 - 1) ≤ℤ a
      → a ≤ℤ b
      → b ≤ℤ pos (2 ^ 31 - 1)
      → (b -ℤ a) +ℤ pos 1 ≤ℤ pos (2 ^ 31 - 1)
      → IsValid o
      → (n : ℕ) × (y : ℕ) × (x : Carrier) × (o' : Mt Carrier) × ((b -ℤ a) +ℤ pos 1 ≡ pos n)
        × (genrand_int32 w o ≡ some (y, o'))
        × (draw_integer d w a b o ≡ done (x, o'))
        × FallsTo d a b y n x
        × IsValid o'
  unfolding draw_integer genrand_real2
  draw_integer_range a b o low order top few valid =
      let (y, o', runs, word, valid', _, _) = genrand_int32-IsValid w o valid in
      let (n, span, size, end) = count a b order in
      let fits : n + 1 < 2 ^ 31 = int_size n (subst (λ z. z ≤ℤ pos (2 ^ 31 - 1)) size few) in
      let share : y * (n + 1) / 2 ^ 32 < n + 1 = share_below y (n + 1) n word refl in
      let (least, most) = floor_range a y (n + 1) low (up_to a b order top) word fits share in
      (
        n + 1,
        y,
        floor (add (of_int a) (mul (scale y) (of_int (pos (n + 1))))),
        o',
        size,
        runs,
        rw runs (
            rw span (
              rw (as_int-done (pos n) (omega arith) (omega (arith, fits))) (
                rw (sym span) (
                  rw size
                    (rw (as_int-done (pos (n + 1)) (omega arith) (omega (arith, fits))) refl))))),
        (least, most, below_end a b (n + 1) (y * (n + 1) / 2 ^ 32) end share),
        valid',
      )
    where
      int_size : (n : ℕ) → pos (n + 1) ≤ℤ pos (2 ^ 31 - 1) → n + 1 < 2 ^ 31
      int_size n h = omega (arith, h)

      up_to : (a b : ℤ) → a ≤ℤ b → b ≤ℤ pos (2 ^ 31 - 1) → a ≤ℤ pos (2 ^ 31 - 1)
      up_to a b h k = omega (arith, h, k)

  to_int_lem : (z : ℤ) → negsuc (2 ^ 31 - 1) ≤ℤ z → z ≤ℤ pos (2 ^ 31 - 1) → to_int z ≡ z
  unfolding to_int
  to_int_lem (pos n) low high = ground arith
  to_int_lem (negsuc n) low high = ground arith

  -- Where rounding and `floor` keep the order, a product is not rounded past a whole number and doubles
  -- of whole numbers are added exactly, the handle `h` stands for a well-formed state, the limits `a`
  -- and `b` are of type `int`, `a` is at most `b`, and the size `n = b - a + 1` of the interval between
  -- them is of type `int`: `valuei` draws one word `y`, replaces the state of `h` by the well-formed one
  -- after it, and returns a number that is at least `a + q` and at most `a + q + 1`, where
  -- `q = y * n / 2 ^ 32`, rounded down, and `a + q` is at most `b`.
  pub l_valuei_range :
      (a b : ℤ) (h : ℕ) (o : Mt Carrier) (hs : Handles d)
      → get_elem? hs h ≡ some o
      → IsValid o
      → negsuc (2 ^ 31 - 1) ≤ℤ a
      → a ≤ℤ b
      → b ≤ℤ pos (2 ^ 31 - 1)
      → (b -ℤ a) +ℤ pos 1 ≤ℤ pos (2 ^ 31 - 1)
      → (n : ℕ) × (y : ℕ) × (x : Carrier) × (o' : Mt Carrier) × ((b -ℤ a) +ℤ pos 1 ≡ pos n)
        × (genrand_int32 w o ≡ some (y, o'))
        × (l_valuei d w (handle h ∷ number a ∷ number b ∷ []) hs ≡ done (value x, set hs h o'))
        × FallsTo d a b y n x
        × IsValid o'
  unfolding l_valuei valuei_range get_state check_handle check_int check_integer l_draw
  l_valuei_range a b h o hs found valid low order top few =
      let (n, y, x, o', size, runs, drawn, falls, valid') =
        draw_integer_range a b o low order top few valid in
      (
        n,
        y,
        x,
        o',
        size,
        runs,
        rw found (
            rw (to_int_lem a low (omega (arith, order, top)))
              (rw (to_int_lem b (omega (arith, low, order)) top) (rw drawn refl))),
        falls,
        valid',
      )
