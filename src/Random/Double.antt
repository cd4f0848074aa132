-- ===== src/Random/Double.antt =====
-- The C type `double` with the operations of the language and of math.h that the generator and its
-- binding use. The type and its operations are a parameter of the development.
use lua2sc.Prelude.{ℕ, ◌+◌, ◌-◌, ◌*◌, ◌<◌, ◌≤◌, ◌^◌, ◌≡◌, Bool, true, ℤ, pos, negsuc, ◌+ℤ◌, ◌≤ℤ◌}

pub record Double : Type 1 where
  pub Carrier : Type 0
  -- a conversion from `unsigned long`, or a literal
  pub of_ℕ : ℕ → Carrier
  -- a conversion from `int`
  pub of_int : ℤ → Carrier
  pub add : Carrier → Carrier → Carrier
  pub sub : Carrier → Carrier → Carrier
  pub mul : Carrier → Carrier → Carrier
  pub div : Carrier → Carrier → Carrier
  pub neg : Carrier → Carrier
  pub floor : Carrier → Carrier
  pub sqrt : Carrier → Carrier
  pub log : Carrier → Carrier
  -- `>=` and `==`
  pub ge : Carrier → Carrier → Bool
  pub eq : Carrier → Carrier → Bool

-- IEEE 754: whole numbers below 2 ^ 53 are doubles, and arithmetic between them is exact while its
-- result is one.
pub record IsExact (d : Double) : Type 0 where
  pub add_exact : (m n : ℕ) → m + n < 2 ^ 53 → d.add (d.of_ℕ m) (d.of_ℕ n) ≡ d.of_ℕ (m + n)
  pub mul_exact : (m n : ℕ) → m * n < 2 ^ 53 → d.mul (d.of_ℕ m) (d.of_ℕ n) ≡ d.of_ℕ (m * n)

-- The order of doubles.
abbrev pub AtMost : (d : Double) → d.Carrier → d.Carrier → Type 0
AtMost d x y = d.ge y x ≡ true

-- IEEE 754: numbers of 32 bits and 2 ^ -32 are doubles, arithmetic is exact where its result is one,
-- and rounding and `floor` keep the order, so that a product is not rounded past a whole number.
pub record IsMonotone (d : Double) : Type 0 where
  pub transitive : {x y z : d.Carrier} → AtMost d x y → AtMost d y z → AtMost d x z
  -- a word times 2 ^ -32, times an `int` that is not negative
  pub product_least :
      (y n k : ℕ)
      → y < 2 ^ 32
      → n < 2 ^ 31
      → k * 2 ^ 32 ≤ y * n
      → AtMost d
          (d.of_int (pos k))
          (d.mul (d.mul (d.of_ℕ y) (d.div (d.of_ℕ 1) (d.of_ℕ 4294967296))) (d.of_int (pos n)))
  pub product_most :
      (y n k : ℕ)
      → y < 2 ^ 32
      → n < 2 ^ 31
      → k ≤ 2 ^ 31
      → y * n ≤ k * 2 ^ 32
      → AtMost d
          (d.mul (d.mul (d.of_ℕ y) (d.div (d.of_ℕ 1) (d.of_ℕ 4294967296))) (d.of_int (pos n)))
          (d.of_int (pos k))
  -- an `int` and a number between 0 and 2 ^ 31
  pub add_monotone :
      (a : ℤ) {x y : d.Carrier}
      → negsuc (2 ^ 31 - 1) ≤ℤ a
      → a ≤ℤ pos (2 ^ 31 - 1)
      → AtMost d (d.of_int (pos 0)) x
      → AtMost d x y
      → AtMost d y (d.of_int (pos (2 ^ 31)))
      → AtMost d (d.add (d.of_int a) x) (d.add (d.of_int a) y)
  pub add_int :
      (a : ℤ) (n : ℕ)
      → negsuc (2 ^ 31 - 1) ≤ℤ a
      → a ≤ℤ pos (2 ^ 31 - 1)
      → n < 2 ^ 31
      → d.add (d.of_int a) (d.of_int (pos n)) ≡ d.of_int (a +ℤ pos n)
  pub int_monotone : (m n : ℕ) → m ≤ n → n ≤ 2 ^ 31 → AtMost d (d.of_int (pos m)) (d.of_int (pos n))
  pub floor_monotone : {x y : d.Carrier} → AtMost d x y → AtMost d (d.floor x) (d.floor y)
  pub floor_int : (a : ℤ) → d.floor (d.of_int a) ≡ d.of_int a
