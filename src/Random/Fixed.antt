-- ===== src/Random/Fixed.antt =====
-- Numbers with 32 binary digits after the point, in place of the doubles of random/random.c: products
-- and quotients are rounded down, and those of negative numbers left out.
use lua2sc.Prelude.{
  ℕ, ◌+◌, ◌-◌, ◌*◌, ◌/◌, ◌^◌, ◌≤◌, ◌≡◌, sym, ap, ◌∙◌, arith, true, ℤ, pos, negsuc, ◌+ℤ◌, ◌-ℤ◌,
  leb_ℤ, ◌&&◌,
}
use native.Mathlib.Nat.{mul_assoc, mul-div_cancel}
use lua2sc.Random.Double.{Double, IsMonotone}

abbrev whole : ℤ → ℤ
whole (pos n) = pos (n * 2 ^ 32)
whole (negsuc n) = negsuc (n * 2 ^ 32 + (2 ^ 32 - 1))

abbrev product : ℤ → ℤ → ℤ
product (pos x) (pos y) = pos (x * y / 2 ^ 32)
product _ _ = pos 0

abbrev quotient : ℤ → ℤ → ℤ
quotient (pos x) (pos y) = pos (x * 2 ^ 32 / y)
quotient _ _ = pos 0

abbrev floor : ℤ → ℤ
floor (pos n) = pos (n / 2 ^ 32 * 2 ^ 32)
floor (negsuc n) = negsuc (n / 2 ^ 32 * 2 ^ 32 + (2 ^ 32 - 1))

abbrev pub fixed : Double
fixed = record {
  Carrier = ℤ;
  of_ℕ = λ n. pos (n * 2 ^ 32);
  of_int = whole;
  add = ◌+ℤ◌;
  sub = ◌-ℤ◌;
  mul = product;
  div = quotient;
  neg = λ x. pos 0 -ℤ x;
  floor = floor;
  sqrt = λ x. x;
  log = λ x. x;
  ge = λ x y. leb_ℤ y x;
  eq = λ x y. leb_ℤ x y && leb_ℤ y x;
}

leb_ℤ-transitive : (x y z : ℤ) → leb_ℤ x y ≡ true → leb_ℤ y z ≡ true → leb_ℤ x z ≡ true
leb_ℤ-transitive x y z h k = ground arith

floor-monotone : (x y : ℤ) → leb_ℤ x y ≡ true → leb_ℤ (floor x) (floor y) ≡ true
floor-monotone (pos x) (pos y) h = ground arith
floor-monotone (pos x) (negsuc y) h = ground arith
floor-monotone (negsuc x) (pos y) h = ground arith
floor-monotone (negsuc x) (negsuc y) h = ground arith

floor-whole : (a : ℤ) → floor (whole a) ≡ whole a
floor-whole (pos n) = ground arith
floor-whole (negsuc n) = ground arith

add-monotone : (a x y : ℤ) → leb_ℤ x y ≡ true → leb_ℤ (a +ℤ x) (a +ℤ y) ≡ true
unfolding ◌+ℤ◌
add-monotone (pos a) (pos x) (pos y) h = ground arith
add-monotone (pos a) (pos x) (negsuc y) h = ground arith
add-monotone (pos a) (negsuc x) (pos y) h = ground arith
add-monotone (pos a) (negsuc x) (negsuc y) h = ground arith
add-monotone (negsuc a) (pos x) (pos y) h = ground arith
add-monotone (negsuc a) (pos x) (negsuc y) h = ground arith
add-monotone (negsuc a) (negsuc x) (pos y) h = ground arith
add-monotone (negsuc a) (negsuc x) (negsuc y) h = ground arith

whole-add : (a : ℤ) (n : ℕ) → whole a +ℤ pos (n * 2 ^ 32) ≡ whole (a +ℤ pos n)
unfolding ◌+ℤ◌
whole-add (pos a) n = ground arith
whole-add (negsuc a) n = ground arith

product-whole : (x n : ℕ) → x * (n * 2 ^ 32) / 2 ^ 32 ≡ x * n
product-whole x n =
    ap (λ z. z / 2 ^ 32) (sym (mul_assoc x n (2 ^ 32))) ∙ mul-div_cancel (x * n) (omega arith)

le→leb_ℤ : (m n : ℕ) → m ≤ n → leb_ℤ (pos m) (pos n) ≡ true
le→leb_ℤ m n h = ground arith

scaled : (y : ℕ) → y * 2 ^ 32 * 1 / 2 ^ 32 ≡ y
scaled y = omega arith

product-least :
    (y n k : ℕ)
    → k * 2 ^ 32 ≤ y * n
    → leb_ℤ (whole (pos k)) (product (product (pos (y * 2 ^ 32)) (pos 1)) (whole (pos n))) ≡ true
product-least y n k h = rw (scaled y) (rw (product-whole y n) (le→leb_ℤ (k * 2 ^ 32) (y * n) h))

product-most :
    (y n k : ℕ)
    → y * n ≤ k * 2 ^ 32
    → leb_ℤ (product (product (pos (y * 2 ^ 32)) (pos 1)) (whole (pos n))) (whole (pos k)) ≡ true
product-most y n k h = rw (scaled y) (rw (product-whole y n) (le→leb_ℤ (y * n) (k * 2 ^ 32) h))

pub fixed-IsMonotone : IsMonotone fixed
fixed-IsMonotone = record {
  transitive = λ {x} {y} {z}. leb_ℤ-transitive x y z;
  product_least = λ y n k word few h. product-least y n k h;
  product_most = λ y n k word few limit h. product-most y n k h;
  add_monotone = λ a {x} {y} low high from order to. add-monotone (whole a) x y order;
  add_int = λ a n low high few. whole-add a n;
  int_monotone = λ m n h k. ground arith;
  floor_monotone = λ {x} {y}. floor-monotone x y;
  floor_int = floor-whole;
}
