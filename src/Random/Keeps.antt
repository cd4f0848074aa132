-- ===== src/Random/Keeps.antt =====
-- Postconditions of the calls that Lua makes, with a rule for each way in which the code composes
-- them, and those of the argument checks.
use lua2sc.Prelude.{
  ℕ, ◌-◌, ◌^◌, ◌≡◌, refl, ap, ◌∙◌, Bool, true, false, if◌then◌else◌, ◌+ℤ◌, ◌-ℤ◌, Option, none, some,
  length, inl, inr, ℤ, pos, ◌==◌, Bool-cases, negsuc, leb_ℤ, ◌&&◌,
}
use lua2sc.Random.State.{LongWidth}
use lua2sc.Random.Run.{Run, done, fault, overflow, out_of_fuel, arg_error, ◌>>=◌}
use lua2sc.Random.Binding.{Arg, Args, as_int, check_integer, check_int, opt_long, valuei_range}

-- The failures that a statement leaves open.
pub data Excuse : Type 0 where
  no_failure overflow_only any_failure : Excuse

abbrev pub allows_overflow : Excuse → Bool
allows_overflow no_failure = false
allows_overflow _ = true

abbrev pub allows_fault : Excuse → Bool
allows_fault any_failure = true
allows_fault _ = false

-- A run keeps `P` of what it returns; it is an access out of bounds or an overflow only where that is
-- excused.
pub data Keeps {A : Type 0} (P : A → Type 0) (excused : Excuse) : Run A → Type 0 where
  kept : {a : A} → P a → Keeps P excused (done a)
  looping : Keeps P excused out_of_fuel
  raised : (n : ℕ) → Keeps P excused (arg_error n)
  overflowed : allows_overflow excused ≡ true → Keeps P excused overflow
  faulted : allows_fault excused ≡ true → Keeps P excused fault

pub Keeps-bind :
    {A B : Type 0} {P : A → Type 0} {Q : B → Type 0} {excused : Excuse} {r : Run A} {k : A → Run B}
    → Keeps P excused r
    → ((a : A) → P a → Keeps Q excused (k a))
    → Keeps Q excused (r >>= k)
Keeps-bind (kept {a} p) h = h a p
Keeps-bind looping h = looping
Keeps-bind (raised n) h = raised n
Keeps-bind (overflowed e) h = overflowed e
Keeps-bind (faulted e) h = faulted e

abbrev pub Any : {A : Type 0} → A → Type 0
Any a = Unit {0}

-- What a run returns does not matter.
Keeps-Any :
    {A : Type 0} {P : A → Type 0} {excused : Excuse} {r : Run A}
    → Keeps P excused r
    → Keeps Any excused r
Keeps-Any (kept p) = kept tt
Keeps-Any looping = looping
Keeps-Any (raised n) = raised n
Keeps-Any (overflowed e) = overflowed e
Keeps-Any (faulted e) = faulted e

-- Two runs that together keep something, and a rest that needs no more.
pub Keeps-split :
    {A B C : Type 0} {Q : C → Type 0} {excused : Excuse} (r : Run A) (f : A → Run B) {k : B → Run C}
    → Keeps Any excused (r >>= f)
    → ((b : B) → Keeps Q excused (k b))
    → Keeps Q excused (r >>= λ a. f a >>= k)
Keeps-split (done a) f h rest = Keeps-bind h (λ b _. rest b)
Keeps-split fault f h rest = Keeps-bind h (λ b _. rest b)
Keeps-split overflow f h rest = Keeps-bind h (λ b _. rest b)
Keeps-split out_of_fuel f h rest = Keeps-bind h (λ b _. rest b)
Keeps-split (arg_error n) f h rest = Keeps-bind h (λ b _. rest b)

check_integer-Keeps :
    (excused : Excuse) (n : ℕ) (a : Option Arg) → Keeps Any excused (check_integer n a)
unfolding check_integer
check_integer-Keeps excused n none = raised n
check_integer-Keeps excused n (some (Arg.number z)) = kept tt
check_integer-Keeps excused n (some Arg.nil) = raised n
check_integer-Keeps excused n (some (Arg.handle h)) = raised n
check_integer-Keeps excused n (some Arg.other) = raised n

pub check_int-Keeps :
    (excused : Excuse) (n : ℕ) (a : Option Arg) → Keeps Any excused (check_int n a)
unfolding check_int
check_int-Keeps excused n a = Keeps-bind (check_integer-Keeps excused n a) (λ z _. kept tt)

pub opt_long-Keeps :
    (excused : Excuse) (w : LongWidth) (n : ℕ) (a : Option Arg) (s : ℕ)
    → Keeps Any excused (opt_long w n a s)
unfolding opt_long
opt_long-Keeps excused w n none s = kept tt
opt_long-Keeps excused w n (some Arg.nil) s = kept tt
opt_long-Keeps excused w n (some (Arg.number z)) s =
    Keeps-bind (check_integer-Keeps excused n _) (λ z _. kept tt)
opt_long-Keeps excused w n (some (Arg.handle h)) s =
    Keeps-bind (check_integer-Keeps excused n _) (λ z _. kept tt)
opt_long-Keeps excused w n (some Arg.other) s =
    Keeps-bind (check_integer-Keeps excused n _) (λ z _. kept tt)

pub valuei_range-Keeps : (excused : Excuse) (args : Args) → Keeps Any excused (valuei_range args)
unfolding valuei_range
valuei_range-Keeps excused args = elim (Bool-cases (length args == 2)) [
  | inl two ↦ rw two (Keeps-bind (check_int-Keeps excused 2 _) (λ b _. kept tt))
  | inr three ↦ rw three (
      Keeps-bind (check_int-Keeps excused 2 _)
        (λ a _. Keeps-bind (check_int-Keeps excused 3 _) (λ b _. kept tt)))
]

-- A number of type `int`.
abbrev pub is_int : ℤ → Bool
is_int z = leb_ℤ (negsuc (2 ^ 31 - 1)) z && leb_ℤ z (pos (2 ^ 31 - 1))

-- The size of the interval from `a` to `b` may overflow, and nothing else.
abbrev pub interval_excuse : ℤ → ℤ → Excuse
interval_excuse a b =
    if is_int (b -ℤ a) && is_int ((b -ℤ a) +ℤ pos 1) then no_failure else overflow_only

as_int-fits : (excused : Excuse) (z : ℤ) → is_int z ≡ true → Keeps (λ x. x ≡ z) excused (as_int z)
unfolding as_int
as_int-fits excused z fits = rw fits (kept refl)

as_int-Keeps : (z : ℤ) → Keeps (λ x. x ≡ z) overflow_only (as_int z)
unfolding as_int
as_int-Keeps z = elim (Bool-cases (is_int z)) [
  | inl fits ↦ rw fits (kept refl)
  | inr over ↦ rw over (overflowed refl)
]

-- `b-a+1`, computed in `int`.
pub interval-Keeps :
    (a b : ℤ) → Keeps Any (interval_excuse a b) (as_int (b -ℤ a) >>= λ span. as_int (span +ℤ pos 1))
interval-Keeps a b = go (is_int (b -ℤ a)) (is_int ((b -ℤ a) +ℤ pos 1)) refl refl
  where
    either : Keeps Any overflow_only (as_int (b -ℤ a) >>= λ span. as_int (span +ℤ pos 1))
    either = Keeps-bind (as_int-Keeps (b -ℤ a)) λ span _. Keeps-Any (as_int-Keeps (span +ℤ pos 1))

    go :
        (x y : Bool)
        → is_int (b -ℤ a) ≡ x
        → is_int ((b -ℤ a) +ℤ pos 1) ≡ y
        → Keeps Any
            (if x && y then no_failure else overflow_only)
            (as_int (b -ℤ a) >>= λ span. as_int (span +ℤ pos 1))
    go true true e f = Keeps-bind (as_int-fits no_failure (b -ℤ a) e) λ span same.
        Keeps-Any (as_int-fits no_failure (span +ℤ pos 1) (ap (λ s. is_int (s +ℤ pos 1)) same ∙ f))
    go true false e f = either
    go false y e f = either
