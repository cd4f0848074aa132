-- ===== src/Random/Tests.antt =====
-- The generator of random/random.c and its binding on concrete states.
use lua2sc.Prelude.{
  ℤ, ◌+ℤ◌, ◌-ℤ◌, ◌≤ℤ◌, ℕ, zero, suc, ◌+◌, ◌-◌, ◌*◌, ◌/◌, ◌^◌, ◌<◌, ◌≡◌, ◌≢◌, refl, subst, arith,
  pos, negsuc, false, List, [], ◌∷◌, Option, some, replicate, get_elem?, get_or, ◌>>=◌, write,
}
use lua2sc.Random.State.{Mt, long32, long64, init_genrand, init_loop, init_word}
use lua2sc.Random.Generate.{
  genrand_int32, temper, ensure_seeded, next_block, twist_word, join_bits, refill, refill_low,
  refill_high, refill_word,
}
use lua2sc.Random.Double.{Double, IsExact}
use lua2sc.Random.Fixed.{fixed, fixed-IsMonotone}
use lua2sc.Random.Range.{FallsTo, l_valuei_range}
use lua2sc.Random.Run.{done}
use lua2sc.Random.Real.{
  Point, draw_point, genrand_real2, is_rejected, polar_factor, genrand_normal, genrand_res53,
}
use lua2sc.Random.Binding.{
  l_valuei, value, Arg, Args, created, seed, valuei, valuei_range, check_int, check_integer, to_int,
  registered, l_clone,
}
use lua2sc.Random.Keeps.{Keeps, no_failure, any_failure}
use lua2sc.Random.Handles.{AllValid, Exist, CalledIsValid, registered-AllValid}
use lua2sc.Random.Frame.{Unchanged, registered-other, l_clone_lem}
use lua2sc.Random.Restart.{real, normal, integer, Variate, draw_all, init_genrand-draw_all}
use lua2sc.Random.Width.{width_independent}
use lua2sc.Random.Tempering.{temper-injective}
use lua2sc.Random.Normal.{AcceptedAt, now, genrand_normal_pair}
use lua2sc.Random.Resolution.{genrand_res53_lem}
use lua2sc.Random.Stream.{stream}
use lua2sc.Random.Sequence.{draws, outputs, IsValid, init_genrand-draws, genrand_int32-IsValid}

-- Doubles replaced by natural numbers; no point is rejected.
abbrev plain : Double
plain = record {
  Carrier = ℕ;
  of_ℕ = λ n. n;
  of_int = λ z. elim z [ pos n ↦ n | negsuc n ↦ 0 ];
  add = ◌+◌;
  sub = ◌-◌;
  mul = ◌*◌;
  div = λ a b. a;
  neg = λ a. a;
  floor = λ a. a;
  sqrt = λ a. a;
  log = λ a. a;
  ge = λ a b. false;
  eq = λ a b. false;
}

plain-IsExact : IsExact plain
plain-IsExact = record { add_exact = λ m n h. refl; mul_exact = λ m n h. refl }

-- New memory, and a state whose next word is the first of its array.
abbrev memory : Mt ℕ
memory = record { v = replicate 624 77; i = 3; iset = 1; gset = 5 }

abbrev mid : Mt ℕ
mid = record { v = replicate 624 77; i = 0; iset = 0; gset = 5 }

get_or-replicate : (n x j b : ℕ) → x < b → get_or (replicate n x) j 0 < b
get_or-replicate zero x j b h = omega arith
get_or-replicate (suc n) x zero b h = h
get_or-replicate (suc n) x (suc j) b h = get_or-replicate n x j b h

mid-IsValid : IsValid mid
mid-IsValid = record {
  size = refl;
  index = omega arith;
  words = λ j h. get_or-replicate 624 77 j (2 ^ 32) (omega arith);
}

init_genrand-draws_example :
    (o₀ : Mt ℕ) × (o₁ : Mt ℕ) × (init_genrand long64 memory 5489 ≡ some o₀)
    × (draws long64 700 o₀ ≡ some (outputs (stream 5489) 624 700, o₁))
init_genrand-draws_example = init_genrand-draws long64 memory 5489 700 refl

genrand_int32-IsValid_example :
    (y : ℕ) × (o' : Mt ℕ) × (genrand_int32 long32 mid ≡ some (y, o'))
    × (y < 2 ^ 32)
    × IsValid o'
    × (o'.iset ≡ 0)
    × (o'.gset ≡ 5)
genrand_int32-IsValid_example = genrand_int32-IsValid long32 mid mid-IsValid

-- The first words that the authors of the generator publish for the seed 5489.
published_words : Option (List ℕ)
published_words = do o ← init_genrand long64 memory 5489; (ys, o') ← draws long64 3 o; some ys

init_genrand-published : published_words ≡ some (3499211612 ∷ 581869302 ∷ 3890346734 ∷ [])
unfolding published_words write init_genrand init_loop init_word draws genrand_int32 next_block
    ensure_seeded refill refill_low refill_high refill_word twist_word join_bits temper
init_genrand-published = refl

draws_of : List Variate
draws_of = normal ∷ real ∷ integer (pos 1) (pos 6) ∷ []

init_genrand-draw_all_example :
    (p : Mt ℕ) × (p' : Mt ℕ) × (init_genrand long64 memory 2007 ≡ some p)
    × (init_genrand long64 mid 2007 ≡ some p')
    × (draw_all plain 5 long64 draws_of p ≡ draw_all plain 5 long64 draws_of p')
init_genrand-draw_all_example =
    init_genrand-draw_all plain 5 long64 2007 draws_of memory mid refl refl

abbrev first_handle : Args
first_handle = Arg.handle 0 ∷ []

mid-AllValid : AllValid (mid ∷ [])
mid-AllValid zero o e = let same : mid ≡ o = cc in subst IsValid same mid-IsValid
mid-AllValid (suc h) o e = cc

abbrev roll : Args
roll = Arg.handle 0 ∷ Arg.number (pos 1) ∷ Arg.number (pos 6) ∷ []

roll-Exist : Exist roll (mid ∷ [])
roll-Exist zero h e = let same : 0 ≡ h = cc in omega (arith, same)
roll-Exist (suc zero) h e = cc
roll-Exist (suc (suc zero)) h e = cc
roll-Exist (suc (suc (suc i))) h e = cc

registered-AllValid_example :
    Keeps
      (CalledIsValid plain long64)
      no_failure
      (registered plain 5 long64 memory valuei roll (mid ∷ []))
unfolding valuei_range check_int check_integer to_int ◌-ℤ◌ ◌+ℤ◌
registered-AllValid_example =
    registered-AllValid plain long64 5 memory valuei roll (mid ∷ []) refl roll-Exist mid-AllValid

first_handle_other : get_elem? first_handle 0 ≢ some (Arg.handle 1)
first_handle_other e = cc

registered-other_example :
    Keeps
      (Unchanged plain long64 first_handle (mid ∷ mid ∷ []) 1 (omega arith) first_handle_other)
      any_failure
      (registered plain 5 long64 memory seed first_handle (mid ∷ mid ∷ []))
registered-other_example =
    registered-other plain long64 first_handle (mid ∷ mid ∷ []) 1 (omega arith) first_handle_other 5
      memory seed

l_clone_lem_example :
    (hs : List (Mt ℕ)) × (l_clone plain memory first_handle (mid ∷ []) ≡ done (created 1, hs))
    × (get_elem? hs 1 ≡ some mid)
    × ((h : ℕ) → h < 1 → get_elem? hs h ≡ get_elem? (mid ∷ []) h)
l_clone_lem_example = l_clone_lem plain memory 0 [] (mid ∷ []) (omega arith)

width_independent_example :
    (init_genrand long32 mid 42 ≡ init_genrand long64 mid 42)
    × (genrand_int32 long32 mid ≡ genrand_int32 long64 mid)
width_independent_example = width_independent mid 42

temper-injective_example : ◌≡◌ {A = ℕ} 77 77
temper-injective_example = temper-injective long64 77 77 (omega arith) (omega arith) refl

-- The point that the first two words of `mid` give, and the state after it.
abbrev first_point : Point plain
first_point = record { v1 = 109841463; v2 = 109841463; rsq = 24130293987960738 }

abbrev after_point : Mt ℕ
after_point = record mid { i = 2 }

mid-AcceptedAt : AcceptedAt plain long64 first_point after_point 1 mid
unfolding draw_point genrand_real2 genrand_int32 temper is_rejected
mid-AcceptedAt = now refl refl

genrand_normal_pair_example :
    (o₁ : Mt ℕ) × (o₂ : Mt ℕ) × (genrand_normal plain 5 long64 mid
      ≡ done (109841463 * polar_factor plain first_point, o₁))
    × (genrand_normal plain 5 long64 o₁ ≡ done (109841463 * polar_factor plain first_point, o₂))
    × (o₂.iset ≡ 0)
    × (o₂.v ≡ mid.v)
    × (o₂.i ≡ 2)
genrand_normal_pair_example =
    genrand_normal_pair plain long64 5 mid refl mid-AcceptedAt (omega arith)

genrand_res53_lem_example :
    (y : ℕ) × (z : ℕ) × (o₁ : Mt ℕ) × (o₂ : Mt ℕ) × (genrand_int32 long64 mid ≡ some (y, o₁))
    × (genrand_int32 long64 o₁ ≡ some (z, o₂))
    × (genrand_res53 plain long64 mid ≡ done ((y / 2 ^ 5 * 2 ^ 26 + z / 2 ^ 6) * 1, o₂))
    × (y / 2 ^ 5 * 2 ^ 26 + z / 2 ^ 6 < 2 ^ 53)
    × (z / 2 ^ 6 < 2 ^ 26)
    × IsValid o₂
genrand_res53_lem_example = genrand_res53_lem plain long64 mid plain-IsExact mid-IsValid

abbrev dice : Mt ℤ
dice = record { v = replicate 624 77; i = 0; iset = 0; gset = pos 5 }

dice-IsValid : IsValid dice
dice-IsValid = record {
  size = mid-IsValid.size;
  index = mid-IsValid.index;
  words = mid-IsValid.words;
}

dice_size : (pos 4 -ℤ negsuc 2) +ℤ pos 1 ≤ℤ pos (2 ^ 31 - 1)
unfolding ◌-ℤ◌ ◌+ℤ◌
dice_size = omega arith

l_valuei_range_example :
    (n : ℕ) × (y : ℕ) × (x : ℤ) × (o' : Mt ℤ) × ((pos 4 -ℤ negsuc 2) +ℤ pos 1 ≡ pos n)
    × (genrand_int32 long64 dice ≡ some (y, o'))
    × (l_valuei fixed long64
          (Arg.handle 0 ∷ Arg.number (negsuc 2) ∷ Arg.number (pos 4) ∷ [])
          (dice ∷ [])
        ≡ done (value x, o' ∷ []))
    × FallsTo fixed (negsuc 2) (pos 4) y n x
    × IsValid o'
l_valuei_range_example =
    l_valuei_range fixed long64 fixed-IsMonotone (negsuc 2) (pos 4) 0 dice (dice ∷ []) refl
      dice-IsValid (omega arith) (omega arith) (omega arith) dice_size
