-- ===== src/Random/Handles.antt =====
-- Well-formedness of the states that Lua holds, under the functions of random/lrandom.c.
use lua2sc.Prelude.{
  ℤ, get_elem?-ne-none, ℕ, zero, suc, ◌<◌, ◌≡◌, refl, ap, subst, List, [], ◌∷◌, ◌++◌, Option, none,
  some, length, get_elem?, set,
}
use lua2sc.Random.State.{LongWidth, Mt, init_genrand}
use lua2sc.Random.Double.{Double}
use lua2sc.Random.Run.{Run, fault, overflow, out_of_fuel, arg_error, done, of_option, ◌>>=◌}
use lua2sc.Random.Real.{Drawn}
use lua2sc.Random.Keeps.{
  Keeps, kept, raised, looping, faulted, overflowed, Any, Excuse, no_failure, interval_excuse,
  Keeps-bind, opt_long-Keeps, valuei_range-Keeps,
}
use lua2sc.Random.Sequence.{IsValid, init_genrand-IsValid}
use lua2sc.Random.Binding.{
  Arg, Args, Handles, Reply, Method, tostring_meta, clone, new, seed, tostring, value, valuei,
  valuex, value_n, registered, l_new, l_clone, l_seed, l_draw, l_value, l_valuei, l_valuex,
  l_value_n, l_tostring, draw_integer, check_handle, get_state, new_state, valuei_range,
}
use lua2sc.Random.Drawing.{DrawnIsValid, real1-Keeps, res53-Keeps, normal-Keeps, integer-Keeps}

module _ {D : Type 0} where
  -- Every state that Lua holds is well formed.
  abbrev pub AllValid : List (Mt D) → Type 0
  AllValid hs = (h : ℕ) (o : Mt D) → get_elem? hs h ≡ some o → IsValid o

  AllValid-set :
      (hs : List (Mt D)) (c : ℕ) (o : Mt D) → AllValid hs → IsValid o → AllValid (set hs c o)
  AllValid-set [] c o all v h p e = cc
  AllValid-set (x ∷ hs) zero o all v zero p e = let same : o ≡ p = cc in subst IsValid same v
  AllValid-set (x ∷ hs) zero o all v (suc h) p e = all (suc h) p e
  AllValid-set (x ∷ hs) (suc c) o all v zero p e = all zero p e
  AllValid-set (x ∷ hs) (suc c) o all v (suc h) p e =
      AllValid-set hs c o (λ k q. all (suc k) q) v h p e

  AllValid-append :
      (hs : List (Mt D)) (o : Mt D) → AllValid hs → IsValid o → AllValid (hs ++ o ∷ [])
  AllValid-append [] o all v zero p e = let same : o ≡ p = cc in subst IsValid same v
  AllValid-append [] o all v (suc h) p e = cc
  AllValid-append (x ∷ hs) o all v zero p e = all zero p e
  AllValid-append (x ∷ hs) o all v (suc h) p e = AllValid-append hs o (λ k q. all (suc k) q) v h p e

  -- The new handle's state replaces the memory that was appended.
  set_append : (hs : List (Mt D)) (m o : Mt D) → set (hs ++ m ∷ []) (length hs) o ≡ hs ++ o ∷ []
  set_append [] m o = refl
  set_append (x ∷ hs) m o = ap (λ l. x ∷ l) (set_append hs m o)

  -- Lua passes only handles that exist.
  abbrev pub Exist : Args → List (Mt D) → Type 0
  Exist args hs = (i h : ℕ) → get_elem? args i ≡ some (Arg.handle h) → h < length hs

module _ (d : Double) (w : LongWidth) where
  open d use {Carrier}

  -- A valid handle argument.
  abbrev GotIsValid : ℕ × Mt Carrier → Type 0
  GotIsValid (c, o) = IsValid o

  get_state-Keeps :
      (excused : Excuse) (args : Args) (hs : Handles d)
      → Exist args hs
      → AllValid hs
      → Keeps GotIsValid excused (get_state d args hs)
  unfolding get_state check_handle
  get_state-Keeps excused args hs ex all = go (get_elem? args 0) refl
    where
      found :
          (h : ℕ) (r : Option (Mt Carrier))
          → get_elem? hs h ≡ r
          → h < length hs
          → Keeps GotIsValid excused (of_option r >>= λ o. done (h, o))
      found h none e lt = absurd (get_elem?-ne-none hs h lt e)
      found h (some o) e lt = kept (all h o e)

      go :
          (a : Option Arg)
          → get_elem? args 0 ≡ a
          → Keeps GotIsValid excused
              (check_handle 1 a >>= λ h. of_option (get_elem? hs h) >>= λ o. done (h, o))
      go none e = raised 1
      go (some Arg.nil) e = raised 1
      go (some (Arg.number z)) e = raised 1
      go (some Arg.other) e = raised 1
      go (some (Arg.handle h)) e = found h (get_elem? hs h) refl (ex 0 h e)

  abbrev pub CalledIsValid : Reply Carrier × Handles d → Type 0
  CalledIsValid (x, hs) = AllValid hs

  draw-Keeps :
      (excused : Excuse) (f : Mt Carrier → Drawn d) (args : Args) (hs : Handles d)
      → ((o : Mt Carrier) → IsValid o → Keeps DrawnIsValid excused (f o))
      → Exist args hs
      → AllValid hs
      → Keeps CalledIsValid excused (l_draw d f args hs)
  unfolding l_draw
  draw-Keeps excused f args hs hf ex all =
      Keeps-bind (get_state-Keeps excused args hs ex all)
        λ (c, o) v. Keeps-bind (hf o v) λ (x, o') v'. kept (AllValid-set hs c o' all v')

  seeded-Keeps :
      (o : Mt Carrier) (s : ℕ)
      → length o.v ≡ 624
      → Keeps IsValid no_failure (of_option (init_genrand w o s))
  seeded-Keeps o s size = let (o', runs, v) = init_genrand-IsValid w o s size in rw runs (kept v)

  new-Keeps :
      (memory : Mt Carrier) (args : Args) (hs : Handles d)
      → length memory.v ≡ 624
      → AllValid hs
      → Keeps CalledIsValid no_failure (l_new d w memory args hs)
  unfolding l_new new_state
  new-Keeps memory args hs size all = Keeps-bind (opt_long-Keeps no_failure w 1 _ _) λ s _.
      Keeps-bind (seeded-Keeps memory s size)
        λ o v. kept (rw (set_append hs memory o) (AllValid-append hs o all v))

  clone-Keeps :
      (memory : Mt Carrier) (args : Args) (hs : Handles d)
      → Exist args hs
      → AllValid hs
      → Keeps CalledIsValid no_failure (l_clone d memory args hs)
  unfolding l_clone new_state
  clone-Keeps memory args hs ex all =
      Keeps-bind (get_state-Keeps no_failure args hs ex all)
        λ (c, o) v. kept (rw (set_append hs memory o) (AllValid-append hs o all v))

  seed-Keeps :
      (args : Args) (hs : Handles d)
      → Exist args hs
      → AllValid hs
      → Keeps CalledIsValid no_failure (l_seed d w args hs)
  unfolding l_seed
  seed-Keeps args hs ex all = Keeps-bind (get_state-Keeps no_failure args hs ex all) λ (c, o) v.
      Keeps-bind (opt_long-Keeps no_failure w 2 _ _)
        λ s _. Keeps-bind (seeded-Keeps o s v.size) λ o' v'. kept (AllValid-set hs c o' all v')

  -- The interval that the arguments of `valuei` name.
  abbrev pub range_excuse : Run (ℤ × ℤ) → Excuse
  range_excuse (done (a, b)) = interval_excuse a b
  range_excuse _ = no_failure

  valuei-Keeps :
      (args : Args) (hs : Handles d)
      → Exist args hs
      → AllValid hs
      → Keeps CalledIsValid (range_excuse (valuei_range args)) (l_valuei d w args hs)
  unfolding l_valuei
  valuei-Keeps args hs ex all =
      Keeps-bind (get_state-Keeps (range_excuse (valuei_range args)) args hs ex all)
        λ o _. go (valuei_range args) (valuei_range-Keeps no_failure args)
    where
      go :
          (r : Run (ℤ × ℤ))
          → Keeps Any no_failure r
          → Keeps CalledIsValid
              (range_excuse r)
              (r >>= λ (a, b). l_draw d (draw_integer d w a b) args hs)
      go (done (a, b)) k =
          draw-Keeps (interval_excuse a b) (draw_integer d w a b) args hs (integer-Keeps d w a b) ex
            all
      go out_of_fuel k = looping
      go (arg_error n) k = raised n
      go fault (faulted e) = cc
      go overflow (overflowed e) = cc

  tostring-Keeps :
      (args : Args) (hs : Handles d)
      → Exist args hs
      → AllValid hs
      → Keeps CalledIsValid no_failure (l_tostring d args hs)
  unfolding l_tostring
  tostring-Keeps args hs ex all =
      Keeps-bind (get_state-Keeps no_failure args hs ex all) λ c _. kept all

  -- `valuei` alone may overflow, in `b-a+1`, where the size of its interval is no `int`.
  abbrev pub may_overflow : Method → Args → Excuse
  may_overflow valuei args = range_excuse (valuei_range args)
  may_overflow _ args = no_failure

  -- Where every state that Lua holds is well formed, the arguments name only handles that exist and
  -- new memory has room for 624 words, each registered function, with any arguments and any fuel:
  -- leaves every state well formed if it returns, and makes no access out of bounds; and it overflows
  -- `int` only in `valuei`, where `b - a` or `b - a + 1` is no `int` for its limits `a` and `b`.
  pub registered-AllValid :
      (fuel : ℕ) (memory : Mt Carrier) (m : Method) (args : Args) (hs : Handles d)
      → length memory.v ≡ 624
      → Exist args hs
      → AllValid hs
      → Keeps CalledIsValid (may_overflow m args) (registered d fuel w memory m args hs)
  unfolding registered l_value l_valuex l_value_n
  registered-AllValid fuel memory tostring_meta args hs size ex all = tostring-Keeps args hs ex all
  registered-AllValid fuel memory clone args hs size ex all = clone-Keeps memory args hs ex all
  registered-AllValid fuel memory new args hs size ex all = new-Keeps memory args hs size all
  registered-AllValid fuel memory seed args hs size ex all = seed-Keeps args hs ex all
  registered-AllValid fuel memory tostring args hs size ex all = tostring-Keeps args hs ex all
  registered-AllValid fuel memory value args hs size ex all =
      draw-Keeps no_failure _ args hs (real1-Keeps d w no_failure) ex all
  registered-AllValid fuel memory valuei args hs size ex all = valuei-Keeps args hs ex all
  registered-AllValid fuel memory valuex args hs size ex all =
      draw-Keeps no_failure _ args hs (res53-Keeps d w no_failure) ex all
  registered-AllValid fuel memory value_n args hs size ex all =
      draw-Keeps no_failure _ args hs (normal-Keeps d w no_failure fuel) ex all
