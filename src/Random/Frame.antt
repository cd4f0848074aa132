-- ===== src/Random/Frame.antt =====
-- What the functions of random/lrandom.c do to the states of other handles.
use lua2sc.Prelude.{
  ℕ, zero, suc, ◌<◌, ◌≡◌, ◌≢◌, refl, sym, ap, ◌∙◌, arith, List, [], ◌∷◌, ◌++◌, Option, none, some,
  length, get_elem?, set, get_elem?-set_ne,
}
use lua2sc.Random.State.{LongWidth, Mt, init_genrand}
use lua2sc.Random.Double.{Double}
use lua2sc.Random.Run.{Run, done, fault, overflow, out_of_fuel, arg_error, of_option, ◌>>=◌}
use lua2sc.Random.Real.{Drawn}
use lua2sc.Random.Keeps.{
  Keeps, kept, looping, raised, overflowed, faulted, any_failure, Keeps-bind, Any,
}
use lua2sc.Random.Binding.{
  Arg, Args, Handles, Reply, created, Method, tostring_meta, clone, new, seed, tostring, value,
  valuei, valuex, value_n, registered, l_new, l_clone, l_seed, l_draw, l_value, l_valuei, l_valuex,
  l_value_n, l_tostring, draw_integer, check_handle, get_state, new_state, opt_long, default_seed,
  valuei_range,
}

module _ {A : Type 0} where
  get_elem?-append_left :
      (xs ys : List A) (h : ℕ) → h < length xs → get_elem? (xs ++ ys) h ≡ get_elem? xs h
  get_elem?-append_left [] ys h lt = absurd (omega arith)
  get_elem?-append_left (x ∷ xs) ys zero lt = refl
  get_elem?-append_left (x ∷ xs) ys (suc h) lt = get_elem?-append_left xs ys h (omega arith)

  get_elem?-append_last : (xs : List A) (x : A) → get_elem? (xs ++ x ∷ []) (length xs) ≡ some x
  get_elem?-append_last [] x = refl
  get_elem?-append_last (y ∷ xs) x = get_elem?-append_last xs x

  set-append_last : (xs : List A) (x y : A) → set (xs ++ x ∷ []) (length xs) y ≡ xs ++ y ∷ []
  set-append_last [] x y = refl
  set-append_last (z ∷ xs) x y = ap (λ l. z ∷ l) (set-append_last xs x y)

  get_elem?-some : (xs : List A) (i : ℕ) → i < length xs → (x : A) × (get_elem? xs i ≡ some x)
  get_elem?-some [] i h = absurd (omega arith)
  get_elem?-some (x ∷ xs) zero h = (x, refl)
  get_elem?-some (x ∷ xs) (suc i) h = get_elem?-some xs i (omega arith)

  -- Nothing is known of the outcome.
  anything : (r : Run A) → Keeps Any any_failure r
  anything (done a) = kept tt
  anything fault = faulted refl
  anything overflow = overflowed refl
  anything out_of_fuel = looping
  anything (arg_error n) = raised n

module _ (d : Double) (w : LongWidth) (args : Args) (hs : Handles d) where
  open d use {Carrier}

  module _ (h : ℕ) (in_list : h < length hs) (other : get_elem? args 0 ≢ some (Arg.handle h)) where
    abbrev pub Unchanged : Reply Carrier × Handles d → Type 0
    Unchanged (x, hs') = get_elem? hs' h ≡ get_elem? hs h

    got_other : Keeps (λ (c, o). c ≢ h) any_failure (get_state d args hs)
    unfolding get_state check_handle
    got_other = go (get_elem? args 0) other
      where
        go :
            (a : Option Arg)
            → a ≢ some (Arg.handle h)
            → Keeps
                (λ (c, o). c ≢ h)
                any_failure
                (check_handle 1 a >>= λ c. of_option (get_elem? hs c) >>= λ o. done (c, o))
        go none ne = raised 1
        go (some Arg.nil) ne = raised 1
        go (some (Arg.number z)) ne = raised 1
        go (some Arg.other) ne = raised 1
        go (some (Arg.handle c)) ne =
            Keeps-bind (anything (of_option (get_elem? hs c)))
              (λ o _. kept (λ e. ne (ap (λ k. some (Arg.handle k)) e)))

    draw-Unchanged : (f : Mt Carrier → Drawn d) → Keeps Unchanged any_failure (l_draw d f args hs)
    unfolding l_draw
    draw-Unchanged f =
        Keeps-bind got_other
          λ (c, o) ne. Keeps-bind (anything (f o)) λ (x, o') _. kept (get_elem?-set_ne hs c h o' ne)

    -- A registered function that is not given the handle `h` as its first argument and returns leaves
    -- the state of `h` as it was.
    pub registered-other :
        (fuel : ℕ) (memory : Mt Carrier) (m : Method)
        → Keeps Unchanged any_failure (registered d fuel w memory m args hs)
    unfolding registered l_value l_valuex l_value_n l_valuei l_tostring l_clone l_new l_seed
        new_state
    registered-other fuel memory tostring_meta = Keeps-bind got_other (λ o _. kept refl)
    registered-other fuel memory tostring = Keeps-bind got_other (λ o _. kept refl)
    registered-other fuel memory clone =
        Keeps-bind got_other
          λ (c, o) _. kept (rw (set-append_last hs memory o) (get_elem?-append_left hs _ h in_list))
    registered-other fuel memory new =
        Keeps-bind (anything (opt_long w 1 (get_elem? args 0) default_seed)) λ s _.
          Keeps-bind (anything (of_option (init_genrand w memory s)))
            λ o _. kept (rw (set-append_last hs memory o) (get_elem?-append_left hs _ h in_list))
    registered-other fuel memory seed = Keeps-bind got_other λ (c, o) ne.
        Keeps-bind (anything (opt_long w 2 (get_elem? args 1) default_seed)) λ s _.
          Keeps-bind (anything (of_option (init_genrand w o s)))
            λ o' _. kept (get_elem?-set_ne hs c h o' ne)
    registered-other fuel memory value = draw-Unchanged _
    registered-other fuel memory valuei = Keeps-bind got_other λ _ _.
        Keeps-bind (anything (valuei_range args)) λ (a, b) _. draw-Unchanged (draw_integer d w a b)
    registered-other fuel memory valuex = draw-Unchanged _
    registered-other fuel memory value_n = draw-Unchanged _

-- On a handle that exists, with any memory for the copy, `clone` returns a new handle whose state is
-- that of its argument, and leaves the state of every other handle, its argument included, as it
-- was.
pub l_clone_lem :
    (d : Double) (memory : Mt d.Carrier) (c : ℕ) (rest : Args) (hs : Handles d)
    → c < length hs
    → (hs' : Handles d) × (l_clone d memory (Arg.handle c ∷ rest) hs
        ≡ done (created (length hs), hs'))
      × (get_elem? hs' (length hs) ≡ get_elem? hs c)
      × ((h : ℕ) → h < length hs → get_elem? hs' h ≡ get_elem? hs h)
unfolding l_clone get_state check_handle new_state
l_clone_lem d memory c rest hs h =
    let (o, e) = get_elem?-some hs c h in
    (
      hs ++ o ∷ [],
      rw e (rw (set-append_last hs memory o)),
      get_elem?-append_last hs o ∙ sym e,
      λ k lt. get_elem?-append_left hs (o ∷ []) k lt,
    )
