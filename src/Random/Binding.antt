-- ===== src/Random/Binding.antt =====
-- The functions that random/lrandom.c registers with Lua. A handle is a userdata of the Lua state:
-- an index into the list of the states that were allocated. Arguments are what `luaL_check...`
-- tells apart, the content of new memory is a parameter.
use lua2sc.Prelude.{
  ℕ, ◌-◌, ◌^◌, ◌%◌, List, [], ◌∷◌, ◌++◌, Option, none, some, length, get_elem?, set, if◌then◌else◌,
  ◌==◌, ℤ, pos, negsuc, ◌+ℤ◌, ◌-ℤ◌, leb_ℤ, ◌&&◌, ltb,
}
use lua2sc.Random.State.{LongWidth, ulong_mod, Mt, init_genrand}
use lua2sc.Random.Double.{Double}
use lua2sc.Random.Run.{Run, done, overflow, arg_error, of_option, ◌>>=◌}
use lua2sc.Random.Real.{Drawn, genrand_real1, genrand_real2, genrand_res53, genrand_normal}

-- `SEED`.
abbrev pub default_seed : ℕ
default_seed = 2007

-- An argument on the Lua stack; `number` carries the `lua_Integer` that it converts to.
pub data Arg : Type 0 where
  nil : Arg
  number : ℤ → Arg
  handle : ℕ → Arg
  other : Arg

abbrev pub Args : Type 0
Args = List Arg

-- A conversion of a signed integer to `unsigned long`.
unfoldable pub to_ulong : LongWidth → ℤ → ℕ
to_ulong w (pos n) = n % ulong_mod w
to_ulong w (negsuc n) = ulong_mod w - 1 - n % ulong_mod w

-- A conversion of a `lua_Integer` to `int`.
unfoldable pub to_int : ℤ → ℤ
to_int (pos n) =
    let low = n % 2 ^ 32 in if ltb low (2 ^ 31) then pos low else negsuc (2 ^ 32 - low - 1)
to_int (negsuc n) =
    let low = n % 2 ^ 32 in if ltb low (2 ^ 31) then negsuc low else pos (2 ^ 32 - low - 1)

-- A result of `int` arithmetic, whose overflow is undefined.
unfoldable pub as_int : ℤ → Run ℤ
as_int z = if leb_ℤ (negsuc (2 ^ 31 - 1)) z && leb_ℤ z (pos (2 ^ 31 - 1)) then done z else overflow

-- `luaL_checkinteger` at position `n`, counted from 1, `luaL_optlong` and `luaL_checkint`.
unfoldable pub check_integer : ℕ → Option Arg → Run ℤ
check_integer n (some (number z)) = done z
check_integer n _ = arg_error n

unfoldable pub opt_long : LongWidth → ℕ → Option Arg → ℕ → Run ℕ
opt_long w n none default = done default
opt_long w n (some nil) default = done default
opt_long w n (some a) default = do z ← check_integer n (some a); done (to_ulong w z)

unfoldable pub check_int : ℕ → Option Arg → Run ℤ
check_int n a = do z ← check_integer n a; done (to_int z)

unfoldable pub check_handle : ℕ → Option Arg → Run ℕ
check_handle n (some (handle h)) = done h
check_handle n _ = arg_error n

-- `a` and `b` of `valuei`: with two arguments the range begins at 1.
unfoldable pub valuei_range : Args → Run (ℤ × ℤ)
valuei_range args =
    if length args == 2
    then (do b ← check_int 2 (get_elem? args 1); done (pos 1, b))
    else (do a ← check_int 2 (get_elem? args 1); b ← check_int 3 (get_elem? args 2); done (a, b))

-- What is left on the Lua stack: a number, a new handle, the text that names a handle, nothing.
pub data Reply (C : Type 0) : Type 0 where
  value : C → Reply C
  created : ℕ → Reply C
  text : ℕ → Reply C
  nothing : Reply C

module _ (d : Double) where
  open d use {Carrier, of_int, add, mul, floor}

  abbrev pub Handles : Type 0
  Handles = List (Mt Carrier)

  abbrev pub Called : Type 0
  Called = Run (Reply Carrier × Handles)

  -- `Pget`: a handle argument, and the state that it stands for.
  unfoldable pub get_state : Args → Handles → Run (ℕ × Mt Carrier)
  get_state args hs = do
    h ← check_handle 1 (get_elem? args 0)
    o ← of_option (get_elem? hs h)
    done (h, o)

  -- `Pnew`: memory with unspecified content becomes the last handle.
  unfoldable pub new_state : Mt Carrier → Handles → ℕ × Handles
  new_state memory hs = (length hs, hs ++ memory ∷ [])

  unfoldable pub l_new : LongWidth → Mt Carrier → Args → Handles → Called
  l_new w memory args hs = do
    seed ← opt_long w 1 (get_elem? args 0) default_seed
    let (c, hs') = new_state memory hs
    o ← of_option (init_genrand w memory seed)
    done (created c, set hs' c o)

  unfoldable pub l_clone : Mt Carrier → Args → Handles → Called
  l_clone memory args hs = do
    (c, o) ← get_state args hs
    let (copy, hs') = new_state memory hs
    done (created copy, set hs' copy o)

  unfoldable pub l_seed : LongWidth → Args → Handles → Called
  l_seed w args hs = do
    (c, o) ← get_state args hs
    seed ← opt_long w 2 (get_elem? args 1) default_seed
    o' ← of_option (init_genrand w o seed)
    done (nothing, set hs c o')

  -- A number drawn from the state of the handle argument.
  unfoldable pub l_draw : (Mt Carrier → Drawn d) → Args → Handles → Called
  l_draw draw args hs = do (c, o) ← get_state args hs; (x, o') ← draw o; done (value x, set hs c o')

  unfoldable pub l_value : LongWidth → Args → Handles → Called
  l_value w = l_draw (genrand_real1 d w)

  -- `floor(a+genrand_real2(c)*(b-a+1))`
  unfoldable pub draw_integer : LongWidth → ℤ → ℤ → Mt Carrier → Drawn d
  draw_integer w a b o = do
    (r, o') ← genrand_real2 d w o
    span ← as_int (b -ℤ a)
    count ← as_int (span +ℤ pos 1)
    done (floor (add (of_int a) (mul r (of_int count))), o')

  unfoldable pub l_valuei : LongWidth → Args → Handles → Called
  l_valuei w args hs = do
    _ ← get_state args hs
    (a, b) ← valuei_range args
    l_draw (draw_integer w a b) args hs

  unfoldable pub l_valuex : LongWidth → Args → Handles → Called
  l_valuex w = l_draw (genrand_res53 d w)

  unfoldable pub l_value_n : ℕ → LongWidth → Args → Handles → Called
  l_value_n fuel w = l_draw (genrand_normal d fuel w)

  unfoldable pub l_tostring : Args → Handles → Called
  l_tostring args hs = do (c, o) ← get_state args hs; done (text c, hs)

-- The entries of the registration table `R`.
pub data Method : Type 0 where
  tostring_meta clone new seed tostring value valuei valuex value_n : Method

unfoldable pub registered :
    (d : Double) → ℕ → LongWidth → Mt d.Carrier → Method → Args → Handles d → Called d
registered d fuel w memory tostring_meta = l_tostring d
registered d fuel w memory clone = l_clone d memory
registered d fuel w memory new = l_new d w memory
registered d fuel w memory seed = l_seed d w
registered d fuel w memory tostring = l_tostring d
registered d fuel w memory value = l_value d w
registered d fuel w memory valuei = l_valuei d w
registered d fuel w memory valuex = l_valuex d w
registered d fuel w memory value_n = l_value_n d fuel w
