-- ===== src/Osc/Value.antt =====
-- Lua values as osclua/osclua.cpp tells them apart, the numbers of Lua with the conversions that C
-- makes, and the outcome of a call.
use lua2sc.Prelude.{
  ℕ, List, [], ◌∷◌, Bool, true, false, Option, none, some, ◌==◌, ◌&&◌, if◌then◌else◌,
}

abbrev pub Bytes : Type 0
Bytes = List ℕ

-- A table is read at 1, 2, ...: `Items` are those values up to the last one that is not nil.
mutual
  pub data Value (N : Type 0) : Type 0 where
    nil : Value N
    boolean : Bool → Value N
    number : N → Value N
    string : Bytes → Value N
    table : Items N → Value N
    other : Value N

  pub data Items (N : Type 0) : Type 0 where
    end : Items N
    item : Value N → Items N → Items N

-- `lua_Number`, a double, and the conversions of Lua and of C. A machine integer is its bit
-- pattern; `none` is a conversion that C leaves undefined.
pub record Numbers : Type 1 where
  pub N : Type 0
  -- `val==floor(val)`
  pub is_whole : N → Bool
  pub to_int32 : N → Option ℕ
  pub to_int64 : N → Option ℕ
  pub to_uint64 : N → Option ℕ
  pub to_char : N → Option ℕ
  pub to_float : N → ℕ
  pub to_double : N → ℕ
  pub of_int32 : ℕ → N
  pub of_uint32 : ℕ → N
  pub of_int64 : ℕ → N
  pub of_uint64 : ℕ → N
  pub of_char : ℕ → N
  pub of_float : ℕ → N
  pub of_double : ℕ → N
  pub infinity : N
  -- Lua's conversions between strings and numbers
  pub text_number : Bytes → Option N
  pub number_text : N → Bytes

-- The exceptions of oscpack.
pub data Exception : Type 0 where
  out_of_buffer_memory bundle_not_in_progress : Exception
  message_in_progress message_not_in_progress : Exception
  malformed_packet malformed_message malformed_bundle : Exception
  wrong_argument_type missing_argument excess_argument : Exception

-- The errors that the binding raises with `luaL_error`.
pub data Error : Type 0 where
  no_type_tag unknown_type bad_type : Error
  values_not_table invalid_entry bad_nested : Error
  address_expected not_a_table bad_first : Error
  invalid_tag not_a_string : Error
  osc_error : Exception → Error

-- `thrown` is a C++ exception that leaves the function, `undefined` is undefined behaviour.
pub data Result {ℓ} (A : Type ℓ) : Type ℓ where
  ok : A → Result A
  lua_error : Error → Result A
  thrown : Exception → Result A
  undefined : Result A

infixl 5 ◌>>=◌
abbrev pub ◌>>=◌ {ℓ κ} : {A : Type ℓ} {B : Type κ} → Result A → (A → Result B) → Result B
ok a >>= f = f a
lua_error e >>= f = lua_error e
thrown e >>= f = thrown e
undefined >>= f = undefined

-- A conversion that C defines.
abbrev pub defined {ℓ} : {A : Type ℓ} → Option A → Result A
defined none = undefined
defined (some a) = ok a

-- A C string ends at its first zero byte.
unfoldable pub c_string : Bytes → Bytes
c_string [] = []
c_string (c ∷ cs) = if c == 0 then [] else c ∷ c_string cs

-- `!strcmp(s, t)`
unfoldable pub bytes_eq : Bytes → Bytes → Bool
bytes_eq [] [] = true
bytes_eq [] (b ∷ bs) = false
bytes_eq (a ∷ as') [] = false
bytes_eq (a ∷ as') (b ∷ bs) = a == b && bytes_eq as' bs

module _ (n : Numbers) where
  open n use {N, text_number, number_text}

  -- `lua_isnumber` with `lua_tonumber`: also a string that reads as a number.
  unfoldable pub as_number : Value N → Option N
  as_number (number x) = some x
  as_number (string s) = text_number s
  as_number _ = none

  -- `lua_isstring` with `lua_tostring`: also a number.
  unfoldable pub as_string : Value N → Option Bytes
  as_string (string s) = some s
  as_string (number x) = some (number_text x)
  as_string _ = none

-- `t[1]` and `t[2]`.
unfoldable pub first : {N : Type 0} → Items N → Value N
first end = nil
first (item v rest) = v

unfoldable pub second : {N : Type 0} → Items N → Value N
second end = nil
second (item v rest) = first rest
