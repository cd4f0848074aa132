-- ===== src/Osc/Encode.antt =====
-- `toOSC` of osclua/osclua.cpp. A function that writes takes the stream and returns it.
use lua2sc.Prelude.{ℕ, [], ◌∷◌, Bool, true, false, Option, none, some, length, ltb, if◌then◌else◌}
use lua2sc.Osc.Value.{
  Bytes, Value, Items, nil, boolean, number, string, table, other, end, item, Numbers, Error,
  no_type_tag, unknown_type, bad_type, values_not_table, invalid_entry, bad_nested,
  address_expected, not_a_table, bad_first, osc_error, Result, ok, lua_error, thrown, undefined,
  ◌>>=◌, defined, c_string, as_number, as_string, first, second,
}
use lua2sc.Osc.TypeName.{TypeName, find_type, type_names}
use lua2sc.Osc.Pack.{
  Argument, Item, begin_bundle, end_bundle, begin_message, end_message, argument, Oscpack,
}

-- `strncpy` into `char[512]`: a longer text is left without its end, and to read it is undefined.
unfoldable pub copy_512 : Bytes → Result Bytes
copy_512 s = let c = c_string s in if ltb (length c) 512 then ok c else undefined

-- `p << ...`
unfoldable pub write_item : (p : Oscpack) → Item → p.Stream → Result p.Stream
write_item p i s = p.put i s

-- `str[0]` after `strncpy(str, s, 2)`.
unfoldable pub first_byte : Bytes → ℕ
first_byte [] = 0
first_byte (c ∷ cs) = c

module _ (n : Numbers) where
  open n use {N, is_whole, to_int32, to_int64, to_uint64, to_char, to_float, to_double}

  -- The second element where it converts, `bad_type` where it does not.
  unfoldable pub need {ℓ} : {A : Type ℓ} → Option A → Result A
  need none = lua_error bad_type
  need (some a) = ok a

  unfoldable pub need_boolean : Value N → Result Bool
  need_boolean (boolean b) = ok b
  need_boolean _ = lua_error bad_type

  -- `char`: a number is a code, of any other string the first byte counts.
  unfoldable pub char_argument : Value N → Result Argument
  char_argument v = elim (as_number n v) [
    | some x ↦ (do c ← defined (to_char x); ok (Argument.char c))
    | none ↦ (do s ← need (as_string n v); ok (Argument.char (first_byte (c_string s))))
  ]

  -- What a special table of the type writes, from its second element.
  unfoldable pub typed_argument : TypeName → Value N → Result Argument
  typed_argument TypeName.float v = do x ← need (as_number n v); ok (Argument.float (to_float x))
  typed_argument TypeName.double v = do x ← need (as_number n v); ok (Argument.double (to_double x))
  typed_argument TypeName.string v = do s ← need (as_string n v); ok (Argument.string (c_string s))
  typed_argument TypeName.symbol v = do s ← need (as_string n v); ok (Argument.symbol (c_string s))
  typed_argument TypeName.blob v = do s ← need (as_string n v); ok (Argument.blob s)
  typed_argument TypeName.infinity v = ok Argument.infinitum
  typed_argument TypeName.nil v = ok Argument.nil
  typed_argument TypeName.rgbacolor v = do
    x ← need (as_number n v)
    c ← defined (to_int32 x)
    ok (Argument.rgba_color c)
  typed_argument TypeName.int32 v = do
    x ← need (as_number n v)
    c ← defined (to_int32 x)
    ok (Argument.int32 c)
  typed_argument TypeName.char v = char_argument v
  typed_argument TypeName.int64 v = do
    x ← need (as_number n v)
    c ← defined (to_int64 x)
    ok (Argument.int64 c)
  typed_argument TypeName.midi v = do
    x ← need (as_number n v)
    c ← defined (to_int32 x)
    ok (Argument.midi_message c)
  typed_argument TypeName.boolean v = do b ← need_boolean v; ok (Argument.boolean b)
  typed_argument TypeName.timetag v = do
    x ← need (as_number n v)
    c ← defined (to_uint64 x)
    ok (Argument.time_tag c)
  typed_argument TypeName.open_bracket v = ok Argument.array_begin
  typed_argument TypeName.close_bracket v = ok Argument.array_end

  -- `luaL_error` with the name of the type, which it reads up to its end.
  unfoldable pub unknown_type_error : Bytes → Result Argument
  unknown_type_error name = do _ ← copy_512 name; lua_error unknown_type

  -- `pushSpecial`, up to the write. The names of the types are short, so `strcmp` with them reads no
  -- further than the copy reaches.
  unfoldable pub special_argument : Items N → Result Argument
  special_argument t = elim (as_string n (first t)) [
    | none ↦ lua_error no_type_tag
    | some name ↦ elim (find_type type_names (c_string name)) [
      | none ↦ unknown_type_error name
      | some type ↦ typed_argument type (second t)
    ]
  ]

  -- A number: a whole one as an `int`, any other as a double.
  unfoldable pub number_argument : N → Result Argument
  number_argument x = elim (is_whole x) [
    | true ↦ (do i ← defined (to_int32 x); ok (Argument.int32 i))
    | false ↦ ok (Argument.double (to_double x))
  ]

  module _ (p : Oscpack) where
    open p use {Stream, empty, contents}

    unfoldable pub push_special : Items N → Stream → Result Stream
    push_special t s = do a ← special_argument t; write_item p (argument a) s

    -- The loop of `pushValuesLua`, which stops at the first nil.
    unfoldable pub push_values : Items N → Stream → Result Stream
    push_values end s = ok s
    push_values (item nil rest) s = ok s
    push_values (item (boolean b) rest) s = do
      s' ← write_item p (argument (Argument.boolean b)) s
      push_values rest s'
    push_values (item (number x) rest) s = do
      a ← number_argument x
      s' ← write_item p (argument a) s
      push_values rest s'
    push_values (item (string t) rest) s = do
      s' ← write_item p (argument (Argument.string (c_string t))) s
      push_values rest s'
    push_values (item (table t) rest) s = do s' ← push_special t s; push_values rest s'
    push_values (item other rest) s = lua_error invalid_entry

    unfoldable pub push_values_lua : Value N → Stream → Result Stream
    push_values_lua (table t) s = push_values t s
    push_values_lua _ s = lua_error values_not_table

    -- `toOSCMessage`, given the first element of the table and the others.
    unfoldable pub to_osc_message : Value N → Items N → Stream → Result Stream
    to_osc_message address rest s = elim (as_string n address) [
      | none ↦ lua_error address_expected
      | some a ↦ (do
        addr ← copy_512 a
        s₁ ← write_item p (begin_message addr) s
        s₂ ← push_values_lua (first rest) s₁
        write_item p end_message s₂)
    ]

    -- A table by what its first element reads as: a number makes it a bundle, any other string a
    -- message. The elements of a bundle are written by `elements`.
    unfoldable pub nested_by :
        (Stream → Result Stream)
        → Value N
        → Items N
        → Stream
        → Error
        → Option N
        → Option Bytes
        → Result Stream
    nested_by elements start rest s wrong (some tag) text = do
      t ← defined (to_uint64 tag)
      s₁ ← write_item p (begin_bundle t) s
      s₂ ← elements s₁
      write_item p end_bundle s₂
    nested_by elements start rest s wrong none (some a) = to_osc_message start rest s
    nested_by elements start rest s wrong none none = lua_error wrong

    unfoldable pub nested_with :
        (Stream → Result Stream) → Value N → Items N → Stream → Error → Result Stream
    unfolding nested_by
    nested_with elements start rest s wrong =
        nested_by elements start rest s wrong (as_number n start) (as_string n start)

    -- The loop of `toOSCBundle`, which stops at the first element that is no table.
    unfoldable pub push_elements : Items N → Stream → Result Stream
    push_elements end s = ok s
    push_elements (item (table end) rest) s = lua_error bad_nested
    push_elements (item (table (item start inner)) rest) s = do
      s' ← nested_with (push_elements inner) start inner s bad_nested
      push_elements rest s'
    push_elements (item _ rest) s = ok s

    -- The body of `toOSCLua` in its `try`.
    unfoldable pub to_osc_stream : Items N → Result Stream
    to_osc_stream end = lua_error bad_first
    to_osc_stream (item start rest) = nested_with (push_elements rest) start rest empty bad_first

    -- `catch(osc::Exception Ex)`
    unfoldable pub catch_all {ℓ} : {A : Type ℓ} → Result A → Result A
    catch_all (thrown e) = lua_error (osc_error e)
    catch_all (ok a) = ok a
    catch_all (lua_error e) = lua_error e
    catch_all undefined = undefined

    unfoldable pub to_osc : Value N → Result Bytes
    to_osc (table t) = do s ← catch_all (to_osc_stream t); ok (contents s)
    to_osc _ = lua_error not_a_table
