-- ===== src/Osc/Decode.antt =====
-- `fromOSC` of osclua/osclua.cpp.
use lua2sc.Prelude.{
  ℕ, zero, suc, ◌%◌, ◌==◌, if◌then◌else◌, List, [], ◌∷◌, Bool, true, false, none, some,
}
use lua2sc.Osc.Value.{
  Bytes, Value, Items, nil, boolean, number, string, table, other, end, item, Numbers,
  malformed_packet, malformed_message, invalid_tag, not_a_string, osc_error, Result, ok, lua_error,
  thrown, undefined, ◌>>=◌, as_string,
}
use lua2sc.Osc.TypeName.{TypeName, spelling}
use lua2sc.Osc.Pack.{
  Argument, Received, Elements, message, bundle, throwing_message, throwing_bundle, no_more,
  element, Oscpack, undefined_reading,
}

module _ (n : Numbers) where
  open n use {
    N, of_int32, of_uint32, of_int64, of_uint64, of_char, of_float, of_double, infinity as inf,
  }

  -- The name of the type and the value that the switch of `parseOSCMessage` gives to an argument.
  unfoldable pub shown_argument : Argument → Result (TypeName × Value N)
  shown_argument (Argument.int64 i) = ok (TypeName.int64, number (of_int64 i))
  shown_argument (Argument.boolean b) = ok (TypeName.boolean, boolean b)
  shown_argument Argument.nil = ok (TypeName.nil, string (spelling TypeName.nil))
  shown_argument Argument.infinitum = ok (TypeName.infinity, number inf)
  shown_argument (Argument.int32 i) = ok (TypeName.int32, number (of_int32 i))
  shown_argument (Argument.float f) = ok (TypeName.float, number (of_float f))
  shown_argument (Argument.double x) = ok (TypeName.double, number (of_double x))
  shown_argument (Argument.char c) = ok (TypeName.char, number (of_char c))
  shown_argument (Argument.rgba_color c) = ok (TypeName.rgbacolor, number (of_uint32 c))
  shown_argument (Argument.midi_message m) = ok (TypeName.midi, number (of_uint32 m))
  shown_argument (Argument.time_tag t) = ok (TypeName.timetag, number (of_uint64 t))
  shown_argument (Argument.string s) = ok (TypeName.string, string s)
  shown_argument (Argument.symbol s) = ok (TypeName.symbol, string s)
  shown_argument (Argument.blob s) = ok (TypeName.blob, string s)
  shown_argument Argument.array_begin =
      ok (TypeName.open_bracket, string (spelling TypeName.open_bracket))
  shown_argument Argument.array_end =
      ok (TypeName.close_bracket, string (spelling TypeName.close_bracket))
  shown_argument (Argument.unknown t) = lua_error invalid_tag

  -- With `fulltype` a table of the type's name and the value.
  unfoldable pub wrap_argument : Bool → TypeName → Value N → Value N
  wrap_argument true t v = table (item (string (spelling t)) (item v end))
  wrap_argument false t v = v

  -- The loop of `parseOSCMessage`.
  unfoldable pub parse_arguments : Bool → List Argument → Result (Items N)
  parse_arguments full [] = ok end
  parse_arguments full (a ∷ as') = do
    (t, v) ← shown_argument a
    rest ← parse_arguments full as'
    ok (item (wrap_argument full t v) rest)

  unfoldable pub parse_osc_message : Bool → Bytes → List Argument → Result (Items N)
  parse_osc_message full address arguments = do
    values ← parse_arguments full arguments
    ok (item (string address) (item (table values) end))

  -- `fromOSCBundle` and `fromOSCMessage` on a bundle's element: neither catches.
  unfoldable mutual
    pub from_received : Bool → Received → Result (Items N)
    from_received full (message a as') = parse_osc_message full a as'
    from_received full (bundle t es) = do
      rest ← from_elements full es
      ok (item (number (of_uint64 t)) rest)
    from_received full (throwing_message e) = thrown e
    from_received full (throwing_bundle e) = thrown e
    from_received full undefined_reading = undefined

    -- The loop of `fromOSCParseArgs`.
    pub from_elements : Bool → Elements → Result (Items N)
    from_elements full no_more = ok end
    from_elements full (element r es) = do
      t ← from_received full r
      rest ← from_elements full es
      ok (item (table t) rest)

  -- `catch(osc::MalformedMessageException Ex)` and `catch(osc::MalformedPacketException Ex)`: the
  -- two classes derive from `osc::Exception`, and no other class derives from them.
  unfoldable pub catch_message : Result (Items N) → Result (Items N)
  catch_message (thrown malformed_message) = lua_error (osc_error malformed_message)
  catch_message (thrown e) = thrown e
  catch_message (ok a) = ok a
  catch_message (lua_error e) = lua_error e
  catch_message undefined = undefined

  unfoldable pub catch_packet : Result (Items N) → Result (Items N)
  catch_packet (thrown malformed_packet) = lua_error (osc_error malformed_packet)
  catch_packet (thrown e) = thrown e
  catch_packet (ok a) = ok a
  catch_packet (lua_error e) = lua_error e
  catch_packet undefined = undefined

  -- `p.IsBundle()` chooses the overload for the packet: only that for a message catches.
  unfoldable pub from_packet : Bool → Received → Result (Items N)
  from_packet full (message a as') = catch_message (from_received full (message a as'))
  from_packet full (throwing_message e) = catch_message (from_received full (throwing_message e))
  from_packet full r = from_received full r

  -- `lua_toboolean`
  unfoldable pub is_true : Value N → Bool
  is_true nil = false
  is_true (boolean b) = b
  is_true _ = true

  -- `#t`
  unfoldable pub count_items : Items N → ℕ
  count_items end = 0
  count_items (item v t) = suc (count_items t)

  module _ (p : Oscpack) where
    open p use {receive}

    unfoldable pub decode : Bool → Bytes → Result (Value N)
    decode full packet = do
      t ← catch_packet (do r ← receive packet; from_packet full r)
      ok (table t)

    -- Where the top of the stack is no string, the packet is a null pointer with the length that
    -- `lua_strlen` reports: the number of items of a table, 0 for other values. The reader looks at the
    -- bytes only if the length is a multiple of 4 and not 0.
    unfoldable pub decode_null : Bool → ℕ → Result (Value N)
    decode_null full zero = decode full []
    decode_null full (suc n) =
        if suc n % 4 == 0 then undefined else lua_error (osc_error malformed_packet)

    -- The length of a userdata is its size, which `other` does not tell.
    unfoldable pub decode_no_string : Bool → Value N → Result (Value N)
    decode_no_string full (table t) = decode_null full (count_items t)
    decode_no_string full other = undefined
    decode_no_string full _ = decode_null full 0

    -- The top of the stack is the packet.
    unfoldable pub decode_top : Bool → List (Value N) → Result (Value N)
    decode_top full [] = undefined
    decode_top full (v ∷ []) = elim (as_string n v) [
      | none ↦ decode_no_string full v
      | some s ↦ decode full s
    ]
    decode_top full (v ∷ w ∷ vs) = decode_top full (w ∷ vs)

    -- `fromOSCLua` on its arguments: exactly two choose the form.
    unfoldable pub from_osc_with : Value N → List (Value N) → Result (Value N)
    from_osc_with v (w ∷ []) = decode_top (is_true w) (v ∷ [])
    from_osc_with v vs = decode_top false (v ∷ vs)

    unfoldable pub from_osc : List (Value N) → Result (Value N)
    from_osc [] = lua_error not_a_string
    from_osc (v ∷ vs) = elim (as_string n v) [
      | none ↦ lua_error not_a_string
      | some s ↦ from_osc_with v vs
    ]
