-- ===== src/Osc/Shape.antt =====
-- The tables that `fromOSC` of osclua/osclua.cpp returns, whatever oscpack shows of a packet.
use lua2sc.Prelude.{◌≡◌, refl, sym, subst, List, [], ◌∷◌, Bool, true, false}
use lua2sc.Osc.Value.{
  Bytes, Value, Items, boolean, number, string, table, end, item, Numbers, Result, ok, lua_error,
  thrown, undefined, malformed_packet, malformed_message, ◌>>=◌,
}
use lua2sc.Osc.TypeName.{TypeName, spelling}
use lua2sc.Osc.Pack.{
  Argument, Received, Elements, message, bundle, throwing_message, throwing_bundle, no_more,
  element, Oscpack, undefined_reading,
}
use lua2sc.Osc.Writes.{run_succeeds}
use lua2sc.Osc.Decode.{
  shown_argument, wrap_argument, parse_arguments, parse_osc_message, from_received, from_elements,
  catch_message, catch_packet, from_packet, decode,
}

-- The kind of Lua value that stands for an argument of a type.
abbrev pub HasType : {N : Type 0} → TypeName → Value N → Type 0
HasType {N} TypeName.boolean v = (b : Bool) × (v ≡ boolean b)
HasType {N} TypeName.string v = (s : Bytes) × (v ≡ string s)
HasType {N} TypeName.symbol v = (s : Bytes) × (v ≡ string s)
HasType {N} TypeName.blob v = (s : Bytes) × (v ≡ string s)
HasType {N} TypeName.nil v = v ≡ string (spelling TypeName.nil)
HasType {N} TypeName.open_bracket v = v ≡ string (spelling TypeName.open_bracket)
HasType {N} TypeName.close_bracket v = v ≡ string (spelling TypeName.close_bracket)
HasType {N} _ v = (x : N) × (v ≡ number x)

-- An argument in the full form, with the name of its type, or in the short one.
pub data IsEntry {N : Type 0} : Bool → Value N → Type 0 where
  named :
      (t : TypeName) (v : Value N)
      → HasType t v
      → IsEntry true (table (item (string (spelling t)) (item v end)))
  bare : (t : TypeName) (v : Value N) → HasType t v → IsEntry false v

pub data AreEntries {N : Type 0} (full : Bool) : Items N → Type 0 where
  no_entries : AreEntries full end
  entry :
      {v : Value N} {vs : Items N}
      → IsEntry full v
      → AreEntries full vs
      → AreEntries full (item v vs)

-- An address and a table of arguments, or a number and tables that again are of this shape.
mutual
  pub data IsPacketTable {N : Type 0} (full : Bool) : Items N → Type 0 where
    of_message :
        (address : Bytes) {vs : Items N}
        → AreEntries full vs
        → IsPacketTable full (item (string address) (item (table vs) end))
    of_bundle :
        (time : N) {es : Items N}
        → ArePacketTables full es
        → IsPacketTable full (item (number time) es)

  pub data ArePacketTables {N : Type 0} (full : Bool) : Items N → Type 0 where
    no_tables : ArePacketTables full end
    packet_table :
        {t es : Items N}
        → IsPacketTable full t
        → ArePacketTables full es
        → ArePacketTables full (item (table t) es)

module _ (n : Numbers) where
  open n use {N}

  typed :
      (t u : TypeName) (v w : Value N)
      → HasType t v
      → ◌≡◌ {A = Result (TypeName × Value N)} (ok (t, v)) (ok (u, w))
      → HasType u w
  typed t u v w given h =
      let same : ◌≡◌ {A = TypeName × Value N} (t, v) (u, w) = cc in
      subst (λ x. HasType x.0 x.1) same given

  shown_argument-HasType :
      (a : Argument) (t : TypeName) (v : Value N) → shown_argument n a ≡ ok (t, v) → HasType t v
  unfolding shown_argument
  shown_argument-HasType (Argument.int64 i) t v h = typed TypeName.int64 t _ v (_, refl) h
  shown_argument-HasType (Argument.boolean b) t v h = typed TypeName.boolean t _ v (b, refl) h
  shown_argument-HasType Argument.nil t v h = typed TypeName.nil t _ v refl h
  shown_argument-HasType Argument.infinitum t v h = typed TypeName.infinity t _ v (_, refl) h
  shown_argument-HasType (Argument.int32 i) t v h = typed TypeName.int32 t _ v (_, refl) h
  shown_argument-HasType (Argument.float f) t v h = typed TypeName.float t _ v (_, refl) h
  shown_argument-HasType (Argument.double x) t v h = typed TypeName.double t _ v (_, refl) h
  shown_argument-HasType (Argument.char c) t v h = typed TypeName.char t _ v (_, refl) h
  shown_argument-HasType (Argument.rgba_color c) t v h = typed TypeName.rgbacolor t _ v (_, refl) h
  shown_argument-HasType (Argument.midi_message m) t v h = typed TypeName.midi t _ v (_, refl) h
  shown_argument-HasType (Argument.time_tag u) t v h = typed TypeName.timetag t _ v (_, refl) h
  shown_argument-HasType (Argument.string s) t v h = typed TypeName.string t _ v (s, refl) h
  shown_argument-HasType (Argument.symbol s) t v h = typed TypeName.symbol t _ v (s, refl) h
  shown_argument-HasType (Argument.blob s) t v h = typed TypeName.blob t _ v (s, refl) h
  shown_argument-HasType Argument.array_begin t v h = typed TypeName.open_bracket t _ v refl h
  shown_argument-HasType Argument.array_end t v h = typed TypeName.close_bracket t _ v refl h
  shown_argument-HasType (Argument.unknown u) t v h = cc

  wrap_argument-IsEntry :
      (full : Bool) (t : TypeName) (v : Value N)
      → HasType t v
      → IsEntry full (wrap_argument n full t v)
  unfolding wrap_argument
  wrap_argument-IsEntry true t v typed = named t v typed
  wrap_argument-IsEntry false t v typed = bare t v typed

  parse_arguments-AreEntries :
      (full : Bool) (as' : List Argument) (vs : Items N)
      → parse_arguments n full as' ≡ ok vs
      → AreEntries full vs
  unfolding parse_arguments
  parse_arguments-AreEntries full [] vs h =
      let same : end ≡ vs = cc in subst (AreEntries full) same no_entries
  parse_arguments-AreEntries full (a ∷ as') vs h =
      let ((t, v), shown, h₁) =
        run_succeeds (shown_argument n a)
          (λ (t, v).
            parse_arguments n full as' >>= λ rest. ok (item (wrap_argument n full t v) rest))
          h in
      let (rest, parsed, h₂) =
        run_succeeds (parse_arguments n full as')
          (λ rest. ok (item (wrap_argument n full t v) rest)) h₁ in
      let same : item (wrap_argument n full t v) rest ≡ vs = cc in
      subst (AreEntries full) same (
        entry (wrap_argument-IsEntry full t v (shown_argument-HasType a t v shown))
          (parse_arguments-AreEntries full as' rest parsed))

  parse_osc_message-IsPacketTable :
      (full : Bool) (a : Bytes) (as' : List Argument) (t : Items N)
      → parse_osc_message n full a as' ≡ ok t
      → IsPacketTable full t
  unfolding parse_osc_message
  parse_osc_message-IsPacketTable full a as' t h =
      let (vs, parsed, h₁) =
        run_succeeds (parse_arguments n full as') (λ vs. ok (item (string a) (item (table vs) end)))
          h in
      let same : item (string a) (item (table vs) end) ≡ t = cc in
      subst (IsPacketTable full) same (of_message a (parse_arguments-AreEntries full as' vs parsed))

  mutual
    unfolding from_received from_elements

    from_received-IsPacketTable :
        (full : Bool) (r : Received) (t : Items N)
        → from_received n full r ≡ ok t
        → IsPacketTable full t
    from_received-IsPacketTable full (message a as') t h =
        parse_osc_message-IsPacketTable full a as' t h
    from_received-IsPacketTable full (bundle u es) t h =
        let (rest, parsed, h₁) =
          run_succeeds (from_elements n full es) (λ rest. ok (item (number (n.of_uint64 u)) rest))
            h in
        let same : item (number (n.of_uint64 u)) rest ≡ t = cc in
        subst (IsPacketTable full) same
          (of_bundle _ (from_elements-ArePacketTables full es rest parsed))
    from_received-IsPacketTable full (throwing_message e) t h = cc
    from_received-IsPacketTable full (throwing_bundle e) t h = cc
    from_received-IsPacketTable full undefined_reading t h = cc

    from_elements-ArePacketTables :
        (full : Bool) (es : Elements) (ts : Items N)
        → from_elements n full es ≡ ok ts
        → ArePacketTables full ts
    from_elements-ArePacketTables full no_more ts h =
        let same : end ≡ ts = cc in subst (ArePacketTables full) same no_tables
    from_elements-ArePacketTables full (element r es) ts h =
        let (t, shown, h₁) =
          run_succeeds (from_received n full r)
            (λ t. from_elements n full es >>= λ rest. ok (item (table t) rest)) h in
        let (rest, parsed, h₂) =
          run_succeeds (from_elements n full es) (λ rest. ok (item (table t) rest)) h₁ in
        let same : item (table t) rest ≡ ts = cc in
        subst (ArePacketTables full) same (
          packet_table (from_received-IsPacketTable full r t shown)
            (from_elements-ArePacketTables full es rest parsed))

  -- What is caught is never a value.
  catch_message-ok : (r : Result (Items N)) (t : Items N) → catch_message n r ≡ ok t → r ≡ ok t
  unfolding catch_message
  catch_message-ok (ok a) t h = h
  catch_message-ok (lua_error e) t h = h
  catch_message-ok undefined t h = h
  catch_message-ok (thrown malformed_message) t h = cc
  catch_message-ok (thrown e) t h = cc

  catch_packet-ok : (r : Result (Items N)) (t : Items N) → catch_packet n r ≡ ok t → r ≡ ok t
  unfolding catch_packet
  catch_packet-ok (ok a) t h = h
  catch_packet-ok (lua_error e) t h = h
  catch_packet-ok undefined t h = h
  catch_packet-ok (thrown malformed_packet) t h = cc
  catch_packet-ok (thrown e) t h = cc

  from_packet-received :
      (full : Bool) (r : Received) (t : Items N)
      → from_packet n full r ≡ ok t
      → from_received n full r ≡ ok t
  unfolding from_packet
  from_packet-received full (message a as') t h = catch_message-ok _ t h
  from_packet-received full (throwing_message e) t h = catch_message-ok _ t h
  from_packet-received full (bundle u es) t h = h
  from_packet-received full (throwing_bundle e) t h = h
  from_packet-received full undefined_reading t h = h

  -- Whatever bytes a packet consists of and whatever oscpack shows of them: what `fromOSC` returns is
  -- a table of the one or the other shape. A message is its address and the table of its arguments,
  -- each of the kind of value that its type asks for, alone or behind the name of the type; a bundle is
  -- a number and tables that again have such a shape.
  pub decode-IsPacketTable :
      (p : Oscpack) (full : Bool) (packet : Bytes) (v : Value N)
      → decode n p full packet ≡ ok v
      → (t : Items N) × (v ≡ table t) × IsPacketTable full t
  unfolding decode
  decode-IsPacketTable p full packet v h =
      let received = p.receive packet >>= from_packet n full in
      let (t, shown, h₁) = run_succeeds (catch_packet n received) (λ t. ok (table t)) h in
      let (r, read, h₂) =
        run_succeeds (p.receive packet) (from_packet n full) (catch_packet-ok received t shown) in
      let same : table t ≡ v = cc in
      (t, sym same, from_received-IsPacketTable full r t (from_packet-received full r t h₂))
