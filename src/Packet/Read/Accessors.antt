-- ===== src/Packet/Read/Accessors.antt =====
-- The accessors and the iterator of oscpack_1_1_0/osc/OscReceivedElements.cpp on one argument that was
-- written.
use lua2sc.Prelude.{
  ℕ, ◌+◌, ◌%◌, ◌^◌, ◌<◌, ◌≡◌, refl, ap, ◌∙◌, arith, ◌∷◌, ◌++◌, some, true, false, ◌&&◌, length,
  take, drop, ◌==◌, ltb, leb, if◌then◌else◌,
}
use lua2sc.Osc.Value.{
  Bytes, Result, ok, thrown, undefined, malformed_message, wrong_argument_type, ◌>>=◌,
}
use lua2sc.Osc.Pack.{Argument}
use lua2sc.Packet.Order.{from_uint32, padding}
use lua2sc.Packet.Arguments.{char_to_int32, blob_bytes}
use lua2sc.Packet.Memory.{byte_at, bytes_at, is_valid_size, c_string_at}
use lua2sc.Packet.Message.{other, tag_kind}
use lua2sc.Packet.Iterate.{
  Cursor, type_tag_at, checked, as_int32, as_float, as_char, as_rgba_color, as_midi_message,
  as_int64, as_time_tag, as_double, as_string, as_symbol, as_blob_unchecked, as_blob, advance,
  text_argument, blob_argument, argument_of_tag, read_argument,
}
use lua2sc.Packet.Layout.{argument_tag, argument_bytes}
use lua2sc.Packet.Step.{length-blob_bytes}
use lua2sc.Packet.Read.{At, At-left, At-right, At-byte, At-length, At-take, bind-by}
use lua2sc.Packet.Read.Text.{c_string_at-padded}
use lua2sc.Packet.Read.Argument.{
  IsEncodable, at_argument, to_uint32-At, to_int32-At, to_uint64-At, to_int64-At, blob_size,
  advance_argument-IsEncodable,
}

module _ (m : Bytes) where
  pub checked_at :
      {A : Type 0} (q p t : ℕ) (read : Result A)
      → byte_at m q ≡ ok t
      → (t == t) ≡ true
      → checked m (at_argument q p) t read ≡ read
  unfolding checked
  checked_at q p t read h same =
      bind-by (λ u. if u == t then read else thrown wrong_argument_type) h
      ∙ ap (λ b. if b then read else thrown wrong_argument_type) same

  -- A reader that wraps what it gets.
  pub wraps :
      {A : Type 0} (q p t : ℕ) (read : Result A) (x : A) (wrap : A → Argument)
      → byte_at m q ≡ ok t
      → (t == t) ≡ true
      → read ≡ ok x
      → (checked m (at_argument q p) t read >>= λ x. ok (wrap x)) ≡ ok (wrap x)
  wraps q p t read x wrap h same r = bind-by (λ x. ok (wrap x)) (checked_at q p t read h same ∙ r)

module _ (m : Bytes) (small : length m < 2 ^ 31) where
  next_tag :
      (q : ℕ) (x : Argument)
      → IsEncodable x
      → elim (tag_kind (argument_tag x)) [ other ↦ some q | _ ↦ some (q + 1) ] ≡ some (q + 1)
  unfolding tag_kind
  next_tag q (Argument.int32 x) e = refl
  next_tag q (Argument.int64 x) e = refl
  next_tag q (Argument.float x) e = refl
  next_tag q (Argument.double x) e = refl
  next_tag q (Argument.char x) e = refl
  next_tag q (Argument.rgba_color x) e = refl
  next_tag q (Argument.midi_message x) e = refl
  next_tag q (Argument.time_tag x) e = refl
  next_tag q (Argument.string x) e = refl
  next_tag q (Argument.symbol x) e = refl
  next_tag q (Argument.blob x) e = refl
  next_tag q (Argument.boolean true) e = refl
  next_tag q (Argument.boolean false) e = refl
  next_tag q Argument.nil e = refl
  next_tag q Argument.infinitum e = refl
  next_tag q Argument.array_begin e = refl
  next_tag q Argument.array_end e = refl
  next_tag q (Argument.unknown t) e = elim e [ ]

  back_to_char : (c : ℕ) → c < 2 ^ 8 → char_to_int32 c % 2 ^ 8 ≡ c
  unfolding char_to_int32
  back_to_char c h = ground arith

  char_small : (c : ℕ) → c < 2 ^ 8 → char_to_int32 c < 2 ^ 32
  unfolding char_to_int32
  char_small c h = ground arith

  blob_content : (p : ℕ) (x : Bytes) → At m p (blob_bytes x) → bytes_at m (p + 4) (length x) ≡ ok x
  unfolding bytes_at blob_bytes from_uint32
  blob_content p x at =
      let content : At m (p + 4) x =
        At-left x (padding (length x))
          (At-right (from_uint32 (length x)) (x ++ padding (length x)) at) in
      let inside : leb (p + 4 + length x) (length m) ≡ true = ground (arith, At-length content) in
      ap (λ b. if b then ok (take (length x) (drop (p + 4) m)) else undefined) inside
      ∙ ap ok (At-take content)

  blob_pointer :
      (q p : ℕ) (x : Bytes)
      → At m p (blob_bytes x)
      → as_blob_unchecked m (at_argument q p) ≡ ok (p + 4, length x)
  unfolding as_blob_unchecked is_valid_size
  blob_pointer q p x at =
      let whole = length-blob_bytes x in
      let within = At-length at in
      let valid : (ltb (length x) (2 ^ 31) && leb (length x) 0x7fff_fffc) ≡ true =
        ground (arith, whole, within, small) in
      bind-by (λ n. if is_valid_size n then ok (p + 4, n) else thrown malformed_message)
        (blob_size m small p x at)
      ∙ ap (λ b. if b then ok (p + 4, length x) else thrown malformed_message) valid

  taken :
      (q p : ℕ) (x : Argument)
      → IsEncodable x
      → At m p (argument_bytes x)
      → byte_at m q ≡ ok (argument_tag x)
      → argument_of_tag (argument_tag x) m (at_argument q p) ≡ ok x
  unfolding argument_of_tag as_int32 as_float as_char as_rgba_color as_midi_message as_int64
      as_time_tag as_double as_string as_symbol as_blob text_argument blob_argument
  taken q p (Argument.int32 x) e at tag =
      wraps m q p _ _ x Argument.int32 tag refl (to_int32-At m small p x at e)
  taken q p (Argument.int64 x) e at tag =
      wraps m q p _ _ x Argument.int64 tag refl (to_int64-At m small p x at e)
  taken q p (Argument.float x) e at tag =
      wraps m q p _ _ x Argument.float tag refl (to_uint32-At m small p x at e)
  taken q p (Argument.double x) e at tag =
      wraps m q p _ _ x Argument.double tag refl (to_uint64-At m small p x at e)
  taken q p (Argument.char x) e at tag = wraps m q p _ _ x Argument.char tag refl (
      bind-by (λ y. ok (y % 2 ^ 8)) (to_int32-At m small p (char_to_int32 x) at (char_small x e))
      ∙ ap ok (back_to_char x e))
  taken q p (Argument.rgba_color x) e at tag =
      wraps m q p _ _ x Argument.rgba_color tag refl (to_uint32-At m small p x at e)
  taken q p (Argument.midi_message x) e at tag =
      wraps m q p _ _ x Argument.midi_message tag refl (to_uint32-At m small p x at e)
  taken q p (Argument.time_tag x) e at tag =
      wraps m q p _ _ x Argument.time_tag tag refl (to_uint64-At m small p x at e)
  taken q p (Argument.string x) e at tag =
      bind-by (λ y. ok (Argument.string y))
        (bind-by (λ r. c_string_at (drop r m)) (checked_at m q p _ (ok p) tag refl)
          ∙ c_string_at-padded m p x at e)
  taken q p (Argument.symbol x) e at tag =
      bind-by (λ y. ok (Argument.symbol y))
        (bind-by (λ r. c_string_at (drop r m)) (checked_at m q p _ (ok p) tag refl)
          ∙ c_string_at-padded m p x at e)
  taken q p (Argument.blob x) e at tag =
      bind-by (λ y. ok (Argument.blob y))
        (bind-by {A = ℕ × ℕ} (λ (r, n). bytes_at m r n)
            (checked_at m q p _ (as_blob_unchecked m (at_argument q p)) tag refl
              ∙ blob_pointer q p x at)
          ∙ blob_content p x at)
  taken q p (Argument.boolean true) e at tag = refl
  taken q p (Argument.boolean false) e at tag = refl
  taken q p Argument.nil e at tag = refl
  taken q p Argument.infinitum e at tag = refl
  taken q p Argument.array_begin e at tag = refl
  taken q p Argument.array_end e at tag = refl
  taken q p (Argument.unknown t) e at tag = elim e [ ]

  -- `Advance` over an argument that was written.
  pub advance-IsEncodable :
      (q p : ℕ) (x : Argument) (ts : Bytes)
      → IsEncodable x
      → At m q (argument_tag x ∷ ts)
      → At m p (argument_bytes x)
      → advance m (at_argument q p) ≡ ok (at_argument (q + 1) (p + length (argument_bytes x)))
  unfolding advance
  advance-IsEncodable q p x ts e tag at =
      bind-by _ (At-byte tag)
      ∙ bind-by (moved q (argument_tag x)) (advance_argument-IsEncodable m small p x e at)
      ∙ ap (λ o. ok (record { type_tag = o; argument = p + length (argument_bytes x) }))
          (next_tag q x e)
    where
      moved : ℕ → ℕ → ℕ → Result Cursor
      moved q t argument = ok (record {
        type_tag = elim (tag_kind t) [ other ↦ some q | _ ↦ some (q + 1) ];
        argument = argument;
      })

  -- The argument that osclua/osclua.cpp takes.
  pub read_argument-IsEncodable :
      (q p : ℕ) (x : Argument) (ts : Bytes)
      → IsEncodable x
      → At m q (argument_tag x ∷ ts)
      → At m p (argument_bytes x)
      → read_argument m (at_argument q p) ≡ ok x
  unfolding read_argument type_tag_at
  read_argument-IsEncodable q p x ts e tag at =
      bind-by (λ t. argument_of_tag t m (at_argument q p)) (At-byte tag)
      ∙ taken q p x e at (At-byte tag)
