-- ===== src/Osc/Portable.antt =====
-- The packets that a decoding by osclua/osclua.cpp is meant to preserve, and the tables of the full
-- form that `fromOSC` makes of them.
use lua2sc.Prelude.{
  ℕ, ◌<◌, ◌≤◌, ◌^◌, ◌%◌, List, [], ◌∷◌, true, Option, none, some, ◌≡◌, refl, arith, length, lt→ltb,
}
use lua2sc.Osc.Value.{
  Bytes, Value, Items, number, string, table, end, item, Numbers, Error, bad_nested, bad_first,
  Result, ok, c_string, bytes_eq, as_number, as_string, first, second,
}
use lua2sc.Osc.TypeName.{TypeName, spelling, find_type, type_names}
use lua2sc.Osc.Pack.{
  Argument, Received, Elements, message, bundle, throwing_message, throwing_bundle,
  undefined_reading, no_more, element,
}
use lua2sc.Osc.Encode.{
  special_argument, typed_argument, char_argument, need, need_boolean, copy_512,
}
use lua2sc.Osc.Decode.{
  shown_argument, wrap_argument, parse_arguments, parse_osc_message, from_received, from_elements,
}
use lua2sc.Osc.Meaning.{
  arguments, arguments_of, message_of, packet_by, packet_with, elements_of, meaning,
}

-- What C and IEEE 754 say of the conversions: an integer that a double holds exactly comes back, and
-- so does a float or a double that is not a NaN.
pub record IsLossless (n : Numbers) : Type 0 where
  pub int32_back : (i : ℕ) → i < 2 ^ 32 → n.to_int32 (n.of_int32 i) ≡ some i
  pub uint32_back : (i : ℕ) → i < 2 ^ 31 → n.to_int32 (n.of_uint32 i) ≡ some i
  pub int64_back : (i : ℕ) → i ≤ 2 ^ 53 → n.to_int64 (n.of_int64 i) ≡ some i
  pub uint64_back : (i : ℕ) → i ≤ 2 ^ 53 → n.to_uint64 (n.of_uint64 i) ≡ some i
  pub char_back : (c : ℕ) → c < 2 ^ 7 → n.to_char (n.of_char c) ≡ some c
  pub float_back : (f : ℕ) → f < 2 ^ 32 → f % 2 ^ 31 ≤ 0x7f80_0000 → n.to_float (n.of_float f) ≡ f
  pub double_back :
      (x : ℕ) → x < 2 ^ 64 → x % 2 ^ 63 ≤ 0x7ff0_0000_0000_0000 → n.to_double (n.of_double x) ≡ x

-- No byte of a C string is zero.
abbrev pub NoZero : Bytes → Type 0
NoZero [] = Unit {0}
NoZero (c ∷ cs) = (0 < c) × NoZero cs

-- The arguments that survive; of integers of 64 bits, those from 0 to 2 ^ 53.
abbrev pub IsPortableArgument : Argument → Type 0
IsPortableArgument (Argument.int32 i) = i < 2 ^ 32
IsPortableArgument (Argument.int64 i) = i ≤ 2 ^ 53
IsPortableArgument (Argument.float f) = (f < 2 ^ 32) × (f % 2 ^ 31 ≤ 0x7f80_0000)
IsPortableArgument (Argument.double x) = (x < 2 ^ 64) × (x % 2 ^ 63 ≤ 0x7ff0_0000_0000_0000)
IsPortableArgument (Argument.char c) = c < 2 ^ 7
IsPortableArgument (Argument.rgba_color c) = c < 2 ^ 31
IsPortableArgument (Argument.midi_message m) = m < 2 ^ 31
IsPortableArgument (Argument.time_tag t) = t ≤ 2 ^ 53
IsPortableArgument (Argument.string s) = NoZero s
IsPortableArgument (Argument.symbol s) = NoZero s
IsPortableArgument (Argument.blob s) = Unit {0}
IsPortableArgument (Argument.boolean b) = Unit {0}
IsPortableArgument Argument.nil = Unit {0}
IsPortableArgument Argument.infinitum = Unit {0}
IsPortableArgument Argument.array_begin = Unit {0}
IsPortableArgument Argument.array_end = Unit {0}
IsPortableArgument (Argument.unknown t) = ⊥

abbrev pub ArePortable : List Argument → Type 0
ArePortable [] = Unit {0}
ArePortable (a ∷ as') = IsPortableArgument a × ArePortable as'

module _ (n : Numbers) where
  -- An address is a C string of at most 511 bytes that does not read as a number.
  abbrev mutual
    pub IsPortable : Received → Type 0
    IsPortable (message a as') =
        NoZero a × (length a < 512) × (n.text_number a ≡ none) × ArePortable as'
    IsPortable (bundle t es) = (t ≤ 2 ^ 53) × AllPortable es
    IsPortable (throwing_message e) = ⊥
    IsPortable (throwing_bundle e) = ⊥
    IsPortable undefined_reading = ⊥

    pub AllPortable : Elements → Type 0
    AllPortable no_more = Unit {0}
    AllPortable (element r es) = IsPortable r × AllPortable es

c_string-NoZero : (s : Bytes) → NoZero s → c_string s ≡ s
unfolding c_string
c_string-NoZero [] h = refl
c_string-NoZero (c ∷ cs) h = ground (arith, c_string-NoZero cs h.1)

copy_512-NoZero : (s : Bytes) → NoZero s → length s < 512 → copy_512 s ≡ ok s
unfolding copy_512
copy_512-NoZero s h l = rw (c_string-NoZero s h) (rw (lt→ltb (length s) 512 l))

-- The name of a type is found again.
find_type-spelling : (t : TypeName) → find_type type_names (c_string (spelling t)) ≡ some t
unfolding find_type c_string bytes_eq
find_type-spelling TypeName.float = refl
find_type-spelling _ = refl

module _ (n : Numbers) (lossless : IsLossless n) where
  open n use {N}

  -- The value shown for an argument makes that argument again.
  shown_again :
      (a : Argument)
      → IsPortableArgument a
      → (t : TypeName) × (v : Value N) × (shown_argument n a ≡ ok (t, v))
        × (typed_argument n t v ≡ ok a)
  unfolding shown_argument typed_argument as_number as_string need need_boolean char_argument
  shown_again (Argument.int32 i) h = (TypeName.int32, _, refl, rw (lossless.int32_back i h))
  shown_again (Argument.int64 i) h = (TypeName.int64, _, refl, rw (lossless.int64_back i h))
  shown_again (Argument.float f) h = (TypeName.float, _, refl, rw (lossless.float_back f h.0 h.1))
  shown_again (Argument.double x) h =
      (TypeName.double, _, refl, rw (lossless.double_back x h.0 h.1))
  shown_again (Argument.char c) h = (TypeName.char, _, refl, rw (lossless.char_back c h))
  shown_again (Argument.rgba_color c) h =
      (TypeName.rgbacolor, _, refl, rw (lossless.uint32_back c h))
  shown_again (Argument.midi_message m) h = (TypeName.midi, _, refl, rw (lossless.uint32_back m h))
  shown_again (Argument.time_tag t) h = (TypeName.timetag, _, refl, rw (lossless.uint64_back t h))
  shown_again (Argument.string s) h = (TypeName.string, _, refl, rw (c_string-NoZero s h))
  shown_again (Argument.symbol s) h = (TypeName.symbol, _, refl, rw (c_string-NoZero s h))
  shown_again (Argument.blob s) h = (TypeName.blob, _, refl, refl)
  shown_again (Argument.boolean b) h = (TypeName.boolean, _, refl, refl)
  shown_again Argument.nil h = (TypeName.nil, _, refl, refl)
  shown_again Argument.infinitum h = (TypeName.infinity, _, refl, refl)
  shown_again Argument.array_begin h = (TypeName.open_bracket, _, refl, refl)
  shown_again Argument.array_end h = (TypeName.close_bracket, _, refl, refl)
  shown_again (Argument.unknown t) h = absurd h

  special_again :
      (t : TypeName) (v : Value N) (a : Argument)
      → typed_argument n t v ≡ ok a
      → special_argument n (item (string (spelling t)) (item v end)) ≡ ok a
  unfolding special_argument first second as_string
  special_again t v a h = rw (find_type-spelling t, special_argument) h

  arguments_again :
      (as' : List Argument)
      → ArePortable as'
      → (t : Items N) × (parse_arguments n true as' ≡ ok t) × (arguments n t ≡ ok as')
  unfolding parse_arguments arguments wrap_argument
  arguments_again [] h = (end, refl, refl)
  arguments_again (a ∷ as') h =
      let (t, v, shown, typed) = shown_again a h.0 in
      let (rest, parsed, meant) = arguments_again as' h.1 in
      (
        item (table (item (string (spelling t)) (item v end))) rest,
        rw (shown, parsed),
        rw (special_again t v a typed, meant),
      )

  packet_with-wrong :
      (inner : Result Elements) (start : Value N) (rest : Items N) (e e' : Error) (r : Received)
      → packet_with n inner start rest e ≡ ok r
      → packet_with n inner start rest e' ≡ ok r
  unfolding packet_with
  packet_with-wrong inner start rest e e' r = go (as_number n start) (as_string n start)
    where
      go :
          (x : Option N) (o : Option Bytes)
          → packet_by n inner rest e x o ≡ ok r
          → packet_by n inner rest e' x o ≡ ok r
      go (some tag) o h = unfold packet_by in h
      go none (some a) h = h
      go none none h = cc

  element_again :
      (t rest : Items N) (r : Received) (es : Elements)
      → meaning n t ≡ ok r
      → elements_of n rest ≡ ok es
      → elements_of n (item (table t) rest) ≡ ok (element r es)
  unfolding meaning elements_of
  element_again end rest r es h k = cc
  element_again (item start inner) rest r es h k =
      rw (packet_with-wrong (elements_of n inner) start inner bad_first bad_nested r h, k)

  mutual
    unfolding from_received parse_osc_message meaning elements_of packet_with message_of
        arguments_of as_number as_string first

    pub again :
        (r : Received)
        → IsPortable n r
        → (t : Items N) × (from_received n true r ≡ ok t) × (meaning n t ≡ ok r)
    again (message a as') h =
        let (t, parsed, meant) = arguments_again as' h.3 in
        (
          item (string a) (item (table t) end),
          rw parsed,
          rw (h.2) (rw (copy_512-NoZero a h.0 h.1) (rw meant)),
        )
    again (bundle t es) h =
        let (ts, parsed, meant) = all_again es h.1 in
        (item (number (n.of_uint64 t)) ts, rw parsed, rw (lossless.uint64_back t h.0) (rw meant))
    again (throwing_message e) h = absurd h
    again (throwing_bundle e) h = absurd h
    again undefined_reading h = absurd h

    pub all_again :
        (es : Elements)
        → AllPortable n es
        → (t : Items N) × (from_elements n true es ≡ ok t) × (elements_of n t ≡ ok es)
    all_again no_more h = (end, refl, refl)
    all_again (element r es) h =
        let (t, parsed, meant) = again r h.0 in
        let (ts, parsed', meant') = all_again es h.1 in
        (item (table t) ts, rw (parsed, parsed'), element_again t ts r es meant meant')
