-- ===== src/Packet/Arguments.antt =====
-- The overloads of `<<` for arguments in oscpack_1_1_0/osc/OscOutboundPacketStream.cpp. A C string is
-- the list of its bytes before the zero that ends it; a `char` is its 8-bit pattern.
use lua2sc.Prelude.{ℕ, ◌+◌, ◌-◌, ◌^◌, [], ◌∷◌, ◌++◌, Bool, length, if◌then◌else◌, ltb}
use lua2sc.Osc.Value.{Bytes, Result, undefined}
use lua2sc.Osc.Pack.{Argument}
use lua2sc.Packet.Order.{from_uint32, from_int32, from_uint64, from_int64, round_up4, padding}
use lua2sc.Packet.Outbound.{Outbound, argument_space, with_space}

-- `TypeTagValues` of OscTypes.h.
abbrev pub true_tag : ℕ
true_tag = b'T'

abbrev pub false_tag : ℕ
false_tag = b'F'

abbrev pub nil_tag : ℕ
nil_tag = b'N'

abbrev pub infinitum_tag : ℕ
infinitum_tag = b'I'

abbrev pub int32_tag : ℕ
int32_tag = b'i'

abbrev pub float_tag : ℕ
float_tag = b'f'

abbrev pub char_tag : ℕ
char_tag = b'c'

abbrev pub rgba_color_tag : ℕ
rgba_color_tag = b'r'

abbrev pub midi_message_tag : ℕ
midi_message_tag = b'm'

abbrev pub int64_tag : ℕ
int64_tag = b'h'

abbrev pub time_tag_tag : ℕ
time_tag_tag = b't'

abbrev pub double_tag : ℕ
double_tag = b'd'

abbrev pub string_tag : ℕ
string_tag = b's'

abbrev pub symbol_tag : ℕ
symbol_tag = b'S'

abbrev pub blob_tag : ℕ
blob_tag = b'b'

abbrev pub array_begin_tag : ℕ
array_begin_tag = b'['

abbrev pub array_end_tag : ℕ
array_end_tag = b']'

-- `CheckForAvailableArgumentSpace`, a type tag, and bytes at `argumentCurrent_`.
unfoldable pub push_argument : ℕ → ℕ → Bytes → Outbound → Result Outbound
push_argument argument_length tag bytes s =
    with_space (argument_space argument_length s) s
      (record s { tags = tag ∷ s.tags; body = s.body ++ bytes })

-- A `char` converted to `int32`.
unfoldable pub char_to_int32 : ℕ → ℕ
char_to_int32 c = if ltb c (2 ^ 7) then c else 2 ^ 32 - 2 ^ 8 + c

-- `strcpy` and the zeros after it.
unfoldable pub string_bytes : Bytes → Bytes
string_bytes text = text ++ 0 ∷ padding (length text + 1)

unfoldable pub blob_bytes : Bytes → Bytes
blob_bytes content = from_uint32 (length content) ++ (content ++ padding (length content))

unfoldable pub put_bool : Bool → Outbound → Result Outbound
put_bool x = push_argument 0 (if x then true_tag else false_tag) []

unfoldable pub put_nil : Outbound → Result Outbound
put_nil = push_argument 0 nil_tag []

unfoldable pub put_infinitum : Outbound → Result Outbound
put_infinitum = push_argument 0 infinitum_tag []

unfoldable pub put_int32 : ℕ → Outbound → Result Outbound
put_int32 x = push_argument 4 int32_tag (from_int32 x)

unfoldable pub put_float : ℕ → Outbound → Result Outbound
put_float x = push_argument 4 float_tag (from_uint32 x)

unfoldable pub put_char : ℕ → Outbound → Result Outbound
put_char x = push_argument 4 char_tag (from_int32 (char_to_int32 x))

unfoldable pub put_rgba_color : ℕ → Outbound → Result Outbound
put_rgba_color x = push_argument 4 rgba_color_tag (from_uint32 x)

unfoldable pub put_midi_message : ℕ → Outbound → Result Outbound
put_midi_message x = push_argument 4 midi_message_tag (from_uint32 x)

unfoldable pub put_int64 : ℕ → Outbound → Result Outbound
put_int64 x = push_argument 8 int64_tag (from_int64 x)

unfoldable pub put_time_tag : ℕ → Outbound → Result Outbound
put_time_tag x = push_argument 8 time_tag_tag (from_uint64 x)

unfoldable pub put_double : ℕ → Outbound → Result Outbound
put_double x = push_argument 8 double_tag (from_uint64 x)

unfoldable pub put_string : Bytes → Outbound → Result Outbound
put_string x = push_argument (round_up4 (length x + 1)) string_tag (string_bytes x)

unfoldable pub put_symbol : Bytes → Outbound → Result Outbound
put_symbol x = push_argument (round_up4 (length x + 1)) symbol_tag (string_bytes x)

unfoldable pub put_blob : Bytes → Outbound → Result Outbound
put_blob x = push_argument (4 + round_up4 (length x)) blob_tag (blob_bytes x)

unfoldable pub put_array_begin : Outbound → Result Outbound
put_array_begin = push_argument 0 array_begin_tag []

unfoldable pub put_array_end : Outbound → Result Outbound
put_array_end = push_argument 0 array_end_tag []

-- The overload that an argument selects; nothing writes an unknown one.
unfoldable pub put_argument : Argument → Outbound → Result Outbound
put_argument (Argument.int32 x) = put_int32 x
put_argument (Argument.int64 x) = put_int64 x
put_argument (Argument.float x) = put_float x
put_argument (Argument.double x) = put_double x
put_argument (Argument.char x) = put_char x
put_argument (Argument.rgba_color x) = put_rgba_color x
put_argument (Argument.midi_message x) = put_midi_message x
put_argument (Argument.time_tag x) = put_time_tag x
put_argument (Argument.string x) = put_string x
put_argument (Argument.symbol x) = put_symbol x
put_argument (Argument.blob x) = put_blob x
put_argument (Argument.boolean x) = put_bool x
put_argument Argument.nil = put_nil
put_argument Argument.infinitum = put_infinitum
put_argument Argument.array_begin = put_array_begin
put_argument Argument.array_end = put_array_end
put_argument (Argument.unknown x) = λ s. undefined
