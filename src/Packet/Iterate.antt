-- ===== src/Packet/Iterate.antt =====
-- `ReceivedMessageArgument` and its iterator in oscpack_1_1_0/osc/OscReceivedElements.cpp, and the
-- arguments that osclua/osclua.cpp takes from them.
use lua2sc.Prelude.{
  ℕ, zero, suc, ◌+◌, ◌%◌, ◌^◌, List, [], ◌∷◌, Option, none, some, Bool, true, false, length, drop,
  if◌then◌else◌, ◌==◌,
}
use lua2sc.Osc.Value.{
  Bytes, malformed_message, missing_argument, wrong_argument_type, Result, ok, thrown, undefined,
  ◌>>=◌,
}
use lua2sc.Osc.Pack.{Argument}
use lua2sc.Packet.Order.{to_uint32, to_int32, to_uint64, to_int64, round_up4_uint32}
use lua2sc.Packet.Arguments.{
  true_tag, false_tag, nil_tag, infinitum_tag, int32_tag, float_tag, char_tag, rgba_color_tag,
  midi_message_tag, int64_tag, time_tag_tag, double_tag, string_tag, symbol_tag, blob_tag,
  array_begin_tag, array_end_tag,
}
use lua2sc.Packet.Memory.{byte_at, find_str4_end, c_string_at, bytes_at, is_valid_size}
use lua2sc.Packet.Message.{TagKind, four_bytes, eight_bytes, text, sized, other, tag_kind, TypeTags}

-- `ReceivedMessageArgument`, which is also the iterator: `typeTagPtr_`, `none` for null, and
-- `argumentPtr_`.
pub record Cursor : Type 0 where
  pub type_tag : Option ℕ
  pub argument : ℕ

-- `TypeTag`
unfoldable pub type_tag_at : Bytes → Cursor → Result ℕ
type_tag_at m a = elim a.type_tag [ none ↦ undefined | some q ↦ byte_at m q ]

-- The tests of the type tag that the checked readers make, before they read.
unfoldable pub checked {ℓ} : {A : Type ℓ} → Bytes → Cursor → ℕ → Result A → Result A
checked m a expected read = elim a.type_tag [
  | none ↦ thrown missing_argument
  | some q ↦ (do t ← byte_at m q; if t == expected then read else thrown wrong_argument_type)
]

unfoldable pub as_bool : Bytes → Cursor → Result Bool
as_bool m a = elim a.type_tag [
  | none ↦ thrown missing_argument
  | some q ↦ (do
    t ← byte_at m q
    if t == true_tag
        then ok true
        else if t == false_tag
        then ok false
        else thrown wrong_argument_type)
]

unfoldable pub as_int32 : Bytes → Cursor → Result ℕ
as_int32 m a = checked m a int32_tag (to_int32 (drop a.argument m))

unfoldable pub as_float : Bytes → Cursor → Result ℕ
as_float m a = checked m a float_tag (to_uint32 (drop a.argument m))

-- `(char)ToInt32( argumentPtr_ )`
unfoldable pub as_char : Bytes → Cursor → Result ℕ
as_char m a = checked m a char_tag (do x ← to_int32 (drop a.argument m); ok (x % 2 ^ 8))

unfoldable pub as_rgba_color : Bytes → Cursor → Result ℕ
as_rgba_color m a = checked m a rgba_color_tag (to_uint32 (drop a.argument m))

unfoldable pub as_midi_message : Bytes → Cursor → Result ℕ
as_midi_message m a = checked m a midi_message_tag (to_uint32 (drop a.argument m))

unfoldable pub as_int64 : Bytes → Cursor → Result ℕ
as_int64 m a = checked m a int64_tag (to_int64 (drop a.argument m))

unfoldable pub as_time_tag : Bytes → Cursor → Result ℕ
as_time_tag m a = checked m a time_tag_tag (to_uint64 (drop a.argument m))

unfoldable pub as_double : Bytes → Cursor → Result ℕ
as_double m a = checked m a double_tag (to_uint64 (drop a.argument m))

-- The pointers to a text.
unfoldable pub as_string : Bytes → Cursor → Result ℕ
as_string m a = checked m a string_tag (ok a.argument)

unfoldable pub as_symbol : Bytes → Cursor → Result ℕ
as_symbol m a = checked m a symbol_tag (ok a.argument)

-- The pointer to a blob's bytes, and their number.
unfoldable pub as_blob_unchecked : Bytes → Cursor → Result (ℕ × ℕ)
as_blob_unchecked m a = do
  size ← to_uint32 (drop a.argument m)
  if is_valid_size size then ok (a.argument + 4, size) else thrown malformed_message

unfoldable pub as_blob : Bytes → Cursor → Result (ℕ × ℕ)
as_blob m a = checked m a blob_tag (as_blob_unchecked m a)

-- Where `Advance` leaves `argumentPtr_`.
unfoldable pub advance_argument : Bytes → TagKind → ℕ → Result ℕ
advance_argument m four_bytes argument = ok (argument + 4)
advance_argument m eight_bytes argument = ok (argument + 8)
advance_argument m text argument = find_str4_end m argument
advance_argument m sized argument = do
  blob_size ← to_uint32 (drop argument m)
  ok (argument + 4 + round_up4_uint32 blob_size)
advance_argument m _ argument = ok argument

-- `Advance`, which stays at the end of the tags and at an unknown tag.
unfoldable pub advance : Bytes → Cursor → Result Cursor
advance m a = elim a.type_tag [
  | none ↦ ok a
  | some q ↦ (do
    t ← byte_at m q
    argument ← advance_argument m (tag_kind t) a.argument
    ok (record {
      type_tag = elim (tag_kind t) [ other ↦ some q | _ ↦ some (q + 1) ];
      argument = argument;
    }))
]

-- The text and the blob that osclua/osclua.cpp copies.
unfoldable pub text_argument : Bytes → Result ℕ → Result Bytes
text_argument m pointer = do p ← pointer; c_string_at (drop p m)

unfoldable pub blob_argument : Bytes → Cursor → Result Bytes
blob_argument m a = do (p, size) ← as_blob m a; bytes_at m p size

-- The reader that the switch of `parseOSCMessage` calls for a type tag.
unfoldable pub argument_of_tag : ℕ → Bytes → Cursor → Result Argument
argument_of_tag t m a =
    if t == int64_tag
    then (do x ← as_int64 m a; ok (Argument.int64 x))
    else if t == true_tag
    then ok (Argument.boolean true)
    else if t == false_tag
    then ok (Argument.boolean false)
    else if t == nil_tag
    then ok Argument.nil
    else if t == infinitum_tag
    then ok Argument.infinitum
    else if t == int32_tag
    then (do x ← as_int32 m a; ok (Argument.int32 x))
    else if t == float_tag
    then (do x ← as_float m a; ok (Argument.float x))
    else if t == double_tag
    then (do x ← as_double m a; ok (Argument.double x))
    else if t == char_tag
    then (do x ← as_char m a; ok (Argument.char x))
    else if t == rgba_color_tag
    then (do x ← as_rgba_color m a; ok (Argument.rgba_color x))
    else if t == midi_message_tag
    then (do x ← as_midi_message m a; ok (Argument.midi_message x))
    else if t == time_tag_tag
    then (do x ← as_time_tag m a; ok (Argument.time_tag x))
    else if t == string_tag
    then (do x ← text_argument m (as_string m a); ok (Argument.string x))
    else if t == symbol_tag
    then (do x ← text_argument m (as_symbol m a); ok (Argument.symbol x))
    else if t == blob_tag
    then (do x ← blob_argument m a; ok (Argument.blob x))
    else if t == array_begin_tag
    then ok Argument.array_begin
    else if t == array_end_tag
    then ok Argument.array_end
    else ok (Argument.unknown t)

unfoldable pub read_argument : Bytes → Cursor → Result Argument
read_argument m a = do t ← type_tag_at m a; argument_of_tag t m a

-- Iterators are equal when they point to the same tag.
unfoldable pub at_end : Cursor → ℕ → Bool
at_end a tags_end = elim a.type_tag [ none ↦ false | some q ↦ q == tags_end ]

-- The arguments from an iterator on to `ArgumentsEnd()`, with `fuel` rounds to go.
unfoldable pub read_arguments : ℕ → Bytes → Cursor → ℕ → Result (List Argument)
read_arguments zero m a tags_end = undefined
read_arguments (suc fuel) m a tags_end = elim (at_end a tags_end) [
  | true ↦ ok []
  | false ↦ (do
    x ← read_argument m a
    next ← advance m a
    rest ← read_arguments fuel m next tags_end
    ok (x ∷ rest))
]

-- All arguments of a message: `ArgumentsBegin()` to `ArgumentsEnd()`.
unfoldable pub all_arguments : Bytes → Option TypeTags → Result (List Argument)
all_arguments m none = ok []
all_arguments m (some tags) =
    read_arguments (length m) m
      (record { type_tag = some tags.tags_begin; argument = tags.arguments }) tags.tags_end
