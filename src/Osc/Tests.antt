-- ===== src/Osc/Tests.antt =====
-- osclua/osclua.cpp with a small packet library and whole numbers.
use lua2sc.Prelude.{
  ap, ◌%◌, ◌^◌, ℕ, ◌≡◌, ◌≢◌, ◌↔◌, refl, arith, List, [], ◌∷◌, ◌++◌, true, false, Option, none, some,
  ltb, ◌&&◌, ◌==◌, if◌then◌else◌,
}
use lua2sc.Osc.Value.{
  Value, Result, boolean, Bytes, Items, number, string, table, end, item, Numbers, malformed_packet,
  malformed_message, wrong_argument_type, ok, thrown, as_number, as_string,
}
use lua2sc.Osc.Pack.{
  Argument, Item, begin_bundle, end_bundle, begin_message, end_message, argument, Received,
  Elements, message, bundle, throwing_message, throwing_bundle, no_more, element, Oscpack,
}
use lua2sc.Osc.TypeName.{TypeName, codes}
use lua2sc.Osc.Encode.{to_osc, to_osc_stream, nested_with, nested_by, push_elements, write_item}
use lua2sc.Osc.Decode.{
  decode, from_osc, is_true, catch_packet, catch_message, from_packet, from_received,
  parse_osc_message, parse_arguments, shown_argument, wrap_argument,
}
use lua2sc.Osc.Shape.{IsPacketTable, decode-IsPacketTable}
use lua2sc.Osc.Arguments.{from_osc_lem}
use lua2sc.Osc.Meaning.{meaning, flatten}
use lua2sc.Osc.Writes.{write_all}
use lua2sc.Osc.Refinement.{to_osc_stream_iff}
use lua2sc.Osc.Portable.{IsLossless, IsPortable}
use lua2sc.Osc.RoundTrip.{to_osc-decode}
use lua2sc.Osc.Errors.{at_message, decode-Throws, to_osc-thrown, to_osc_stream-numeric_address}

-- A text is a number when its first byte is a digit, and its value is then that byte.
abbrev first_digit : Bytes → Option ℕ
first_digit [] = none
first_digit (c ∷ cs) = if ltb 47 c && ltb c 58 then some c else none

abbrev pub whole : Numbers
whole = record {
  N = ℕ;
  is_whole = λ x. true;
  to_int32 = λ x. some (x % 2 ^ 32);
  to_int64 = λ x. some (x % 2 ^ 64);
  to_uint64 = λ x. some (x % 2 ^ 64);
  to_char = λ x. some (x % 2 ^ 8);
  to_float = λ x. x % 2 ^ 32;
  to_double = λ x. x % 2 ^ 64;
  of_int32 = λ i. i;
  of_uint32 = λ i. i;
  of_int64 = λ i. i;
  of_uint64 = λ i. i;
  of_char = λ i. i;
  of_float = λ i. i;
  of_double = λ i. i;
  infinity = 0;
  text_number = first_digit;
  number_text = λ x. x ∷ [];
}

pub whole-IsLossless : IsLossless whole
whole-IsLossless = record {
  int32_back = λ i h. ap some (omega (arith, h));
  uint32_back = λ i h. ap some (omega (arith, h));
  int64_back = λ i h. ap some (omega (arith, h));
  uint64_back = λ i h. ap some (omega (arith, h));
  char_back = λ c h. ap some (omega (arith, h));
  float_back = λ f h _. omega (arith, h);
  double_back = λ x h _. omega (arith, h);
}

-- Packets of the small library: an address, a zero and the numbers of the message, or the byte of
-- `#`, a time tag and nothing more.
abbrev numbers_of : Bytes → List Argument
numbers_of [] = []
numbers_of (i ∷ is) = Argument.int32 i ∷ numbers_of is

abbrev message_from : Bytes → Bytes → Received
message_from address [] = throwing_message malformed_message
message_from address (b ∷ bs) =
    if b == 0 then message address (numbers_of bs) else message_from (address ++ b ∷ []) bs

abbrev bundle_from : Bytes → Received
bundle_from [] = throwing_bundle malformed_message
bundle_from (t ∷ []) = bundle t no_more
bundle_from (t ∷ b ∷ bs) = bundle t (element (throwing_message malformed_message) no_more)

abbrev receive_small : Bytes → Result Received
receive_small [] = thrown malformed_packet
receive_small (b ∷ bs) = ok (if b == 35 then bundle_from bs else message_from [] (b ∷ bs))

abbrev put_small : Item → Bytes → Result Bytes
put_small (begin_bundle t) s = ok (s ++ 35 ∷ t ∷ [])
put_small end_bundle s = ok s
put_small (begin_message a) s = ok (s ++ a ++ 0 ∷ [])
put_small end_message s = ok s
put_small (argument (Argument.int32 i)) s = ok (s ++ i ∷ [])
put_small (argument _) s = thrown wrong_argument_type

abbrev small : Oscpack
small = record {
  Stream = Bytes;
  empty = [];
  put = put_small;
  contents = λ s. s;
  receive = receive_small;
}

-- The message `/a` with two numbers.
abbrev two_numbers : Received
two_numbers = message (codes "/a") (Argument.int32 5 ∷ Argument.int32 7 ∷ [])

abbrev two_numbers_packet : Bytes
two_numbers_packet = codes "/a" ++ 0 ∷ 5 ∷ 7 ∷ []

abbrev two_numbers_table : Items ℕ
two_numbers_table =
    item (string (codes "/a")) (item (table (item (number 5) (item (number 7) end))) end)

two_numbers-IsPortable : IsPortable whole two_numbers
two_numbers-IsPortable =
    ((omega arith, (omega arith, tt)), omega arith, refl, (omega arith, (omega arith, tt)))

two_numbers-write_all : write_all small (flatten two_numbers) [] ≡ ok two_numbers_packet
unfolding flatten write_item
two_numbers-write_all = refl

to_osc_stream_iff_example :
    (to_osc_stream whole small two_numbers_table ≡ ok two_numbers_packet) ↔ (
      (r : Received) × (meaning whole two_numbers_table ≡ ok r)
      × (write_all small (flatten r) [] ≡ ok two_numbers_packet))
to_osc_stream_iff_example = to_osc_stream_iff whole small two_numbers_table two_numbers_packet

to_osc-decode_example :
    (t : Items ℕ) × (decode whole small true two_numbers_packet ≡ ok (table t))
    × (to_osc whole small (table t) ≡ ok two_numbers_packet)
to_osc-decode_example =
    to_osc-decode whole small two_numbers two_numbers_packet whole-IsLossless two_numbers-IsPortable
      two_numbers-write_all refl

decode-Throws_example : decode whole small true (35 ∷ 1 ∷ 9 ∷ []) ≡ thrown malformed_message
decode-Throws_example =
    decode-Throws whole small true (35 ∷ 1 ∷ 9 ∷ []) 1 refl at_message not_a_packet
  where
    not_a_packet : malformed_message ≢ malformed_packet
    not_a_packet e = cc

numeric_address_written :
    to_osc_stream whole small (item (string (codes "12")) end) ≡ ok (35 ∷ 49 ∷ [])
unfolding to_osc_stream nested_with nested_by as_number as_string push_elements write_item
numeric_address_written = refl

to_osc_stream-numeric_address_example :
    (t : ℕ) × (es : Elements) × (write_all small (flatten (bundle t es)) [] ≡ ok (35 ∷ 49 ∷ []))
to_osc_stream-numeric_address_example =
    to_osc_stream-numeric_address whole small (codes "12") 49 end (35 ∷ 49 ∷ []) refl
      numeric_address_written

-- The small library refuses a truth value.
to_osc-thrown_example :
    to_osc whole small
      (table (item (string (codes "/a")) (item (table (item (boolean true) end)) end)))
    ≢ thrown wrong_argument_type
to_osc-thrown_example =
    to_osc-thrown whole small
      (table (item (string (codes "/a")) (item (table (item (boolean true) end)) end)))
      wrong_argument_type

from_osc_lem_example :
    (from_osc whole small (string two_numbers_packet ∷ [])
      ≡ decode whole small false two_numbers_packet)
    × (from_osc whole small (string two_numbers_packet ∷ boolean true ∷ [])
        ≡ decode whole small true two_numbers_packet)
    × (from_osc whole small (string two_numbers_packet ∷ boolean true ∷ string (codes "/b") ∷ [])
        ≡ decode whole small false (codes "/b"))
unfolding is_true as_string
from_osc_lem_example =
    from_osc_lem whole small (string two_numbers_packet) (boolean true) [] (string (codes "/b"))
      two_numbers_packet (codes "/b") refl refl

-- What `fromOSC` makes of the message, in the short form.
two_numbers-decode : decode whole small false two_numbers_packet ≡ ok (table two_numbers_table)
unfolding decode catch_packet catch_message from_packet from_received parse_osc_message
    parse_arguments shown_argument wrap_argument
two_numbers-decode = refl

decode-IsPacketTable_example :
    (t : Items ℕ) × (table two_numbers_table ≡ table t) × IsPacketTable false t
decode-IsPacketTable_example =
    decode-IsPacketTable whole small false two_numbers_packet (table two_numbers_table)
      two_numbers-decode
