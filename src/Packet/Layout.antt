-- ===== src/Packet/Layout.antt =====
-- The bytes of a packet as OSC 1.0 lays them out, apart from any buffer: the contract of the writer
-- in oscpack_1_1_0/osc/OscOutboundPacketStream.cpp.
use lua2sc.Prelude.{
  ℕ, suc, ◌+◌, ◌-◌, ◌%◌, ◌≡◌, refl, sym, ap, ◌∙◌, arith, List, [], ◌∷◌, ◌++◌, map, reverse,
  reverse-append, reverse-reverse, length, replicate, if◌then◌else◌, length-append,
  length-replicate,
}
use lua2sc.Osc.Value.{Bytes}
use lua2sc.Osc.Pack.{Argument, Received, Elements, message, bundle, no_more, element}
use lua2sc.Packet.Order.{from_uint32, from_int32, from_uint64, from_int64, round_up4}
use lua2sc.Packet.Arguments.{
  true_tag, false_tag, nil_tag, infinitum_tag, int32_tag, float_tag, char_tag, rgba_color_tag,
  midi_message_tag, int64_tag, time_tag_tag, double_tag, string_tag, symbol_tag, blob_tag,
  array_begin_tag, array_end_tag, char_to_int32, string_bytes, blob_bytes,
}
use lua2sc.Packet.Write.{bundle_bytes, tag_slot}
use lua2sc.Packet.Encoded.{padding-zeros}

-- A text with at least one zero after it, up to a multiple of four.
unfoldable pub padded : Bytes → Bytes
padded s = s ++ replicate (4 - length s % 4) 0

abbrev pub argument_tag : Argument → ℕ
argument_tag (Argument.int32 x) = int32_tag
argument_tag (Argument.int64 x) = int64_tag
argument_tag (Argument.float x) = float_tag
argument_tag (Argument.double x) = double_tag
argument_tag (Argument.char x) = char_tag
argument_tag (Argument.rgba_color x) = rgba_color_tag
argument_tag (Argument.midi_message x) = midi_message_tag
argument_tag (Argument.time_tag x) = time_tag_tag
argument_tag (Argument.string x) = string_tag
argument_tag (Argument.symbol x) = symbol_tag
argument_tag (Argument.blob x) = blob_tag
argument_tag (Argument.boolean b) = if b then true_tag else false_tag
argument_tag Argument.nil = nil_tag
argument_tag Argument.infinitum = infinitum_tag
argument_tag Argument.array_begin = array_begin_tag
argument_tag Argument.array_end = array_end_tag
argument_tag (Argument.unknown t) = t

abbrev pub argument_bytes : Argument → Bytes
argument_bytes (Argument.int32 x) = from_int32 x
argument_bytes (Argument.int64 x) = from_int64 x
argument_bytes (Argument.float x) = from_uint32 x
argument_bytes (Argument.double x) = from_uint64 x
argument_bytes (Argument.char x) = from_int32 (char_to_int32 x)
argument_bytes (Argument.rgba_color x) = from_uint32 x
argument_bytes (Argument.midi_message x) = from_uint32 x
argument_bytes (Argument.time_tag x) = from_uint64 x
argument_bytes (Argument.string x) = padded x
argument_bytes (Argument.symbol x) = padded x
argument_bytes (Argument.blob x) = blob_bytes x
argument_bytes _ = []

abbrev pub arguments_bytes : List Argument → Bytes
arguments_bytes [] = []
arguments_bytes (a ∷ as') = argument_bytes a ++ arguments_bytes as'

abbrev pub message_bytes : Bytes → List Argument → Bytes
message_bytes a as' = padded a ++ (padded (b',' ∷ map argument_tag as') ++ arguments_bytes as')

-- An element has its size before it.
abbrev pub sized : Bytes → Bytes
sized x = from_uint32 (length x) ++ x

-- The element of a message or a bundle; what is not one has no bytes.
abbrev mutual
  pub layout_element : Received → Bytes
  layout_element (message a as') = sized (message_bytes a as')
  layout_element (bundle t es) = sized (bundle_bytes ++ (from_uint64 t ++ layout_elements es))
  layout_element _ = []

  pub layout_elements : Elements → Bytes
  layout_elements no_more = []
  layout_elements (element r es) = layout_element r ++ layout_elements es

abbrev pub layout : Received → Bytes
layout (message a as') = message_bytes a as'
layout (bundle t es) = bundle_bytes ++ (from_uint64 t ++ layout_elements es)
layout _ = []

replicate-suc : (n k : ℕ) → n ≡ suc k → replicate {A = ℕ} n 0 ≡ 0 ∷ replicate k 0
replicate-suc n k e = rw e

pub string_bytes-padded : (s : Bytes) → string_bytes s ≡ padded s
unfolding string_bytes padded
string_bytes-padded s =
    let n = length s in
    let count : 4 - n % 4 ≡ suc (round_up4 (n + 1) - (n + 1)) = omega arith in
    ap (λ z. s ++ z)
      (ap (λ z. 0 ∷ z) (padding-zeros (n + 1))
        ∙ sym (replicate-suc (4 - n % 4) (round_up4 (n + 1) - (n + 1)) count))

pub length-padded : (s : Bytes) → length (padded s) ≡ round_up4 (length s + 1)
unfolding padded
length-padded s =
    omega (arith, length-append s (replicate (4 - length s % 4) 0), zeros (4 - length s % 4))
  where
    zeros : (n : ℕ) → length (replicate {A = ℕ} n 0) ≡ n
    zeros n = length-replicate n 0

pub reverse-cons : (t : ℕ) (ts : Bytes) → reverse (t ∷ ts) ≡ reverse ts ++ t ∷ []
reverse-cons t ts = reverse-append (t ∷ []) ts

pub length-reverse : (ts : Bytes) → length (reverse ts) ≡ length ts
length-reverse [] = refl
length-reverse (t ∷ ts) =
    ap length (reverse-cons t ts)
    ∙ omega (arith, length-append (reverse ts) (t ∷ []), length-reverse ts)

pub slot_of : (us : Bytes) → tag_slot us ≡ padded (b',' ∷ reverse us)
unfolding tag_slot padded
slot_of [] = refl
slot_of (u ∷ us) =
    let n = length (u ∷ us) in
    let r : length (reverse (u ∷ us)) ≡ n = length-reverse (u ∷ us) in
    let count : round_up4 (n + 2) - (n + 1) ≡ 4 - length (b',' ∷ reverse (u ∷ us)) % 4 =
      omega (arith, r) in
    ap (λ k. b',' ∷ (reverse (u ∷ us) ++ replicate k 0)) count

-- The slot that the writer makes of the type tags it stacked is that of the tags in the order of the
-- arguments: a comma, the tags and zeros up to a multiple of four, at least one.
pub tag_slot-padded : (ts : Bytes) → tag_slot (reverse ts) ≡ padded (b',' ∷ ts)
tag_slot-padded ts = slot_of (reverse ts) ∙ ap (λ us. padded (b',' ∷ us)) (reverse-reverse ts)
