-- ===== src/Packet/ReadBack.antt =====
-- What oscpack_1_1_0/osc writes for osclua/osclua.cpp, read back by it.
use lua2sc.Prelude.{
  ℕ, suc, ◌%◌, ◌^◌, ◌≤◌, ◌<◌, ◌≡◌, refl, ap, ◌∙◌, arith, List, [], ◌∷◌, true, false, length,
  if◌then◌else◌, ◌==◌, ne→==,
}
use lua2sc.Osc.Value.{Result, ok, thrown, malformed_packet, Numbers, Items, table}
use lua2sc.Osc.Pack.{
  Argument, Received, Elements, message, bundle, throwing_message, throwing_bundle,
  undefined_reading, no_more, element,
}
use lua2sc.Osc.Encode.{to_osc}
use lua2sc.Osc.Decode.{decode}
use lua2sc.Osc.Meaning.{flatten}
use lua2sc.Osc.Writes.{write_all}
use lua2sc.Osc.Portable.{IsLossless, IsPortable}
use lua2sc.Osc.RoundTrip.{to_osc-decode}
use lua2sc.Packet.Outbound.{Outbound, outbound}
use lua2sc.Packet.Memory.{is_valid_size, is_multiple_of_4}
use lua2sc.Packet.Bundle.{receive, received_at}
use lua2sc.Packet.Layout.{layout, layout_elements, length-padded}
use lua2sc.Packet.Step.{IsWritten}
use lua2sc.Packet.Written.Message.{AreWritten, length-message_bytes}
use lua2sc.Packet.Written.Bundle.{IsWritable, AreWritable, length-bundle_layout, write_all_iff}
use lua2sc.Packet.Read.Argument.{IsEncodable}
use lua2sc.Packet.Read.Message.{AreEncodable}
use lua2sc.Packet.Read.Whole.{is_valid_size-small, is_multiple_of_4-aligned}
use lua2sc.Packet.Read.Readable.{IsReadable, AreReadable, layout-aligned}
use lua2sc.Packet.Read.Packets.{received_at-layout}
use lua2sc.Packet.Wire.{oscpack, output_buffer_size}

layout-positive : (r : Received) → IsReadable r → 0 < length (layout r)
layout-positive (message a as') e = omega (arith, length-message_bytes a as', length-padded a)
layout-positive (bundle t es) e = omega (arith, length-bundle_layout t (layout_elements es))
layout-positive (throwing_message x) e = elim e [ ]
layout-positive (throwing_bundle x) e = elim e [ ]
layout-positive undefined_reading e = elim e [ ]

-- The readers recover a message or a bundle from its layout, if its texts have no zeros, its integers
-- are in the range of their types, no argument is an unknown one, its arrays are closed as often as
-- opened as far as the readers count, no address begins with `#` and the layout has less than 2 ^ 31
-- bytes.
pub receive-layout :
    (r : Received) → IsReadable r → length (layout r) < 2 ^ 31 → receive (layout r) ≡ ok r
unfolding receive
receive-layout r e small =
    let n = length (layout r) in
    let exact : n % 2 ^ 32 ≡ n = omega (arith, small) in
    let not_empty : (n == 0) ≡ false = ne→== n 0 (λ z. omega (arith, z, layout-positive r e)) in
    let shown : ℕ → Result Received = λ size. ok (received_at (suc n) (layout r) 0 size) in
    let checks : ℕ → Result Received = λ size.
      if is_valid_size size
      then if size == 0
        then thrown malformed_packet
        else if is_multiple_of_4 size
        then shown size
        else thrown malformed_packet
      else thrown malformed_packet in
    ap checks exact
    ∙ ap
        (λ b.
          if b
          then if n == 0
            then thrown malformed_packet
            else if is_multiple_of_4 n
            then shown n
            else thrown malformed_packet
          else thrown malformed_packet)
        (is_valid_size-small n small (layout-aligned r))
    ∙ ap
        (λ b.
          if b
          then thrown malformed_packet
          else if is_multiple_of_4 n
          then shown n
          else thrown malformed_packet)
        not_empty
    ∙ ap (λ b. if b then shown n else thrown malformed_packet)
        (is_multiple_of_4-aligned n (layout-aligned r))
    ∙ ap ok (received_at-layout r e small)

IsEncodable-IsWritten : (a : Argument) → IsEncodable a → IsWritten a
IsEncodable-IsWritten (Argument.unknown x) e = e
IsEncodable-IsWritten (Argument.int32 x) e = tt
IsEncodable-IsWritten (Argument.int64 x) e = tt
IsEncodable-IsWritten (Argument.float x) e = tt
IsEncodable-IsWritten (Argument.double x) e = tt
IsEncodable-IsWritten (Argument.char x) e = tt
IsEncodable-IsWritten (Argument.rgba_color x) e = tt
IsEncodable-IsWritten (Argument.midi_message x) e = tt
IsEncodable-IsWritten (Argument.time_tag x) e = tt
IsEncodable-IsWritten (Argument.string x) e = tt
IsEncodable-IsWritten (Argument.symbol x) e = tt
IsEncodable-IsWritten (Argument.blob x) e = tt
IsEncodable-IsWritten (Argument.boolean x) e = tt
IsEncodable-IsWritten Argument.nil e = tt
IsEncodable-IsWritten Argument.infinitum e = tt
IsEncodable-IsWritten Argument.array_begin e = tt
IsEncodable-IsWritten Argument.array_end e = tt

AreEncodable-AreWritten : (as' : List Argument) → AreEncodable as' → AreWritten as'
AreEncodable-AreWritten [] e = tt
AreEncodable-AreWritten (a ∷ as') e = (IsEncodable-IsWritten a e.0, AreEncodable-AreWritten as' e.1)

AreReadable-AreWritable : (es : Elements) → AreReadable es → AreWritable es
AreReadable-AreWritable no_more e = tt
AreReadable-AreWritable (element (message a as') es) e =
    (AreEncodable-AreWritten as' e.0.2, AreReadable-AreWritable es e.1)
AreReadable-AreWritable (element (bundle t es') es) e =
    (AreReadable-AreWritable es' e.0.1, AreReadable-AreWritable es e.1)
AreReadable-AreWritable (element (throwing_message x) es) e = elim e.0 [ ]
AreReadable-AreWritable (element (throwing_bundle x) es) e = elim e.0 [ ]
AreReadable-AreWritable (element undefined_reading es) e = elim e.0 [ ]

IsReadable-IsWritable : (r : Received) → IsReadable r → IsWritable r
IsReadable-IsWritable (message a as') e = AreEncodable-AreWritten as' e.2
IsReadable-IsWritable (bundle t es) e = AreReadable-AreWritable es e.1
IsReadable-IsWritable (throwing_message x) e = elim e [ ]
IsReadable-IsWritable (throwing_bundle x) e = elim e [ ]
IsReadable-IsWritable undefined_reading e = elim e [ ]

-- A packet that can be read back and whose layout fits into a buffer of less than 2 ^ 31 bytes is
-- written there, and the readers recover it from the bytes of the stream.
pub receive-write_all :
    (c : ℕ) (r : Received)
    → c < 2 ^ 31
    → IsReadable r
    → length (layout r) ≤ c
    → (s : Outbound) × (write_all (oscpack c) (flatten r) (outbound c) ≡ ok s)
      × (receive s.body ≡ ok r)
receive-write_all c r bounded e fits =
    let s : Outbound = record (outbound c) { body = layout r; cursor = length (layout r) } in
    (
      s,
      (write_all_iff c r s (omega (arith, bounded))).1 (IsReadable-IsWritable r e, fits, refl),
      receive-layout r e (omega (arith, bounded, fits)),
    )

module _ (n : Numbers) where
  open n use {N}

  -- Where the conversions are lossless, `fromOSC` with full types and oscpack decodes the layout of a
  -- packet that is portable, can be read back and has at most 65535 bytes into a table, and `toOSC`
  -- packs that table to the same bytes.
  pub to_osc-layout :
      (r : Received)
      → IsLossless n
      → IsPortable n r
      → IsReadable r
      → length (layout r) ≤ 65535
      → (t : Items N) × (decode n (oscpack output_buffer_size) true (layout r) ≡ ok (table t))
        × (to_osc n (oscpack output_buffer_size) (table t) ≡ ok (layout r))
  to_osc-layout r lossless portable e fits =
      let c = output_buffer_size in
      let s : Outbound = record (outbound c) { body = layout r; cursor = length (layout r) } in
      to_osc-decode n (oscpack c) r s lossless portable
        ((write_all_iff c r s (omega arith)).1 (IsReadable-IsWritable r e, fits, refl))
        (receive-layout r e (omega (arith, fits)))
