-- ===== src/Packet/Read/Readable.antt =====
-- The packets that oscpack_1_1_0/osc/OscReceivedElements.cpp recovers from their bytes, and the alignment of
-- their layout.
use lua2sc.Prelude.{◌+◌, ◌%◌, ◌^◌, ◌<◌, ◌≡◌, ◌≢◌, refl, arith, [], ◌∷◌, length, length-append}
use lua2sc.Osc.Value.{Bytes}
use lua2sc.Osc.Pack.{
  Received, Elements, message, bundle, throwing_message, throwing_bundle, undefined_reading,
  no_more, element,
}
use lua2sc.Osc.Portable.{NoZero}
use lua2sc.Packet.Order.{from_uint32}
use lua2sc.Packet.Encoded.{length-from_uint32}
use lua2sc.Packet.Layout.{message_bytes, sized, layout, layout_element, layout_elements}
use lua2sc.Packet.Written.Bundle.{bundle_layout, length-bundle_layout}
use lua2sc.Packet.Read.Message.{AreEncodable, levels, message_bytes-aligned}

-- The address of a message does not make it a bundle.
abbrev pub NotBundle : Bytes → Type 0
NotBundle [] = Unit {0}
NotBundle (c ∷ cs) = c ≢ b'#'

-- The packets that their bytes determine: texts without zeros, integers in range, arrays closed as
-- often as opened, no address with `#` at its start.
abbrev mutual
  pub IsReadable : Received → Type 0
  IsReadable (message a as') = NoZero a × NotBundle a × AreEncodable as' × (levels as' 0 ≡ 0)
  IsReadable (bundle t es) = (t < 2 ^ 64) × AreReadable es
  IsReadable _ = ⊥

  pub AreReadable : Elements → Type 0
  AreReadable no_more = Unit {0}
  AreReadable (element r es) = IsReadable r × AreReadable es

pub layout_element-sized : (r : Received) → IsReadable r → layout_element r ≡ sized (layout r)
layout_element-sized (message a as') e = refl
layout_element-sized (bundle t es) e = refl
layout_element-sized (throwing_message x) e = elim e [ ]
layout_element-sized (throwing_bundle x) e = elim e [ ]
layout_element-sized undefined_reading e = elim e [ ]

pub length-sized : (x : Bytes) → length (sized x) ≡ 4 + length x
length-sized x =
    omega (arith, length-append (from_uint32 (length x)) x, length-from_uint32 (length x))

pub elements-aligned : (es : Elements) → length (layout_elements es) % 4 ≡ 0
elements-aligned no_more = refl
elements-aligned (element (message a as') es) =
    let x = message_bytes a as' in
    omega (
      arith,
      length-append (sized x) (layout_elements es),
      length-sized x,
      message_bytes-aligned a as',
      elements-aligned es,
    )
elements-aligned (element (bundle t es') es) =
    let x = bundle_layout t (layout_elements es') in
    omega (
      arith,
      length-append (sized x) (layout_elements es),
      length-sized x,
      length-bundle_layout t (layout_elements es'),
      elements-aligned es',
      elements-aligned es,
    )
elements-aligned (element (throwing_message x) es) = elements-aligned es
elements-aligned (element (throwing_bundle x) es) = elements-aligned es
elements-aligned (element undefined_reading es) = elements-aligned es

pub layout-aligned : (r : Received) → length (layout r) % 4 ≡ 0
layout-aligned (message a as') = message_bytes-aligned a as'
layout-aligned (bundle t es) =
    omega (arith, length-bundle_layout t (layout_elements es), elements-aligned es)
layout-aligned (throwing_message x) = refl
layout-aligned (throwing_bundle x) = refl
layout-aligned undefined_reading = refl
