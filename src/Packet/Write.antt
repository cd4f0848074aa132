-- ===== src/Packet/Write.antt =====
-- The overloads of `<<` for bundles and messages in oscpack_1_1_0/osc/OscOutboundPacketStream.cpp.
use lua2sc.Prelude.{
  ℕ, ◌+◌, ◌-◌, [], ◌∷◌, ◌++◌, true, false, length, take, drop, replicate, reverse, if◌then◌else◌,
}
use lua2sc.Osc.Value.{
  Bytes, message_in_progress, message_not_in_progress, bundle_not_in_progress, Result, ok, thrown,
  ◌>>=◌,
}
use lua2sc.Osc.Pack.{Item, begin_bundle, end_bundle, begin_message, end_message, argument}
use lua2sc.Packet.Order.{from_uint64, round_up4}
use lua2sc.Packet.Outbound.{
  Outbound, slot_required, bundle_space, message_space, with_space, begin_element, end_element,
}
use lua2sc.Packet.Arguments.{put_argument, string_bytes}

-- `if( IsMessageInProgress() ) throw MessageInProgressException();`, then the rest of the call.
unfoldable pub outside_message : Outbound → Result Outbound → Result Outbound
outside_message s rest = if s.in_message then thrown message_in_progress else rest

-- "#bundle" and its zero.
abbrev pub bundle_bytes : Bytes
bundle_bytes = b'#' ∷ b'b' ∷ b'u' ∷ b'n' ∷ b'd' ∷ b'l' ∷ b'e' ∷ 0 ∷ []

-- What `BeginBundle` writes: an element with the pattern and the time tag.
unfoldable pub bundle_begun : ℕ → Outbound → Outbound
bundle_begun tag s =
    let (below, slot) = begin_element s in
    let body = below ++ (bundle_bytes ++ from_uint64 tag) in
    record s { body = body; cursor = length body; element = slot }

unfoldable pub put_begin_bundle : ℕ → Outbound → Result Outbound
put_begin_bundle tag s = outside_message s (with_space (bundle_space s) s (bundle_begun tag s))

unfoldable pub put_end_bundle : Outbound → Result Outbound
put_end_bundle s =
    if slot_required s then outside_message s (end_element s) else thrown bundle_not_in_progress

-- What `BeginMessage` writes: an element with the address.
unfoldable pub message_begun : Bytes → Outbound → Outbound
message_begun address s =
    let (below, slot) = begin_element s in
    let body = below ++ string_bytes address in
    record s { body = body; tags = []; cursor = length body; element = slot; in_message = true }

unfoldable pub put_begin_message : Bytes → Outbound → Result Outbound
put_begin_message address s =
    outside_message s (with_space (message_space address s) s (message_begun address s))

-- The slot of the type tags: a comma, the tags in the order of the arguments and zeros.
unfoldable pub tag_slot : Bytes → Bytes
tag_slot [] = b',' ∷ 0 ∷ 0 ∷ 0 ∷ []
tag_slot (tag ∷ tags) =
    let count = length (tag ∷ tags) in
    let slot_size = round_up4 (count + 2) in
    b',' ∷ (reverse (tag ∷ tags) ++ replicate (slot_size - (count + 1)) 0)

-- The memory that `memmove` moves; without type tags it is given up.
unfoldable pub moved_arguments : Bytes → Bytes → Bytes
moved_arguments [] arguments = []
moved_arguments (tag ∷ tags) arguments = arguments

-- The arguments move up to make room for the type tags.
unfoldable pub tags_moved : Outbound → Outbound
tags_moved s =
    let arguments = moved_arguments s.tags (drop s.cursor s.body) in
    let body = take s.cursor s.body ++ (tag_slot s.tags ++ arguments) in
    record s { body = body; tags = []; cursor = length body }

unfoldable pub put_end_message : Outbound → Result Outbound
put_end_message s = elim s.in_message [
  | false ↦ thrown message_not_in_progress
  | true ↦ (do s' ← end_element (tags_moved s); ok (record s' { in_message = false }))
]

-- `operator<<`
unfoldable pub put : Item → Outbound → Result Outbound
put (begin_bundle tag) s = put_begin_bundle tag s
put end_bundle s = put_end_bundle s
put (begin_message address) s = put_begin_message address s
put end_message s = put_end_message s
put (argument a) s = put_argument a s
