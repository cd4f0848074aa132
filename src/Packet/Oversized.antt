-- ===== src/Packet/Oversized.antt =====
-- A blob whose size runs past its packet, in oscpack_1_1_0/osc/OscReceivedElements.cpp.
use lua2sc.Prelude.{
  append-nil, Option, some, ℕ, ◌+◌, ◌^◌, ◌≤◌, ◌<◌, ◌≡◌, refl, sym, ap, ◌∙◌, arith, List, [], ◌∷◌,
  Bool, true, false, ◌&&◌, length, take, drop, ltb, leb, if◌then◌else◌,
}
use lua2sc.Osc.Value.{Bytes, Result, ok, thrown, undefined, malformed_message, ◌>>=◌, Numbers}
use lua2sc.Osc.Pack.{Argument, message, undefined_reading}
use lua2sc.Osc.Decode.{decode, from_packet, from_received, catch_packet, catch_message}
use lua2sc.Packet.Order.{from_uint32, to_uint32}
use lua2sc.Packet.Memory.{
  scan_bounded, find_str4_end_bounded, c_string_at, bytes_at, is_valid_size, is_multiple_of_4,
}
use lua2sc.Packet.Message.{
  TypeTags, tag_kind, check_blob, check_argument, check_tags, init_arguments, init_tags,
  init_message,
}
use lua2sc.Packet.Iterate.{
  Cursor, advance, type_tag_at, checked, as_blob_unchecked, as_blob, blob_argument, argument_of_tag,
  read_argument, at_end, read_arguments, all_arguments,
}
use lua2sc.Packet.Bundle.{is_bundle, shown_message, read_message, received_by, received_at, receive}
use lua2sc.Packet.Encoded.{to_uint32-from_uint32}
use lua2sc.Packet.Read.{bind-by}
use lua2sc.Packet.Wire.{oscpack, output_buffer_size}

-- The message "/b" with a blob of which only the size is there.
abbrev pub size_only : ℕ → Bytes
size_only z = b'/' ∷ b'b' ∷ 0 ∷ 0 ∷ b',' ∷ b'b' ∷ 0 ∷ 0 ∷ from_uint32 z

abbrev pub found : Option TypeTags
found = some (record { tags_begin = 5; tags_end = 6; arguments = 8 })

init_message-size_only : (z : ℕ) → init_message (size_only z) 0 12 ≡ ok found
unfolding init_message init_tags init_arguments check_tags check_argument check_blob tag_kind
    find_str4_end_bounded scan_bounded is_valid_size is_multiple_of_4 from_uint32 to_uint32
init_message-size_only z = refl

size_only-size : (z : ℕ) → z ≤ 0x7fff_fffc → to_uint32 (drop 8 (size_only z)) ≡ ok z
size_only-size z valid =
    ap to_uint32 (sym (append-nil (from_uint32 z)))
    ∙ to_uint32-from_uint32 z [] (omega (arith, valid))

abbrev at_blob : Cursor
at_blob = record { type_tag = some 5; argument = 8 }

abbrev pointer : ℕ → Result (ℕ × ℕ)
pointer size = if is_valid_size size then ok (12, size) else thrown malformed_message

abbrev copied : ℕ → ℕ × ℕ → Result Bytes
copied z x = bytes_at (size_only z) x.0 x.1

blob_argument-size_only :
    (z : ℕ) → 0 < z → z ≤ 0x7fff_fffc → blob_argument (size_only z) at_blob ≡ undefined
unfolding blob_argument as_blob checked as_blob_unchecked is_valid_size bytes_at from_uint32
blob_argument-size_only z positive valid =
    let test : (ltb z (2 ^ 31) && leb z 0x7fff_fffc) ≡ true = ground arith in
    let beyond : leb (12 + z) 12 ≡ false = ground arith in
    ap (λ s. s >>= pointer >>= copied z) (size_only-size z valid)
    ∙ ap (λ b. (if b then ok (12, z) else thrown malformed_message) >>= copied z) test
    ∙ ap (λ b. if b then ok (take z (drop 12 (size_only z))) else undefined) beyond

read_argument-size_only :
    (z : ℕ) → 0 < z → z ≤ 0x7fff_fffc → read_argument (size_only z) at_blob ≡ undefined
unfolding read_argument type_tag_at argument_of_tag
read_argument-size_only z positive valid =
    ap (λ x. x >>= λ b. ok (Argument.blob b)) (blob_argument-size_only z positive valid)

abbrev from_first : ℕ → Argument → Result (List Argument)
from_first z x = do
  next ← advance (size_only z) at_blob
  rest ← read_arguments 11 (size_only z) next 6
  ok (x ∷ rest)

all_arguments-size_only :
    (z : ℕ) → 0 < z → z ≤ 0x7fff_fffc → all_arguments (size_only z) found ≡ undefined
unfolding all_arguments read_arguments at_end from_uint32
all_arguments-size_only z positive valid =
    ap (λ x. x >>= from_first z) (read_argument-size_only z positive valid)

read_message-size_only :
    (z : ℕ) → 0 < z → z ≤ 0x7fff_fffc → read_message (size_only z) 0 12 ≡ undefined
unfolding read_message c_string_at
read_message-size_only z positive valid =
    bind-by
      (λ tags. c_string_at (size_only z) >>= λ a.
        all_arguments (size_only z) tags >>= λ as'. ok (message a as'))
      (init_message-size_only z)
    ∙ ap (λ x. x >>= λ as'. ok (message (b'/' ∷ b'b' ∷ []) as'))
        (all_arguments-size_only z positive valid)

receive-size_only : (z : ℕ) → 0 < z → z ≤ 0x7fff_fffc → receive (size_only z) ≡ ok undefined_reading
unfolding receive received_at received_by is_bundle is_valid_size is_multiple_of_4 shown_message
    from_uint32
receive-size_only z positive valid =
    ap (λ r. ok (shown_message r)) (read_message-size_only z positive valid)

-- A message whose blob is said to have from 1 to 2 ^ 31 - 4 bytes passes all checks when none of them
-- is there, and to decode it reads outside the packet.
pub decode-size_only :
    (n : Numbers) (full : Bool) (z : ℕ)
    → 0 < z
    → z ≤ 0x7fff_fffc
    → (init_message (size_only z) 0 (length (size_only z)) ≡ ok found)
      × (decode n (oscpack output_buffer_size) full (size_only z) ≡ undefined)
unfolding decode catch_packet from_packet from_received catch_message from_uint32
decode-size_only n full z positive valid =
    (init_message-size_only z, rw (receive-size_only z positive valid) refl)
