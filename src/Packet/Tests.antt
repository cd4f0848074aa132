-- ===== src/Packet/Tests.antt =====
-- The writer and the readers of oscpack_1_1_0/osc on small packets.
use lua2sc.Packet.Outbound.{
  argument_space, bundle_space, size, slot_required, begin_element, with_space, Outbound, outbound,
}
use lua2sc.Packet.Bundle.{receive}
use lua2sc.Packet.Read.{At-start}
use lua2sc.Packet.Read.Text.{find_str4_end_bounded-padded}
use lua2sc.Packet.Message.{
  init_message, TypeTags, init_tags, init_arguments, check_tags, check_argument, tag_kind,
  check_text,
}
use lua2sc.Packet.Bundle.{read_message}
use lua2sc.Packet.Memory.{is_valid_size, is_multiple_of_4, scan_bounded}
use lua2sc.Packet.Arguments.{blob_tag}
use lua2sc.Packet.Linked.Reach.{Reach, start, wrote, Reach-put}
use lua2sc.Packet.Accepted.Init.{NoBlobTag}
use lua2sc.Packet.Accepted.Bundle.{SizeSlot, of_bundle, behind, NoWrap}
use lua2sc.Packet.Endless.{decode-endless}
use lua2sc.Packet.Bundle.{check_elements}
use lua2sc.Packet.Order.{to_uint32}
use lua2sc.Packet.Write.{bundle_bytes}
use lua2sc.Packet.Lacks.{lacks-byte_at, lacks-drop, front-byte_at, rest-byte_at, to_uint32-length}
use lua2sc.Packet.Accepted.Decoded.{decode_answers}
use lua2sc.Packet.Accepted.Whole.{NoBlobs, read_message-accepted}
use lua2sc.Osc.Pack.{begin_bundle, end_bundle}
use lua2sc.Osc.Value.{bytes_eq, Exception, thrown}
use lua2sc.Packet.Oversized.{size_only, found, decode-size_only}
use lua2sc.Packet.Bounded.{IsBounded, put-IsBounded, write_all-IsBounded}
use lua2sc.Packet.Arguments.{put_argument, put_int32, push_argument}
use lua2sc.Osc.Encode.{write_item}
use lua2sc.Packet.Memory.{find_str4_end_bounded}
use lua2sc.Prelude.{
  drop, ◌++◌, length-drop, inl, inr, sym, ap, ◌∙◌, zero, suc, take, ◌≢◌, List, false, ◌⊎◌, some,
  refl, ℕ, ◌≡◌, ◌≤◌, ◌↔◌, arith, [], ◌∷◌, true, length,
}
use lua2sc.Osc.Value.{undefined, Bytes, ok, Items, number, string, table, end, item}
use lua2sc.Osc.Pack.{argument, Argument, Received, message, bundle, no_more, element}
use lua2sc.Osc.TypeName.{codes}
use lua2sc.Osc.Meaning.{flatten, meaning}
use lua2sc.Osc.Encode.{to_osc}
use lua2sc.Osc.Writes.{write_all}
use lua2sc.Osc.Tests.{whole, whole-IsLossless}
use lua2sc.Osc.Decode.{decode}
use lua2sc.Osc.Portable.{IsPortable}
use lua2sc.Packet.Order.{pad_loop, native_uint32, from_uint64, from_uint32, from_int32}
use lua2sc.Packet.Encoded.{pad_loop-zeros}
use lua2sc.Packet.Read.Readable.{IsReadable}
use lua2sc.Packet.ReadBack.{receive-layout, receive-write_all, to_osc-layout}
use lua2sc.Packet.Write.{put, put_begin_bundle, outside_message, bundle_begun, tag_slot}
use lua2sc.Packet.Layout.{padded, tag_slot-padded}
use lua2sc.Packet.Wire.{oscpack, output_buffer_size}
use lua2sc.Packet.Layout.{layout}
use lua2sc.Packet.Written.Bundle.{IsWritable, write_all_iff}
use lua2sc.Packet.Packed.{to_osc_iff}

-- A bundle with the time tag 1, and in it the message "/ab" with the number 7.
abbrev numbered_table : Items ℕ
numbered_table =
    item (number 1)
      (item (table (item (string (codes "/ab")) (item (table (item (number 7) end)) end))) end)

abbrev numbered : Received
numbered = bundle 1 (element (message (codes "/ab") (Argument.int32 7 ∷ [])) no_more)

abbrev numbered_bytes : Bytes
numbered_bytes =
    b'#' ∷ b'b' ∷ b'u' ∷ b'n' ∷ b'd' ∷ b'l' ∷ b'e' ∷ 0 ∷ 0 ∷ 0 ∷ 0 ∷ 0 ∷ 0 ∷ 0 ∷ 0 ∷ 1 ∷ 0 ∷ 0 ∷ 0
    ∷ 12 ∷ b'/' ∷ b'a' ∷ b'b' ∷ 0 ∷ b',' ∷ b'i' ∷ 0 ∷ 0 ∷ 0 ∷ 0 ∷ 0 ∷ 7 ∷ []

to_osc_iff_example :
    (to_osc whole (oscpack output_buffer_size) (table numbered_table) ≡ ok numbered_bytes) ↔ (
      (r : Received) × (meaning whole numbered_table ≡ ok r)
      × (length (layout r) ≤ 65535)
      × (numbered_bytes ≡ layout r))
to_osc_iff_example = to_osc_iff whole numbered_table numbered_bytes

-- A nested bundle with arguments of many types.
abbrev note : Received
note = message (codes "/s_new") (
    Argument.string (codes "sine")
    ∷ Argument.int32 4294967295
    ∷ Argument.boolean true
    ∷ Argument.double 77777777777777
    ∷ Argument.array_begin
    ∷ Argument.char 200
    ∷ Argument.blob (1 ∷ 2 ∷ 3 ∷ 0 ∷ 5 ∷ [])
    ∷ Argument.array_end
    ∷ [])

abbrev nested : Received
nested =
    bundle 1
      (element note (element (bundle 2 (element (message [] []) no_more)) (element note no_more)))

write_all_iff_example :
    (write_all (oscpack 512) (flatten nested) (outbound 512)
      ≡ ok (record (outbound 512) { body = layout nested; cursor = length (layout nested) }))
    ↔ (IsWritable nested
        × (length (layout nested) ≤ 512)
        × (record (outbound 512) { body = layout nested; cursor = length (layout nested) }
            ≡ record (outbound 512) { body = layout nested; cursor = length (layout nested) }))
write_all_iff_example =
    write_all_iff 512 nested
      (record (outbound 512) { body = layout nested; cursor = length (layout nested) })
      (omega arith)

numbered-IsReadable : IsReadable numbered
numbered-IsReadable = (
  omega arith,
  (((omega arith, (omega arith, (omega arith, tt))), omega arith, (omega arith, tt), refl), tt),
)

numbered-IsPortable : IsPortable whole numbered
numbered-IsPortable = (
  omega arith,
  (((omega arith, (omega arith, (omega arith, tt))), omega arith, refl, (omega arith, tt)), tt),
)

length-numbered : length (layout numbered) ≡ 32
unfolding padded from_uint64 from_uint32 from_int32
length-numbered = refl

receive-layout_example : receive (layout numbered) ≡ ok numbered
receive-layout_example =
    receive-layout numbered numbered-IsReadable (omega (arith, length-numbered))

receive-write_all_example :
    (s : Outbound) × (write_all (oscpack 32) (flatten numbered) (outbound 32) ≡ ok s)
    × (receive s.body ≡ ok numbered)
receive-write_all_example =
    receive-write_all 32 numbered (omega arith) numbered-IsReadable (omega (arith, length-numbered))

to_osc-layout_example :
    (t : Items ℕ) × (decode whole (oscpack output_buffer_size) true (layout numbered)
      ≡ ok (table t))
    × (to_osc whole (oscpack output_buffer_size) (table t) ≡ ok (layout numbered))
to_osc-layout_example =
    to_osc-layout whole numbered whole-IsLossless numbered-IsPortable numbered-IsReadable
      (omega (arith, length-numbered))

pad_loop-zeros_example : pad_loop 7 5 ≡ 0 ∷ 0 ∷ 0 ∷ []
pad_loop-zeros_example = pad_loop-zeros 4 5

tag_slot-padded_example : tag_slot (b'f' ∷ b'i' ∷ []) ≡ b',' ∷ b'i' ∷ b'f' ∷ 0 ∷ []
unfolding padded
tag_slot-padded_example = tag_slot-padded (b'i' ∷ b'f' ∷ [])

find_str4_end_bounded-padded_example :
    find_str4_end_bounded (b'/' ∷ b'a' ∷ b'b' ∷ b'c' ∷ 0 ∷ 0 ∷ 0 ∷ 0 ∷ []) 0 8 ≡ ok (some 8)
unfolding padded
find_str4_end_bounded-padded_example =
    find_str4_end_bounded-padded (b'/' ∷ b'a' ∷ b'b' ∷ b'c' ∷ 0 ∷ 0 ∷ 0 ∷ 0 ∷ []) 0 8
      (b'/' ∷ b'a' ∷ b'b' ∷ b'c' ∷ []) (At-start (b'/' ∷ b'a' ∷ b'b' ∷ b'c' ∷ 0 ∷ 0 ∷ 0 ∷ 0 ∷ []))
      (omega arith, (omega arith, (omega arith, (omega arith, tt)))) (omega arith)

decode-size_only_example :
    (init_message (size_only 1) 0 12 ≡ ok found)
    × (decode whole (oscpack output_buffer_size) true (size_only 1) ≡ undefined)
unfolding from_uint32
decode-size_only_example = decode-size_only whole true 1 (omega arith) (omega arith)

-- An argument outside a message, which is accepted.
abbrev stray : Outbound
stray = record (outbound 32) { body = 0 ∷ 0 ∷ 0 ∷ 7 ∷ []; tags = b'i' ∷ [] }

stray_written : write_all (oscpack 32) (argument (Argument.int32 7) ∷ []) (outbound 32) ≡ ok stray
unfolding write_item put put_argument put_int32 push_argument argument_space with_space from_int32
    outbound
stray_written = refl

write_all-IsBounded_example : IsBounded stray
write_all-IsBounded_example =
    write_all-IsBounded 32 (argument (Argument.int32 7) ∷ []) stray stray_written

put-IsBounded_example : IsBounded stray
unfolding put put_argument put_int32 push_argument argument_space with_space from_int32 outbound
put-IsBounded_example =
    put-IsBounded (argument (Argument.int32 7)) (outbound 32) stray start stray_put
  where
    start : IsBounded (outbound 32)
    start = write_all-IsBounded 32 [] (outbound 32) refl

    stray_put : put (argument (Argument.int32 7)) (outbound 32) ≡ ok stray
    stray_put = refl

-- A bundle in a bundle, both of them open.
abbrev in_bundle : Outbound
in_bundle = record {
  capacity = 64;
  body =
      b'#' ∷ b'b' ∷ b'u' ∷ b'n' ∷ b'd' ∷ b'l' ∷ b'e' ∷ 0 ∷ 0 ∷ 0 ∷ 0 ∷ 0 ∷ 0 ∷ 0 ∷ 0 ∷ 1 ∷ 0 ∷ 0 ∷ 0
      ∷ 0 ∷ b'#' ∷ b'b' ∷ b'u' ∷ b'n' ∷ b'd' ∷ b'l' ∷ b'e' ∷ 0 ∷ 0 ∷ 0 ∷ 0 ∷ 0 ∷ 0 ∷ 0 ∷ 0 ∷ 2 ∷ [];
  tags = [];
  cursor = 36;
  element = some 16;
  in_message = false;
}

abbrev outer_bundle : Outbound
outer_bundle = record in_bundle { body = take 16 in_bundle.body; cursor = 16; element = some 0 }

outer_begun : put (begin_bundle 1) (outbound 64) ≡ ok outer_bundle
unfolding put put_begin_bundle outside_message with_space bundle_space size slot_required
    bundle_begun begin_element native_uint32 from_uint64 outbound
outer_begun = refl

inner_begun : put (begin_bundle 2) outer_bundle ≡ ok in_bundle
unfolding put put_begin_bundle outside_message with_space bundle_space size slot_required
    bundle_begun begin_element native_uint32 from_uint64
inner_begun = refl

in_bundle-Reach : Reach 64 in_bundle
in_bundle-Reach =
    wrote (begin_bundle 2) tt inner_begun (wrote (begin_bundle 1) tt outer_begun start)

Reach-put_example :
    ((t : Outbound) × (put end_bundle in_bundle ≡ ok t) × IsBounded t)
    ⊎ ((e : Exception) × (put end_bundle in_bundle ≡ thrown e))
Reach-put_example = Reach-put 64 in_bundle end_bundle (omega arith) in_bundle-Reach tt

-- A message with a string and a truth value.
abbrev text_message : Bytes
text_message = b'/' ∷ 0 ∷ 0 ∷ 0 ∷ b',' ∷ b's' ∷ b'T' ∷ 0 ∷ b'x' ∷ 0 ∷ 0 ∷ 0 ∷ []

abbrev text_tags : TypeTags
text_tags = record { tags_begin = 5; tags_end = 7; arguments = 8 }

text_message-accepted : init_message text_message 0 12 ≡ ok (some text_tags)
unfolding init_message is_valid_size is_multiple_of_4 find_str4_end_bounded scan_bounded init_tags
    init_arguments check_tags check_argument tag_kind check_text
text_message-accepted = refl

text_message-NoBlob : NoBlobs text_message (some text_tags)
text_message-NoBlob i from to = lacks-byte_at text_message blob_tag i refl

-- The sizes in the bundle: that of its message, and behind it the end of the packet.
first_size : (q size : ℕ) → q ≡ 16 → to_uint32 (drop q numbered_bytes) ≡ ok size → size ≡ 12
unfolding to_uint32
first_size q size same read =
    let twelve : ok 12 ≡ ok size = sym (ap (λ q. to_uint32 (drop q numbered_bytes)) same) ∙ read in
    cc

numbered_slots : (p : ℕ) → SizeSlot numbered_bytes p → (p ≡ 16) ⊎ (32 ≤ p)
unfolding bytes_eq
numbered_slots p (of_bundle zero e) = inl refl
numbered_slots p (of_bundle (suc q) e) =
    absurd (lacks-drop (drop 1 numbered_bytes) b'#' q (drop 1 bundle_bytes) refl e)
numbered_slots p (behind q size slot read) = elim (numbered_slots q slot) [
  | inl same ↦ inr (omega (arith, same, first_size q size same read))
  | inr beyond ↦ inr (omega (arith, beyond))
]

numbered-NoWrap : NoWrap numbered_bytes
numbered-NoWrap p size slot read fours = elim (numbered_slots p slot) [
  | inl same ↦ omega (arith, first_size p size same read)
  | inr beyond ↦ absurd (
      omega (
        arith,
        beyond,
        to_uint32-length (drop p numbered_bytes) size read,
        length-drop p numbered_bytes,
      ))
]

-- The only comma stands before the type tags, and no blob behind it.
numbered-NoBlobTag : NoBlobTag numbered_bytes
numbered-NoBlobTag comma i begins later quiet =
    let front = take 24 numbered_bytes in
    let rest = drop 24 numbered_bytes in
    let there : 24 ≤ comma = front-byte_at front rest b',' comma refl begins in
    rest-byte_at front rest blob_tag i refl (omega (arith, there, later))

decode_answers_example : decode whole (oscpack output_buffer_size) true numbered_bytes ≢ undefined
decode_answers_example =
    decode_answers whole true output_buffer_size numbered_bytes numbered-NoBlobTag numbered-NoWrap

-- A bundle that ends with the size of an element that is not there.
abbrev endless_rest : Bytes
endless_rest = 0 ∷ 0 ∷ 0 ∷ 0 ∷ 0 ∷ 0 ∷ 0 ∷ 1 ∷ 255 ∷ 255 ∷ 255 ∷ 252 ∷ []

decode-endless_example :
    ((fuel : ℕ) → check_elements fuel (bundle_bytes ++ endless_rest) 16 20 ≡ undefined)
    × (decode whole (oscpack output_buffer_size) false (bundle_bytes ++ endless_rest) ≡ undefined)
unfolding to_uint32
decode-endless_example =
    decode-endless whole output_buffer_size false endless_rest (omega arith) refl (omega arith) refl

read_message-accepted_example :
    (a : Bytes) × (as' : List Argument) × (read_message text_message 0 12 ≡ ok (message a as'))
read_message-accepted_example =
    read_message-accepted text_message 0 12 (some text_tags) (omega arith) text_message-accepted
      text_message-NoBlob
