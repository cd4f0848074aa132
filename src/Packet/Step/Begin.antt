-- ===== src/Packet/Step/Begin.antt =====
-- The beginnings of messages and bundles in oscpack_1_1_0/osc/OscOutboundPacketStream.cpp.
use lua2sc.Prelude.{
  ℕ, ◌+◌, ◌≡◌, refl, ap, ◌∙◌, arith, List, [], ◌++◌, map, append_assoc, append-nil, Option, none,
  some, true, false, length, if◌then◌else◌, reverse,
}
use lua2sc.Osc.Value.{Bytes, Result}
use lua2sc.Osc.Pack.{Argument}
use lua2sc.Packet.Order.{from_uint64}
use lua2sc.Packet.Outbound.{Outbound, size, slot_required, bundle_space, message_space, with_space}
use lua2sc.Packet.Write.{
  outside_message, bundle_bytes, bundle_begun, put_begin_bundle, message_begun, put_begin_message,
}
use lua2sc.Packet.Layout.{padded, argument_tag, arguments_bytes, string_bytes-padded, length-padded}
use lua2sc.Packet.Grown.{open_slot, inner_element, IsResting, begin_element-IsResting}

abbrev pub slot_size : Option ℕ → ℕ
slot_size none = 0
slot_size (some n) = 4

slot_of : (s : Outbound) → (if slot_required s then 4 else 0) ≡ slot_size s.element
unfolding slot_required
slot_of s = go s.element refl
  where
    go : (e : Option ℕ) → s.element ≡ e → (if slot_required s then 4 else 0) ≡ slot_size e
    go none h = rw (slot_required, h)
    go (some n) h = rw (slot_required, h)

size-IsResting : (s : Outbound) → IsResting s → size s ≡ length s.body
unfolding size
size-IsResting s resting = rw resting.outside (omega arith)

-- The bytes of a message so far, above the stream at rest on which it began.
abbrev pub in_progress : Outbound → Bytes → List Argument → Outbound
in_progress s a as' =
    let start = s.body ++ (open_slot s.element ++ padded a) in
    record s {
      body = start ++ arguments_bytes as';
      tags = reverse (map argument_tag as');
      cursor = length start;
      element = inner_element s.element (length s.body);
      in_message = true;
    }

-- A stream at rest with more bytes.
abbrev pub with_more : Bytes → Outbound → Outbound
with_more x s = record s { body = s.body ++ x; cursor = length (s.body ++ x) }

pub outside_message-outside :
    (s : Outbound) (rest : Result Outbound) → s.in_message ≡ false → outside_message s rest ≡ rest
unfolding outside_message
outside_message-outside s rest h = rw h refl

message_begun-IsResting :
    (a : Bytes) (s : Outbound) → IsResting s → message_begun a s ≡ in_progress s a []
unfolding message_begun
message_begun-IsResting a s resting =
    rw (begin_element-IsResting s resting, string_bytes-padded a, append_assoc, append-nil)

message_space-IsResting :
    (a : Bytes) (s : Outbound)
    → IsResting s
    → message_space a s ≡ length s.body + slot_size s.element + length (padded a) + 4
unfolding message_space
message_space-IsResting a s resting =
    omega (arith, size-IsResting s resting, slot_of s, length-padded a)

pub put_begin_message-IsResting :
    (a : Bytes) (s : Outbound)
    → IsResting s
    → put_begin_message a s
      ≡ with_space
          (length s.body + slot_size s.element + length (padded a) + 4)
          s
          (in_progress s a [])
unfolding put_begin_message
put_begin_message-IsResting a s resting =
    outside_message-outside s (with_space (message_space a s) s (message_begun a s)) resting.outside
    ∙ ap (λ n. with_space n s (message_begun a s)) (message_space-IsResting a s resting)
    ∙ ap (λ d. with_space (length s.body + slot_size s.element + length (padded a) + 4) s d)
        (message_begun-IsResting a s resting)

abbrev pub bundle_started : ℕ → Outbound → Outbound
bundle_started t s =
    let body = s.body ++ (open_slot s.element ++ (bundle_bytes ++ from_uint64 t)) in
    record s {
      body = body;
      cursor = length body;
      element = inner_element s.element (length s.body);
    }

bundle_begun-IsResting :
    (t : ℕ) (s : Outbound) → IsResting s → bundle_begun t s ≡ bundle_started t s
unfolding bundle_begun
bundle_begun-IsResting t s resting = rw (begin_element-IsResting s resting, append_assoc)

bundle_space-IsResting :
    (s : Outbound) → IsResting s → bundle_space s ≡ length s.body + slot_size s.element + 16
unfolding bundle_space
bundle_space-IsResting s resting = omega (arith, size-IsResting s resting, slot_of s)

pub put_begin_bundle-IsResting :
    (t : ℕ) (s : Outbound)
    → IsResting s
    → put_begin_bundle t s
      ≡ with_space (length s.body + slot_size s.element + 16) s (bundle_started t s)
unfolding put_begin_bundle
put_begin_bundle-IsResting t s resting =
    outside_message-outside s (with_space (bundle_space s) s (bundle_begun t s)) resting.outside
    ∙ ap (λ n. with_space n s (bundle_begun t s)) (bundle_space-IsResting s resting)
    ∙ ap (with_space (length s.body + slot_size s.element + 16) s)
        (bundle_begun-IsResting t s resting)
