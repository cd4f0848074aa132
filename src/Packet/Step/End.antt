-- ===== src/Packet/Step/End.antt =====
-- The ends of messages and bundles in oscpack_1_1_0/osc/OscOutboundPacketStream.cpp.
use lua2sc.Prelude.{
  ℕ, suc, ◌+◌, ◌≡◌, refl, sym, ap, ◌∙◌, arith, List, [], ◌∷◌, ◌++◌, map, append_assoc, Option, none,
  some, true, false, length, length-append, take, drop, take-append, drop-append, reverse,
}
use lua2sc.Osc.Value.{Bytes, Result, ok, ◌>>=◌}
use lua2sc.Osc.Pack.{Argument}
use lua2sc.Packet.Order.{from_uint32, from_uint64}
use lua2sc.Packet.Outbound.{Outbound, is_some, slot_required, end_element}
use lua2sc.Packet.Write.{bundle_bytes, put_end_bundle, moved_arguments, tags_moved, put_end_message}
use lua2sc.Packet.Encoded.{length-native_uint32, length-from_uint32}
use lua2sc.Packet.Layout.{
  padded, argument_tag, arguments_bytes, message_bytes, length-reverse, tag_slot-padded,
}
use lua2sc.Packet.Grown.{open_slot, framed, inner_element, IsOpen, IsResting, end_element-lem}
use lua2sc.Packet.Step.Begin.{
  slot_size, in_progress, with_more, outside_message-outside, bundle_started,
}

-- The memory that moves is the arguments, of which there are none without type tags.
moved : (us xs : Bytes) → (us ≡ [] → xs ≡ []) → moved_arguments us xs ≡ xs
unfolding moved_arguments
moved [] xs h = sym (h refl)
moved (u ∷ us) xs h = refl

moved-arguments :
    (as' : List Argument)
    → moved_arguments (reverse (map argument_tag as')) (arguments_bytes as') ≡ arguments_bytes as'
moved-arguments [] = moved [] [] (λ e. refl)
moved-arguments (a ∷ as') =
    moved (reverse (map argument_tag (a ∷ as'))) (arguments_bytes (a ∷ as')) (λ e.
      let count : 0 ≡ suc (length (map argument_tag as')) =
        ap length (sym e) ∙ length-reverse (map argument_tag (a ∷ as')) in
      let absurd : ⊥ = omega (arith, count) in elim absurd [ ])

tags_moved-in_progress :
    (s : Outbound) (a : Bytes) (as' : List Argument)
    → tags_moved (in_progress s a as') ≡ (
        let body = s.body ++ (open_slot s.element ++ message_bytes a as') in
        record s {
          body = body;
          tags = [];
          cursor = length body;
          in_message = true;
          element = inner_element s.element (length s.body);
        })
unfolding tags_moved
tags_moved-in_progress s a as' =
    let start = s.body ++ (open_slot s.element ++ padded a) in
    let taken : take (length start) (start ++ arguments_bytes as') ≡ start =
      take-append start (arguments_bytes as') in
    let rest : drop (length start) (start ++ arguments_bytes as') ≡ arguments_bytes as' =
      drop-append start (arguments_bytes as') in
    rw (taken, rest, moved-arguments as', tag_slot-padded (map argument_tag as'))
      (rw (append_assoc, append_assoc) refl)

pub length-framed : (e : Option ℕ) (x : Bytes) → length (framed e x) ≡ slot_size e + length x
length-framed none x = omega arith
length-framed (some n) x =
    omega (arith, length-append (from_uint32 (length x)) x, length-from_uint32 (length x))

pub length-open_slot : (e : Option ℕ) → length (open_slot e) ≡ slot_size e
length-open_slot none = refl
length-open_slot (some n) = length-native_uint32 n

closed_length :
    (below : Bytes) (e : Option ℕ) (x : Bytes)
    → length (below ++ (open_slot e ++ x)) ≡ length (below ++ framed e x)
closed_length below e x = omega (
  arith,
  length-append below (open_slot e ++ x),
  length-append (open_slot e) x,
  length-append below (framed e x),
  length-framed e x,
  length-open_slot e,
)

settled :
    (s : Outbound) (x : Bytes) (c : ℕ)
    → IsResting s
    → c ≡ length (s.body ++ framed s.element x)
    → record s { body = s.body ++ framed s.element x; tags = []; cursor = c; in_message = false }
      ≡ with_more (framed s.element x) s
settled s x c resting h = rw (h, resting.no_tags, resting.outside) refl

pub put_end_message-in_progress :
    (s : Outbound) (a : Bytes) (as' : List Argument)
    → IsResting s
    → IsOpen s.element (length s.body)
    → put_end_message (in_progress s a as')
      ≡ ok (with_more (framed s.element (message_bytes a as')) s)
unfolding put_end_message
put_end_message-in_progress s a as' resting opened =
    let x = message_bytes a as' in
    let body = s.body ++ (open_slot s.element ++ x) in
    let moved_up : Outbound = record s {
      body = body;
      tags = [];
      cursor = length body;
      in_message = true;
      element = inner_element s.element (length s.body);
    } in
    let closed : Outbound → Result Outbound = λ s'. ok (record s' { in_message = false }) in
    ap (λ m. end_element m >>= closed) (tags_moved-in_progress s a as')
    ∙ ap (λ r. r >>= closed) (end_element-lem moved_up s.body s.element x refl refl refl opened)
    ∙ ap ok (settled s x (length body) resting (closed_length s.body s.element x))

inner_required : (e : Option ℕ) (n : ℕ) → is_some (inner_element e n) ≡ true
inner_required none n = refl
inner_required (some slot) n = refl

pub put_end_bundle-started :
    (s : Outbound) (t : ℕ) (x : Bytes)
    → IsResting s
    → IsOpen s.element (length s.body)
    → put_end_bundle (with_more x (bundle_started t s))
      ≡ ok (with_more (framed s.element (bundle_bytes ++ (from_uint64 t ++ x))) s)
unfolding put_end_bundle slot_required
put_end_bundle-started s t x resting opened =
    let y = bundle_bytes ++ (from_uint64 t ++ x) in
    let inner = with_more x (bundle_started t s) in
    let whole : inner.body ≡ s.body ++ (open_slot s.element ++ y) =
      rw (append_assoc, append_assoc, append_assoc) refl in
    let required : slot_required inner ≡ true = inner_required s.element (length s.body) in
    let count : length inner.body ≡ length (s.body ++ framed s.element y) =
      ap length whole ∙ closed_length s.body s.element y in
    let closed : put_end_bundle inner ≡ end_element inner =
      rw required (outside_message-outside inner (end_element inner) resting.outside) in
    closed
    ∙ end_element-lem inner s.body s.element y whole refl refl opened
    ∙ ap ok (ap (λ m. record s { body = s.body ++ framed s.element y; cursor = m }) count)
