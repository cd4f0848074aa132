-- ===== src/Packet/Bounded/Ends.antt =====
-- The ends of messages and bundles in oscpack_1_1_0/osc/OscOutboundPacketStream.cpp keep the bounds of
-- the stream.
use lua2sc.Prelude.{
  ◌+◌, ◌≤◌, ◌≡◌, refl, sym, ap, subst, ◌∙◌, arith, [], ◌∷◌, ◌++◌, Bool, true, false, length,
  length-append, length-take, length-drop, take, drop, if◌then◌else◌, reverse, Bool-cases, inl, inr,
}
use lua2sc.Osc.Value.{
  Bytes, Result, ok, thrown, ◌>>=◌, message_not_in_progress, bundle_not_in_progress,
}
use lua2sc.Osc.Pack.{Argument}
use lua2sc.Osc.Writes.{run_succeeds}
use lua2sc.Packet.Order.{round_up4}
use lua2sc.Packet.Outbound.{Outbound, slot_required, end_element}
use lua2sc.Packet.Write.{
  outside_message, put_end_bundle, tag_slot, moved_arguments, tags_moved, put_end_message,
}
use lua2sc.Packet.Layout.{argument_bytes, length-padded, slot_of, length-reverse}
use lua2sc.Packet.Grown.{outside_message-ok}
use lua2sc.Packet.Step.{pushed, pushed_space}
use lua2sc.Packet.Bounded.State.{
  IsBounded, end_element-IsResized, size-outside, size-inside, settled,
}

length-moved_arguments : (tags x : Bytes) → length (moved_arguments tags x) ≤ length x
unfolding moved_arguments
length-moved_arguments [] x = omega arith
length-moved_arguments (t ∷ tags) x = omega arith

length-tag_slot : (tags : Bytes) → length (tag_slot tags) ≡ round_up4 (length tags + 2)
length-tag_slot tags =
    ap length (slot_of tags)
    ∙ omega (arith, length-padded (b',' ∷ reverse tags), length-reverse tags)

tags_moved-size :
    (s : Outbound) → IsBounded s → s.in_message ≡ true → length (tags_moved s).body ≤ s.capacity
unfolding tags_moved
tags_moved-size s bounded inside =
    let rest = drop s.cursor s.body in
    let moved = moved_arguments s.tags rest in
    omega (
      arith,
      bounded.size_fits,
      bounded.cursor_fits,
      size-inside s inside,
      length-moved_arguments s.tags rest,
      length-take s.cursor s.body bounded.cursor_fits,
      length-drop s.cursor s.body,
      length-tag_slot s.tags,
      length-append (take s.cursor s.body) (tag_slot s.tags ++ moved),
      length-append (tag_slot s.tags) moved,
    )

pub pushed-IsBounded :
    (a : Argument) (s : Outbound)
    → IsBounded s
    → pushed_space a s ≤ s.capacity
    → IsBounded (pushed a s)
pushed-IsBounded a s bounded room =
    let sum = length-append s.body (argument_bytes a) in
    record {
      size_fits = elim (Bool-cases s.in_message) [
        | inl inside ↦ omega (arith, size-inside (pushed a s) inside, sum, room)
        | inr outside ↦ omega (arith, size-outside (pushed a s) outside, sum, room)
      ];
      cursor_fits = omega (arith, sum, bounded.cursor_fits);
    }

tags_moved-kept :
    (s : Outbound)
    → ((tags_moved s).cursor ≡ length (tags_moved s).body) × ((tags_moved s).capacity ≡ s.capacity)
unfolding tags_moved
tags_moved-kept s = (refl, refl)

abbrev pub ended : Outbound → Result Outbound
ended u = ok (record u { in_message = false })

abbrev pub ending : Outbound → Bool → Result Outbound
ending s b = elim b [
  | false ↦ thrown message_not_in_progress
  | true ↦ end_element (tags_moved s) >>= ended
]

pub put_end_message-IsBounded :
    (s t : Outbound) (b : Bool)
    → s.in_message ≡ b
    → IsBounded s
    → put_end_message s ≡ ok t
    → IsBounded t
unfolding put_end_message
put_end_message-IsBounded s t false e bounded h =
    let no : thrown message_not_in_progress ≡ ok t = sym (ap (ending s) e) ∙ h in cc
put_end_message-IsBounded s t true e bounded h =
    let (u, closed, done) =
      run_succeeds (end_element (tags_moved s)) ended (sym (ap (ending s) e) ∙ h) in
    let resized = end_element-IsResized (tags_moved s) u closed in
    let v : Outbound = record u { in_message = false } in
    let same : v ≡ t = cc in
    let n = length (tags_moved s).body in
    let kept = tags_moved-kept s in
    subst IsBounded same (
      settled s v n refl resized.body_length (tags_moved-size s bounded e)
        (omega (arith, resized.same_cursor, kept.0)) (resized.same_capacity ∙ kept.1))

abbrev pub closing : Outbound → Bool → Result Outbound
closing s b = if b then outside_message s (end_element s) else thrown bundle_not_in_progress

pub put_end_bundle-IsBounded :
    (s t : Outbound) → IsBounded s → put_end_bundle s ≡ ok t → IsBounded t
unfolding put_end_bundle
put_end_bundle-IsBounded s t bounded h = elim (Bool-cases (slot_required s)) [
  | inr no_slot ↦
      let no : thrown bundle_not_in_progress ≡ ok t = sym (ap (closing s) no_slot) ∙ h in cc
  | inl slot ↦
      let (outside, closed) =
        outside_message-ok s (end_element s) t (sym (ap (closing s) slot) ∙ h) in
      let resized = end_element-IsResized s t closed in
      settled s t (length s.body) (resized.same_progress ∙ outside) resized.body_length
        (omega (arith, bounded.size_fits, size-outside s outside))
        (omega (arith, resized.same_cursor, bounded.cursor_fits)) resized.same_capacity
]
