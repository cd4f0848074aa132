-- ===== src/Packet/Bounded.antt =====
-- The stream of oscpack_1_1_0/osc/OscOutboundPacketStream.cpp never exceeds its buffer, whatever is
-- written to it and in whatever order.
mod State
mod Ends
pub use State.{IsBounded}
pub use Ends.{ended, ending, closing}
use lua2sc.Packet.Bounded.State.{bundle_begun-IsBounded, message_begun-IsBounded}
use lua2sc.Packet.Bounded.Ends.{
  pushed-IsBounded, put_end_message-IsBounded, put_end_bundle-IsBounded,
}
use lua2sc.Prelude.{
  ℕ, ◌+◌, ◌-◌, ◌≤◌, ◌≡◌, refl, sym, ap, subst, ◌∙◌, arith, List, [], ◌∷◌, ◌++◌, Option, none, some,
  Bool, true, false, length, length-append, length-take, length-drop, take, drop, if◌then◌else◌,
  reverse, ◌==◌, Bool-cases, inl, inr,
}
use lua2sc.Osc.Value.{
  Bytes, Result, ok, thrown, undefined, ◌>>=◌, message_not_in_progress, bundle_not_in_progress,
}
use lua2sc.Osc.Pack.{Argument, Item, begin_bundle, end_bundle, begin_message, end_message, argument}
use lua2sc.Packet.Wire.{oscpack}
use lua2sc.Packet.Written.{write_all-cons}
use lua2sc.Osc.Writes.{write_all, run_succeeds}
use lua2sc.Packet.Order.{from_uint32, from_uint64, native_uint32, load_uint32, round_up4}
use lua2sc.Packet.Outbound.{
  outbound, Outbound, size, slot_required, bundle_space, message_space, with_space, begin_element,
  end_element,
}
use lua2sc.Packet.Write.{
  outside_message, bundle_bytes, bundle_begun, put_begin_bundle, put_end_bundle, message_begun,
  put_begin_message, tag_slot, moved_arguments, tags_moved, put_end_message, put,
}
use lua2sc.Packet.Encoded.{length-from_uint32, length-from_uint64, length-native_uint32}
use lua2sc.Packet.Layout.{
  padded, argument_bytes, string_bytes-padded, length-padded, slot_of, length-reverse,
}
use lua2sc.Packet.Written.Message.{put_argument-ok}
use lua2sc.Packet.Grown.{with_space-ok, outside_message-ok}
use lua2sc.Packet.Step.{pushed, pushed_space, put_argument-IsWritten}

-- Where the size of the stream is within the capacity of its buffer and the cursor within the bytes
-- that are there, every write that succeeds keeps them so: of any item, and inside or outside a
-- message or a bundle.
pub put-IsBounded : (i : Item) (s t : Outbound) → IsBounded s → put i s ≡ ok t → IsBounded t
unfolding put put_begin_bundle put_begin_message
put-IsBounded (begin_bundle tag) s t bounded h =
    let (outside, spaced) =
      outside_message-ok s (with_space (bundle_space s) s (bundle_begun tag s)) t h in
    let (room, same) = with_space-ok (bundle_space s) s (bundle_begun tag s) t spaced in
    subst IsBounded (sym same) (bundle_begun-IsBounded tag s bounded outside room)
put-IsBounded (begin_message a) s t bounded h =
    let (outside, spaced) =
      outside_message-ok s (with_space (message_space a s) s (message_begun a s)) t h in
    let (room, same) = with_space-ok (message_space a s) s (message_begun a s) t spaced in
    subst IsBounded (sym same) (message_begun-IsBounded a s bounded outside room)
put-IsBounded end_bundle s t bounded h = put_end_bundle-IsBounded s t bounded h
put-IsBounded end_message s t bounded h = put_end_message-IsBounded s t s.in_message refl bounded h
put-IsBounded (argument a) s t bounded h =
    let w = put_argument-ok 0 s [] a s t h in
    let (room, same) =
      with_space-ok (pushed_space a s) s (pushed a s) t (sym (put_argument-IsWritten a s w) ∙ h) in
    subst IsBounded (sym same) (pushed-IsBounded a s bounded room)

pub outbound-IsBounded : (c : ℕ) → IsBounded (outbound c)
unfolding outbound size
outbound-IsBounded c = record { size_fits = omega arith; cursor_fits = omega arith }

-- A new stream, after any sequence of items that all were written, has a size within its capacity and
-- its cursor within the bytes that are there.
pub write_all-IsBounded :
    (c : ℕ) (items : List Item) (t : Outbound)
    → write_all (oscpack c) items (outbound c) ≡ ok t
    → IsBounded t
write_all-IsBounded c items t h = go items (outbound c) (outbound-IsBounded c) h
  where
    go :
        (items : List Item) (s : Outbound)
        → IsBounded s
        → write_all (oscpack c) items s ≡ ok t
        → IsBounded t
    go [] s bounded h = let same : s ≡ t = cc in subst IsBounded same bounded
    go (i ∷ items) s bounded h =
        let (s₁, first_part, rest) = write_all-cons c i items s t h in
        go items s₁ (put-IsBounded i s s₁ bounded first_part) rest
