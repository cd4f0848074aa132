-- ===== src/Packet/Written.antt =====
-- When a list of writes succeeds and what it leaves in the buffer of
-- oscpack_1_1_0/osc/OscOutboundPacketStream.cpp: the rules for one list after another, and for a message.
pub mod Message
pub mod Bundle
use lua2sc.Prelude.{
  ℕ, zero, suc, ◌+◌, ◌-◌, ◌*◌, ◌/◌, ◌^◌, ◌≤◌, ◌<◌, ◌≡◌, refl, sym, ap, ◌∙◌, arith, List, [], ◌∷◌,
  ◌++◌, map, append_assoc, append-nil, Option, none, some, Bool, true, false, length, length-append,
  if◌then◌else◌, ltb, reverse, reverse-append,
}
use lua2sc.Osc.Value.{Bytes, Result, ok, thrown, undefined, ◌>>=◌}
use lua2sc.Osc.Pack.{Argument, Item, argument, begin_message, end_message, Received, message}
use lua2sc.Osc.Encode.{write_item}
use lua2sc.Osc.Meaning.{flatten}
use lua2sc.Osc.Writes.{write_all, write_all-append, run_succeeds}
use lua2sc.Packet.Order.{round_up4}
use lua2sc.Packet.Outbound.{Outbound, with_space}
use lua2sc.Packet.Arguments.{put_argument}
use lua2sc.Packet.Write.{put, put_end_message}
use lua2sc.Packet.Layout.{
  padded, argument_tag, argument_bytes, arguments_bytes, message_bytes, length-padded,
  length-reverse,
}
use lua2sc.Packet.Grown.{with_space-ok, framed, open_slot, inner_element, IsOpen, IsResting}
use lua2sc.Packet.Step.{
  IsWritten, pushed, pushed_space, put_argument-IsWritten, slot_size, in_progress, with_more,
  put_begin_message-IsResting, put_end_message-in_progress, length-framed, length-open_slot,
}
use lua2sc.Packet.Wire.{oscpack}

-- The bytes fit after those that are there.
abbrev pub Fits : Bytes → Outbound → Type 0
Fits x s = length s.body + length x ≤ s.capacity

pub with_space-fits :
    (required : ℕ) (s d : Outbound) → required ≤ s.capacity → with_space required s d ≡ ok d
unfolding with_space
with_space-fits required s d h =
    let enough : ltb s.capacity required ≡ false = ground arith in rw enough refl

pub with_more-with_more :
    (x y : Bytes) (s : Outbound) → with_more y (with_more x s) ≡ with_more (x ++ y) s
with_more-with_more x y s = rw append_assoc refl

pub with_more-nil : (s : Outbound) → IsResting s → with_more [] s ≡ s
with_more-nil s resting = rw (append-nil, sym resting.at_end) refl

pub with_more-IsResting :
    (x : Bytes) (s : Outbound) → IsResting s → Fits x s → IsResting (with_more x s)
with_more-IsResting x s resting fits = record {
  outside = resting.outside;
  at_end = refl;
  no_tags = resting.no_tags;
  within = omega (arith, length-append s.body x, fits);
  small = resting.small;
}

module _ (c : ℕ) where
  -- The writes succeed exactly when `w` holds and the bytes fit, and then add those bytes.
  pub record Exactly (w : Type 0) (items : List Item) (s : Outbound) (x : Bytes) : Type 0 where
    pub sound :
        (t : Outbound) → write_all (oscpack c) items s ≡ ok t → (t ≡ with_more x s) × w × Fits x s
    pub complete : w → Fits x s → write_all (oscpack c) items s ≡ ok (with_more x s)

  pub Exactly-nil : (s : Outbound) → IsResting s → Exactly (Unit {0}) [] s []
  Exactly-nil s resting = record {
    sound = λ t h.
        let same : s ≡ t = cc in
        (sym same ∙ sym (with_more-nil s resting), tt, omega (arith, resting.within));
    complete = λ w fits. ap ok (sym (with_more-nil s resting));
  }

  pub Exactly-append :
      {w v : Type 0} {s : Outbound} {x y : Bytes} (is js : List Item)
      → Exactly w is s x
      → (Fits x s → Exactly v js (with_more x s) y)
      → Exactly (w × v) (is ++ js) s (x ++ y)
  Exactly-append {s = s} {x = x} {y = y} is js first_part then_part = record {
    sound = λ t h.
        let (s₁, h₁, h₂) =
          run_succeeds (write_all (oscpack c) is s) (write_all (oscpack c) js)
            (sym (write_all-append (oscpack c) is js s) ∙ h) in
        let (e, holds, fits) = first_part.sound s₁ h₁ in
        let (e', holds', fits') =
          (then_part fits).sound t (ap (write_all (oscpack c) js) (sym e) ∙ h₂) in
        (
          e' ∙ with_more-with_more x y s,
          (holds, holds'),
          omega (arith, length-append x y, length-append s.body x, fits'),
        );
    complete = λ w fits.
        let fits₁ : Fits x s = omega (arith, length-append x y, fits) in
        let fits₂ : Fits y (with_more x s) =
          omega (arith, length-append x y, length-append s.body x, fits) in
        write_all-append (oscpack c) is js s
        ∙ ap (λ r. r >>= write_all (oscpack c) js) (first_part.complete w.0 fits₁)
        ∙ (then_part fits₁).complete w.1 fits₂
        ∙ ap ok (with_more-with_more x y s);
  }

  pub write_all-cons :
      (i : Item) (is : List Item) (s t : Outbound)
      → write_all (oscpack c) (i ∷ is) s ≡ ok t
      → (s₁ : Outbound) × (put i s ≡ ok s₁) × (write_all (oscpack c) is s₁ ≡ ok t)
  unfolding write_item
  write_all-cons i is s t h = run_succeeds (put i s) (write_all (oscpack c) is) h

  pub write_all-step :
      (i : Item) (is : List Item) (s s₁ : Outbound)
      → put i s ≡ ok s₁
      → write_all (oscpack c) (i ∷ is) s ≡ write_all (oscpack c) is s₁
  unfolding write_item
  write_all-step i is s s₁ h = ap (λ r. r >>= write_all (oscpack c) is) h
