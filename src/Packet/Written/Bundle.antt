-- ===== src/Packet/Written/Bundle.antt =====
-- The writes of bundles and of whole packets in oscpack_1_1_0/osc/OscOutboundPacketStream.cpp.
use lua2sc.Prelude.{
  ℕ, ◌+◌, ◌^◌, ◌≤◌, ◌<◌, ◌≡◌, refl, sym, ap, subst, ◌∙◌, arith, [], ◌∷◌, ◌++◌, some, length,
  length-append, ◌↔◌,
}
use lua2sc.Osc.Value.{Bytes, ok, ◌>>=◌}
use lua2sc.Osc.Pack.{
  begin_bundle, end_bundle, Received, Elements, message, bundle, throwing_message, throwing_bundle,
  undefined_reading, no_more, element,
}
use lua2sc.Osc.Meaning.{flatten, flatten_elements}
use lua2sc.Osc.Writes.{write_all, write_all-append, run_succeeds}
use lua2sc.Packet.Order.{from_uint64}
use lua2sc.Packet.Outbound.{Outbound, outbound, with_space}
use lua2sc.Packet.Write.{put, bundle_bytes}
use lua2sc.Packet.Encoded.{length-from_uint64}
use lua2sc.Packet.Layout.{message_bytes, sized, layout, layout_elements}
use lua2sc.Packet.Grown.{with_space-ok, framed, open_slot, inner_element, IsOpen, IsResting}
use lua2sc.Packet.Step.{
  slot_size, with_more, bundle_started, put_begin_bundle-IsResting, put_end_bundle-started,
  length-framed, length-open_slot,
}
use lua2sc.Packet.Wire.{oscpack}
use lua2sc.Packet.Written.{
  Fits, with_space-fits, with_more-IsResting, Exactly, Exactly-nil, Exactly-append, write_all-cons,
  write_all-step,
}
use lua2sc.Packet.Written.Message.{AreWritten, message-Exactly}

-- No argument is an unknown one.
abbrev mutual
  pub IsWritable : Received → Type 0
  IsWritable (message a as') = AreWritten as'
  IsWritable (bundle t es) = AreWritable es
  IsWritable _ = Unit {0}

  pub AreWritable : Elements → Type 0
  AreWritable no_more = Unit {0}
  AreWritable (element r es) = IsWritable r × AreWritable es

abbrev pub bundle_layout : ℕ → Bytes → Bytes
bundle_layout t x = bundle_bytes ++ (from_uint64 t ++ x)

pub length-bundle_layout : (t : ℕ) (x : Bytes) → length (bundle_layout t x) ≡ 16 + length x
length-bundle_layout t x = omega (
  arith,
  length-append bundle_bytes (from_uint64 t ++ x),
  length-append (from_uint64 t) x,
  length-from_uint64 t,
)

length-bundle_started :
    (t : ℕ) (s : Outbound)
    → length (bundle_started t s).body ≡ length s.body + slot_size s.element + 16
length-bundle_started t s =
    let head = bundle_bytes ++ from_uint64 t in
    omega (
      arith,
      length-append s.body (open_slot s.element ++ head),
      length-append (open_slot s.element) head,
      length-append bundle_bytes (from_uint64 t),
      length-from_uint64 t,
      length-open_slot s.element,
    )

module _ (c : ℕ) where
  module _ (t : ℕ) (s : Outbound) (resting : IsResting s)
      (opened : IsOpen s.element (length s.body)) where
    begin_step :
        put (begin_bundle t) s
        ≡ with_space (length s.body + slot_size s.element + 16) s (bundle_started t s)
    unfolding put
    begin_step = put_begin_bundle-IsResting t s resting

    end_step :
        (x : Bytes)
        → put end_bundle (with_more x (bundle_started t s))
          ≡ ok (with_more (framed s.element (bundle_layout t x)) s)
    unfolding put
    end_step x = put_end_bundle-started s t x resting opened

    started-IsResting :
        length s.body + slot_size s.element + 16 ≤ s.capacity → IsResting (bundle_started t s)
    started-IsResting room = record {
      outside = resting.outside;
      at_end = refl;
      no_tags = resting.no_tags;
      within = omega (arith, length-bundle_started t s, room);
      small = resting.small;
    }

    -- A bundle is written, between messages, exactly when its elements can be and it fits.
    pub bundle-Exactly :
        {w : Type 0} (es : Elements)
        → (IsResting (bundle_started t s)
            → Exactly c w (flatten_elements es) (bundle_started t s) (layout_elements es))
        → Exactly c w
            (flatten (bundle t es))
            s
            (framed s.element (bundle_layout t (layout_elements es)))
    unfolding flatten
    bundle-Exactly es elements =
        let x = layout_elements es in
        let space = length s.body + slot_size s.element + 16 in
        let started = bundle_started t s in
        let all = flatten_elements es ++ end_bundle ∷ [] in
        let done = with_more (framed s.element (bundle_layout t x)) s in
        let last = write_all-step c end_bundle [] (with_more x started) done (end_step x) in
        let total = length-framed s.element (bundle_layout t x) in
        record {
          sound = λ t' h.
              let (s₁, h₁, h₂) = write_all-cons c (begin_bundle t) all s t' h in
              let (room, e) = with_space-ok space s started s₁ (sym begin_step ∙ h₁) in
              let inner = elements (started-IsResting room) in
              let (s₂, h₃, h₄) =
                run_succeeds (write_all (oscpack c) (flatten_elements es) started)
                  (write_all (oscpack c) (end_bundle ∷ []))
                  (sym
                      (write_all-append (oscpack c) (flatten_elements es) (end_bundle ∷ []) started)
                    ∙ ap (write_all (oscpack c) all) (sym e)
                    ∙ h₂) in
              let (e₂, w, fits) = inner.sound s₂ h₃ in
              let same : ok t' ≡ ok done =
                sym (ap (write_all (oscpack c) (end_bundle ∷ [])) (sym e₂) ∙ h₄) ∙ last in
              (
                cc,
                w,
                omega (arith, total, length-bundle_layout t x, length-bundle_started t s, fits),
              );
          complete = λ w fits.
              let room : space ≤ s.capacity =
                omega (arith, total, length-bundle_layout t x, fits) in
              let inner = elements (started-IsResting room) in
              let fits' : Fits x started =
                omega (arith, total, length-bundle_layout t x, length-bundle_started t s, fits) in
              write_all-step c (begin_bundle t) all s started
                (begin_step ∙ with_space-fits space s started room)
              ∙ write_all-append (oscpack c) (flatten_elements es) (end_bundle ∷ []) started
              ∙ ap (λ r. r >>= write_all (oscpack c) (end_bundle ∷ [])) (inner.complete w fits')
              ∙ last;
        }

  -- Inside a bundle, the elements of a list are written exactly when all can be and fit.
  record Inside (s : Outbound) : Type 0 where
    slot : ℕ
    holds : s.element ≡ some slot
    resting : IsResting s
    stored : slot < 2 ^ 32
    not_empty : 0 < length s.body

  Inside-IsOpen : (s : Outbound) → Inside s → IsOpen s.element (length s.body)
  Inside-IsOpen s inside =
      subst (λ o. IsOpen o (length s.body)) (sym inside.holds) (inside.stored, inside.not_empty)

  framed-sized : (s : Outbound) (inside : Inside s) (x : Bytes) → framed s.element x ≡ sized x
  framed-sized s inside x = ap (λ o. framed o x) inside.holds

  started-Inside :
      (t : ℕ) (s : Outbound)
      → Inside s
      → IsResting (bundle_started t s)
      → Inside (bundle_started t s)
  started-Inside t s inside resting = record {
    slot = length s.body;
    holds = ap (λ o. inner_element o (length s.body)) inside.holds;
    resting = resting;
    stored = omega (arith, inside.resting.within, inside.resting.small);
    not_empty = omega (arith, length-bundle_started t s);
  }

  more-Inside : (x : Bytes) (s : Outbound) → Inside s → Fits x s → Inside (with_more x s)
  more-Inside x s inside fits = record {
    slot = inside.slot;
    holds = inside.holds;
    resting = with_more-IsResting x s inside.resting fits;
    stored = inside.stored;
    not_empty = omega (arith, length-append s.body x, inside.not_empty);
  }

  elements-Exactly :
      (es : Elements) (s : Outbound)
      → Inside s
      → Exactly c (AreWritable es) (flatten_elements es) s (layout_elements es)
  unfolding flatten
  elements-Exactly no_more s inside = Exactly-nil c s inside.resting
  elements-Exactly (element (message a as') es) s inside =
      Exactly-append c (flatten (message a as')) (flatten_elements es)
        (subst (λ x. Exactly c (AreWritten as') (flatten (message a as')) s x)
          (framed-sized s inside (message_bytes a as'))
          (message-Exactly c s a inside.resting (Inside-IsOpen s inside) as'))
        λ fits.
          elements-Exactly es (with_more (sized (message_bytes a as')) s)
            (more-Inside (sized (message_bytes a as')) s inside fits)
  elements-Exactly (element (bundle t es') es) s inside =
      let x = bundle_layout t (layout_elements es') in
      Exactly-append c (flatten (bundle t es')) (flatten_elements es)
        (subst (λ y. Exactly c (AreWritable es') (flatten (bundle t es')) s y)
          (framed-sized s inside x)
          (bundle-Exactly t s inside.resting (Inside-IsOpen s inside) es' λ resting.
            elements-Exactly es' (bundle_started t s) (started-Inside t s inside resting)))
        λ fits. elements-Exactly es (with_more (sized x) s) (more-Inside (sized x) s inside fits)
  elements-Exactly (element (throwing_message e) es) s inside =
      Exactly-append c [] (flatten_elements es) (Exactly-nil c s inside.resting)
        λ fits. elements-Exactly es (with_more [] s) (more-Inside [] s inside fits)
  elements-Exactly (element (throwing_bundle e) es) s inside =
      Exactly-append c [] (flatten_elements es) (Exactly-nil c s inside.resting)
        λ fits. elements-Exactly es (with_more [] s) (more-Inside [] s inside fits)
  elements-Exactly (element undefined_reading es) s inside =
      Exactly-append c [] (flatten_elements es) (Exactly-nil c s inside.resting)
        λ fits. elements-Exactly es (with_more [] s) (more-Inside [] s inside fits)

  module _ (small : c < 2 ^ 32) where
    outbound-IsResting : IsResting (outbound c)
    unfolding outbound
    outbound-IsResting = record {
      outside = refl;
      at_end = refl;
      no_tags = refl;
      within = omega arith;
      small = small;
    }

    -- On an empty buffer.
    pub received-Exactly :
        (r : Received) → Exactly c (IsWritable r) (flatten r) (outbound c) (layout r)
    unfolding outbound flatten
    received-Exactly (message a as') = message-Exactly c (outbound c) a outbound-IsResting tt as'
    received-Exactly (bundle t es) =
        bundle-Exactly t (outbound c) outbound-IsResting tt es λ resting.
          elements-Exactly es (bundle_started t (outbound c)) (record {
            slot = 0;
            holds = refl;
            resting = resting;
            stored = omega arith;
            not_empty = omega (arith, length-bundle_started t (outbound c));
          })
    received-Exactly (throwing_message e) = Exactly-nil c (outbound c) outbound-IsResting
    received-Exactly (throwing_bundle e) = Exactly-nil c (outbound c) outbound-IsResting
    received-Exactly undefined_reading = Exactly-nil c (outbound c) outbound-IsResting

-- On an empty buffer of less than 2 ^ 32 bytes, the writes of a packet succeed exactly when no
-- argument is an unknown one and the packet's layout fits into the buffer; the stream then holds the
-- layout, has its cursor at the end and no element or message open.
pub write_all_iff :
    (c : ℕ) (r : Received) (s : Outbound)
    → c < 2 ^ 32
    → (write_all (oscpack c) (flatten r) (outbound c) ≡ ok s) ↔ (
        IsWritable r
        × (length (layout r) ≤ c)
        × (s ≡ record (outbound c) { body = layout r; cursor = length (layout r) }))
unfolding outbound
write_all_iff c r s small =
    let exactly = received-Exactly c small r in
    (
      λ h. let (e, w, fits) = exactly.sound s h in (w, omega (arith, fits), e),
      λ (w, fits, e).
          let room : length (outbound c).body + length (layout r) ≤ c = omega (arith, fits) in
          exactly.complete w room ∙ ap ok (sym e),
    )
