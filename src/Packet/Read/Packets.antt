-- ===== src/Packet/Read/Packets.antt =====
-- Bundles and whole packets that were written, as oscpack_1_1_0/osc/OscReceivedElements.cpp shows them.
use lua2sc.Prelude.{
  ℕ, suc, ◌+◌, ◌^◌, ◌<◌, ◌≡◌, ap, subst, ◌∙◌, arith, ◌++◌, true, false, length, drop, ◌==◌, ne→==,
}
use lua2sc.Osc.Value.{Bytes, Result, ok, ◌>>=◌}
use lua2sc.Osc.Pack.{
  Received, Elements, message, bundle, throwing_message, throwing_bundle, undefined_reading,
  no_more, element,
}
use lua2sc.Packet.Order.{from_uint64, to_uint32, to_uint64}
use lua2sc.Packet.Write.{bundle_bytes}
use lua2sc.Packet.Bundle.{
  shown_bundle, read_message, read_bundle, received_by, element_by, received_at, elements_at,
}
use lua2sc.Packet.Layout.{message_bytes, layout, layout_elements}
use lua2sc.Packet.Written.Bundle.{bundle_layout, length-bundle_layout}
use lua2sc.Packet.Read.{At, At-start, At-left, At-right, At-byte, At-length, bind-by, positive_fuel}
use lua2sc.Packet.Read.Argument.{to_uint64-At}
use lua2sc.Packet.Read.Readable.{IsReadable, AreReadable}
use lua2sc.Packet.Read.Elements.{
  Head, element-Head, is_bundle-byte, received_at-message, init_bundle-AreReadable, place,
}

module _ (m : Bytes) (small : length m < 2 ^ 31) where
  -- A bundle that was written is read back, once its elements are.
  received_at-bundle :
      (fuel p t : ℕ) (es : Elements)
      → IsReadable (bundle t es)
      → At m p (bundle_layout t (layout_elements es))
      → elements_at fuel m (p + 16) (p + length (bundle_layout t (layout_elements es))) ≡ es
      → received_at (suc fuel) m p (length (bundle_layout t (layout_elements es))) ≡ bundle t es
  unfolding received_at received_by shown_bundle read_bundle
  received_at-bundle fuel p t es e at inner =
      let x = layout_elements es in
      let n = length (bundle_layout t x) in
      let not_empty : 0 < n = omega (arith, length-bundle_layout t x) in
      let tag_at : At m (p + 8) (from_uint64 t) =
        At-left (from_uint64 t) x (At-right bundle_bytes (from_uint64 t ++ x) at) in
      let shown : ℕ → Result Received =
        λ tag. ok (bundle tag (elements_at fuel m (p + 16) (p + n))) in
      ap
        (λ b.
          received_by b (read_bundle m p n (elements_at fuel m (p + 16) (p + n)))
            (read_message m p n))
        (is_bundle-byte m small p n b'#' not_empty (At-length at) (At-byte at))
      ∙ ap shown_bundle (
          bind-by (λ k. to_uint64 (drop (p + 8) m) >>= shown)
            (init_bundle-AreReadable m small p t es e.1 at)
          ∙ bind-by shown (to_uint64-At m small (p + 8) t tag_at e.0))
      ∙ ap (bundle t) inner

  abbrev shown_from : ℕ → ℕ → ℕ → ℕ → Elements
  shown_from fuel p end n =
      element (received_at fuel m (p + 4) n) (elements_at fuel m (p + (4 + n)) end)

  element_step :
      (fuel p end : ℕ) (r : Received) (es : Elements)
      → Head m small p r es
      → end ≡ p + length (layout_elements (element r es))
      → received_at fuel m (p + 4) (length (layout r)) ≡ r
      → elements_at fuel m (p + (4 + length (layout r))) end ≡ es
      → elements_at (suc fuel) m p end ≡ element r es
  unfolding received_at element_by
  element_step fuel p end r es head stop first_part rest =
      let different : (p == end) ≡ false = ne→== p end (λ e. omega (arith, e, stop, head.total)) in
      ap
        (λ b. elim b [
          | true ↦ no_more
          | false ↦ element_by (to_uint32 (drop p m)) (shown_from fuel p end)
        ])
        different
      ∙ ap (λ s. element_by s (shown_from fuel p end)) head.size_read
      ∙ ap (λ x. element x (elements_at fuel m (p + (4 + length (layout r))) end)) first_part
      ∙ ap (element r) rest

  elements_at-end : (k p end : ℕ) → end ≡ p → elements_at (suc k) m p end ≡ no_more
  unfolding received_at
  elements_at-end k p end h =
      let there : (p == end) ≡ true = ground arith in
      ap
        (λ b. elim b [
          | true ↦ no_more
          | false ↦ element_by (to_uint32 (drop p m)) (shown_from k p end)
        ])
        there

  elements_at-AreReadable :
      (es : Elements) (fuel p end : ℕ)
      → AreReadable es
      → At m p (layout_elements es)
      → end ≡ p + length (layout_elements es)
      → length (layout_elements es) < fuel
      → elements_at fuel m p end ≡ es
  elements_at-AreReadable no_more fuel p end e at stop enough =
      let (k, f) = positive_fuel fuel (omega (arith, enough)) in
      ap (λ f. elements_at f m p end) f ∙ elements_at-end k p end (omega (arith, stop))
  elements_at-AreReadable (element (message a as') es) fuel p end e at stop enough =
      let (k, f) = positive_fuel fuel (omega (arith, enough)) in
      let head = element-Head m small p (message a as') es e.0 at in
      let n = length (message_bytes a as') in
      ap (λ f. elements_at f m p end) f
      ∙ element_step k p end (message a as') es head stop
          (received_at-message m small k (p + 4) a as' e.0 head.content
            (omega (arith, enough, head.total, f)))
          (elements_at-AreReadable es k (p + (4 + n)) end e.1 head.later
            (omega (arith, stop, head.total)) (omega (arith, enough, head.total, f)))
  elements_at-AreReadable (element (bundle t es') es) fuel p end e at stop enough =
      let (k, f) = positive_fuel fuel (omega (arith, enough)) in
      let head = element-Head m small p (bundle t es') es e.0 at in
      let x = layout_elements es' in
      let n = length (bundle_layout t x) in
      let inner_size = length-bundle_layout t x in
      let (j, g) = positive_fuel k (omega (arith, enough, head.total, f, inner_size)) in
      let inside =
        At-right (from_uint64 t) x (At-right bundle_bytes (from_uint64 t ++ x) head.content) in
      let inner_at : At m (p + 4 + 16) x = subst (λ q. At m q x) (place (p + 4) t) inside in
      ap (λ f. elements_at f m p end) f
      ∙ element_step k p end (bundle t es') es head stop
          (ap (λ k. received_at k m (p + 4) n) g
            ∙ received_at-bundle j (p + 4) t es' e.0 head.content (
                elements_at-AreReadable es' j (p + 4 + 16) (p + 4 + n) e.0.1 inner_at
                  (omega (arith, inner_size))
                  (omega (arith, enough, head.total, f, g, inner_size))))
          (elements_at-AreReadable es k (p + (4 + n)) end e.1 head.later
            (omega (arith, stop, head.total)) (omega (arith, enough, head.total, f)))
  elements_at-AreReadable (element (throwing_message x) es) fuel p end e at stop enough =
      elim e.0 [ ]
  elements_at-AreReadable (element (throwing_bundle x) es) fuel p end e at stop enough =
      elim e.0 [ ]
  elements_at-AreReadable (element undefined_reading es) fuel p end e at stop enough = elim e.0 [ ]

-- A packet that was written, as it is shown from its first byte on.
pub received_at-layout :
    (r : Received)
    → IsReadable r
    → length (layout r) < 2 ^ 31
    → received_at (suc (length (layout r))) (layout r) 0 (length (layout r)) ≡ r
received_at-layout (message a as') e small =
    let m = message_bytes a as' in
    received_at-message m small (suc (length m)) 0 a as' e (At-start m) (omega arith)
received_at-layout (bundle t es) e small =
    let x = layout_elements es in
    let m = bundle_layout t x in
    let n = length m in
    let inside : At m (0 + 16) x =
      subst (λ q. At m q x) (place 0 t)
        (At-right (from_uint64 t) x (At-right bundle_bytes (from_uint64 t ++ x) (At-start m))) in
    received_at-bundle m small n 0 t es e (At-start m) (
      elements_at-AreReadable m small es n (0 + 16) (0 + n) e.1 inside
        (omega (arith, length-bundle_layout t x)) (omega (arith, length-bundle_layout t x)))
received_at-layout (throwing_message x) e small = elim e [ ]
received_at-layout (throwing_bundle x) e small = elim e [ ]
received_at-layout undefined_reading e small = elim e [ ]
