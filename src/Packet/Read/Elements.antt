-- ===== src/Packet/Read/Elements.antt =====
-- Bundles and packets that were written, read by oscpack_1_1_0/osc/OscReceivedElements.cpp.
use lua2sc.Prelude.{
  sym, ℕ, ◌+◌, ◌%◌, ◌^◌, ◌≤◌, ◌<◌, ◌≡◌, refl, ap, subst, ◌∙◌, arith, List, [], ◌∷◌, ◌++◌, true,
  false, ◌&&◌, length, length-append, take, drop, ◌==◌, ltb, if◌then◌else◌, ne→==,
}
use lua2sc.Osc.Value.{Bytes, Result, ok, thrown, malformed_bundle, ◌>>=◌, bytes_eq}
use lua2sc.Osc.Pack.{Argument, Received, Elements, message, no_more, element}
use lua2sc.Packet.Order.{from_uint32, from_uint64, to_uint32}
use lua2sc.Packet.Write.{bundle_bytes}
use lua2sc.Packet.Memory.{byte_at, is_multiple_of_4}
use lua2sc.Packet.Bundle.{
  is_bundle, check_elements, init_bundle, shown_message, read_message, read_bundle, received_by,
  received_at, elements_at,
}
use lua2sc.Packet.Encoded.{length-from_uint32, length-from_uint64}
use lua2sc.Packet.Layout.{padded, message_bytes, sized, layout, layout_elements, length-padded}
use lua2sc.Packet.Written.Message.{length-message_bytes}
use lua2sc.Packet.Written.Bundle.{bundle_layout, length-bundle_layout}
use lua2sc.Packet.Read.{At, At-left, At-right, At-byte, At-length, At-take, bind-by, positive_fuel}
use lua2sc.Packet.Read.Argument.{to_uint32-At}
use lua2sc.Packet.Read.Whole.{
  is_valid_size-small, is_multiple_of_4-aligned, read_message-AreEncodable,
}
use lua2sc.Packet.Read.Readable.{
  NotBundle, IsReadable, AreReadable, layout_element-sized, length-sized, elements-aligned,
  layout-aligned,
}

-- The first byte of a message's address is not that of a bundle.
address_byte :
    (m : Bytes) (p : ℕ) (a : Bytes)
    → At m p (padded a)
    → NotBundle a
    → (c : ℕ) × (byte_at m p ≡ ok c) × ((c == b'#') ≡ false)
unfolding padded
address_byte m p [] at e = (0, At-byte at, refl)
address_byte m p (c ∷ a) at e = (c, At-byte at, ne→== c b'#' e)

pub place : (p t : ℕ) → p + 8 + length (from_uint64 t) ≡ p + 16
place p t = omega (arith, length-from_uint64 t)

module _ (m : Bytes) (small : length m < 2 ^ 31) where
  pub is_bundle-byte :
      (p n c : ℕ) → 0 < n → p + n ≤ length m → byte_at m p ≡ ok c → is_bundle m p n ≡ ok (c == b'#')
  unfolding is_bundle
  is_bundle-byte p n c positive within h =
      let test : (ltb 0 n && ltb n (2 ^ 31)) ≡ true = ground (arith, small, within) in
      ap (λ b. if b then (byte_at m p >>= λ c. ok (c == b'#')) else ok false) test
      ∙ bind-by (λ c. ok (c == b'#')) h

  pub received_at-message :
      (fuel p : ℕ) (a : Bytes) (as' : List Argument)
      → IsReadable (message a as')
      → At m p (message_bytes a as')
      → 0 < fuel
      → received_at fuel m p (length (message_bytes a as')) ≡ message a as'
  unfolding received_at received_by shown_message
  received_at-message fuel p a as' e at enough =
      let n = length (message_bytes a as') in
      let (k, f) = positive_fuel fuel enough in
      let tags_and_bytes = At-length at in
      let (c, byte, other) = address_byte m p a (At-left (padded a) _ at) e.1 in
      let not_empty : 0 < n = omega (arith, length-message_bytes a as', length-padded a) in
      let as_bundle = read_bundle m p n (elements_at k m (p + 16) (p + n)) in
      ap (λ f. received_at f m p n) f
      ∙ ap (λ b. received_by b as_bundle (read_message m p n))
          (is_bundle-byte p n c not_empty tags_and_bytes byte ∙ ap ok other)
      ∙ ap shown_message (read_message-AreEncodable m small a as' p e.0 e.2 e.3 at)

  abbrev count : Elements → ℕ
  count no_more = 0
  count (element r es) = count es + 1

  abbrev counted : ℕ → Result ℕ
  counted n = ok (n + 1)

  abbrev sized_element : ℕ → ℕ → ℕ → ℕ → Result ℕ
  sized_element fuel p end n = elim (is_multiple_of_4 n) [
    | false ↦ thrown malformed_bundle
    | true ↦ elim (ltb end (p + (4 + n) % 2 ^ 32)) [
      | true ↦ thrown malformed_bundle
      | false ↦ check_elements fuel m (p + (4 + n) % 2 ^ 32) end >>= counted
    ]
  ]

  -- The element at the head of a list and what is behind it.
  pub record Head (p : ℕ) (r : Received) (es : Elements) : Type 0 where
    pub size_read : to_uint32 (drop p m) ≡ ok (length (layout r))
    pub content : At m (p + 4) (layout r)
    pub later : At m (p + (4 + length (layout r))) (layout_elements es)
    pub total :
        length (layout_elements (element r es))
        ≡ 4 + length (layout r) + length (layout_elements es)

  pub element-Head :
      (p : ℕ) (r : Received) (es : Elements)
      → IsReadable r
      → At m p (layout_elements (element r es))
      → Head p r es
  element-Head p r es e at =
      let x = layout r in
      let ys = layout_elements es in
      let at' : At m p (sized x ++ ys) =
        subst (λ y. At m p (y ++ ys)) (layout_element-sized r e) at in
      let here = At-left (sized x) ys at' in
      let content : At m (p + 4) x =
        subst (λ n. At m (p + n) x) (length-from_uint32 (length x))
          (At-right (from_uint32 (length x)) x here) in
      let total : length (layout_elements (element r es)) ≡ 4 + length x + length ys =
        ap (λ y. length (y ++ ys)) (layout_element-sized r e)
        ∙ omega (arith, length-append (sized x) ys, length-sized x) in
      record {
        size_read =
            to_uint32-At m small p (length x) (At-left (from_uint32 (length x)) x here)
              (omega (arith, At-length content, small));
        content = content;
        later = subst (λ n. At m (p + n) ys) (length-sized x) (At-right (sized x) ys at');
        total = total;
      }

  check_elements-AreReadable :
      (es : Elements) (fuel p end : ℕ)
      → AreReadable es
      → At m p (layout_elements es)
      → end ≡ p + length (layout_elements es)
      → length (layout_elements es) < fuel
      → check_elements fuel m p end ≡ ok (count es)
  unfolding check_elements
  check_elements-AreReadable no_more fuel p end e at stop enough =
      let (k, f) = positive_fuel fuel (omega (arith, enough)) in
      let outside : ltb p end ≡ false = ground (arith, stop) in
      let there : (p == end) ≡ true = ground (arith, stop) in
      ap (λ f. check_elements f m p end) f
      ∙ ap
          (λ b. elim b [
            | false ↦ if p == end then ok 0 else thrown malformed_bundle
            | true ↦ elim (ltb end (p + 4)) [
              | true ↦ thrown malformed_bundle
              | false ↦ to_uint32 (drop p m) >>= sized_element k p end
            ]
          ])
          outside
      ∙ ap (λ b. if b then ok 0 else thrown malformed_bundle) there
  check_elements-AreReadable (element r es) fuel p end e at stop enough =
      let (k, f) = positive_fuel fuel (omega (arith, enough)) in
      let n = length (layout r) in
      let head = element-Head p r es e.0 at in
      let bound = At-length head.content in
      let step : p + (4 + n) ≡ p + (4 + n) % 2 ^ 32 = omega (arith, bound, small) in
      let inside : ltb p end ≡ true = ground (arith, stop, head.total) in
      let size_fits : ltb end (p + 4) ≡ false = ground (arith, stop, head.total) in
      let content_fits : ltb end (p + (4 + n) % 2 ^ 32) ≡ false =
        ground (arith, stop, head.total, bound) in
      let sizes = to_uint32 (drop p m) >>= sized_element k p end in
      ap (λ f. check_elements f m p end) f
      ∙ ap
          (λ b. elim b [
            | false ↦ if p == end then ok 0 else thrown malformed_bundle
            | true ↦ elim (ltb end (p + 4)) [ true ↦ thrown malformed_bundle | false ↦ sizes ]
          ])
          inside
      ∙ ap (λ b. elim b [ true ↦ thrown malformed_bundle | false ↦ sizes ]) size_fits
      ∙ bind-by (sized_element k p end) head.size_read
      ∙ ap
          (λ b. elim b [
            | false ↦ thrown malformed_bundle
            | true ↦ elim (ltb end (p + (4 + n) % 2 ^ 32)) [
              | true ↦ thrown malformed_bundle
              | false ↦ check_elements k m (p + (4 + n) % 2 ^ 32) end >>= counted
            ]
          ])
          (is_multiple_of_4-aligned n (layout-aligned r))
      ∙ ap
          (λ b. elim b [
            | true ↦ thrown malformed_bundle
            | false ↦ check_elements k m (p + (4 + n) % 2 ^ 32) end >>= counted
          ])
          content_fits
      ∙ bind-by counted (
          ap (λ q. check_elements k m q end) (sym step)
          ∙ check_elements-AreReadable es k (p + (4 + n)) end e.1 head.later
              (omega (arith, stop, head.total)) (omega (arith, enough, head.total, f)))

  -- The checks of a bundle.
  pub init_bundle-AreReadable :
      (p t : ℕ) (es : Elements)
      → AreReadable es
      → At m p (bundle_layout t (layout_elements es))
      → init_bundle m p (length (bundle_layout t (layout_elements es))) ≡ ok (count es)
  unfolding init_bundle bytes_eq
  init_bundle-AreReadable p t es e at =
      let x = layout_elements es in
      let n = length (bundle_layout t x) in
      let total = length-bundle_layout t x in
      let within = At-length at in
      let whole : n % 4 ≡ 0 = omega (arith, total, elements-aligned es) in
      let rest = At-right bundle_bytes (from_uint64 t ++ x) at in
      let elements_there : At m (p + 16) x =
        subst (λ q. At m q x) (place p t) (At-right (from_uint64 t) x rest) in
      let checks = check_elements (length m) m (p + 16) (p + n) in
      let pattern = bytes_eq (take 8 (drop p m)) bundle_bytes in
      let enough_size : ltb n 16 ≡ false = ground (arith, total) in
      ap
        (λ b. elim b [
          | false ↦ thrown malformed_bundle
          | true ↦ elim (ltb n 16) [
            | true ↦ thrown malformed_bundle
            | false ↦ elim (is_multiple_of_4 n) [
              | false ↦ thrown malformed_bundle
              | true ↦ elim pattern [ false ↦ thrown malformed_bundle | true ↦ checks ]
            ]
          ]
        ])
        (is_valid_size-small n (omega (arith, within, small)) whole)
      ∙ ap
          (λ b. elim b [
            | true ↦ thrown malformed_bundle
            | false ↦ elim (is_multiple_of_4 n) [
              | false ↦ thrown malformed_bundle
              | true ↦ elim pattern [ false ↦ thrown malformed_bundle | true ↦ checks ]
            ]
          ])
          enough_size
      ∙ ap
          (λ b. elim b [
            | false ↦ thrown malformed_bundle
            | true ↦ elim pattern [ false ↦ thrown malformed_bundle | true ↦ checks ]
          ])
          (is_multiple_of_4-aligned n whole)
      ∙ ap (λ y. elim (bytes_eq y bundle_bytes) [ false ↦ thrown malformed_bundle | true ↦ checks ])
          (At-take (At-left bundle_bytes (from_uint64 t ++ x) at))
      ∙ check_elements-AreReadable es (length m) (p + 16) (p + n) e elements_there
          (omega (arith, total)) (omega (arith, total, within))
