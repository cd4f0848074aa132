-- ===== src/Packet/Bounded/State.antt =====
-- The bounds of a stream of oscpack_1_1_0/osc/OscOutboundPacketStream.cpp, and what begins in it.
use lua2sc.Prelude.{
  ℕ, ◌+◌, ◌-◌, ◌≤◌, ◌≡◌, refl, sym, ap, ◌∙◌, arith, [], ◌∷◌, ◌++◌, Option, none, some, Bool, true,
  false, length, length-append, length-take, length-drop, take, drop, if◌then◌else◌, ◌==◌,
}
use lua2sc.Osc.Value.{Bytes, Result, ok, undefined, ◌>>=◌}
use lua2sc.Osc.Writes.{run_succeeds}
use lua2sc.Packet.Order.{from_uint32, from_uint64, native_uint32, load_uint32, round_up4}
use lua2sc.Packet.Outbound.{
  Outbound, size, slot_required, bundle_space, message_space, begin_element, end_element,
}
use lua2sc.Packet.Write.{bundle_bytes, bundle_begun, message_begun}
use lua2sc.Packet.Encoded.{length-from_uint32, length-from_uint64, length-native_uint32}
use lua2sc.Packet.Layout.{padded, string_bytes-padded, length-padded}

-- The size is within the capacity and the cursor within the body.
pub record IsBounded (s : Outbound) : Type 0 where
  pub size_fits : size s ≤ s.capacity
  pub cursor_fits : s.cursor ≤ length s.body

four_bytes : (m : Bytes) (x : ℕ) → load_uint32 m ≡ ok x → 4 ≤ length m
unfolding load_uint32
four_bytes [] x h = cc
four_bytes (a ∷ []) x h = cc
four_bytes (a ∷ b ∷ []) x h = cc
four_bytes (a ∷ b ∷ c ∷ []) x h = cc
four_bytes (a ∷ b ∷ c ∷ d ∷ m) x h = omega arith

-- Only bytes change, and the element.
pub record IsResized (s t : Outbound) : Type 0 where
  pub body_length : length t.body ≡ length s.body
  pub same_cursor : t.cursor ≡ s.cursor
  pub same_capacity : t.capacity ≡ s.capacity
  pub same_progress : t.in_message ≡ s.in_message

with_element :
    (s t : Outbound) (body : Bytes) (e : Option ℕ)
    → length body ≡ length s.body
    → t ≡ record s { body = body; element = e }
    → IsResized s t
with_element s t body e same h = record {
  body_length = ap (λ u. length u.body) h ∙ same;
  same_cursor = ap (λ u. u.cursor) h;
  same_capacity = ap (λ u. u.capacity) h;
  same_progress = ap (λ u. u.in_message) h;
}

pub end_element-IsResized : (s t : Outbound) → end_element s ≡ ok t → IsResized s t
unfolding end_element
end_element-IsResized s t h = go s.element refl
  where
    inner :
        (slot : ℕ) (previous : ℕ)
        → load_uint32 (drop slot s.body) ≡ ok previous
        → length (take slot s.body ++ (from_uint32 (s.cursor - slot - 4) ++ drop (slot + 4) s.body))
          ≡ length s.body
    inner slot previous e =
        let room = four_bytes (drop slot s.body) previous e in
        let count = s.cursor - slot - 4 in
        omega (
          arith,
          room,
          length-drop slot s.body,
          length-take slot s.body (omega (arith, room, length-drop slot s.body)),
          length-append (take slot s.body) (from_uint32 count ++ drop (slot + 4) s.body),
          length-append (from_uint32 count) (drop (slot + 4) s.body),
          length-from_uint32 count,
          length-drop (slot + 4) s.body,
        )

    closed : ℕ → Result Outbound
    closed slot = load_uint32 (drop slot s.body) >>= λ previous. ok (record s {
      body = take slot s.body ++ (from_uint32 (s.cursor - slot - 4) ++ drop (slot + 4) s.body);
      element = some previous;
    })

    by : Option ℕ → Result Outbound
    by e = elim e [
      | none ↦ undefined
      | some slot ↦ elim (slot == 0) [
        | true ↦ ok (record s { element = none })
        | false ↦ closed slot
      ]
    ]

    by_test :
        (slot : ℕ) (b : Bool)
        → elim b [ true ↦ ok (record s { element = none }) | false ↦ closed slot ] ≡ ok t
        → IsResized s t
    by_test slot true h =
        let same : t ≡ record s { body = s.body; element = none } = cc in
        with_element s t s.body none refl same
    by_test slot false h =
        let (previous, loaded, k) = run_succeeds (load_uint32 (drop slot s.body)) _ h in
        let body =
          take slot s.body ++ (from_uint32 (s.cursor - slot - 4) ++ drop (slot + 4) s.body) in
        let same : t ≡ record s { body = body; element = some previous } = cc in
        with_element s t body (some previous) (inner slot previous loaded) same

    go : (e : Option ℕ) → s.element ≡ e → IsResized s t
    go none e = let no : undefined ≡ ok t = sym (ap by e) ∙ h in cc
    go (some slot) e = by_test slot (slot == 0) (sym (ap by e) ∙ h)

length-begin_element :
    (s : Outbound)
    → s.cursor ≤ length s.body
    → length (begin_element s).0 ≡ s.cursor + (if slot_required s then 4 else 0)
unfolding begin_element slot_required
length-begin_element s inside = go s.element refl
  where
    go :
        (e : Option ℕ)
        → s.element ≡ e
        → length (begin_element s).0 ≡ s.cursor + (if slot_required s then 4 else 0)
    go none e =
        rw (begin_element, slot_required, e) (omega (arith, length-take s.cursor s.body inside))
    go (some slot) e =
        rw (begin_element, slot_required, e)
          (omega (
            arith,
            length-take s.cursor s.body inside,
            length-append (take s.cursor s.body) (native_uint32 slot),
            length-native_uint32 slot,
          ))

pub size-outside : (s : Outbound) → s.in_message ≡ false → size s ≡ length s.body
unfolding size
size-outside s h =
    ap (λ b. length s.body + (if b then round_up4 (length s.tags + 2) else 0)) h ∙ omega arith

pub size-inside :
    (s : Outbound) → s.in_message ≡ true → size s ≡ length s.body + round_up4 (length s.tags + 2)
unfolding size
size-inside s h = ap (λ b. length s.body + (if b then round_up4 (length s.tags + 2) else 0)) h

-- A stream between messages that the write left, of known size.
pub settled :
    (s t : Outbound) (n : ℕ)
    → t.in_message ≡ false
    → length t.body ≡ n
    → n ≤ s.capacity
    → t.cursor ≤ n
    → t.capacity ≡ s.capacity
    → IsBounded t
settled s t n outside count fits cursor same = record {
  size_fits = omega (arith, size-outside t outside, count, fits, same);
  cursor_fits = omega (arith, count, cursor);
}

pub bundle_begun-IsBounded :
    (tag : ℕ) (s : Outbound)
    → IsBounded s
    → s.in_message ≡ false
    → bundle_space s ≤ s.capacity
    → IsBounded (bundle_begun tag s)
unfolding bundle_begun bundle_space
bundle_begun-IsBounded tag s bounded outside room =
    let below = (begin_element s).0 in
    let n = length (below ++ (bundle_bytes ++ from_uint64 tag)) in
    settled s (bundle_begun tag s) n outside refl
      (omega (
        arith,
        room,
        size-outside s outside,
        length-begin_element s bounded.cursor_fits,
        bounded.cursor_fits,
        length-append below (bundle_bytes ++ from_uint64 tag),
        length-append bundle_bytes (from_uint64 tag),
        length-from_uint64 tag,
      ))
      (omega arith) refl

pub message_begun-IsBounded :
    (a : Bytes) (s : Outbound)
    → IsBounded s
    → s.in_message ≡ false
    → message_space a s ≤ s.capacity
    → IsBounded (message_begun a s)
unfolding message_begun message_space
message_begun-IsBounded a s bounded outside room =
    let below = (begin_element s).0 in
    let t = message_begun a s in
    let count : length t.body ≡ length below + length (padded a) =
      ap (λ x. length (below ++ x)) (string_bytes-padded a) ∙ length-append below (padded a) in
    record {
      size_fits = omega (
        arith,
        size-inside t refl,
        count,
        length-padded a,
        room,
        size-outside s outside,
        length-begin_element s bounded.cursor_fits,
        bounded.cursor_fits,
      );
      cursor_fits = omega arith;
    }
