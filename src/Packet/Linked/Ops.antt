-- ===== src/Packet/Linked/Ops.antt =====
-- Elements begin and end on the chain of element pointers.
use lua2sc.Prelude.{
  ℕ, ◌+◌, ◌-◌, ◌^◌, ◌≤◌, ◌<◌, ◌≡◌, refl, sym, ap, subst, ◌∙◌, arith, ◌++◌, Option, none, some, Bool,
  true, false, length, length-append, length-take, length-drop, take, drop, take-append,
  take-append_le, take-take, take-length, ◌⊎◌, ◌==◌, if◌then◌else◌, ltb,
}
use lua2sc.Osc.Value.{
  Bytes, out_of_buffer_memory, message_in_progress, Result, ok, thrown, undefined, ◌>>=◌,
}
use lua2sc.Osc.Kept.{Kept}
use lua2sc.Packet.Order.{from_uint32, from_uint64, load_uint32}
use lua2sc.Packet.Outbound.{size, Outbound, is_some, with_space, begin_element, end_element}
use lua2sc.Packet.Write.{
  tag_slot, moved_arguments, tags_moved, outside_message, bundle_bytes, bundle_begun, message_begun,
}
use lua2sc.Packet.Arguments.{string_bytes}
use lua2sc.Packet.Encoded.{length-from_uint32}
use lua2sc.Packet.Grown.{open_slot, inner_element}
use lua2sc.Packet.Linked.{
  IsChain-append, Chain, outermost, inside, IsChain, Chain-take, load_uint32-take, IsLinked,
  begin_element-lem, inner_element-IsChain,
}

pub with_space-Kept :
    (P : Outbound → Type 0) (required : ℕ) (s d : Outbound) → P d → Kept P (with_space required s d)
unfolding with_space
with_space-Kept P required s d h = go (ltb s.capacity required)
  where
    go : (b : Bool) → Kept P (if b then thrown out_of_buffer_memory else ok d)
    go true = tt
    go false = h

pub outside_message-Kept :
    (P : Outbound → Type 0) (s : Outbound) (rest : Result Outbound)
    → (s.in_message ≡ false → Kept P rest)
    → Kept P (outside_message s rest)
unfolding outside_message
outside_message-Kept P s rest h = go s.in_message refl
  where
    go : (b : Bool) → s.in_message ≡ b → Kept P (if b then thrown message_in_progress else rest)
    go true e = tt
    go false e = h e

-- The part of the state that a change of the element keeps.
pub record IsPlaced (c : ℕ) (s : Outbound) : Type 0 where
  pub same_capacity : s.capacity ≡ c
  pub chain : IsChain (take s.cursor s.body) s.element

-- What is left below a slot when its element has been closed.
abbrev closed_body : (n count : ℕ) (b : Bytes) → Bytes
closed_body n count b = take n b ++ (from_uint32 count ++ drop (n + 4) b)

length-closed_body :
    (n count : ℕ) (b : Bytes) → n + 4 ≤ length b → length (closed_body n count b) ≡ length b
length-closed_body n count b h =
    let below : n ≤ length b = omega (arith, h) in
    omega (
      arith,
      h,
      length-take n b below,
      length-append (take n b) (from_uint32 count ++ drop (n + 4) b),
      length-append (from_uint32 count) (drop (n + 4) b),
      length-from_uint32 count,
      length-drop (n + 4) b,
    )

take-closed_body :
    (n count k : ℕ) (b : Bytes)
    → n + 4 ≤ length b
    → n ≤ k
    → take n (take k (closed_body n count b)) ≡ take n b
take-closed_body n count k b h le =
    let below : n ≤ length b = omega (arith, h) in
    let rest = from_uint32 count ++ drop (n + 4) b in
    take-take n k (take n b ++ rest) le
    ∙ ap (λ m. take m (take n b ++ rest)) (sym (length-take n b below))
    ∙ take-append (take n b) rest

-- The chain without its last slot, when that slot holds the size of its element.
closed-Chain :
    (n previous count k : ℕ) (b : Bytes)
    → n + 4 ≤ k
    → k ≤ length b
    → (previous ≡ 0) ⊎ (previous + 4 ≤ n)
    → Chain (take k b) previous
    → Chain (take k (closed_body n count b)) previous
closed-Chain n previous count k b fits within below chain =
    let room : n + 4 ≤ length b = omega (arith, fits, within) in
    let size = length-closed_body n count b room in
    Chain-take n (take k (closed_body n count b)) chain below
      (omega (arith, fits, length-take k (closed_body n count b) (omega (arith, size, within))))
      (take-take n k b (omega (arith, fits))
        ∙ sym (take-closed_body n count k b room (omega (arith, fits))))

pub end_element-Kept :
    (c : ℕ) (s : Outbound)
    → IsPlaced c s
    → s.cursor ≤ length s.body
    → is_some s.element ≡ true
    → Kept (λ t. IsPlaced c t × (t.in_message ≡ s.in_message)) (end_element s)
unfolding end_element
end_element-Kept c s placed within opened = go s.element refl opened placed.chain
  where
    P : Outbound → Type 0
    P t = IsPlaced c t × (t.in_message ≡ s.in_message)

    closing : ℕ → ℕ → Result Outbound
    closing slot previous =
        ok (record s {
          body = closed_body slot (s.cursor - slot - 4) s.body;
          element = some previous;
        })

    by : Option ℕ → Result Outbound
    by e = elim e [
      | none ↦ undefined
      | some slot ↦ elim (slot == 0) [
        | true ↦ ok (record s { element = none })
        | false ↦ load_uint32 (drop slot s.body) >>= closing slot
      ]
    ]

    size_of : length (take s.cursor s.body) ≡ s.cursor
    size_of = length-take s.cursor s.body within

    by_slot :
        (slot : ℕ) (b : Bool)
        → (slot == 0) ≡ b
        → Chain (take s.cursor s.body) slot
        → Kept P (elim b [
          | true ↦ ok (record s { element = none })
          | false ↦ load_uint32 (drop slot s.body) >>= closing slot
        ])
    by_slot slot true e chain = (record { same_capacity = placed.same_capacity; chain = tt }, refl)
    by_slot slot false e (outermost z) =
        let absurdly : ⊥ = ground (arith, e, z) in elim absurdly [ ]
    by_slot slot false e (inside previous positive fits loaded below rest) =
        let room : slot + 4 ≤ s.cursor = omega (arith, fits, size_of) in
        let found : load_uint32 (drop slot s.body) ≡ ok previous =
          sym (load_uint32-take slot s.cursor s.body room) ∙ loaded in
        subst (Kept P) (sym (ap (λ r. r >>= closing slot) found)) (
          record {
            same_capacity = placed.same_capacity;
            chain =
                closed-Chain slot previous (s.cursor - slot - 4) s.cursor s.body room within below
                  rest;
          },
          refl,
        )

    go :
        (e : Option ℕ)
        → s.element ≡ e
        → is_some s.element ≡ true
        → IsChain (take s.cursor s.body) s.element
        → Kept P (end_element s)
    go none e some_element chain =
        let no_element : false ≡ true = ap is_some (sym e) ∙ some_element in cc
    go (some slot) e some_element chain =
        subst (Kept P) (sym (ap by e))
          (by_slot slot (slot == 0) refl (subst (IsChain (take s.cursor s.body)) e chain))

body-size : (s : Outbound) → length s.body ≤ size s
unfolding size
body-size s = omega arith

-- A body that begins with a new element.
abbrev Begun : Bytes → Bytes × Option ℕ → Type 0
Begun x y = IsChain (take (length (y.0 ++ x)) (y.0 ++ x)) y.1

begin_element-IsChain :
    (c : ℕ) (s : Outbound) (x : Bytes) → c < 2 ^ 32 → IsLinked c s → Begun x (begin_element s)
begin_element-IsChain c s x small linked =
    let m = take s.cursor s.body in
    let whole = (m ++ open_slot s.element) ++ x in
    let size_of : length m ≡ s.cursor = length-take s.cursor s.body linked.bounded.cursor_fits in
    let short : length m < 2 ^ 32 = omega (
      arith,
      size_of,
      linked.bounded.cursor_fits,
      linked.bounded.size_fits,
      linked.same_capacity,
      small,
      body-size s,
    ) in
    let chain = inner_element-IsChain m x s.element short linked.chain in
    let placed : IsChain whole (inner_element s.element s.cursor) =
      subst (λ n. IsChain whole (inner_element s.element n)) size_of chain in
    subst (Begun x) (sym (begin_element-lem s))
      (subst (λ b. IsChain b (inner_element s.element s.cursor)) (sym (take-length whole)) placed)

inner_element-is_some : (e : Option ℕ) (n : ℕ) → is_some (inner_element e n) ≡ true
inner_element-is_some none n = refl
inner_element-is_some (some slot) n = refl

pub bundle_begun-IsPlaced :
    (c tag : ℕ) (s : Outbound) → c < 2 ^ 32 → IsLinked c s → IsPlaced c (bundle_begun tag s)
unfolding bundle_begun
bundle_begun-IsPlaced c tag s small linked = record {
  same_capacity = linked.same_capacity;
  chain = begin_element-IsChain c s (bundle_bytes ++ from_uint64 tag) small linked;
}

pub bundle_begun-in_message :
    (tag : ℕ) (s : Outbound) → (bundle_begun tag s).in_message ≡ s.in_message
unfolding bundle_begun
bundle_begun-in_message tag s = refl

pub message_begun-IsPlaced :
    (c : ℕ) (a : Bytes) (s : Outbound) → c < 2 ^ 32 → IsLinked c s → IsPlaced c (message_begun a s)
unfolding message_begun
message_begun-IsPlaced c a s small linked = record {
  same_capacity = linked.same_capacity;
  chain = begin_element-IsChain c s (string_bytes a) small linked;
}

pub message_begun-is_some : (a : Bytes) (s : Outbound) → is_some (message_begun a s).element ≡ true
unfolding message_begun
message_begun-is_some a s =
    ap (λ y. is_some y.1) (begin_element-lem s) ∙ inner_element-is_some s.element s.cursor

-- What is written behind the cursor leaves the chain.
pub behind-IsPlaced :
    (c : ℕ) (s : Outbound) (x : Bytes) → IsLinked c s → IsPlaced c (record s { body = s.body ++ x })
behind-IsPlaced c s x linked = record {
  same_capacity = linked.same_capacity;
  chain =
      subst (λ m. IsChain m s.element)
        (sym (take-append_le s.cursor s.body x linked.bounded.cursor_fits)) linked.chain;
}

pub tags_moved-IsPlaced : (c : ℕ) (s : Outbound) → IsLinked c s → IsPlaced c (tags_moved s)
unfolding tags_moved
tags_moved-IsPlaced c s linked =
    let x = tag_slot s.tags ++ moved_arguments s.tags (drop s.cursor s.body) in
    let m = take s.cursor s.body in
    record {
      same_capacity = linked.same_capacity;
      chain =
          subst (λ b. IsChain b s.element) (sym (take-length (m ++ x)))
            (IsChain-append m x s.element linked.chain);
    }

pub tags_moved-frame :
    (s : Outbound)
    → ((tags_moved s).cursor ≡ length (tags_moved s).body) × ((tags_moved s).element ≡ s.element)
unfolding tags_moved
tags_moved-frame s = (refl, refl)
