-- ===== src/Packet/Grown.antt =====
-- What a single write of oscpack_1_1_0/osc/OscOutboundPacketStream.cpp does where it succeeds.
use lua2sc.Prelude.{
  ℕ, ◌+◌, ◌-◌, ◌^◌, ◌≤◌, ◌<◌, ◌≡◌, refl, sym, ap, ◌∙◌, arith, [], ◌++◌, append_assoc, append-nil,
  Option, none, some, Bool, true, false, length, length-append, take, drop, take-append,
  drop-append, take-length, if◌then◌else◌, ltb, ◌==◌, Bool-cases, inl, inr, ne→==,
}
use lua2sc.Osc.Value.{Bytes, Result, ok, thrown, message_in_progress, out_of_buffer_memory}
use lua2sc.Packet.Order.{native_uint32}
use lua2sc.Packet.Outbound.{Outbound, with_space, begin_element, end_element}
use lua2sc.Packet.Write.{outside_message}
use lua2sc.Packet.Encoded.{load_uint32-native_uint32, length-native_uint32}
use lua2sc.Packet.Layout.{sized}

-- A write that succeeds had the space it asked for.
pub with_space-ok :
    (required : ℕ) (s d s' : Outbound)
    → with_space required s d ≡ ok s'
    → (required ≤ s.capacity) × (s' ≡ d)
unfolding with_space
with_space-ok required s d s' h = go (ltb s.capacity required) refl h
  where
    go :
        (b : Bool)
        → ltb s.capacity required ≡ b
        → (if b then thrown out_of_buffer_memory else ok d) ≡ ok s'
        → (required ≤ s.capacity) × (s' ≡ d)
    go true e h = cc
    go false e h = (ground arith, cc)

pub outside_message-ok :
    (s : Outbound) (rest : Result Outbound) (s' : Outbound)
    → outside_message s rest ≡ ok s'
    → (s.in_message ≡ false) × (rest ≡ ok s')
unfolding outside_message
outside_message-ok s rest s' h = elim (Bool-cases s.in_message) [
  | inl inside ↦ let e : thrown message_in_progress ≡ ok s' = sym (rw inside) ∙ h in cc
  | inr outside ↦ (outside, sym (rw outside) ∙ h)
]

-- The slot that an element begins with, while it is open and when it is closed, and the element
-- pointer inside it.
abbrev pub open_slot : Option ℕ → Bytes
open_slot none = []
open_slot (some slot) = native_uint32 slot

abbrev pub framed : Option ℕ → Bytes → Bytes
framed none x = x
framed (some slot) x = sized x

abbrev pub inner_element : Option ℕ → ℕ → Option ℕ
inner_element none n = some 0
inner_element (some slot) n = some n

-- The slot can be stored and found again.
abbrev pub IsOpen : Option ℕ → ℕ → Type 0
IsOpen none n = Unit {0}
IsOpen (some slot) n = (slot < 2 ^ 32) × (0 < n)

-- Between messages: the cursor is at the end, and a buffer of less than 2 ^ 32 bytes holds the body.
pub record IsResting (s : Outbound) : Type 0 where
  pub outside : s.in_message ≡ false
  pub no_tags : s.tags ≡ []
  pub within : length s.body ≤ s.capacity
  pub small : s.capacity < 2 ^ 32
  pub at_end : s.cursor ≡ length s.body

pub begin_element-IsResting :
    (s : Outbound)
    → IsResting s
    → begin_element s ≡ (s.body ++ open_slot s.element, inner_element s.element (length s.body))
unfolding begin_element
begin_element-IsResting s resting = go s.element refl
  where
    whole : take s.cursor s.body ≡ s.body
    whole = ap (λ n. take n s.body) resting.at_end ∙ take-length s.body

    go :
        (e : Option ℕ)
        → s.element ≡ e
        → begin_element s ≡ (s.body ++ open_slot e, inner_element e (length s.body))
    go none h = rw (begin_element, h) (rw (whole, append-nil))
    go (some slot) h = rw (begin_element, h) (rw (whole, resting.at_end))

-- The end of an element whose content is `x`.
pub end_element-lem :
    (s : Outbound) (below : Bytes) (e : Option ℕ) (x : Bytes)
    → s.body ≡ below ++ (open_slot e ++ x)
    → s.cursor ≡ length s.body
    → s.element ≡ inner_element e (length below)
    → IsOpen e (length below)
    → end_element s ≡ ok (record s { body = below ++ framed e x; element = e })
unfolding end_element
end_element-lem s below none x body cursor element opened =
    rw (end_element, element) (rw (sym body))
end_element-lem s below (some slot) x body cursor element opened =
    let different : (length below == 0) ≡ false =
      ne→== (length below) 0 (λ z. omega (arith, z, opened.1)) in
    let found : drop (length below) s.body ≡ native_uint32 slot ++ x =
      ap (drop (length below)) body ∙ drop-append below (native_uint32 slot ++ x) in
    let taken : take (length below) s.body ≡ below =
      ap (take (length below)) body ∙ take-append below (native_uint32 slot ++ x) in
    let split : s.body ≡ (below ++ native_uint32 slot) ++ x =
      body ∙ sym (append_assoc below (native_uint32 slot) x) in
    let start : length below + 4 ≡ length (below ++ native_uint32 slot) =
      omega (arith, length-append below (native_uint32 slot), length-native_uint32 slot) in
    let rest : drop (length below + 4) s.body ≡ x =
      ap (λ n. drop n s.body) start
      ∙ ap (drop (length (below ++ native_uint32 slot))) split
      ∙ drop-append (below ++ native_uint32 slot) x in
    let count : s.cursor - length below - 4 ≡ length x =
      omega
        (arith, cursor, start, ap length split, length-append (below ++ native_uint32 slot) x) in
    rw (end_element, element)
      (rw different
        (rw (found, load_uint32-native_uint32 slot x opened.0) (rw (taken, rest, count))))
