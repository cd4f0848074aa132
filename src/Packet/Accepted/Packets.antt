-- ===== src/Packet/Accepted/Packets.antt =====
-- Any packet, with its bundles at every depth, as oscpack_1_1_0/osc/OscReceivedElements.cpp reads it
-- where it announces no blob.
use lua2sc.Prelude.{
  ℕ, zero, suc, ◌+◌, ◌-◌, ◌%◌, ◌^◌, ◌≤◌, ◌<◌, ◌≡◌, refl, sym, subst, arith, [], ◌∷◌, ◌&&◌, Bool,
  true, false, length, drop, ◌==◌, ltb, if◌then◌else◌,
}
use lua2sc.Osc.Value.{Bytes, Result, ok, lua_error, thrown, undefined, ◌>>=◌, malformed_packet}
use lua2sc.Osc.Pack.{
  Received, Elements, message, bundle, throwing_message, throwing_bundle, undefined_reading,
  no_more, element,
}
use lua2sc.Osc.Kept.{Kept, Kept-bind}
use lua2sc.Packet.Order.{to_uint32, to_uint64}
use lua2sc.Packet.Memory.{byte_at, is_valid_size, is_multiple_of_4}
use lua2sc.Packet.Bundle.{
  is_bundle, init_bundle, shown_message, shown_bundle, read_bundle, received_by, element_by,
  received_at, elements_at, receive,
}
use lua2sc.Packet.Read.{bind-by}
use lua2sc.Packet.Accepted.{HasValue, integer64-HasValue}
use lua2sc.Packet.Accepted.Init.{NoBlobTag}
use lua2sc.Packet.Accepted.Safe.{IsMessage, read_message-Kept}
use lua2sc.Packet.Accepted.Bundle.{NoWrap, Sized, last, next, IsFilled, init_bundle-Kept}

-- What is shown of a packet is nowhere undefined.
abbrev mutual
  pub IsSound : Received → Type 0
  IsSound (message a as') = Unit {0}
  IsSound (bundle t es) = AreSound es
  IsSound (throwing_message e) = Unit {0}
  IsSound (throwing_bundle e) = Unit {0}
  IsSound undefined_reading = ⊥

  pub AreSound : Elements → Type 0
  AreSound no_more = Unit {0}
  AreSound (element r es) = IsSound r × AreSound es

byte_at-HasValue : (m : Bytes) (p : ℕ) → p < length m → HasValue (byte_at m p)
byte_at-HasValue [] p h = absurd (omega arith)
byte_at-HasValue (b ∷ m) zero h = (b, refl)
byte_at-HasValue (b ∷ m) (suc p) h = byte_at-HasValue m p (omega arith)

shown_message-IsSound : (r : Result Received) → Kept IsMessage r → IsSound (shown_message r)
unfolding shown_message
shown_message-IsSound (ok r) (a, as', e) = subst IsSound (sym e) tt
shown_message-IsSound (thrown e) k = tt
shown_message-IsSound (lua_error e) k = k
shown_message-IsSound undefined k = k

shown_bundle-IsSound : (r : Result Received) → Kept IsSound r → IsSound (shown_bundle r)
unfolding shown_bundle
shown_bundle-IsSound (ok r) k = k
shown_bundle-IsSound (thrown e) k = tt
shown_bundle-IsSound (lua_error e) k = k
shown_bundle-IsSound undefined k = k

received_by-IsSound :
    (b : Result Bool) (as_bundle as_message : Result Received)
    → HasValue b
    → Kept IsSound as_bundle
    → Kept IsMessage as_message
    → IsSound (received_by b as_bundle as_message)
unfolding received_by
received_by-IsSound (ok true) x y h k l = shown_bundle-IsSound x k
received_by-IsSound (ok false) x y h k l = shown_message-IsSound y l
received_by-IsSound (thrown e) x y (c, h) k l = cc
received_by-IsSound (lua_error e) x y (c, h) k l = cc
received_by-IsSound undefined x y (c, h) k l = cc

module _ (m : Bytes) (blobs : NoBlobTag m) (no_wrap : NoWrap m) where
  is_bundle-HasValue : (p size : ℕ) → p + size ≤ length m → HasValue (is_bundle m p size)
  unfolding is_bundle
  is_bundle-HasValue p size within = go (ltb 0 size) (ltb size (2 ^ 31)) refl
    where
      go :
          (a b : Bool)
          → ltb 0 size ≡ a
          → HasValue (if a && b then (byte_at m p >>= λ c. ok (c == b'#')) else ok false)
      go false b e = (false, refl)
      go true false e = (false, refl)
      go true true e =
          let (c, here) = byte_at-HasValue m p (ground (arith, e, within)) in
          (c == b'#', bind-by (λ c. ok (c == b'#')) here)

  read_bundle-Kept :
      (p size : ℕ) (es : Elements)
      → p + size ≤ length m
      → (IsFilled m p size → AreSound es)
      → Kept IsSound (read_bundle m p size es)
  unfolding read_bundle
  read_bundle-Kept p size es within sound =
      Kept-bind (λ (n : ℕ). IsFilled m p size) IsSound (init_bundle m p size)
        (λ n. to_uint64 (drop (p + 8) m) >>= λ tag. ok (bundle tag es))
        (init_bundle-Kept m no_wrap p size within)
        λ n filled.
          let ((tag, read), _) =
            integer64-HasValue (p + 8) m (omega (arith, filled.header, within)) in
          subst (Kept IsSound) (sym (bind-by (λ tag. ok (bundle tag es)) read)) (sound filled)

  elements_at-step :
      (fuel p end : ℕ)
      → Sized m p end
      → ((size : ℕ)
          → p + (4 + size) ≤ end
          → Sized m (p + (4 + size)) end
          → IsSound (received_at fuel m (p + 4) size)
            × AreSound (elements_at fuel m (p + (4 + size)) end))
      → AreSound (elements_at (suc fuel) m p end)
  unfolding elements_at element_by
  elements_at-step fuel p end sized each = go (p == end) refl sized
    where
      shown : ℕ → Elements
      shown size =
          element (received_at fuel m (p + 4) size) (elements_at fuel m (p + (4 + size)) end)

      go :
          (b : Bool)
          → (p == end) ≡ b
          → Sized m p end
          → AreSound (elim b [ true ↦ no_more | false ↦ element_by (to_uint32 (drop p m)) shown ])
      go true e s = tt
      go false e (last same) = absurd (ground (arith, e, same))
      go false e (next {size = size} read room rest) =
          subst (λ r. AreSound (element_by r shown)) (sym read) (each size room rest)

  mutual
    unfolding received_at

    received_at-IsSound :
        (fuel p size : ℕ) → p + size ≤ length m → size < fuel → IsSound (received_at fuel m p size)
    received_at-IsSound zero p size within enough = absurd (omega arith)
    received_at-IsSound (suc fuel) p size within enough =
        received_by-IsSound (is_bundle m p size) _ _ (is_bundle-HasValue p size within)
          (read_bundle-Kept p size (elements_at fuel m (p + 16) (p + size)) within λ filled.
            elements_at-AreSound fuel (p + 16) (p + size) filled.elements within
              (omega (arith, filled.header, enough)))
          (read_message-Kept m blobs p size within)

    elements_at-AreSound :
        (fuel p end : ℕ)
        → Sized m p end
        → end ≤ length m
        → end - p < fuel
        → AreSound (elements_at fuel m p end)
    elements_at-AreSound zero p end sized within enough = absurd (omega arith)
    elements_at-AreSound (suc fuel) p end sized within enough =
        elements_at-step fuel p end sized λ size room rest. (
          received_at-IsSound fuel (p + 4) size (omega (arith, room, within))
              (omega (arith, room, enough)),
          elements_at-AreSound fuel (p + (4 + size)) end rest within (omega (arith, room, enough)),
        )

  -- A packet is shown, and nowhere undefined, or refused.
  pub receive-Kept : Kept IsSound (receive m)
  unfolding receive
  receive-Kept = go (is_valid_size size) (size == 0) (is_multiple_of_4 size)
    where
      size : ℕ
      size = length m % 2 ^ 32

      go :
          (a b c : Bool)
          → Kept IsSound (
              if a
              then if b
                then thrown malformed_packet
                else if c
                then ok (received_at (suc (length m)) m 0 size)
                else thrown malformed_packet
              else thrown malformed_packet)
      go false b c = tt
      go true true c = tt
      go true false false = tt
      go true false true = received_at-IsSound (suc (length m)) 0 size (omega arith) (omega arith)
