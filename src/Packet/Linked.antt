-- ===== src/Packet/Linked.antt =====
-- The chain of element pointers of oscpack_1_1_0/osc/OscOutboundPacketStream.cpp, which is kept in the
-- slots of the open elements.
pub mod Ops
pub mod Reach
use lua2sc.Prelude.{
  ℕ, zero, suc, ◌+◌, ◌-◌, ◌^◌, ◌≤◌, ◌<◌, ◌≡◌, refl, sym, ap, subst, ◌∙◌, arith, List, [], ◌∷◌, ◌++◌,
  Option, none, some, Bool, true, false, length, length-append, length-take, take, drop,
  take-append, take-append_le, take-length, append-nil, drop-append, append_assoc, ◌⊎◌, inl, inr,
}
use lua2sc.Osc.Value.{Bytes, Exception, Result, ok, lua_error, thrown, undefined}
use lua2sc.Packet.Order.{native_uint32, load_uint32}
use lua2sc.Packet.Outbound.{Outbound, is_some, begin_element}
use lua2sc.Packet.Encoded.{load_uint32-native_uint32, length-native_uint32}
use lua2sc.Packet.Grown.{open_slot, inner_element}
use lua2sc.Packet.Bounded.{IsBounded}

-- A pointer is 0, for the outermost element, or to a slot in the memory that holds such a pointer,
-- to a slot below it.
pub data Chain (m : Bytes) : ℕ → Type 0 where
  outermost : {n : ℕ} → n ≡ 0 → Chain m n
  inside :
      {n : ℕ} (previous : ℕ)
      → 0 < n
      → n + 4 ≤ length m
      → load_uint32 (drop n m) ≡ ok previous
      → (previous ≡ 0) ⊎ (previous + 4 ≤ n)
      → Chain m previous
      → Chain m n

abbrev pub IsChain : Bytes → Option ℕ → Type 0
IsChain m none = Unit {0}
IsChain m (some n) = Chain m n

-- A pointer of a chain is 0 or a slot in the memory.
pub Chain-within : {m : Bytes} {n : ℕ} → Chain m n → (n ≡ 0) ⊎ (n + 4 ≤ length m)
Chain-within (outermost e) = inl e
Chain-within (inside previous positive fits loaded below rest) = inr fits

pub load_uint32-take :
    (n k : ℕ) (m : Bytes) → n + 4 ≤ k → load_uint32 (drop n (take k m)) ≡ load_uint32 (drop n m)
unfolding load_uint32
load_uint32-take zero (suc (suc (suc (suc k)))) [] h = refl
load_uint32-take zero (suc (suc (suc (suc k)))) (a ∷ []) h = refl
load_uint32-take zero (suc (suc (suc (suc k)))) (a ∷ b ∷ []) h = refl
load_uint32-take zero (suc (suc (suc (suc k)))) (a ∷ b ∷ c ∷ []) h = refl
load_uint32-take zero (suc (suc (suc (suc k)))) (a ∷ b ∷ c ∷ d ∷ m) h = refl
load_uint32-take zero zero m h = absurd (omega arith)
load_uint32-take zero (suc zero) m h = absurd (omega arith)
load_uint32-take zero (suc (suc zero)) m h = absurd (omega arith)
load_uint32-take zero (suc (suc (suc zero))) m h = absurd (omega arith)
load_uint32-take (suc n) zero m h = absurd (omega arith)
load_uint32-take (suc n) (suc k) [] h = refl
load_uint32-take (suc n) (suc k) (a ∷ m) h = load_uint32-take n k m (omega arith)

-- A chain depends on the memory up to the end of its first slot only.
pub Chain-take :
    {m : Bytes} {n : ℕ} (k : ℕ) (m' : Bytes)
    → Chain m n
    → (n ≡ 0) ⊎ (n + 4 ≤ k)
    → k ≤ length m'
    → take k m ≡ take k m'
    → Chain m' n
Chain-take k m' (outermost e) w l same = outermost e
Chain-take k m' (inside previous positive fits loaded below rest) (inl e) l same = outermost e
Chain-take {m} {n} k m' (inside previous positive fits loaded below rest) (inr h) l same =
    inside previous positive (omega arith)
      (sym (load_uint32-take n k m' h)
        ∙ ap (λ x. load_uint32 (drop n x)) (sym same)
        ∙ load_uint32-take n k m h
        ∙ loaded)
      below (Chain-take k m' rest (lower below) l same)
  where
    lower : (previous ≡ 0) ⊎ (previous + 4 ≤ n) → (previous ≡ 0) ⊎ (previous + 4 ≤ k)
    lower (inl e) = inl e
    lower (inr e) = inr (omega (arith, e, h))

pub IsChain-append : (m x : Bytes) (e : Option ℕ) → IsChain m e → IsChain (m ++ x) e
IsChain-append m x none c = tt
IsChain-append m x (some n) c =
    Chain-take (length m) (m ++ x) c (Chain-within c) (omega (arith, length-append m x))
      (take-length m ∙ sym (take-append m x))

-- The state between two writes: within the buffer, with a chain below the cursor, and with an open
-- element where a message is in progress.
pub record IsLinked (c : ℕ) (s : Outbound) : Type 0 where
  pub bounded : IsBounded s
  pub same_capacity : s.capacity ≡ c
  pub chain : IsChain (take s.cursor s.body) s.element
  pub opened : s.in_message ≡ true → is_some s.element ≡ true

pub begin_element-lem :
    (s : Outbound)
    → begin_element s
      ≡ (take s.cursor s.body ++ open_slot s.element, inner_element s.element s.cursor)
unfolding begin_element
begin_element-lem s = go s.element refl
  where
    go :
        (e : Option ℕ)
        → s.element ≡ e
        → begin_element s ≡ (take s.cursor s.body ++ open_slot e, inner_element e s.cursor)
    go none e = rw (begin_element, e) (rw append-nil)
    go (some slot) e = rw (begin_element, e) refl

-- A new element prolongs the chain.
pub inner_element-IsChain :
    (m x : Bytes) (e : Option ℕ)
    → length m < 2 ^ 32
    → IsChain m e
    → IsChain ((m ++ open_slot e) ++ x) (inner_element e (length m))
inner_element-IsChain m x none small c = outermost refl
inner_element-IsChain m x (some slot) small c = go (length m) refl
  where
    whole : (m ++ native_uint32 slot) ++ x ≡ m ++ (native_uint32 slot ++ x)
    whole = append_assoc m (native_uint32 slot) x

    stored : (slot ≡ 0) ⊎ (slot + 4 ≤ length m) → slot < 2 ^ 32
    stored (inl e) = omega (arith, e)
    stored (inr e) = omega (arith, e, small)

    go : (n : ℕ) → n ≡ length m → Chain ((m ++ native_uint32 slot) ++ x) n
    go zero e = outermost refl
    go (suc n) e =
        inside slot (omega arith)
          (omega (
            arith,
            e,
            length-append (m ++ native_uint32 slot) x,
            length-append m (native_uint32 slot),
            length-native_uint32 slot,
          ))
          (ap (λ k. load_uint32 (drop k ((m ++ native_uint32 slot) ++ x))) e
            ∙ ap (λ y. load_uint32 (drop (length m) y)) whole
            ∙ ap load_uint32 (drop-append m (native_uint32 slot ++ x))
            ∙ load_uint32-native_uint32 slot x (stored (Chain-within c)))
          (subst (λ k. (slot ≡ 0) ⊎ (slot + 4 ≤ k)) (sym e) (Chain-within c))
          (IsChain-append (m ++ native_uint32 slot) x (some slot)
            (IsChain-append m (native_uint32 slot) (some slot) c))
