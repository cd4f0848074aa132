-- ===== src/Packet/Accepted/Bundle.antt =====
-- `ReceivedBundle::Init` of oscpack_1_1_0/osc/OscReceivedElements.cpp on any bytes, and the elements that
-- it accepts.
use lua2sc.Prelude.{
  ℕ, zero, suc, ◌+◌, ◌-◌, ◌≤◌, ◌<◌, ◌≡◌, ◌%◌, ◌^◌, refl, sym, subst, arith, Bool, true, false,
  length, take, drop, ◌==◌, ltb, if◌then◌else◌, ==_iff,
}
use lua2sc.Osc.Value.{Bytes, Result, ok, thrown, ◌>>=◌, malformed_bundle, bytes_eq}
use lua2sc.Osc.Kept.{Kept, Kept-bind, Kept-map}
use lua2sc.Packet.Order.{to_uint32}
use lua2sc.Packet.Write.{bundle_bytes}
use lua2sc.Packet.Memory.{is_valid_size, is_multiple_of_4}
use lua2sc.Packet.Bundle.{check_elements, init_bundle}
use lua2sc.Packet.Accepted.{integer32-HasValue}
use lua2sc.Packet.Accepted.Safe.{multiple_of_4}

module _ (m : Bytes) where
  -- Where the size of an element of a bundle can stand: behind the header of a bundle, or behind an
  -- element.
  pub data SizeSlot : ℕ → Type 0 where
    of_bundle : (p : ℕ) → bytes_eq (take 8 (drop p m)) bundle_bytes ≡ true → SizeSlot (p + 16)
    behind : (p size : ℕ) → SizeSlot p → to_uint32 (drop p m) ≡ ok size → SizeSlot (p + (4 + size))

  -- No size of an element that passes the test for a multiple of four wraps around when the four bytes
  -- in front of it are added: of 32-bit sizes, 2 ^ 32 - 4 does.
  abbrev pub NoWrap : Type 0
  NoWrap =
      (p size : ℕ) → SizeSlot p → to_uint32 (drop p m) ≡ ok size → size % 4 ≡ 0 → 4 + size < 2 ^ 32

  -- Elements from `p` to `end`, each behind its size.
  pub data Sized : ℕ → ℕ → Type 0 where
    last : {p end : ℕ} → p ≡ end → Sized p end
    next :
        {p end size : ℕ}
        → to_uint32 (drop p m) ≡ ok size
        → p + (4 + size) ≤ end
        → Sized (p + (4 + size)) end
        → Sized p end

  -- What `Init` of a bundle shows: at least the time tag, and the elements.
  pub record IsFilled (p size : ℕ) : Type 0 where
    pub header : 16 ≤ size
    pub elements : Sized (p + 16) (p + size)

module _ (m : Bytes) (no_wrap : NoWrap m) where
  no_wrap_here :
      (p size : ℕ)
      → SizeSlot m p
      → to_uint32 (drop p m) ≡ ok size
      → is_multiple_of_4 size ≡ true
      → p + (4 + size) ≡ p + (4 + size) % 2 ^ 32
  no_wrap_here p size slot read fours =
      let small = no_wrap p size slot read (multiple_of_4 size fours) in omega (arith, small)

  -- What the loop sees after an element.
  abbrev After : ℕ → ℕ → ℕ → Type 0
  After fuel end q = Kept (λ (n : ℕ). Sized m q end) (check_elements fuel m q end)

  check_elements-Kept :
      (fuel p end : ℕ) → SizeSlot m p → end ≤ length m → end - p < fuel → After fuel end p
  unfolding check_elements
  check_elements-Kept zero p end slot within enough = absurd (omega arith)
  check_elements-Kept (suc fuel) p end slot within enough =
      go
        (λ size lt read fours.
          subst (λ q. Kept (λ (n : ℕ). Sized m (p + (4 + size)) end) (check_elements fuel m q end))
            (no_wrap_here p size slot read fours)
            (check_elements-Kept fuel (p + (4 + size)) end (behind p size slot read) within
              (omega (arith, lt, enough))))
        (ltb p end) refl
    where
      Later : Type 0
      Later =
          (size : ℕ)
          → p < end
          → to_uint32 (drop p m) ≡ ok size
          → is_multiple_of_4 size ≡ true
          → Kept (λ (n : ℕ). Sized m (p + (4 + size)) end)
              (check_elements fuel m (p + (4 + size) % 2 ^ 32) end)

      counted : ℕ → Result ℕ
      counted size = check_elements fuel m (p + (4 + size) % 2 ^ 32) end >>= λ count. ok (count + 1)

      from_size : ℕ → Result ℕ
      from_size size = elim (is_multiple_of_4 size) [
        | false ↦ thrown malformed_bundle
        | true ↦ elim (ltb end (p + (4 + size) % 2 ^ 32)) [
          | true ↦ thrown malformed_bundle
          | false ↦ counted size
        ]
      ]

      at_size :
          Later
          → (size : ℕ) → p < end
          → to_uint32 (drop p m) ≡ ok size
          → (b c : Bool) → is_multiple_of_4 size ≡ b
          → ltb end (p + (4 + size) % 2 ^ 32) ≡ c
          → Kept
              (λ (n : ℕ). Sized m p end)
              (elim b [
                | false ↦ thrown malformed_bundle
                | true ↦ elim c [ true ↦ thrown malformed_bundle | false ↦ counted size ]
              ])
      at_size later size lt read false c f e = tt
      at_size later size lt read true true f e = tt
      at_size later size lt read true false f e =
          let step = no_wrap_here p size slot read f in
          let room : p + (4 + size) ≤ end = ground (arith, e, step) in
          Kept-bind (λ (n : ℕ). Sized m (p + (4 + size)) end) (λ (n : ℕ). Sized m p end)
            (check_elements fuel m (p + (4 + size) % 2 ^ 32) end) (λ count. ok (count + 1))
            (later size lt read f) λ n rest. next read room rest

      sized_by :
          Later
          → p < end
          → (b : Bool) → ltb end (p + 4) ≡ b
          → Kept
              (λ (n : ℕ). Sized m p end)
              (elim b [
                | true ↦ thrown malformed_bundle
                | false ↦ to_uint32 (drop p m) >>= from_size
              ])
      sized_by later lt true e = tt
      sized_by later lt false e =
          let room : p + 4 ≤ length m = ground (arith, e, within) in
          let ((size, read), _) = integer32-HasValue p m room in
          subst (λ r. Kept (λ (n : ℕ). Sized m p end) (r >>= from_size)) (sym read)
            (at_size later size lt read (is_multiple_of_4 size) (ltb end (p + (4 + size) % 2 ^ 32))
              refl refl)

      at_end :
          (b : Bool)
          → (p == end) ≡ b
          → Kept (λ (n : ℕ). Sized m p end) (if b then ok 0 else thrown malformed_bundle)
      at_end true e = last ((==_iff p end).0 e)
      at_end false e = tt

      go :
          Later
          → (b : Bool) → ltb p end ≡ b
          → Kept
              (λ (n : ℕ). Sized m p end)
              (elim b [
                | false ↦ if p == end then ok 0 else thrown malformed_bundle
                | true ↦ elim (ltb end (p + 4)) [
                  | true ↦ thrown malformed_bundle
                  | false ↦ to_uint32 (drop p m) >>= from_size
                ]
              ])
      go later false e = at_end (p == end) refl
      go later true e = sized_by later (ground arith) (ltb end (p + 4)) refl

  pub init_bundle-Kept :
      (p size : ℕ)
      → p + size ≤ length m
      → Kept (λ (n : ℕ). IsFilled m p size) (init_bundle m p size)
  unfolding init_bundle
  init_bundle-Kept p size within =
      go (is_valid_size size) (ltb size 16) (is_multiple_of_4 size)
        (bytes_eq (take 8 (drop p m)) bundle_bytes) refl refl
    where
      go :
          (a b c e : Bool)
          → ltb size 16 ≡ b
          → bytes_eq (take 8 (drop p m)) bundle_bytes ≡ e
          → Kept
              (λ (n : ℕ). IsFilled m p size)
              (elim a [
                | false ↦ thrown malformed_bundle
                | true ↦ elim b [
                  | true ↦ thrown malformed_bundle
                  | false ↦ elim c [
                    | false ↦ thrown malformed_bundle
                    | true ↦ elim e [
                      | false ↦ thrown malformed_bundle
                      | true ↦ check_elements (length m) m (p + 16) (p + size)
                    ]
                  ]
                ]
              ])
      go false b c e h k = tt
      go true true c e h k = tt
      go true false false e h k = tt
      go true false true false h k = tt
      go true false true true h k =
          let long : 16 ≤ size = ground (arith, h) in
          Kept-map (λ (n : ℕ). Sized m (p + 16) (p + size)) (λ (n : ℕ). IsFilled m p size)
            (check_elements (length m) m (p + 16) (p + size))
            (check_elements-Kept (length m) (p + 16) (p + size) (of_bundle p k) within
              (omega (arith, long, within)))
            λ n elements. record { header = long; elements = elements }
