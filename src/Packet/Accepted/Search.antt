-- ===== src/Packet/Accepted/Search.antt =====
-- `FindStr4End` of oscpack_1_1_0/osc/OscReceivedElements.cpp reads inside the bytes that it is given.
use lua2sc.Prelude.{
  ℕ, zero, suc, ◌+◌, ◌-◌, ◌%◌, ◌≤◌, ◌<◌, ◌≡◌, refl, ap, ◌∙◌, arith, [], ◌∷◌, Option, none, some,
  Bool, true, false, length, ◌==◌, ltb, leb, if◌then◌else◌, ==_iff,
}
use lua2sc.Osc.Value.{Bytes, Result, ok, ◌>>=◌}
use lua2sc.Osc.Kept.{Kept, Kept-bind, Kept-map}
use lua2sc.Packet.Memory.{byte_at, scan_bounded, find_str4_end_bounded}

-- A byte inside the memory is there.
pub byte_at-Kept : (m : Bytes) (p : ℕ) → p < length m → Kept (λ c. byte_at m p ≡ ok c) (byte_at m p)
byte_at-Kept [] p h = absurd (omega arith)
byte_at-Kept (b ∷ m) zero h = refl
byte_at-Kept (b ∷ m) (suc p) h = byte_at-Kept m p (omega arith)

-- A pointer from `p` to `end`, a multiple of four before `end`.
pub record IsBefore (p end q : ℕ) : Type 0 where
  pub from : p ≤ q
  pub to : q ≤ end
  pub aligned : (end - q) % 4 ≡ 0

module _ (m : Bytes) where
  scan_bounded-Kept :
      (fuel p end : ℕ)
      → p ≤ end
      → end < length m
      → (end - p) % 4 ≡ 0
      → end - p < fuel
      → Kept (IsBefore p end) (scan_bounded fuel m p end)
  unfolding scan_bounded
  scan_bounded-Kept zero p end le within even enough = absurd (omega arith)
  scan_bounded-Kept (suc fuel) p end le within even enough =
      go
        (λ lt.
          scan_bounded-Kept fuel (p + 4) end (omega (arith, lt, even)) within
            (omega (arith, lt, even)) (omega (arith, lt, enough)))
        (ltb p end) refl
    where
      Later : Type 0
      Later = p < end → Kept (IsBefore (p + 4) end) (scan_bounded fuel m (p + 4) end)

      tested : ℕ → Result ℕ
      tested c = elim (c == 0) [ true ↦ ok p | false ↦ scan_bounded fuel m (p + 4) end ]

      at_zero :
          Later
          → p < end
          → (b : Bool)
          → Kept (IsBefore p end) (elim b [ true ↦ ok p | false ↦ scan_bounded fuel m (p + 4) end ])
      at_zero later lt true = record { from = omega arith; to = le; aligned = even }
      at_zero later lt false =
          Kept-map (IsBefore (p + 4) end) (IsBefore p end) (scan_bounded fuel m (p + 4) end)
            (later lt)
            λ q k. record { from = omega (arith, k.from); to = k.to; aligned = k.aligned }

      go :
          Later
          → (b : Bool) → ltb p end ≡ b
          → Kept (IsBefore p end) (elim b [ false ↦ ok p | true ↦ byte_at m p >>= tested ])
      go later false e = record { from = omega arith; to = le; aligned = even }
      go later true e =
          let lt : p < end = ground arith in
          Kept-bind (λ c. byte_at m p ≡ ok c) (IsBefore p end) (byte_at m p) tested
            (byte_at-Kept m p (omega (arith, lt, within))) (λ c here. at_zero later lt (c == 0))

  -- Where a text that was found ends: after a zero, still inside.
  pub record EndsText (p end n : ℕ) : Type 0 where
    pub zero_at : ℕ
    pub reads_zero : byte_at m zero_at ≡ ok 0
    pub behind : p ≤ zero_at
    pub before : zero_at < n
    pub inside : IsBefore p end n

  abbrev pub Found : ℕ → ℕ → Option ℕ → Type 0
  Found p end none = Unit {0}
  Found p end (some n) = EndsText p end n

  pub find_str4_end_bounded-Kept :
      (p end : ℕ)
      → p ≤ end
      → end ≤ length m
      → (end - p) % 4 ≡ 0
      → Kept (Found p end) (find_str4_end_bounded m p end)
  unfolding find_str4_end_bounded
  find_str4_end_bounded-Kept p end le within even = go (leb end p) refl
    where
      ending : ℕ → ℕ → Result (Option ℕ)
      ending q z = ok (if z == 0 then some (q + 1) else none)

      last : ℕ → Result (Option ℕ)
      last q = byte_at m q >>= ending q

      ended :
          (q z : ℕ)
          → p < end
          → IsBefore (p + 3) (end - 1) q
          → byte_at m q ≡ ok z
          → (b : Bool) → (z == 0) ≡ b
          → Found p end (if b then some (q + 1) else none)
      ended q z lt k here false e = tt
      ended q z lt k here true e = record {
        zero_at = q;
        reads_zero = here ∙ ap ok ((==_iff z 0).0 e);
        behind = omega (arith, k.from);
        before = omega arith;
        inside = record {
          from = omega (arith, k.from);
          to = omega (arith, k.to, lt);
          aligned = omega (arith, k.aligned, k.to, lt, even);
        };
      }

      first_byte : ℕ → Result (Option ℕ)
      first_byte c = elim (c == 0) [
        | true ↦ ok (some (p + 4))
        | false ↦ scan_bounded (length m) m (p + 3) (end - 1) >>= last
      ]

      by_first :
          (c : ℕ)
          → p < end
          → byte_at m p ≡ ok c
          → (b : Bool) → (c == 0) ≡ b
          → Kept (Found p end) (elim b [
            | true ↦ ok (some (p + 4))
            | false ↦ scan_bounded (length m) m (p + 3) (end - 1) >>= last
          ])
      by_first c lt here true e = record {
        zero_at = p;
        reads_zero = here ∙ ap ok ((==_iff c 0).0 e);
        behind = omega arith;
        before = omega arith;
        inside = record {
          from = omega arith;
          to = omega (arith, lt, even);
          aligned = omega (arith, lt, even);
        };
      }
      by_first c lt here false e =
          Kept-bind (IsBefore (p + 3) (end - 1)) (Found p end)
            (scan_bounded (length m) m (p + 3) (end - 1)) last
            (scan_bounded-Kept (length m) (p + 3) (end - 1) (omega (arith, lt, even))
              (omega (arith, lt, within)) (omega (arith, lt, even)) (omega (arith, lt, within)))
            λ q k.
              Kept-bind (λ z. byte_at m q ≡ ok z) (Found p end) (byte_at m q) (ending q)
                (byte_at-Kept m q (omega (arith, k.to, lt, within)))
                λ z there. ended q z lt k there (z == 0) refl

      go :
          (b : Bool)
          → leb end p ≡ b
          → Kept (Found p end) (elim b [ true ↦ ok none | false ↦ byte_at m p >>= first_byte ])
      go true e = tt
      go false e =
          let lt : p < end = ground arith in
          Kept-bind (λ c. byte_at m p ≡ ok c) (Found p end) (byte_at m p) first_byte
            (byte_at-Kept m p (omega (arith, lt, within)))
            λ c here. by_first c lt here (c == 0) refl
