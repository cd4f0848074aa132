-- ===== src/Packet/Accepted/Text.antt =====
-- `FindStr4End` of oscpack_1_1_0/osc/OscReceivedElements.cpp on any bytes.
use lua2sc.Prelude.{
  ℕ, zero, suc, ◌+◌, ◌-◌, ◌≤◌, ◌<◌, ◌≡◌, refl, sym, ap, ◌∙◌, arith, Option, none, some, Bool, true,
  false, length, drop, ◌==◌, ltb, leb, if◌then◌else◌,
}
use lua2sc.Osc.Value.{Bytes, Result, ok, ◌>>=◌}
use lua2sc.Osc.Writes.{run_succeeds}
use lua2sc.Packet.Memory.{
  byte_at, scan_bounded, find_str4_end_bounded, scan, find_str4_end, c_string_at,
}
use lua2sc.Packet.Read.{bind-by}
use lua2sc.Packet.Accepted.{HasValue, text-HasValue}

-- Where the bounded loop stops at a zero, so does the unbounded one, and not before its start.
scan-scan_bounded :
    (fuel : ℕ) (m : Bytes) (p end q : ℕ)
    → scan_bounded fuel m p end ≡ ok q
    → byte_at m q ≡ ok 0
    → (scan fuel m p ≡ ok q) × (p ≤ q)
unfolding scan_bounded scan
scan-scan_bounded zero m p end q h z = cc
scan-scan_bounded (suc fuel) m p end q h z =
    go (λ h. scan-scan_bounded fuel m (p + 4) end q h z) (ltb p end) h
  where
    next : ℕ → Result ℕ
    next c = elim (c == 0) [ true ↦ ok p | false ↦ scan_bounded fuel m (p + 4) end ]

    unbounded : ℕ → Result ℕ
    unbounded c = elim (c == 0) [ true ↦ ok p | false ↦ scan fuel m (p + 4) ]

    Later : Type 0
    Later = (scan_bounded fuel m (p + 4) end ≡ ok q) → (scan fuel m (p + 4) ≡ ok q) × (p + 4 ≤ q)

    at_byte :
        Later
        → (c : ℕ) (b : Bool) → byte_at m p ≡ ok c
        → (c == 0) ≡ b
        → elim b [ true ↦ ok p | false ↦ scan_bounded fuel m (p + 4) end ] ≡ ok q
        → ((byte_at m p >>= unbounded) ≡ ok q) × (p ≤ q)
    at_byte later c true found e h =
        let same : p ≡ q = cc in
        (
          bind-by unbounded found
              ∙ ap (λ b. elim b [ true ↦ ok p | false ↦ scan fuel m (p + 4) ]) e
              ∙ h,
          omega (arith, same),
        )
    at_byte later c false found e h =
        let (run, le) = later h in
        (
          bind-by unbounded found
              ∙ ap (λ b. elim b [ true ↦ ok p | false ↦ scan fuel m (p + 4) ]) e
              ∙ run,
          omega (arith, le),
        )

    go :
        Later
        → (b : Bool) → elim b [ false ↦ ok p | true ↦ byte_at m p >>= next ] ≡ ok q
        → ((byte_at m p >>= unbounded) ≡ ok q) × (p ≤ q)
    go later false h =
        let same : p ≡ q = cc in
        (bind-by unbounded (ap (byte_at m) same ∙ z) ∙ ap ok same, omega (arith, same))
    go later true h =
        let (c, found, rest) = run_succeeds (byte_at m p) next h in
        at_byte later c (c == 0) found refl rest

-- An end that the bounded search finds: the unbounded one finds it too, and there is a text there.
pub find_str4_end_bounded-some :
    (m : Bytes) (p end n : ℕ)
    → find_str4_end_bounded m p end ≡ ok (some n)
    → (find_str4_end m p ≡ ok n) × HasValue (c_string_at (drop p m)) × (p < n) × (p < end)
unfolding find_str4_end_bounded find_str4_end
find_str4_end_bounded-some m p end n h = go (leb end p) refl h
  where
    last : ℕ → Result (Option ℕ)
    last q = byte_at m q >>= λ z. ok (if z == 0 then some (q + 1) else none)

    first_byte : ℕ → Result (Option ℕ)
    first_byte c = elim (c == 0) [
      | true ↦ ok (some (p + 4))
      | false ↦ scan_bounded (length m) m (p + 3) (end - 1) >>= last
    ]

    found : ℕ → Result ℕ
    found q = ok (q + 1)

    Goal : Type 0
    Goal =
        ((byte_at m p >>= λ c. elim (c == 0) [
          | true ↦ ok (p + 4)
          | false ↦ scan (length m) m (p + 3) >>= found
        ])
          ≡ ok n)
        × HasValue (c_string_at (drop p m))
        × (p < n)
        × (p < end)

    at_last :
        (q z : ℕ) (b : Bool)
        → (z == 0) ≡ b
        → ok (if b then some (q + 1) else none) ≡ ok (some n)
        → (z ≡ 0) × (n ≡ q + 1)
    at_last q z true e h = (ground (arith, e), cc)
    at_last q z false e h = cc

    at_byte :
        (c : ℕ) (b : Bool)
        → p < end
        → byte_at m p ≡ ok c
        → (c == 0) ≡ b
        → elim b [
          | true ↦ ok (some (p + 4))
          | false ↦ scan_bounded (length m) m (p + 3) (end - 1) >>= last
        ]
          ≡ ok (some n)
        → Goal
    at_byte c true before here e h =
        let ended : c ≡ 0 = ground (arith, e) in
        let same : p + 4 ≡ n = cc in
        (
          bind-by
                (λ c. elim (c == 0) [
                  | true ↦ ok (p + 4)
                  | false ↦ scan (length m) m (p + 3) >>= found
                ])
                here
              ∙ ap (λ b. elim b [ true ↦ ok (p + 4) | false ↦ scan (length m) m (p + 3) >>= found ])
                  e
              ∙ ap ok same,
          text-HasValue m p p (omega arith) (here ∙ ap ok ended),
          omega (arith, same),
          before,
        )
    at_byte c false before here e h =
        let (q, scanned, h₁) = run_succeeds (scan_bounded (length m) m (p + 3) (end - 1)) last h in
        let (z, byte, h₂) =
          run_succeeds (byte_at m q) (λ z. ok (if z == 0 then some (q + 1) else none)) h₁ in
        let (ended, same) = at_last q z (z == 0) refl h₂ in
        let (run, le) =
          scan-scan_bounded (length m) m (p + 3) (end - 1) q scanned (byte ∙ ap ok ended) in
        (
          bind-by
                (λ c. elim (c == 0) [
                  | true ↦ ok (p + 4)
                  | false ↦ scan (length m) m (p + 3) >>= found
                ])
                here
              ∙ ap (λ b. elim b [ true ↦ ok (p + 4) | false ↦ scan (length m) m (p + 3) >>= found ])
                  e
              ∙ bind-by found run
              ∙ ap ok (sym same),
          text-HasValue m p q (omega (arith, le)) (byte ∙ ap ok ended),
          omega (arith, le, same),
          before,
        )

    go :
        (b : Bool)
        → leb end p ≡ b
        → elim b [ true ↦ ok none | false ↦ byte_at m p >>= first_byte ] ≡ ok (some n)
        → Goal
    go true e h = cc
    go false e h =
        let (c, here, rest) = run_succeeds (byte_at m p) first_byte h in
        at_byte c (c == 0) (ground (arith, e)) here refl rest
