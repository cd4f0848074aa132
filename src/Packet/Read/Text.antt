-- ===== src/Packet/Read/Text.antt =====
-- `FindStr4End` of oscpack_1_1_0/osc/OscReceivedElements.cpp on a text that was padded.
use lua2sc.Prelude.{
  append_assoc, ℕ, suc, ◌+◌, ◌-◌, ◌*◌, ◌%◌, ◌≤◌, ◌<◌, ◌≡◌, refl, sym, ap, subst, ◌∙◌, arith, [],
  ◌∷◌, ◌++◌, Option, none, some, Bool, true, false, length, replicate, drop, ◌==◌, ltb, leb,
  if◌then◌else◌, ne→==,
}
use lua2sc.Osc.Value.{Bytes, Result, ok, ◌>>=◌}
use lua2sc.Osc.Portable.{NoZero}
use lua2sc.Packet.Memory.{
  byte_at, scan_bounded, find_str4_end_bounded, scan, find_str4_end, c_string_at,
}
use lua2sc.Packet.Layout.{padded, length-padded}
use lua2sc.Packet.Read.{bind-by, positive_fuel, At, At-right, At-byte, At-drop, At-length}

-- Four bytes of a text come before the padding of the rest.
padded-four : (a b c d : ℕ) (s : Bytes) → padded (a ∷ b ∷ c ∷ d ∷ s) ≡ a ∷ b ∷ c ∷ d ∷ padded s
unfolding padded
padded-four a b c d s =
    let same : 4 - length (a ∷ b ∷ c ∷ d ∷ s) % 4 ≡ 4 - length s % 4 = omega arith in
    ap (λ n. a ∷ b ∷ c ∷ d ∷ (s ++ replicate n 0)) same

-- What the loops find from the fourth byte of a padded text on: the last byte, a zero.
record LastZero (m : Bytes) (p end : ℕ) (n : ℕ) : Type 0 where
  bounded : (fuel : ℕ) → n ≤ 4 * fuel → scan_bounded fuel m (p + 3) (end - 1) ≡ ok (p + n - 1)
  unbounded : (fuel : ℕ) → n ≤ 4 * fuel → scan fuel m (p + 3) ≡ ok (p + n - 1)
  zero_byte : byte_at m (p + n - 1) ≡ ok 0

nonzero_test : (c : ℕ) → 0 < c → (c == 0) ≡ false
nonzero_test c h = ne→== c 0 (λ e. omega (arith, e, h))

scan_bounded-stop :
    (fuel : ℕ) (m : Bytes) (p end : ℕ) → byte_at m p ≡ ok 0 → scan_bounded (suc fuel) m p end ≡ ok p
unfolding scan_bounded
scan_bounded-stop fuel m p end h = go (ltb p end)
  where
    go :
        (b : Bool)
        → (elim b [
          | false ↦ ok p
          | true ↦
              (byte_at m p >>= λ c. elim (c == 0) [
                | true ↦ ok p
                | false ↦ scan_bounded fuel m (p + 4) end
              ])
        ])
          ≡ ok p
    go false = refl
    go true =
        ap (λ r. r >>= λ c. elim (c == 0) [ true ↦ ok p | false ↦ scan_bounded fuel m (p + 4) end ])
          h

scan_bounded-next :
    (fuel : ℕ) (m : Bytes) (p end d : ℕ)
    → byte_at m p ≡ ok d
    → 0 < d
    → p < end
    → scan_bounded (suc fuel) m p end ≡ scan_bounded fuel m (p + 4) end
unfolding scan_bounded
scan_bounded-next fuel m p end d h nonzero inside =
    let test : ltb p end ≡ true = ground arith in
    let go : ℕ → Result ℕ =
      λ c. elim (c == 0) [ true ↦ ok p | false ↦ scan_bounded fuel m (p + 4) end ] in
    ap (λ b. elim b [ false ↦ ok p | true ↦ byte_at m p >>= go ]) test
    ∙ bind-by go h
    ∙ ap (λ b. elim b [ true ↦ ok p | false ↦ scan_bounded fuel m (p + 4) end ])
        (nonzero_test d nonzero)

scan-stop : (fuel : ℕ) (m : Bytes) (p : ℕ) → byte_at m p ≡ ok 0 → scan (suc fuel) m p ≡ ok p
unfolding scan
scan-stop fuel m p h = rw h refl

scan-next :
    (fuel : ℕ) (m : Bytes) (p d : ℕ)
    → byte_at m p ≡ ok d
    → 0 < d
    → scan (suc fuel) m p ≡ scan fuel m (p + 4)
unfolding scan
scan-next fuel m p d h nonzero =
    bind-by (λ c. elim (c == 0) [ true ↦ ok p | false ↦ scan fuel m (p + 4) ]) h
    ∙ ap (λ b. elim b [ true ↦ ok p | false ↦ scan fuel m (p + 4) ]) (nonzero_test d nonzero)

last_now : (m : Bytes) (p end : ℕ) → byte_at m (p + 3) ≡ ok 0 → LastZero m p end 4
last_now m p end h =
    let here : p + 4 - 1 ≡ p + 3 = omega arith in
    record {
      bounded = λ fuel enough.
          let (k, e) = positive_fuel fuel (omega (arith, enough)) in
          ap (λ f. scan_bounded f m (p + 3) (end - 1)) e
          ∙ scan_bounded-stop k m (p + 3) (end - 1) h
          ∙ ap ok (sym here);
      unbounded = λ fuel enough.
          let (k, e) = positive_fuel fuel (omega (arith, enough)) in
          ap (λ f. scan f m (p + 3)) e ∙ scan-stop k m (p + 3) h ∙ ap ok (sym here);
      zero_byte = ap (byte_at m) here ∙ h;
    }

last_later :
    (m : Bytes) (p end d n : ℕ)
    → byte_at m (p + 3) ≡ ok d
    → 0 < d
    → 4 ≤ n
    → p + 4 + n ≤ end
    → LastZero m (p + 4) end n
    → LastZero m p end (4 + n)
last_later m p end d n h nonzero positive room later =
    let there : p + 4 + n - 1 ≡ p + (4 + n) - 1 = omega arith in
    let next : p + 3 + 4 ≡ p + 4 + 3 = omega arith in
    record {
      bounded = λ fuel enough.
          let (k, e) = positive_fuel fuel (omega (arith, enough)) in
          ap (λ f. scan_bounded f m (p + 3) (end - 1)) e
          ∙ scan_bounded-next k m (p + 3) (end - 1) d h nonzero (omega (arith, room, positive))
          ∙ ap (λ q. scan_bounded k m q (end - 1)) next
          ∙ later.bounded k (omega (arith, enough, e))
          ∙ ap ok there;
      unbounded = λ fuel enough.
          let (k, e) = positive_fuel fuel (omega (arith, enough)) in
          ap (λ f. scan f m (p + 3)) e
          ∙ scan-next k m (p + 3) d h nonzero
          ∙ ap (scan k m) next
          ∙ later.unbounded k (omega (arith, enough, e))
          ∙ ap ok there;
      zero_byte = ap (byte_at m) (sym there) ∙ later.zero_byte;
    }

fourth :
    {m : Bytes} {p : ℕ} (a b c d : ℕ) (x : Bytes)
    → At m p (a ∷ b ∷ c ∷ d ∷ x)
    → byte_at m (p + 3) ≡ ok d
fourth a b c d x at = At-byte (At-right (a ∷ b ∷ c ∷ []) (d ∷ x) at)

length-padded-positive : (s : Bytes) → 4 ≤ length (padded s)
length-padded-positive s = omega (arith, length-padded s)

padded-LastZero :
    (m : Bytes) (p end : ℕ) (s : Bytes)
    → At m p (padded s)
    → NoZero s
    → p + length (padded s) ≤ end
    → LastZero m p end (length (padded s))
unfolding padded
padded-LastZero m p end [] at nz room = last_now m p end (fourth 0 0 0 0 [] at)
padded-LastZero m p end (a ∷ []) at nz room = last_now m p end (fourth a 0 0 0 [] at)
padded-LastZero m p end (a ∷ b ∷ []) at nz room = last_now m p end (fourth a b 0 0 [] at)
padded-LastZero m p end (a ∷ b ∷ c ∷ []) at nz room = last_now m p end (fourth a b c 0 [] at)
padded-LastZero m p end (a ∷ b ∷ c ∷ d ∷ s) at nz room =
    let same = padded-four a b c d s in
    let at' : At m p (a ∷ b ∷ c ∷ d ∷ padded s) = subst (At m p) same at in
    let later = At-right (a ∷ b ∷ c ∷ d ∷ []) (padded s) at' in
    let count : length (padded (a ∷ b ∷ c ∷ d ∷ s)) ≡ 4 + length (padded s) =
      omega (arith, ap length same) in
    let total : p + 4 + length (padded s) ≤ end = omega (arith, count, room) in
    subst (LastZero m p end) (sym count) (
      last_later m p end d (length (padded s)) (fourth a b c d (padded s) at') nz.1.1.1.0
        (length-padded-positive s) total (padded-LastZero m (p + 4) end s later nz.1.1.1.1 total))

pub c_string_at-zero : (s : Bytes) (m : Bytes) → NoZero s → c_string_at (s ++ 0 ∷ m) ≡ ok s
unfolding c_string_at
c_string_at-zero [] m nz = refl
c_string_at-zero (c ∷ s) m nz =
    let test : (c == 0) ≡ false = ne→== c 0 (λ e. omega (arith, e, nz.0)) in
    ap (λ b. elim b [ true ↦ ok [] | false ↦ c_string_at (s ++ 0 ∷ m) >>= λ rest. ok (c ∷ rest) ])
      test
    ∙ bind-by (λ rest. ok (c ∷ rest)) (c_string_at-zero s m nz.1)

-- The search from the first byte on.
abbrev begun : Bytes → ℕ → ℕ → ℕ → Result (Option ℕ)
begun m p end c = elim (c == 0) [
  | true ↦ ok (some (p + 4))
  | false ↦ (do
    q ← scan_bounded (length m) m (p + 3) (end - 1)
    last ← byte_at m q
    ok (if last == 0 then some (q + 1) else none))
]

-- The bounded search finds the end of a padded text without zeros that stands at `p` and ends by
-- `end`: the first byte after the padding.
pub find_str4_end_bounded-padded :
    (m : Bytes) (p end : ℕ) (s : Bytes)
    → At m p (padded s)
    → NoZero s
    → p + length (padded s) ≤ end
    → find_str4_end_bounded m p end ≡ ok (some (p + length (padded s)))
unfolding find_str4_end_bounded padded
find_str4_end_bounded-padded m p end [] at nz room =
    let test : leb end p ≡ false = ground arith in
    ap (λ b. elim b [ true ↦ ok none | false ↦ byte_at m p >>= begun m p end ]) test
    ∙ bind-by (begun m p end) (At-byte at)
find_str4_end_bounded-padded m p end (c ∷ s) at nz room =
    let n = length (padded (c ∷ s)) in
    let found = padded-LastZero m p end (c ∷ s) at nz room in
    let many = length-padded-positive (c ∷ s) in
    let test : leb end p ≡ false = ground (arith, many, room) in
    let within = At-length at in
    let count : p + n - 1 + 1 ≡ p + n = omega (arith, many) in
    let last : ℕ → Result (Option ℕ) =
      λ q. (byte_at m q >>= λ z. ok (if z == 0 then some (q + 1) else none)) in
    ap (λ b. elim b [ true ↦ ok none | false ↦ byte_at m p >>= begun m p end ]) test
    ∙ bind-by (begun m p end) (At-byte at)
    ∙ ap
        (λ b. elim b [
          | true ↦ ok (some (p + 4))
          | false ↦ scan_bounded (length m) m (p + 3) (end - 1) >>= last
        ])
        (nonzero_test c nz.0)
    ∙ bind-by last (found.bounded (length m) (omega (arith, within)))
    ∙ bind-by (λ z. ok (if z == 0 then some (p + n - 1 + 1) else none)) found.zero_byte
    ∙ ap (λ q. ok (some q)) count

pub find_str4_end-padded :
    (m : Bytes) (p : ℕ) (s : Bytes)
    → At m p (padded s)
    → NoZero s
    → find_str4_end m p ≡ ok (p + length (padded s))
unfolding find_str4_end padded
find_str4_end-padded m p [] at nz = bind-by _ (At-byte at)
find_str4_end-padded m p (c ∷ s) at nz =
    let n = length (padded (c ∷ s)) in
    let within = At-length at in
    let found = padded-LastZero m p (length m) (c ∷ s) at nz within in
    let many = length-padded-positive (c ∷ s) in
    let count : p + n - 1 + 1 ≡ p + n = omega (arith, many) in
    let last : ℕ → Result ℕ = λ q. ok (q + 1) in
    bind-by _ (At-byte at)
    ∙ ap (λ b. elim b [ true ↦ ok (p + 4) | false ↦ scan (length m) m (p + 3) >>= last ])
        (nonzero_test c nz.0)
    ∙ bind-by last (found.unbounded (length m) (omega (arith, within)))
    ∙ ap ok count

zeros-positive : (n : ℕ) → 0 < n → (k : ℕ) × (replicate {A = ℕ} n 0 ≡ 0 ∷ replicate k 0)
zeros-positive n h = let (k, e) = positive_fuel n h in (k, ap (λ n. replicate n 0) e)

-- A padded text is the text, a zero and more.
pub padded-zero : (s : Bytes) → (k : ℕ) × (padded s ≡ s ++ 0 ∷ replicate k 0)
unfolding padded
padded-zero s =
    let (k, e) = zeros-positive (4 - length s % 4) (omega arith) in (k, ap (λ z. s ++ z) e)

pub c_string_at-padded :
    (m : Bytes) (p : ℕ) (s : Bytes) → At m p (padded s) → NoZero s → c_string_at (drop p m) ≡ ok s
c_string_at-padded m p s at nz =
    let (k, e) = padded-zero s in
    ap c_string_at
      (At-drop at ∙ ap (λ x. x ++ at.behind) e ∙ append_assoc s (0 ∷ replicate k 0) at.behind)
    ∙ c_string_at-zero s (replicate k 0 ++ at.behind) nz
