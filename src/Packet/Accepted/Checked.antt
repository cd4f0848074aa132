-- ===== src/Packet/Accepted/Checked.antt =====
-- What the checks of `Init` in oscpack_1_1_0/osc/OscReceivedElements.cpp show of one argument.
use lua2sc.Prelude.{
  ℕ, ◌+◌, ◌≤◌, ◌≡◌, ◌≢◌, refl, sym, ap, ◌∙◌, arith, Option, none, some, Bool, true, false, length,
  drop, ◌==◌, ltb, if◌then◌else◌,
}
use lua2sc.Osc.Value.{Bytes, Result, ok, thrown, ◌>>=◌, malformed_message}
use lua2sc.Osc.Writes.{run_succeeds}
use lua2sc.Packet.Memory.{find_str4_end_bounded, c_string_at}
use lua2sc.Packet.Message.{
  TagKind, no_bytes, open_array, close_array, four_bytes, eight_bytes, text, sized, other,
  check_fixed, check_text, check_argument,
}
use lua2sc.Packet.Iterate.{checked, advance_argument}
use lua2sc.Packet.Read.Argument.{leveled}
use lua2sc.Packet.Accepted.{HasValue}
use lua2sc.Packet.Accepted.Text.{find_str4_end_bounded-some}

module _ (m : Bytes) where
  -- What the checks show of an argument at `a`, by the kind of its type tag.
  abbrev pub Checked : TagKind → ℕ → Type 0
  Checked four_bytes a = a + 4 ≤ length m
  Checked eight_bytes a = a + 8 ≤ length m
  Checked text a = HasValue (c_string_at (drop a m))
  Checked sized a = ⊥
  Checked other a = ⊥
  Checked _ a = Unit {0}

  check_fixed-ok : (n a end a' : ℕ) → check_fixed n a end ≡ ok a' → (a' ≡ a + n) × (a + n ≤ end)
  unfolding check_fixed
  check_fixed-ok n a end a' h = go (a == end) (ltb end (a + n)) refl h
    where
      go :
          (b c : Bool)
          → ltb end (a + n) ≡ c
          → (if b
              then thrown malformed_message
              else if c
              then thrown malformed_message
              else ok (a + n))
            ≡ ok a'
          → (a' ≡ a + n) × (a + n ≤ end)
      go true c e h = cc
      go false true e h = cc
      go false false e h = (cc, ground (arith, e))

  fixed_ok :
      (n a l end a' l' : ℕ)
      → (check_fixed n a end >>= λ next. leveled l next) ≡ ok (a', l')
      → (a' ≡ a + n) × (a + n ≤ end)
  fixed_ok n a l end a' l' h =
      let (next, checked, rest) = run_succeeds (check_fixed n a end) (λ next. leveled l next) h in
      let (moved, room) = check_fixed-ok n a end next checked in
      let same : next ≡ a' = cc in (sym same ∙ moved, room)

  check_text-ok :
      (a end a' : ℕ) → check_text m a end ≡ ok a' → find_str4_end_bounded m a end ≡ ok (some a')
  unfolding check_text
  check_text-ok a end a' h = go (a == end) h
    where
      found : Option ℕ → Result ℕ
      found q = elim q [ none ↦ thrown malformed_message | some next ↦ ok next ]

      at_end_of : (q : Option ℕ) → found q ≡ ok a' → q ≡ some a'
      at_end_of none h = cc
      at_end_of (some q) h = cc

      go :
          (b : Bool)
          → elim b [
            | true ↦ thrown malformed_message
            | false ↦ find_str4_end_bounded m a end >>= found
          ]
            ≡ ok a'
          → find_str4_end_bounded m a end ≡ ok (some a')
      go true h = cc
      go false h =
          let (q, searched, rest) = run_succeeds (find_str4_end_bounded m a end) found h in
          searched ∙ ap ok (at_end_of q rest)

  -- What `Init` accepts, `Advance` passes, and it can be read.
  pub check_argument-ok :
      (k : TagKind) (a l end a' l' : ℕ)
      → check_argument m k a l end ≡ ok (a', l')
      → k ≢ sized
      → end ≤ length m
      → (advance_argument m k a ≡ ok a') × Checked k a
  unfolding check_argument advance_argument
  check_argument-ok no_bytes a l end a' l' h ne le = let same : a ≡ a' = cc in (ap ok same, tt)
  check_argument-ok open_array a l end a' l' h ne le = let same : a ≡ a' = cc in (ap ok same, tt)
  check_argument-ok close_array a l end a' l' h ne le = let same : a ≡ a' = cc in (ap ok same, tt)
  check_argument-ok four_bytes a l end a' l' h ne le =
      let (same, room) = fixed_ok 4 a l end a' l' h in (ap ok (sym same), omega (arith, room, le))
  check_argument-ok eight_bytes a l end a' l' h ne le =
      let (same, room) = fixed_ok 8 a l end a' l' h in (ap ok (sym same), omega (arith, room, le))
  check_argument-ok text a l end a' l' h ne le =
      let (next, checked, rest) = run_succeeds (check_text m a end) (leveled l) h in
      let same : next ≡ a' = cc in
      let (found, shown, _, _) =
        find_str4_end_bounded-some m a end a' (check_text-ok a end a' (checked ∙ ap ok same)) in
      (found, shown)
  check_argument-ok sized a l end a' l' h ne le = absurd (ne refl)
  check_argument-ok other a l end a' l' h ne le = cc
