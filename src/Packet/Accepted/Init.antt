-- ===== src/Packet/Accepted/Init.antt =====
-- `ReceivedMessage::Init` of oscpack_1_1_0/osc/OscReceivedElements.cpp reads inside the bytes that it is
-- given, where they announce no blob.
use lua2sc.Prelude.{
  ℕ, zero, suc, ◌+◌, ◌-◌, ◌%◌, ◌≤◌, ◌<◌, ◌≡◌, ◌≢◌, refl, sym, ap, subst, ◌∙◌, arith, Option, none,
  some, Bool, true, false, ◌⊎◌, inl, inr, length, ◌==◌, ltb, if◌then◌else◌, ==_iff,
}
use lua2sc.Osc.Value.{Bytes, Result, ok, thrown, ◌>>=◌, malformed_message}
use lua2sc.Osc.Kept.{Kept, Kept-bind}
use lua2sc.Packet.Memory.{byte_at, find_str4_end_bounded}
use lua2sc.Packet.Arguments.{blob_tag}
use lua2sc.Packet.Message.{
  TagKind, no_bytes, open_array, close_array, four_bytes, eight_bytes, text, sized, other, tag_kind,
  check_fixed, check_text, check_argument, check_tags,
}
use lua2sc.Packet.Read.Argument.{leveled}
use lua2sc.Packet.Read.Steps.{after, inner}
use lua2sc.Packet.Accepted.Search.{byte_at-Kept, IsBefore, Found, find_str4_end_bounded-Kept}
use lua2sc.Packet.Accepted.Message.{NoBlob}

module _ (m : Bytes) where
  -- The next argument: not before this one, and still before the end.
  abbrev Next : ℕ → ℕ → ℕ × ℕ → Type 0
  Next a end (a', l) = IsBefore a end a'

  module _ (a l end : ℕ) (le : a ≤ end) (within : end ≤ length m) (even : (end - a) % 4 ≡ 0) where
    here : IsBefore a end a
    here = record { from = omega arith; to = le; aligned = even }

    check_fixed-Kept : (n : ℕ) → n % 4 ≡ 0 → Kept (IsBefore a end) (check_fixed n a end)
    unfolding check_fixed
    check_fixed-Kept n fours = go (a == end) (ltb end (a + n)) refl
      where
        go :
            (b c : Bool)
            → ltb end (a + n) ≡ c
            → Kept (IsBefore a end) (
                if b
                then thrown malformed_message
                else if c
                then thrown malformed_message
                else ok (a + n))
        go true c e = tt
        go false true e = tt
        go false false e =
            let room : a + n ≤ end = ground arith in
            record { from = omega arith; to = room; aligned = omega (arith, room, fours, even) }

    check_text-Kept : Kept (IsBefore a end) (check_text m a end)
    unfolding check_text
    check_text-Kept = go (a == end)
      where
        found : Option ℕ → Result ℕ
        found q = elim q [ none ↦ thrown malformed_message | some next ↦ ok next ]

        at_found : (q : Option ℕ) → Found m a end q → Kept (IsBefore a end) (found q)
        at_found none k = tt
        at_found (some n) k = k.inside

        go :
            (b : Bool)
            → Kept (IsBefore a end) (elim b [
              | true ↦ thrown malformed_message
              | false ↦ find_str4_end_bounded m a end >>= found
            ])
        go true = tt
        go false =
            Kept-bind (Found m a end) (IsBefore a end) (find_str4_end_bounded m a end) found
              (find_str4_end_bounded-Kept m a end le within even) at_found

    check_argument-Kept : (k : TagKind) → k ≢ sized → Kept (Next a end) (check_argument m k a l end)
    unfolding check_argument
    check_argument-Kept no_bytes ne = here
    check_argument-Kept open_array ne = here
    check_argument-Kept close_array ne = here
    check_argument-Kept four_bytes ne =
        Kept-bind (IsBefore a end) (Next a end) (check_fixed 4 a end) (leveled l)
          (check_fixed-Kept 4 refl) (λ a' k. k)
    check_argument-Kept eight_bytes ne =
        Kept-bind (IsBefore a end) (Next a end) (check_fixed 8 a end) (leveled l)
          (check_fixed-Kept 8 refl) (λ a' k. k)
    check_argument-Kept text ne =
        Kept-bind (IsBefore a end) (Next a end) (check_text m a end) (leveled l) check_text-Kept
          (λ a' k. k)
    check_argument-Kept sized ne = absurd (ne refl)
    check_argument-Kept other ne = tt

either : (b : Bool) (x y : TagKind) → x ≢ sized → y ≢ sized → (if b then x else y) ≢ sized
either true x y hx hy = hx
either false x y hx hy = hy

-- Only the type tag of a blob announces a size.
tag_kind-sized : (t : ℕ) → t ≢ blob_tag → tag_kind t ≢ sized
unfolding tag_kind
tag_kind-sized t ne =
    either _ _ _ (λ (e : no_bytes ≡ sized). cc)
      (either _ _ _ (λ (e : open_array ≡ sized). cc)
        (either _ _ _ (λ (e : close_array ≡ sized). cc)
          (either _ _ _ (λ (e : four_bytes ≡ sized). cc)
            (either _ _ _ (λ (e : eight_bytes ≡ sized). cc)
              (either _ _ _ (λ (e : text ≡ sized). cc) (last (t == blob_tag) refl))))))
  where
    last : (b : Bool) → (t == blob_tag) ≡ b → (if b then sized else other) ≢ sized
    last true e f = ne ((==_iff t blob_tag).0 e)
    last false e f = cc

module _ (m : Bytes) where
  -- Nowhere in the memory, behind a comma and before the next zero, stands the type tag of a blob.
  abbrev pub NoBlobTag : Type 0
  NoBlobTag =
      (comma i : ℕ)
      → byte_at m comma ≡ ok b','
      → comma < i
      → ((j : ℕ) → comma < j → j < i → byte_at m j ≢ ok 0)
      → byte_at m i ≢ ok blob_tag

  module _ (blobs : NoBlobTag) (comma end z : ℕ) (begins : byte_at m comma ≡ ok b',')
      (within : end ≤ length m) (inside : z < end) (ends : byte_at m z ≡ ok 0) where
    -- No zero from the comma up to `q`.
    abbrev Quiet : ℕ → Type 0
    Quiet q = (j : ℕ) → comma < j → j < q → byte_at m j ≢ ok 0

    Quiet-blob : (q i : ℕ) → Quiet q → comma < i → i ≤ q → byte_at m i ≢ ok blob_tag
    Quiet-blob q i quiet lt le =
        blobs comma i begins lt (λ j from to. quiet j from (omega (arith, to, le)))

    Quiet-suc : (q : ℕ) → Quiet q → byte_at m q ≢ ok 0 → Quiet (q + 1)
    Quiet-suc q quiet ne j from to = elim (last j q to) [
      | inl before ↦ quiet j from before
      | inr same ↦ subst (λ j. byte_at m j ≢ ok 0) (sym same) ne
    ]
      where
        last : (j q : ℕ) → j < q + 1 → (j < q) ⊎ (j ≡ q)
        last j q h = ground arith

    -- What the loop over the type tags leaves.
    abbrev Stopped : ℕ × ℕ → Type 0
    Stopped (stop, l) = NoBlob m (comma + 1) stop

    pub check_tags-Kept :
        (fuel q a l : ℕ)
        → comma < q
        → q < z
        → Quiet (q + 1)
        → a ≤ end
        → (end - a) % 4 ≡ 0
        → z - q < fuel
        → Kept Stopped (check_tags fuel m q a l end)
    unfolding check_tags
    check_tags-Kept zero q a l from before quiet le even enough = absurd (omega arith)
    check_tags-Kept (suc fuel) q a l from before quiet le even enough =
        Kept-bind (λ t. byte_at m q ≡ ok t) Stopped (byte_at m q)
          (λ t. check_argument m (tag_kind t) a l end >>= inner m fuel q end)
          (byte_at-Kept m q (omega (arith, before, inside, within)))
          λ t here.
            Kept-bind (Next m a end) Stopped (check_argument m (tag_kind t) a l end)
              (inner m fuel q end)
              (check_argument-Kept m a l end le within even (tag_kind t) (
                tag_kind-sized t
                  λ e. Quiet-blob (q + 1) q quiet from (omega arith) (here ∙ ap ok e)))
              λ (a', l') k.
                Kept-bind (λ c. byte_at m (q + 1) ≡ ok c) Stopped (byte_at m (q + 1))
                  (after m fuel q end a' l')
                  (byte_at-Kept m (q + 1) (omega (arith, before, inside, within)))
                  λ c there.
                    next a' l' c there
                      (λ ne before'.
                        check_tags-Kept fuel (q + 1) a' l' (omega (arith, from)) before'
                          (Quiet-suc (q + 1) quiet ne) k.to k.aligned
                          (omega (arith, enough, before)))
                      (c == 0) refl
      where
        next :
            (a' l' c : ℕ)
            → byte_at m (q + 1) ≡ ok c
            → (byte_at m (q + 1) ≢ ok 0
                → q + 1 < z
                → Kept Stopped (check_tags fuel m (q + 1) a' l' end))
            → (b : Bool) → (c == 0) ≡ b
            → Kept Stopped
                (elim b [ true ↦ ok (q + 1, l') | false ↦ check_tags fuel m (q + 1) a' l' end ])
        next a' l' c there more true e =
            λ i i_from to. Quiet-blob (q + 1) i quiet (omega (arith, i_from)) (omega (arith, to))
        next a' l' c there more false e =
            let positive : 0 < c = ground arith in
            let not_zero : byte_at m (q + 1) ≢ ok 0 = λ f.
              (let same : c ≡ 0 = ok_same c 0 (sym there ∙ f) in
                absurd (omega (arith, same, positive))) in
            more not_zero (elim (order (q + 1) z (omega (arith, before))) [
              | inl lt ↦ lt
              | inr same ↦ absurd (not_zero (ap (byte_at m) same ∙ ends))
            ])
          where
            ok_same : (c d : ℕ) → ok c ≡ ok d → c ≡ d
            ok_same c d h = cc

            order : (j z : ℕ) → j ≤ z → (j < z) ⊎ (j ≡ z)
            order j z h = ground arith
