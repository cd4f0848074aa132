-- ===== src/Packet/Accepted/Message.antt =====
-- The loop over the type tags in oscpack_1_1_0/osc/OscReceivedElements.cpp, where it accepts them, and the
-- loop over the arguments that the tags announce.
use lua2sc.Prelude.{
  ℕ, zero, suc, ◌+◌, ◌-◌, ◌≤◌, ◌<◌, ◌≡◌, ◌≢◌, ap, subst, ◌∙◌, arith, [], ◌∷◌, Bool, true, false,
  Bool-cases, inl, inr, length, ◌==◌, ==_iff,
}
use lua2sc.Osc.Value.{Bytes, ok, ◌>>=◌}
use lua2sc.Osc.Writes.{run_succeeds}
use lua2sc.Packet.Arguments.{blob_tag}
use lua2sc.Packet.Memory.{byte_at}
use lua2sc.Packet.Message.{tag_kind, check_argument, check_tags}
use lua2sc.Packet.Iterate.{read_arguments}
use lua2sc.Packet.Read.{bind-by, positive_fuel}
use lua2sc.Packet.Read.Argument.{at_argument}
use lua2sc.Packet.Accepted.{HasValue, byte_at-within}
use lua2sc.Packet.Accepted.Tags.{Passed, check_argument-Passed}
use lua2sc.Packet.Read.Steps.{
  at_end_self, at_end_later, after, inner, from_next, from_first, all_of,
}

module _ (m : Bytes) where
  -- No type tag from `q` up to `stop` is that of a blob.
  abbrev pub NoBlob : ℕ → ℕ → Type 0
  NoBlob q stop = (i : ℕ) → q ≤ i → i < stop → byte_at m i ≢ ok blob_tag

  -- What a run of the loop over the type tags shows.
  pub record Walked (q a stop : ℕ) : Type 0 where
    pub behind : q < stop
    pub stopped : stop < length m
    pub reads :
        NoBlob q stop
        → (fuel : ℕ) → stop - q < fuel
        → HasValue (read_arguments fuel m (at_argument q a) stop)

  read_end : (fuel q a : ℕ) → 0 < fuel → HasValue (read_arguments fuel m (at_argument q a) q)
  unfolding read_arguments
  read_end fuel q a enough =
      let (k, f) = positive_fuel fuel enough in
      (
        [],
        ap (λ f. read_arguments f m (at_argument q a) q) f
            ∙ ap (λ b. elim b [ true ↦ ok [] | false ↦ all_of m k q q a ]) (at_end_self q a),
      )

  read_more :
      (fuel q a a' stop : ℕ)
      → q < stop
      → Passed m q a a'
      → ((k : ℕ) → fuel ≡ suc k → HasValue (read_arguments k m (at_argument (q + 1) a') stop))
      → 0 < fuel
      → HasValue (read_arguments fuel m (at_argument q a) stop)
  unfolding read_arguments
  read_more fuel q a a' stop before passed rest enough =
      let (k, f) = positive_fuel fuel enough in
      let (x, read) = passed.argument_read in
      let (xs, later) = rest k f in
      (
        x ∷ xs,
        ap (λ f. read_arguments f m (at_argument q a) stop) f
            ∙ ap (λ b. elim b [ true ↦ ok [] | false ↦ all_of m k stop q a ])
                (at_end_later q a stop before)
            ∙ bind-by (from_first m k stop q a) read
            ∙ bind-by (from_next m k stop x) passed.moved
            ∙ bind-by (λ rest. ok (x ∷ rest)) later,
      )

  blob_test : (q t : ℕ) → byte_at m q ≡ ok t → byte_at m q ≢ ok blob_tag → (t == blob_tag) ≡ false
  blob_test q t here ne = elim (Bool-cases (t == blob_tag)) [
    | inl e ↦ absurd (ne (here ∙ ap ok ((==_iff t blob_tag).0 e)))
    | inr e ↦ e
  ]

  Walked-behind :
      (q a a' stop : ℕ)
      → (byte_at m q ≢ ok blob_tag → Passed m q a a')
      → Walked (q + 1) a' stop
      → Walked q a stop
  Walked-behind q a a' stop passed later = record {
    behind = omega (arith, later.behind);
    stopped = later.stopped;
    reads = λ blobs fuel enough.
        read_more fuel q a a' stop (omega (arith, later.behind))
          (passed (blobs q (omega arith) (omega (arith, later.behind))))
          (λ k f.
            later.reads (λ i from to. blobs i (omega (arith, from)) to) k
              (omega (arith, enough, f, later.behind)))
          (omega (arith, enough));
  }

  Walked-last :
      (q a a' next : ℕ)
      → (byte_at m q ≢ ok blob_tag → Passed m q a a')
      → byte_at m (q + 1) ≡ ok next
      → Walked q a (q + 1)
  Walked-last q a a' next passed there = record {
    behind = omega arith;
    stopped = byte_at-within m (q + 1) next there;
    reads = λ blobs fuel enough.
        read_more fuel q a a' (q + 1) (omega arith) (passed (blobs q (omega arith) (omega arith)))
          (λ k f. read_end k (q + 1) a' (omega (arith, enough, f))) (omega (arith, enough));
  }

  round :
      (k q a end stop l' a' l₁ next : ℕ)
      → (byte_at m q ≢ ok blob_tag → Passed m q a a')
      → byte_at m (q + 1) ≡ ok next
      → (check_tags k m (q + 1) a' l₁ end ≡ ok (stop, l') → Walked (q + 1) a' stop)
      → after m k q end a' l₁ next ≡ ok (stop, l')
      → Walked q a stop
  round k q a end stop l' a' l₁ next passed there more h = go (next == 0) h
    where
      go :
          (b : Bool)
          → elim b [ true ↦ ok (q + 1, l₁) | false ↦ check_tags k m (q + 1) a' l₁ end ]
            ≡ ok (stop, l')
          → Walked q a stop
      go true h =
          let here : q + 1 ≡ stop = cc in
          subst (Walked q a) here (Walked-last q a a' next passed there)
      go false h = Walked-behind q a a' stop passed (more h)

  pub check_tags-Walked :
      (fuel q a l end stop l' : ℕ)
      → end ≤ length m
      → check_tags fuel m q a l end ≡ ok (stop, l')
      → Walked q a stop
  unfolding check_tags
  check_tags-Walked zero q a l end stop l' le h = cc
  check_tags-Walked (suc fuel) q a l end stop l' le h =
      let (t, here, h₁) =
        run_succeeds (byte_at m q)
          (λ t. check_argument m (tag_kind t) a l end >>= inner m fuel q end) h in
      let ((a', l₁), accepted, h₂) =
        run_succeeds (check_argument m (tag_kind t) a l end) (inner m fuel q end) h₁ in
      let (next, there, h₃) = run_succeeds (byte_at m (q + 1)) (after m fuel q end a' l₁) h₂ in
      round fuel q a end stop l' a' l₁ next
        (λ ne. check_argument-Passed m t q a l end a' l₁ here (blob_test q t here ne) accepted le)
        there (λ h. check_tags-Walked fuel (q + 1) a' l₁ end stop l' le h) h₃
