-- ===== src/Packet/Accepted/Tags.antt =====
-- One argument that `Init` of oscpack_1_1_0/osc/OscReceivedElements.cpp accepted is read and passed.
use lua2sc.Prelude.{
  ℕ, ◌+◌, ◌^◌, ◌%◌, ◌≤◌, ◌≡◌, ◌≢◌, refl, sym, ap, ◌∙◌, some, true, false, inl, inr, length, drop,
  ◌==◌,
}
use lua2sc.Osc.Value.{Bytes, Result, ok, ◌>>=◌}
use lua2sc.Osc.Pack.{Argument}
use lua2sc.Packet.Arguments.{
  int32_tag, float_tag, char_tag, rgba_color_tag, midi_message_tag, int64_tag, time_tag_tag,
  double_tag, string_tag, symbol_tag, blob_tag,
}
use lua2sc.Packet.Memory.{byte_at, c_string_at}
use lua2sc.Packet.Message.{
  TagKind, no_bytes, open_array, close_array, four_bytes, eight_bytes, text, sized, other, tag_kind,
  check_argument,
}
use lua2sc.Packet.Iterate.{
  Cursor, type_tag_at, checked, as_int32, as_float, as_char, as_rgba_color, as_midi_message,
  as_int64, as_time_tag, as_double, as_string, as_symbol, advance, text_argument, argument_of_tag,
  read_argument,
}
use lua2sc.Packet.Read.{bind-by}
use lua2sc.Packet.Read.Argument.{at_argument}
use lua2sc.Packet.Read.Accessors.{checked_at}
use lua2sc.Packet.Accepted.{HasValue, integer32-HasValue, integer64-HasValue}
use lua2sc.Packet.Accepted.Known.{known, AllOf, find_known, not_known-other, known-kind, AllOf-both}
use lua2sc.Packet.Accepted.Checked.{Checked, check_argument-ok}

module _ (m : Bytes) where
  -- The reader for a type tag has a value.
  abbrev Readable : ℕ → ℕ → ℕ → Type 0
  Readable q a t =
      byte_at m q ≡ ok t
      → Checked m (tag_kind t) a
      → HasValue (argument_of_tag t m (at_argument q a))

  wrapped :
      {A : Type 0} (q a t : ℕ) (read : Result A) (wrap : A → Argument)
      → byte_at m q ≡ ok t
      → (t == t) ≡ true
      → HasValue read
      → HasValue (checked m (at_argument q a) t read >>= λ x. ok (wrap x))
  wrapped q a t read wrap here same (x, h) =
      (wrap x, bind-by (λ x. ok (wrap x)) (checked_at m q a t read here same ∙ h))

  texts :
      (q a t : ℕ) (wrap : Bytes → Argument)
      → byte_at m q ≡ ok t
      → (t == t) ≡ true
      → HasValue (c_string_at (drop a m))
      → HasValue (
          (checked m (at_argument q a) t (ok a) >>= λ p. c_string_at (drop p m)) >>= λ x.
          ok (wrap x))
  texts q a t wrap here same (x, h) = (
    wrap x,
    bind-by (λ x. ok (wrap x))
        (bind-by (λ p. c_string_at (drop p m)) (checked_at m q a t (ok a) here same) ∙ h),
  )

  truncated : {r : Result ℕ} → HasValue r → HasValue (r >>= λ x. ok (x % 2 ^ 8))
  truncated (x, h) = (x % 2 ^ 8, bind-by (λ x. ok (x % 2 ^ 8)) h)

  known-Readable : (q a : ℕ) → AllOf (Readable q a) known
  unfolding tag_kind argument_of_tag as_int32 as_float as_char as_rgba_color as_midi_message
      as_int64 as_time_tag as_double as_string as_symbol text_argument
  known-Readable q a = (
    λ here c. (_, refl),
    (
      λ here c. (_, refl),
      (
        λ here c. (_, refl),
        (
          λ here c. (_, refl),
          (
            λ here c. (_, refl),
            (
              λ here c. (_, refl),
              (
                λ here c.
                    wrapped q a int32_tag _ Argument.int32 here refl (integer32-HasValue a m c).1,
                (
                  λ here c.
                      wrapped q a float_tag _ Argument.float here refl (integer32-HasValue a m c).0,
                  (
                    λ here c.
                        wrapped q a char_tag _ Argument.char here refl
                          (truncated (integer32-HasValue a m c).1),
                    (
                      λ here c.
                          wrapped q a rgba_color_tag _ Argument.rgba_color here refl
                            (integer32-HasValue a m c).0,
                      (
                        λ here c.
                            wrapped q a midi_message_tag _ Argument.midi_message here refl
                              (integer32-HasValue a m c).0,
                        (
                          λ here c.
                              wrapped q a int64_tag _ Argument.int64 here refl
                                (integer64-HasValue a m c).1,
                          (
                            λ here c.
                                wrapped q a time_tag_tag _ Argument.time_tag here refl
                                  (integer64-HasValue a m c).0,
                            (
                              λ here c.
                                  wrapped q a double_tag _ Argument.double here refl
                                    (integer64-HasValue a m c).0,
                              (
                                λ here c. texts q a string_tag Argument.string here refl c,
                                (λ here c. texts q a symbol_tag Argument.symbol here refl c, tt),
                              ),
                            ),
                          ),
                        ),
                      ),
                    ),
                  ),
                ),
              ),
            ),
          ),
        ),
      ),
    ),
  )

  next_tag :
      (k : TagKind) (q : ℕ)
      → k ≢ other
      → elim k [ other ↦ some q | _ ↦ some (q + 1) ] ≡ some (q + 1)
  next_tag other q ne = absurd (ne refl)
  next_tag no_bytes q ne = refl
  next_tag open_array q ne = refl
  next_tag close_array q ne = refl
  next_tag four_bytes q ne = refl
  next_tag eight_bytes q ne = refl
  next_tag text q ne = refl
  next_tag sized q ne = refl

  -- An accepted argument that is no blob: it can be read, and the iterator moves on to the next one.
  pub record Passed (q a a' : ℕ) : Type 0 where
    pub argument_read : HasValue (read_argument m (at_argument q a))
    pub moved : advance m (at_argument q a) ≡ ok (at_argument (q + 1) a')

  pub check_argument-Passed :
      (t q a l end a' l' : ℕ)
      → byte_at m q ≡ ok t
      → (t == blob_tag) ≡ false
      → check_argument m (tag_kind t) a l end ≡ ok (a', l')
      → end ≤ length m
      → Passed q a a'
  unfolding read_argument type_tag_at advance check_argument
  check_argument-Passed t q a l end a' l' here blob accepted le =
      elim (find_known Q t known
        (AllOf-both (Readable q a) Kinds known (known-Readable q a) known-kind)) [
          | inl (readable, kinds) ↦ with_kinds readable kinds
          | inr ne ↦ absurd (
              not_accepted
                (sym (ap (λ k. check_argument m k a l end) (not_known-other t blob ne)) ∙ accepted))
        ]
    where
      Kinds : ℕ → Type 0
      Kinds t = (tag_kind t ≢ sized) × (tag_kind t ≢ other)

      not_accepted : check_argument m other a l end ≡ ok (a', l') → ⊥
      not_accepted h = cc

      Q : ℕ → Type 0
      Q t = Readable q a t × Kinds t

      moved_to : ℕ → Result Cursor
      moved_to argument = ok (record {
        type_tag = elim (tag_kind t) [ other ↦ some q | _ ↦ some (q + 1) ];
        argument = argument;
      })

      with_kinds : Readable q a t → Kinds t → Passed q a a'
      with_kinds readable kinds =
          let (passes, shown) =
            check_argument-ok m (tag_kind t) a l end a' l' accepted kinds.0 le in
          let (x, h) = readable here shown in
          record {
            argument_read = (x, bind-by (λ t. argument_of_tag t m (at_argument q a)) here ∙ h);
            moved =
                bind-by _ here
                ∙ bind-by moved_to passes
                ∙ ap (λ o. ok (record { type_tag = o; argument = a' }))
                    (next_tag (tag_kind t) q kinds.1);
          }
