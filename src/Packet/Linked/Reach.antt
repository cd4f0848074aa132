-- ===== src/Packet/Linked/Reach.antt =====
-- Every stream that writes can reach is safe to write to.
use lua2sc.Prelude.{
  ℕ, ◌^◌, ◌<◌, ◌≡◌, refl, sym, ap, subst, ◌∙◌, arith, true, false, ◌⊎◌, inl, inr, Bool-cases,
}
use lua2sc.Osc.Value.{Exception, Result, ok, lua_error, thrown, undefined, ◌>>=◌}
use lua2sc.Osc.Pack.{Item, begin_bundle, end_bundle, begin_message, end_message, argument}
use lua2sc.Packet.Outbound.{
  Outbound, outbound, is_some, slot_required, bundle_space, message_space, with_space, end_element,
}
use lua2sc.Packet.Write.{
  bundle_begun, put_begin_bundle, put_end_bundle, message_begun, put_begin_message, tags_moved,
  put_end_message, put,
}
use lua2sc.Packet.Layout.{argument_bytes}
use lua2sc.Packet.Step.{IsWritten, pushed, pushed_space, put_argument-IsWritten}
use lua2sc.Packet.Bounded.{IsBounded, outbound-IsBounded, put-IsBounded, ended, ending, closing}
use lua2sc.Packet.Linked.{IsLinked}
use lua2sc.Osc.Kept.{Kept}
use lua2sc.Packet.Linked.Ops.{
  with_space-Kept, outside_message-Kept, IsPlaced, end_element-Kept, bundle_begun-IsPlaced,
  bundle_begun-in_message, message_begun-IsPlaced, message_begun-is_some, behind-IsPlaced,
  tags_moved-IsPlaced, tags_moved-frame,
}

-- An item that osclua writes: any but an unknown argument.
abbrev pub IsItem : Item → Type 0
IsItem (argument a) = IsWritten a
IsItem _ = Unit {0}

-- What a write adds to the bounds.
record IsSettled (c : ℕ) (t : Outbound) : Type 0 where
  placed : IsPlaced c t
  opened : t.in_message ≡ true → is_some t.element ≡ true

outside : {c : ℕ} {t : Outbound} → IsPlaced c t → t.in_message ≡ false → IsSettled c t
outside placed h = record {
  placed = placed;
  opened = λ e. let no_message : true ≡ false = sym e ∙ h in cc;
}

Kept-map :
    (P Q : Outbound → Type 0) (r : Result Outbound)
    → ((t : Outbound) → P t → Q t)
    → Kept P r
    → Kept Q r
Kept-map P Q (ok t) f k = f t k
Kept-map P Q (thrown e) f k = tt
Kept-map P Q (lua_error e) f k = k
Kept-map P Q undefined f k = k

Kept-bind :
    (P Q : Outbound → Type 0) (r : Result Outbound) (f : Outbound → Result Outbound)
    → ((t : Outbound) → P t → Kept Q (f t))
    → Kept P r
    → Kept Q (r >>= f)
Kept-bind P Q (ok t) f h k = h t k
Kept-bind P Q (thrown e) f h k = tt
Kept-bind P Q (lua_error e) f h k = k
Kept-bind P Q undefined f h k = k

module _ (c : ℕ) (small : c < 2 ^ 32) where
  end_message-Kept : (s : Outbound) → IsLinked c s → Kept (IsSettled c) (put_end_message s)
  unfolding put_end_message
  end_message-Kept s linked = elim (Bool-cases s.in_message) [
    | inr e ↦ subst (Kept (IsSettled c)) (sym (ap (ending s) e)) tt
    | inl e ↦
        let frame = tags_moved-frame s in
        subst (Kept (IsSettled c)) (sym (ap (ending s) e)) (
          Kept-bind (λ t. IsPlaced c t × (t.in_message ≡ (tags_moved s).in_message)) (IsSettled c)
            (end_element (tags_moved s)) ended
            (λ t p. outside (record { same_capacity = p.0.same_capacity; chain = p.0.chain }) refl)
            (end_element-Kept c (tags_moved s) (tags_moved-IsPlaced c s linked)
              (omega (arith, frame.0)) (ap is_some frame.1 ∙ linked.opened e)))
  ]

  end_bundle-Kept : (s : Outbound) → IsLinked c s → Kept (IsSettled c) (put_end_bundle s)
  unfolding put_end_bundle slot_required
  end_bundle-Kept s linked = elim (Bool-cases (is_some s.element)) [
    | inr e ↦ subst (Kept (IsSettled c)) (sym (ap (closing s) e)) tt
    | inl e ↦ subst (Kept (IsSettled c)) (sym (ap (closing s) e)) (
        outside_message-Kept (IsSettled c) s (end_element s) λ quiet.
          Kept-map (λ t. IsPlaced c t × (t.in_message ≡ s.in_message)) (IsSettled c) (end_element s)
            (λ t p. outside p.0 (p.1 ∙ quiet))
            (end_element-Kept c s
              (record { same_capacity = linked.same_capacity; chain = linked.chain })
              linked.bounded.cursor_fits e))
  ]

  IsSettled-put : (i : Item) (s : Outbound) → IsItem i → IsLinked c s → Kept (IsSettled c) (put i s)
  unfolding put put_begin_bundle put_begin_message
  IsSettled-put (begin_bundle tag) s w linked =
      outside_message-Kept (IsSettled c) s (with_space (bundle_space s) s (bundle_begun tag s))
        λ quiet. with_space-Kept (IsSettled c) (bundle_space s) s (bundle_begun tag s) (
          outside (bundle_begun-IsPlaced c tag s small linked)
            (bundle_begun-in_message tag s ∙ quiet))
  IsSettled-put (begin_message a) s w linked =
      outside_message-Kept (IsSettled c) s (with_space (message_space a s) s (message_begun a s))
        λ quiet. with_space-Kept (IsSettled c) (message_space a s) s (message_begun a s) (record {
          placed = message_begun-IsPlaced c a s small linked;
          opened = λ e. message_begun-is_some a s;
        })
  IsSettled-put end_bundle s w linked = end_bundle-Kept s linked
  IsSettled-put end_message s w linked = end_message-Kept s linked
  IsSettled-put (argument a) s w linked =
      subst (Kept (IsSettled c)) (sym (put_argument-IsWritten a s w)) (
        with_space-Kept (IsSettled c) (pushed_space a s) s (pushed a s) (
          let placed = behind-IsPlaced c s (argument_bytes a) linked in
          record {
            placed = record { same_capacity = placed.same_capacity; chain = placed.chain };
            opened = linked.opened;
          }))

  -- A write keeps the state linked, or throws.
  put-Kept : (i : Item) (s : Outbound) → IsItem i → IsLinked c s → Kept (IsLinked c) (put i s)
  put-Kept i s w linked = go (put i s) refl (IsSettled-put i s w linked)
    where
      go : (r : Result Outbound) → put i s ≡ r → Kept (IsSettled c) r → Kept (IsLinked c) r
      go (ok t) e k = record {
        bounded = put-IsBounded i s t linked.bounded e;
        same_capacity = k.placed.same_capacity;
        chain = k.placed.chain;
        opened = k.opened;
      }
      go (thrown x) e k = tt
      go (lua_error x) e k = k
      go undefined e k = k

-- The streams that a client of a buffer of `c` bytes can come to: a write that throws leaves the
-- stream as it was, and the client may go on.
pub data Reach (c : ℕ) : Outbound → Type 0 where
  start : Reach c (outbound c)
  wrote : {s t : Outbound} (i : Item) → IsItem i → put i s ≡ ok t → Reach c s → Reach c t
  caught : {s : Outbound} (i : Item) (e : Exception) → put i s ≡ thrown e → Reach c s → Reach c s

outbound-IsLinked : (c : ℕ) → IsLinked c (outbound c)
unfolding outbound
outbound-IsLinked c = record {
  bounded = outbound-IsBounded c;
  same_capacity = refl;
  chain = tt;
  opened = λ e. cc;
}

Reach-IsLinked : {c : ℕ} {s : Outbound} → c < 2 ^ 32 → Reach c s → IsLinked c s
Reach-IsLinked {c} small start = outbound-IsLinked c
Reach-IsLinked {c} small (wrote {s} {t} i w e r) =
    subst (Kept (IsLinked c)) e (put-Kept c small i s w (Reach-IsLinked small r))
Reach-IsLinked small (caught i x e r) = Reach-IsLinked small r

-- In every stream that a client of a buffer of less than 2 ^ 32 bytes can come to, in any order of
-- writes that succeed or throw, every further write of an item succeeds or throws one of the
-- exceptions: it follows no null pointer and reads nothing outside the bytes that were written, and
-- the stream stays within the buffer.
pub Reach-put :
    (c : ℕ) (s : Outbound) (i : Item)
    → c < 2 ^ 32
    → Reach c s
    → IsItem i
    → ((t : Outbound) × (put i s ≡ ok t) × IsBounded t) ⊎ ((e : Exception) × (put i s ≡ thrown e))
Reach-put c s i small r w = go (put i s) refl (put-Kept c small i s w (Reach-IsLinked small r))
  where
    go :
        (o : Result Outbound)
        → put i s ≡ o
        → Kept (IsLinked c) o
        → ((t : Outbound) × (put i s ≡ ok t) × IsBounded t)
          ⊎ ((e : Exception) × (put i s ≡ thrown e))
    go (ok t) e k = inl (t, e, k.bounded)
    go (thrown x) e k = inr (x, e)
    go (lua_error x) e k = elim k [ ]
    go undefined e k = elim k [ ]
