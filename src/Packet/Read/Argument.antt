-- ===== src/Packet/Read/Argument.antt =====
-- One argument of a message, as oscpack_1_1_0/osc/OscReceivedElements.cpp checks it, reads it and moves
-- past it where it was written.
use lua2sc.Prelude.{
  ℕ, ◌+◌, ◌-◌, ◌%◌, ◌^◌, ◌≤◌, ◌<◌, ◌≡◌, refl, ap, ◌∙◌, arith, ◌++◌, Option, none, some, true, false,
  length, drop, ◌==◌, ltb, ne→==,
}
use lua2sc.Osc.Value.{Bytes, Result, ok, thrown, malformed_message, ◌>>=◌}
use lua2sc.Osc.Pack.{Argument}
use lua2sc.Osc.Portable.{NoZero}
use lua2sc.Packet.Order.{
  from_uint32, from_int32, from_uint64, from_int64, to_uint32, to_int32, to_uint64, to_int64,
  round_up4_uint32, padding,
}
use lua2sc.Packet.Arguments.{blob_bytes}
use lua2sc.Packet.Memory.{find_str4_end_bounded}
use lua2sc.Packet.Message.{tag_kind, check_fixed, check_text, check_blob, check_argument}
use lua2sc.Packet.Iterate.{Cursor, advance_argument}
use lua2sc.Packet.Encoded.{
  to_uint32-from_uint32, to_int32-from_int32, to_uint64-from_uint64, to_int64-from_int64,
}
use lua2sc.Packet.Layout.{padded, argument_tag, argument_bytes, length-padded}
use lua2sc.Packet.Step.{length-blob_bytes}
use lua2sc.Packet.Read.{At, At-left, At-drop, At-length, bind-by}
use lua2sc.Packet.Read.Text.{find_str4_end_bounded-padded, find_str4_end-padded}

-- The arguments that the bytes determine: integers in the range of their type, texts without a zero.
abbrev pub IsEncodable : Argument → Type 0
IsEncodable (Argument.int32 x) = x < 2 ^ 32
IsEncodable (Argument.int64 x) = x < 2 ^ 64
IsEncodable (Argument.float x) = x < 2 ^ 32
IsEncodable (Argument.double x) = x < 2 ^ 64
IsEncodable (Argument.char x) = x < 2 ^ 8
IsEncodable (Argument.rgba_color x) = x < 2 ^ 32
IsEncodable (Argument.midi_message x) = x < 2 ^ 32
IsEncodable (Argument.time_tag x) = x < 2 ^ 64
IsEncodable (Argument.string x) = NoZero x
IsEncodable (Argument.symbol x) = NoZero x
IsEncodable (Argument.unknown t) = ⊥
IsEncodable _ = Unit {0}

-- The level of arrays after an argument, an `unsigned int`.
abbrev pub level_by : Argument → ℕ → ℕ
level_by Argument.array_begin level = (level + 1) % 2 ^ 32
level_by Argument.array_end level = (level + (2 ^ 32 - 1)) % 2 ^ 32
level_by _ level = level

check_fixed-fits : (n p end : ℕ) → 0 < n → p + n ≤ end → check_fixed n p end ≡ ok (p + n)
unfolding check_fixed
check_fixed-fits n p end positive room =
    let different : (p == end) ≡ false = ne→== p end (λ e. omega (arith, e, room, positive)) in
    let inside : ltb end (p + n) ≡ false = ground arith in rw (different, inside) refl

-- The next argument and the level, with the sizes that occur.
abbrev pub leveled : ℕ → ℕ → Result (ℕ × ℕ)
leveled level next = ok (next, level)

next_is :
    (p n level : ℕ) {r : Result ℕ} → r ≡ ok (p + n) → (r >>= leveled level) ≡ ok (p + n, level)
next_is p n level h = bind-by (leveled level) h

-- An iterator at a tag and an argument.
abbrev pub at_argument : ℕ → ℕ → Cursor
at_argument q p = record { type_tag = some q; argument = p }

module _ (m : Bytes) (small : length m < 2 ^ 31) where
  check_text-padded :
      (p end : ℕ) (s : Bytes)
      → At m p (padded s)
      → NoZero s
      → p + length (padded s) ≤ end
      → check_text m p end ≡ ok (p + length (padded s))
  unfolding check_text
  check_text-padded p end s at nz room =
      let different : (p == end) ≡ false =
        ne→== p end (λ e. omega (arith, e, room, length-padded s)) in
      let search : Option ℕ → Result ℕ =
        λ q. elim q [ none ↦ thrown malformed_message | some next ↦ ok next ] in
      ap
        (λ b. elim b [
          | true ↦ thrown malformed_message
          | false ↦ find_str4_end_bounded m p end >>= search
        ])
        different
      ∙ bind-by search (find_str4_end_bounded-padded m p end s at nz room)

  pub to_uint32-At : (p x : ℕ) → At m p (from_uint32 x) → x < 2 ^ 32 → to_uint32 (drop p m) ≡ ok x
  to_uint32-At p x at h = ap to_uint32 (At-drop at) ∙ to_uint32-from_uint32 x at.behind h

  pub to_int32-At : (p x : ℕ) → At m p (from_int32 x) → x < 2 ^ 32 → to_int32 (drop p m) ≡ ok x
  to_int32-At p x at h = ap to_int32 (At-drop at) ∙ to_int32-from_int32 x at.behind h

  pub to_uint64-At : (p x : ℕ) → At m p (from_uint64 x) → x < 2 ^ 64 → to_uint64 (drop p m) ≡ ok x
  to_uint64-At p x at h = ap to_uint64 (At-drop at) ∙ to_uint64-from_uint64 x at.behind h

  pub to_int64-At : (p x : ℕ) → At m p (from_int64 x) → x < 2 ^ 64 → to_int64 (drop p m) ≡ ok x
  to_int64-At p x at h = ap to_int64 (At-drop at) ∙ to_int64-from_int64 x at.behind h

  pub blob_size : (p : ℕ) (x : Bytes) → At m p (blob_bytes x) → to_uint32 (drop p m) ≡ ok (length x)
  unfolding blob_bytes
  blob_size p x at =
      let count : length x < 2 ^ 32 = omega (arith, length-blob_bytes x, At-length at, small) in
      to_uint32-At p (length x) (At-left (from_uint32 (length x)) (x ++ padding (length x)) at)
        count

  blob_next :
      (p : ℕ) (x : Bytes)
      → At m p (blob_bytes x)
      → p + 4 + round_up4_uint32 (length x) ≡ p + length (blob_bytes x)
  blob_next p x at = omega (arith, length-blob_bytes x, At-length at, small)

  check_blob-lem :
      (p end : ℕ) (x : Bytes)
      → At m p (blob_bytes x)
      → check_blob m p end ≡ ok (p + length (blob_bytes x))
  unfolding check_blob
  check_blob-lem p end x at =
      bind-by (λ n. ok (p + 4 + round_up4_uint32 n)) (blob_size p x at) ∙ ap ok (blob_next p x at)

  nothing : (p : ℕ) → p ≡ p + 0
  nothing p = omega arith

  module _ (p level end : ℕ) where
    -- The check of `Init`.
    pub check_argument-IsEncodable :
        (x : Argument)
        → IsEncodable x
        → At m p (argument_bytes x)
        → p + length (argument_bytes x) ≤ end
        → check_argument m (tag_kind (argument_tag x)) p level end
          ≡ ok (p + length (argument_bytes x), level_by x level)
    unfolding check_argument tag_kind from_int32 from_int64 from_uint32 from_uint64
    check_argument-IsEncodable (Argument.int32 x) e at room =
        next_is p 4 level (check_fixed-fits 4 p end (omega arith) room)
    check_argument-IsEncodable (Argument.int64 x) e at room =
        next_is p 8 level (check_fixed-fits 8 p end (omega arith) room)
    check_argument-IsEncodable (Argument.float x) e at room =
        next_is p 4 level (check_fixed-fits 4 p end (omega arith) room)
    check_argument-IsEncodable (Argument.double x) e at room =
        next_is p 8 level (check_fixed-fits 8 p end (omega arith) room)
    check_argument-IsEncodable (Argument.char x) e at room =
        next_is p 4 level (check_fixed-fits 4 p end (omega arith) room)
    check_argument-IsEncodable (Argument.rgba_color x) e at room =
        next_is p 4 level (check_fixed-fits 4 p end (omega arith) room)
    check_argument-IsEncodable (Argument.midi_message x) e at room =
        next_is p 4 level (check_fixed-fits 4 p end (omega arith) room)
    check_argument-IsEncodable (Argument.time_tag x) e at room =
        next_is p 8 level (check_fixed-fits 8 p end (omega arith) room)
    check_argument-IsEncodable (Argument.string x) e at room =
        next_is p (length (padded x)) level (check_text-padded p end x at e room)
    check_argument-IsEncodable (Argument.symbol x) e at room =
        next_is p (length (padded x)) level (check_text-padded p end x at e room)
    check_argument-IsEncodable (Argument.blob x) e at room =
        next_is p (length (blob_bytes x)) level (check_blob-lem p end x at)
    check_argument-IsEncodable (Argument.boolean true) e at room =
        ap (λ q. ok (q, level)) (nothing p)
    check_argument-IsEncodable (Argument.boolean false) e at room =
        ap (λ q. ok (q, level)) (nothing p)
    check_argument-IsEncodable Argument.nil e at room = ap (λ q. ok (q, level)) (nothing p)
    check_argument-IsEncodable Argument.infinitum e at room = ap (λ q. ok (q, level)) (nothing p)
    check_argument-IsEncodable Argument.array_begin e at room =
        ap (λ q. ok (q, (level + 1) % 2 ^ 32)) (nothing p)
    check_argument-IsEncodable Argument.array_end e at room =
        ap (λ q. ok (q, (level + (2 ^ 32 - 1)) % 2 ^ 32)) (nothing p)
    check_argument-IsEncodable (Argument.unknown t) e at room = elim e [ ]

  -- Where `Advance` goes.
  pub advance_argument-IsEncodable :
      (p : ℕ) (x : Argument)
      → IsEncodable x
      → At m p (argument_bytes x)
      → advance_argument m (tag_kind (argument_tag x)) p ≡ ok (p + length (argument_bytes x))
  unfolding advance_argument tag_kind from_int32 from_int64 from_uint32 from_uint64
  advance_argument-IsEncodable p (Argument.int32 x) e at = refl
  advance_argument-IsEncodable p (Argument.int64 x) e at = refl
  advance_argument-IsEncodable p (Argument.float x) e at = refl
  advance_argument-IsEncodable p (Argument.double x) e at = refl
  advance_argument-IsEncodable p (Argument.char x) e at = refl
  advance_argument-IsEncodable p (Argument.rgba_color x) e at = refl
  advance_argument-IsEncodable p (Argument.midi_message x) e at = refl
  advance_argument-IsEncodable p (Argument.time_tag x) e at = refl
  advance_argument-IsEncodable p (Argument.string x) e at = find_str4_end-padded m p x at e
  advance_argument-IsEncodable p (Argument.symbol x) e at = find_str4_end-padded m p x at e
  advance_argument-IsEncodable p (Argument.blob x) e at =
      bind-by (λ n. ok (p + 4 + round_up4_uint32 n)) (blob_size p x at) ∙ ap ok (blob_next p x at)
  advance_argument-IsEncodable p (Argument.boolean true) e at = ap ok (nothing p)
  advance_argument-IsEncodable p (Argument.boolean false) e at = ap ok (nothing p)
  advance_argument-IsEncodable p Argument.nil e at = ap ok (nothing p)
  advance_argument-IsEncodable p Argument.infinitum e at = ap ok (nothing p)
  advance_argument-IsEncodable p Argument.array_begin e at = ap ok (nothing p)
  advance_argument-IsEncodable p Argument.array_end e at = ap ok (nothing p)
  advance_argument-IsEncodable p (Argument.unknown t) e at = elim e [ ]
