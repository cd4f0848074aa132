-- ===== src/Packet/Read/Message.antt =====
-- A message that was written, as oscpack_1_1_0/osc/OscReceivedElements.cpp checks it and osclua/osclua.cpp
-- reads it.
use lua2sc.Prelude.{
  ℕ, suc, ◌+◌, ◌%◌, ◌^◌, ◌≤◌, ◌<◌, ◌≡◌, refl, ap, ◌∙◌, arith, List, [], ◌∷◌, ◌++◌, map, true, false,
  length, length-append, ◌==◌,
}
use lua2sc.Osc.Value.{Bytes, ok, ◌>>=◌}
use lua2sc.Osc.Pack.{Argument}
use lua2sc.Osc.Portable.{NoZero}
use lua2sc.Packet.Order.{from_int32, from_uint32, from_int64, from_uint64}
use lua2sc.Packet.Memory.{byte_at}
use lua2sc.Packet.Message.{tag_kind, check_argument, check_tags}
use lua2sc.Packet.Iterate.{at_end, read_arguments}
use lua2sc.Packet.Layout.{
  argument_tag, argument_bytes, arguments_bytes, message_bytes, length-padded,
}
use lua2sc.Packet.Step.{length-blob_bytes}
use lua2sc.Packet.Written.Message.{length-message_bytes}
use lua2sc.Packet.Read.{At, At-left, At-right, At-byte, bind-by, positive_fuel}
use lua2sc.Packet.Read.Accessors.{advance-IsEncodable, read_argument-IsEncodable}
use lua2sc.Packet.Read.Argument.{IsEncodable, level_by, check_argument-IsEncodable, at_argument}
use lua2sc.Packet.Read.Steps.{
  at_end_self, at_end_later, after, inner, from_next, from_first, all_of,
}

abbrev pub AreEncodable : List Argument → Type 0
AreEncodable [] = Unit {0}
AreEncodable (a ∷ as') = IsEncodable a × AreEncodable as'

-- The level of arrays after the arguments.
abbrev pub levels : List Argument → ℕ → ℕ
levels [] level = level
levels (a ∷ as') level = levels as' (level_by a level)

pub argument_tag-positive : (a : Argument) → IsEncodable a → (argument_tag a == 0) ≡ false
argument_tag-positive (Argument.int32 x) e = refl
argument_tag-positive (Argument.int64 x) e = refl
argument_tag-positive (Argument.float x) e = refl
argument_tag-positive (Argument.double x) e = refl
argument_tag-positive (Argument.char x) e = refl
argument_tag-positive (Argument.rgba_color x) e = refl
argument_tag-positive (Argument.midi_message x) e = refl
argument_tag-positive (Argument.time_tag x) e = refl
argument_tag-positive (Argument.string x) e = refl
argument_tag-positive (Argument.symbol x) e = refl
argument_tag-positive (Argument.blob x) e = refl
argument_tag-positive (Argument.boolean true) e = refl
argument_tag-positive (Argument.boolean false) e = refl
argument_tag-positive Argument.nil e = refl
argument_tag-positive Argument.infinitum e = refl
argument_tag-positive Argument.array_begin e = refl
argument_tag-positive Argument.array_end e = refl
argument_tag-positive (Argument.unknown t) e = elim e [ ]

pub tags-NoZero : (as' : List Argument) → AreEncodable as' → NoZero (map argument_tag as')
tags-NoZero [] e = tt
tags-NoZero (a ∷ as') e =
    (positive (argument_tag a) (argument_tag-positive a e.0), tags-NoZero as' e.1)
  where
    positive : (t : ℕ) → (t == 0) ≡ false → 0 < t
    positive t h = ground arith

argument_bytes-aligned : (a : Argument) → length (argument_bytes a) % 4 ≡ 0
unfolding from_int32 from_uint32 from_int64 from_uint64
argument_bytes-aligned (Argument.string x) = omega (arith, length-padded x)
argument_bytes-aligned (Argument.symbol x) = omega (arith, length-padded x)
argument_bytes-aligned (Argument.blob x) = omega (arith, length-blob_bytes x)
argument_bytes-aligned (Argument.int32 x) = refl
argument_bytes-aligned (Argument.int64 x) = refl
argument_bytes-aligned (Argument.float x) = refl
argument_bytes-aligned (Argument.double x) = refl
argument_bytes-aligned (Argument.char x) = refl
argument_bytes-aligned (Argument.rgba_color x) = refl
argument_bytes-aligned (Argument.midi_message x) = refl
argument_bytes-aligned (Argument.time_tag x) = refl
argument_bytes-aligned (Argument.boolean x) = refl
argument_bytes-aligned Argument.nil = refl
argument_bytes-aligned Argument.infinitum = refl
argument_bytes-aligned Argument.array_begin = refl
argument_bytes-aligned Argument.array_end = refl
argument_bytes-aligned (Argument.unknown x) = refl

arguments_bytes-aligned : (as' : List Argument) → length (arguments_bytes as') % 4 ≡ 0
arguments_bytes-aligned [] = refl
arguments_bytes-aligned (a ∷ as') = omega (
  arith,
  length-append (argument_bytes a) (arguments_bytes as'),
  argument_bytes-aligned a,
  arguments_bytes-aligned as',
)

pub message_bytes-aligned : (a : Bytes) (as' : List Argument) → length (message_bytes a as') % 4 ≡ 0
message_bytes-aligned a as' =
    omega (arith, length-message_bytes a as', length-padded a, arguments_bytes-aligned as')

module _ (m : Bytes) (small : length m < 2 ^ 31) where
  -- One round of the loop over the type tags, up to the test of the next one.
  check_tags-round :
      (x : Argument) (as' : List Argument) (zs : Bytes) (k q p level end : ℕ)
      → IsEncodable x
      → At m q (argument_tag x ∷ zs)
      → At m p (argument_bytes x ++ arguments_bytes as')
      → p + length (argument_bytes x ++ arguments_bytes as') ≤ end
      → check_tags (suc k) m q p level end
        ≡ (byte_at m (q + 1) >>= after m k q end (p + length (argument_bytes x)) (level_by x level))
  unfolding check_tags
  check_tags-round x as' zs k q p level end e tags at room =
      bind-by (λ t. check_argument m (tag_kind t) p level end >>= inner m k q end) (At-byte tags)
      ∙ bind-by (inner m k q end) (
          check_argument-IsEncodable m small p level end x e
            (At-left (argument_bytes x) (arguments_bytes as') at)
            (omega (arith, room, length-append (argument_bytes x) (arguments_bytes as'))))

  -- The loop over the type tags.
  pub check_tags-AreEncodable :
      (x : Argument) (as' : List Argument) (zs : Bytes) (fuel q p level end : ℕ)
      → AreEncodable (x ∷ as')
      → At m q (map argument_tag (x ∷ as') ++ 0 ∷ zs)
      → At m p (arguments_bytes (x ∷ as'))
      → p + length (arguments_bytes (x ∷ as')) ≤ end
      → length (x ∷ as') ≤ fuel
      → check_tags fuel m q p level end ≡ ok (q + length (x ∷ as'), levels (x ∷ as') level)
  check_tags-AreEncodable x [] zs fuel q p level end e tags at room enough =
      let (k, f) = positive_fuel fuel (omega (arith, enough)) in
      ap (λ n. check_tags n m q p level end) f
      ∙ check_tags-round x [] (0 ∷ zs) k q p level end e.0 tags at room
      ∙ bind-by (after m k q end (p + length (argument_bytes x)) (level_by x level))
          (At-byte (At-right (argument_tag x ∷ []) (0 ∷ zs) tags))
  check_tags-AreEncodable x (y ∷ as') zs fuel q p level end e tags at room enough =
      let (k, f) = positive_fuel fuel (omega (arith, enough)) in
      let a = p + length (argument_bytes x) in
      let l = level_by x level in
      let later = At-right (argument_tag x ∷ []) (map argument_tag (y ∷ as') ++ 0 ∷ zs) tags in
      ap (λ n. check_tags n m q p level end) f
      ∙ check_tags-round x (y ∷ as') (map argument_tag (y ∷ as') ++ 0 ∷ zs) k q p level end e.0 tags
          at room
      ∙ bind-by (after m k q end a l) (At-byte later)
      ∙ ap (λ b. elim b [ true ↦ ok (q + 1, l) | false ↦ check_tags k m (q + 1) a l end ])
          (argument_tag-positive y e.1.0)
      ∙ check_tags-AreEncodable y as' zs k (q + 1) a l end e.1 later
          (At-right (argument_bytes x) (arguments_bytes (y ∷ as')) at)
          (omega (arith, room, length-append (argument_bytes x) (arguments_bytes (y ∷ as'))))
          (omega (arith, enough, f))
      ∙ ap (λ n. ok (n, levels (y ∷ as') l)) (omega arith)

  pub read_arguments-AreEncodable :
      (as' : List Argument) (zs : Bytes) (fuel q p n : ℕ)
      → AreEncodable as'
      → At m q (map argument_tag as' ++ zs)
      → At m p (arguments_bytes as')
      → n ≡ q + length as'
      → length as' < fuel
      → read_arguments fuel m (at_argument q p) n ≡ ok as'
  unfolding read_arguments
  read_arguments-AreEncodable [] zs fuel q p n e tags at stop enough =
      let (k, f) = positive_fuel fuel (omega (arith, enough)) in
      let here : n ≡ q = omega (arith, stop) in
      ap (λ k. read_arguments k m (at_argument q p) n) f
      ∙ ap (λ b. elim b [ true ↦ ok [] | false ↦ all_of m k n q p ])
          (ap (at_end (at_argument q p)) here ∙ at_end_self q p)
  read_arguments-AreEncodable (x ∷ as') zs fuel q p n e tags at stop enough =
      let (k, f) = positive_fuel fuel (omega (arith, enough)) in
      let ts = map argument_tag as' ++ zs in
      let first_bytes = At-left (argument_bytes x) (arguments_bytes as') at in
      ap (λ k. read_arguments k m (at_argument q p) n) f
      ∙ ap (λ b. elim b [ true ↦ ok [] | false ↦ all_of m k n q p ])
          (at_end_later q p n (omega (arith, stop)))
      ∙ bind-by (from_first m k n q p)
          (read_argument-IsEncodable m small q p x ts e.0 tags first_bytes)
      ∙ bind-by (from_next m k n x) (advance-IsEncodable m small q p x ts e.0 tags first_bytes)
      ∙ bind-by (λ rest. ok (x ∷ rest))
          (read_arguments-AreEncodable as' zs k (q + 1) (p + length (argument_bytes x)) n e.1
            (At-right (argument_tag x ∷ []) ts tags)
            (At-right (argument_bytes x) (arguments_bytes as') at) (omega (arith, stop))
            (omega (arith, enough, f)))
