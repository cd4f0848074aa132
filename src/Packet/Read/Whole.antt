-- ===== src/Packet/Read/Whole.antt =====
-- A whole message that was written, read by oscpack_1_1_0/osc/OscReceivedElements.cpp.
use lua2sc.Prelude.{
  ℕ, ◌+◌, ◌%◌, ◌^◌, ◌≤◌, ◌<◌, ◌≡◌, refl, ap, subst, ◌∙◌, arith, List, [], ◌∷◌, ◌++◌, map, Option,
  none, some, true, false, length, length-append, replicate, ◌==◌, ne→==,
}
use lua2sc.Osc.Value.{Bytes, ok, thrown, malformed_message, ◌>>=◌}
use lua2sc.Osc.Pack.{Argument, message}
use lua2sc.Osc.Portable.{NoZero}
use lua2sc.Packet.Memory.{byte_at, find_str4_end_bounded, is_valid_size, is_multiple_of_4}
use lua2sc.Packet.Message.{TypeTags, init_arguments, init_tags, init_message}
use lua2sc.Packet.Iterate.{all_arguments}
use lua2sc.Packet.Bundle.{read_message}
use lua2sc.Packet.Encoded.{aligned}
use lua2sc.Packet.Layout.{padded, argument_tag, arguments_bytes, message_bytes, length-padded}
use lua2sc.Packet.Written.Message.{length-map}
use lua2sc.Packet.Read.{At, At-left, At-right, At-byte, At-length, bind-by}
use lua2sc.Packet.Read.Text.{find_str4_end_bounded-padded, c_string_at-padded, padded-zero}
use lua2sc.Packet.Read.Steps.{
  level_test, from_slot, from_second, from_comma, from_address, from_found,
}
use lua2sc.Packet.Read.Message.{
  AreEncodable, levels, argument_tag-positive, tags-NoZero, message_bytes-aligned,
  check_tags-AreEncodable, read_arguments-AreEncodable,
}

pub is_valid_size-small : (n : ℕ) → n < 2 ^ 31 → n % 4 ≡ 0 → is_valid_size n ≡ true
unfolding is_valid_size
is_valid_size-small n h r = ground arith

pub is_multiple_of_4-aligned : (n : ℕ) → n % 4 ≡ 0 → is_multiple_of_4 n ≡ true
unfolding is_multiple_of_4
is_multiple_of_4-aligned n h = aligned n h

-- The slot of the type tags.
abbrev tags_slot : List Argument → Bytes
tags_slot as' = padded (b',' ∷ map argument_tag as')

-- What `Init` keeps of a message whose type tags begin with the comma at `comma`.
abbrev tags_found : ℕ → List Argument → Option TypeTags
tags_found comma [] = none
tags_found comma (x ∷ as') = some (record {
  tags_begin = comma + 1;
  tags_end = comma + 1 + length (x ∷ as');
  arguments = comma + length (tags_slot (x ∷ as'));
})

module _ (m : Bytes) (small : length m < 2 ^ 31) where
  -- The tags and a zero after the comma.
  tags-At :
      (comma : ℕ) (as' : List Argument)
      → At m comma (tags_slot as')
      → (k : ℕ) × At m (comma + 1) (map argument_tag as' ++ 0 ∷ replicate k 0)
  tags-At comma as' at =
      let (k, e) = padded-zero (b',' ∷ map argument_tag as') in
      (
        k,
        At-right (b',' ∷ []) (map argument_tag as' ++ 0 ∷ replicate k 0) (subst (At m comma) e at),
      )

  init_arguments-AreEncodable :
      (comma end : ℕ) (x : Argument) (as' : List Argument)
      → AreEncodable (x ∷ as')
      → levels (x ∷ as') 0 ≡ 0
      → At m comma (tags_slot (x ∷ as') ++ arguments_bytes (x ∷ as'))
      → comma + length (tags_slot (x ∷ as') ++ arguments_bytes (x ∷ as')) ≤ end
      → init_arguments m comma end ≡ ok (tags_found comma (x ∷ as'))
  unfolding init_arguments
  init_arguments-AreEncodable comma end x as' e balanced at room =
      let tags = map argument_tag (x ∷ as') in
      let slot = tags_slot (x ∷ as') in
      let bytes = arguments_bytes (x ∷ as') in
      let arguments = comma + length slot in
      let sum = length-append slot bytes in
      let slot_at = At-left slot bytes at in
      let (k, tags_there) = tags-At comma (x ∷ as') slot_at in
      let many : length (x ∷ as') ≤ length m = omega (
        arith,
        At-length tags_there,
        length-append tags (0 ∷ replicate k 0),
        length-map (x ∷ as'),
      ) in
      bind-by (from_slot m comma end) (
        find_str4_end_bounded-padded m comma end (b',' ∷ tags) slot_at
          (omega arith, tags-NoZero (x ∷ as') e) (omega (arith, room, sum)))
      ∙ bind-by (level_test m comma arguments) (
          check_tags-AreEncodable m small x as' (replicate k 0) (length m) (comma + 1) arguments 0
            end e tags_there (At-right slot bytes at) (omega (arith, room, sum)) many)
      ∙ ap (λ l. level_test m comma arguments (comma + 1 + length (x ∷ as'), l)) balanced

  init_tags-AreEncodable :
      (comma end : ℕ) (as' : List Argument)
      → AreEncodable as'
      → levels as' 0 ≡ 0
      → At m comma (tags_slot as' ++ arguments_bytes as')
      → comma + length (tags_slot as' ++ arguments_bytes as') ≤ end
      → init_tags m comma end ≡ ok (tags_found comma as')
  unfolding init_tags
  init_tags-AreEncodable comma end as' e balanced at room =
      let slot_at = At-left (tags_slot as') (arguments_bytes as') at in
      let (k, z) = padded-zero (b',' ∷ map argument_tag as') in
      let comma_at : At m comma (b',' ∷ (map argument_tag as' ++ 0 ∷ replicate k 0)) =
        subst (At m comma) z slot_at in
      let sum = length-append (tags_slot as') (arguments_bytes as') in
      let different : (comma == end) ≡ false =
        ne→== comma end
          (λ e. omega (arith, e, room, sum, length-padded (b',' ∷ map argument_tag as'))) in
      ap (λ b. elim b [ true ↦ ok none | false ↦ byte_at m comma >>= from_comma m comma end ])
        different
      ∙ bind-by (from_comma m comma end) (At-byte comma_at)
      ∙ second_byte k as' e balanced at room
          (At-right (b',' ∷ []) (map argument_tag as' ++ 0 ∷ replicate k 0) comma_at)
    where
      second_byte :
          (k : ℕ) (as' : List Argument)
          → AreEncodable as'
          → levels as' 0 ≡ 0
          → At m comma (tags_slot as' ++ arguments_bytes as')
          → comma + length (tags_slot as' ++ arguments_bytes as') ≤ end
          → At m (comma + 1) (map argument_tag as' ++ 0 ∷ replicate k 0)
          → (byte_at m (comma + 1) >>= from_second m comma end) ≡ ok (tags_found comma as')
      second_byte k [] e balanced at room next = bind-by (from_second m comma end) (At-byte next)
      second_byte k (x ∷ as') e balanced at room next =
          bind-by (from_second m comma end) (At-byte next)
          ∙ ap (λ b. elim b [ true ↦ ok none | false ↦ init_arguments m comma end ])
              (argument_tag-positive x e.0)
          ∙ init_arguments-AreEncodable comma end x as' e balanced at room

  all_arguments-AreEncodable :
      (comma : ℕ) (as' : List Argument)
      → AreEncodable as'
      → At m comma (tags_slot as' ++ arguments_bytes as')
      → all_arguments m (tags_found comma as') ≡ ok as'
  unfolding all_arguments
  all_arguments-AreEncodable comma [] e at = refl
  all_arguments-AreEncodable comma (x ∷ as') e at =
      let tags = map argument_tag (x ∷ as') in
      let slot = tags_slot (x ∷ as') in
      let bytes = arguments_bytes (x ∷ as') in
      let (k, tags_there) = tags-At comma (x ∷ as') (At-left slot bytes at) in
      let many : length (x ∷ as') < length m = omega (
        arith,
        At-length tags_there,
        length-append tags (0 ∷ replicate k 0),
        length-map (x ∷ as'),
      ) in
      read_arguments-AreEncodable m small (x ∷ as') (0 ∷ replicate k 0) (length m) (comma + 1)
        (comma + length slot) (comma + 1 + length (x ∷ as')) e tags_there (At-right slot bytes at)
        refl many

  init_message-AreEncodable :
      (a : Bytes) (as' : List Argument) (p : ℕ)
      → NoZero a
      → AreEncodable as'
      → levels as' 0 ≡ 0
      → At m p (message_bytes a as')
      → init_message m p (length (message_bytes a as'))
        ≡ ok (tags_found (p + length (padded a)) as')
  unfolding init_message
  init_message-AreEncodable a as' p nz e balanced at =
      let size = length (message_bytes a as') in
      let rest = tags_slot as' ++ arguments_bytes as' in
      let within = At-length at in
      let sum = length-append (padded a) rest in
      let whole = message_bytes-aligned a as' in
      let search = find_str4_end_bounded m p (p + size) >>= from_address m (p + size) in
      let not_empty : (size == 0) ≡ false =
        ne→== size 0 (λ e. omega (arith, e, sum, length-padded a)) in
      ap
        (λ b. elim b [
          | false ↦ thrown malformed_message
          | true ↦ elim (size == 0) [
            | true ↦ thrown malformed_message
            | false ↦ elim (is_multiple_of_4 size) [
              | false ↦ thrown malformed_message
              | true ↦ search
            ]
          ]
        ])
        (is_valid_size-small size (omega (arith, within, small)) whole)
      ∙ ap
          (λ b. elim b [
            | true ↦ thrown malformed_message
            | false ↦ elim (is_multiple_of_4 size) [
              | false ↦ thrown malformed_message
              | true ↦ search
            ]
          ])
          not_empty
      ∙ ap (λ b. elim b [ false ↦ thrown malformed_message | true ↦ search ])
          (is_multiple_of_4-aligned size whole)
      ∙ bind-by (from_address m (p + size)) (
          find_str4_end_bounded-padded m p (p + size) a (At-left (padded a) rest at) nz
            (omega (arith, sum)))
      ∙ init_tags-AreEncodable (p + length (padded a)) (p + size) as' e balanced
          (At-right (padded a) rest at) (omega (arith, sum))

  -- A message that was written is read back.
  pub read_message-AreEncodable :
      (a : Bytes) (as' : List Argument) (p : ℕ)
      → NoZero a
      → AreEncodable as'
      → levels as' 0 ≡ 0
      → At m p (message_bytes a as')
      → read_message m p (length (message_bytes a as')) ≡ ok (message a as')
  unfolding read_message
  read_message-AreEncodable a as' p nz e balanced at =
      let rest = tags_slot as' ++ arguments_bytes as' in
      bind-by (from_found m p) (init_message-AreEncodable a as' p nz e balanced at)
      ∙ bind-by
          (λ address. all_arguments m (tags_found (p + length (padded a)) as') >>= λ as'.
            ok (message address as'))
          (c_string_at-padded m p a (At-left (padded a) rest at) nz)
      ∙ bind-by (λ as'. ok (message a as'))
          (all_arguments-AreEncodable (p + length (padded a)) as' e (At-right (padded a) rest at))
