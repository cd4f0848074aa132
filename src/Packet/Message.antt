-- ===== src/Packet/Message.antt =====
-- `ReceivedMessage::Init` of oscpack_1_1_0/osc/OscReceivedElements.cpp.
use lua2sc.Prelude.{
  ℕ, zero, suc, ◌+◌, ◌-◌, ◌%◌, ◌^◌, Option, none, some, true, false, ◌||◌, length, drop,
  if◌then◌else◌, ◌==◌, ltb,
}
use lua2sc.Osc.Value.{Bytes, malformed_message, Result, ok, thrown, undefined, ◌>>=◌}
use lua2sc.Packet.Order.{to_uint32, round_up4_uint32}
use lua2sc.Packet.Arguments.{
  true_tag, false_tag, nil_tag, infinitum_tag, int32_tag, float_tag, char_tag, rgba_color_tag,
  midi_message_tag, int64_tag, time_tag_tag, double_tag, string_tag, symbol_tag, blob_tag,
  array_begin_tag, array_end_tag,
}
use lua2sc.Packet.Memory.{byte_at, find_str4_end_bounded, is_valid_size, is_multiple_of_4}

-- The cases of the switches on a type tag.
pub data TagKind : Type 0 where
  no_bytes open_array close_array four_bytes eight_bytes text sized other : TagKind

unfoldable pub tag_kind : ℕ → TagKind
tag_kind t =
    if t == true_tag || t == false_tag || t == nil_tag || t == infinitum_tag
    then no_bytes
    else if t == array_begin_tag
    then open_array
    else if t == array_end_tag
    then close_array
    else if t == int32_tag
        || t == float_tag
        || t == char_tag
        || t == rgba_color_tag
        || t == midi_message_tag
    then four_bytes
    else if t == int64_tag || t == time_tag_tag || t == double_tag
    then eight_bytes
    else if t == string_tag || t == symbol_tag
    then text
    else if t == blob_tag
    then sized
    else other

-- An argument of a fixed length: where it ends.
unfoldable pub check_fixed : ℕ → ℕ → ℕ → Result ℕ
check_fixed n argument end =
    if argument == end
    then thrown malformed_message
    else if ltb end (argument + n)
    then thrown malformed_message
    else ok (argument + n)

unfoldable pub check_text : Bytes → ℕ → ℕ → Result ℕ
check_text m argument end = elim (argument == end) [
  | true ↦ thrown malformed_message
  | false ↦ (do
    q ← find_str4_end_bounded m argument end
    elim q [ none ↦ thrown malformed_message | some next ↦ ok next ])
]

-- A blob: both of its tests make an exception and do not throw it.
unfoldable pub check_blob : Bytes → ℕ → ℕ → Result ℕ
check_blob m argument end = do
  blob_size ← to_uint32 (drop argument m)
  ok (argument + 4 + round_up4_uint32 blob_size)

-- The switch in the loop: the next argument and the level of arrays, an `unsigned int`.
unfoldable pub check_argument : Bytes → TagKind → ℕ → ℕ → ℕ → Result (ℕ × ℕ)
check_argument m no_bytes argument level end = ok (argument, level)
check_argument m open_array argument level end = ok (argument, (level + 1) % 2 ^ 32)
check_argument m close_array argument level end = ok (argument, (level + (2 ^ 32 - 1)) % 2 ^ 32)
check_argument m four_bytes argument level end = do
  next ← check_fixed 4 argument end
  ok (next, level)
check_argument m eight_bytes argument level end = do
  next ← check_fixed 8 argument end
  ok (next, level)
check_argument m text argument level end = do next ← check_text m argument end; ok (next, level)
check_argument m sized argument level end = do next ← check_blob m argument end; ok (next, level)
check_argument m other argument level end = thrown malformed_message

-- `do { ... } while( *++typeTag != '\0' )`, with `fuel` rounds to go: `typeTagsEnd_` and the level.
unfoldable pub check_tags : ℕ → Bytes → ℕ → ℕ → ℕ → ℕ → Result (ℕ × ℕ)
check_tags zero m tag argument level end = undefined
check_tags (suc fuel) m tag argument level end = do
  t ← byte_at m tag
  (argument', level') ← check_argument m (tag_kind t) argument level end
  next ← byte_at m (tag + 1)
  elim (next == 0) [
    | true ↦ ok (tag + 1, level')
    | false ↦ check_tags fuel m (tag + 1) argument' level' end
  ]

-- `typeTagsBegin_`, `typeTagsEnd_` and `arguments_`, where they are not null.
pub record TypeTags : Type 0 where
  pub tags_begin : ℕ
  pub tags_end : ℕ
  pub arguments : ℕ

-- The part of `Init` after the initial comma.
unfoldable pub init_arguments : Bytes → ℕ → ℕ → Result (Option TypeTags)
init_arguments m comma end = do
  q ← find_str4_end_bounded m comma end
  elim q [
    | none ↦ thrown malformed_message
    | some arguments ↦ (do
      (tags_end, level) ← check_tags (length m) m (comma + 1) arguments 0 end
      elim (level == 0) [
        | true ↦
            ok
              (some (record { tags_begin = comma + 1; tags_end = tags_end; arguments = arguments }))
        | false ↦ thrown malformed_message
      ])
  ]

-- The part of `Init` after the address.
unfoldable pub init_tags : Bytes → ℕ → ℕ → Result (Option TypeTags)
init_tags m comma end = elim (comma == end) [
  | true ↦ ok none
  | false ↦ (do
    c ← byte_at m comma
    elim (c == b',') [
      | false ↦ thrown malformed_message
      | true ↦ (do
        c' ← byte_at m (comma + 1)
        elim (c' == 0) [ true ↦ ok none | false ↦ init_arguments m comma end ])
    ])
]

-- `Init`, which reads the message at `message`.
unfoldable pub init_message : Bytes → ℕ → ℕ → Result (Option TypeTags)
init_message m message size = elim (is_valid_size size) [
  | false ↦ thrown malformed_message
  | true ↦ elim (size == 0) [
    | true ↦ thrown malformed_message
    | false ↦ elim (is_multiple_of_4 size) [
      | false ↦ thrown malformed_message
      | true ↦ (do
        q ← find_str4_end_bounded m message (message + size)
        elim q [
          | none ↦ thrown malformed_message
          | some comma ↦ init_tags m comma (message + size)
        ])
    ]
  ]
]
