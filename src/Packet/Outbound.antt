-- ===== src/Packet/Outbound.antt =====
-- The state of `OutboundPacketStream` in oscpack_1_1_0/osc/OscOutboundPacketStream.cpp, elements and
-- the checks for space. The buffer is written from below with the packet and from its end downwards
-- with the type tags of the message in progress; pointers are offsets from `data_`.
use lua2sc.Prelude.{
  ℕ, ◌+◌, ◌-◌, [], ◌++◌, Option, none, some, Bool, true, false, length, take, drop, if◌then◌else◌,
  ◌==◌, ltb,
}
use lua2sc.Osc.Value.{Bytes, out_of_buffer_memory, Result, ok, thrown, undefined, ◌>>=◌}
use lua2sc.Packet.Order.{from_uint32, native_uint32, load_uint32, round_up4}

-- `body` is the memory from `data_` to `argumentCurrent_`, `tags` that from `typeTagsCurrent_` to
-- `end_`, `cursor` is `messageCursor_` and `element` is `elementSizePtr_`, `none` for null.
pub record Outbound : Type 0 where
  pub capacity : ℕ
  pub body : Bytes
  pub tags : Bytes
  pub cursor : ℕ
  pub element : Option ℕ
  pub in_message : Bool

-- The constructor, and `Clear`.
unfoldable pub outbound : ℕ → Outbound
outbound capacity = record {
  capacity = capacity;
  body = [];
  tags = [];
  cursor = 0;
  element = none;
  in_message = false;
}

unfoldable pub clear : Outbound → Outbound
clear s = record s { body = []; tags = []; cursor = 0; element = none; in_message = false }

abbrev pub is_some : Option ℕ → Bool
is_some none = false
is_some (some n) = true

-- `ElementSizeSlotRequired`, which is also `IsBundleInProgress`.
unfoldable pub slot_required : Outbound → Bool
slot_required s = is_some s.element

unfoldable pub is_ready : Outbound → Bool
is_ready s = if s.in_message then false else if slot_required s then false else true

-- `Size`
unfoldable pub size : Outbound → ℕ
size s = length s.body + (if s.in_message then round_up4 (length s.tags + 2) else 0)

-- `CheckFor...Space`: the sum, and the test of it.
unfoldable pub bundle_space : Outbound → ℕ
bundle_space s = size s + (if slot_required s then 4 else 0) + 16

unfoldable pub message_space : Bytes → Outbound → ℕ
message_space address s =
    size s + (if slot_required s then 4 else 0) + round_up4 (length address + 1) + 4

unfoldable pub argument_space : ℕ → Outbound → ℕ
argument_space argument_length s = length s.body + argument_length + round_up4 (length s.tags + 3)

-- `if( required > Capacity() ) throw OutOfBufferMemoryException();`, then the rest of the call.
unfoldable pub with_space : ℕ → Outbound → Outbound → Result Outbound
with_space required s done =
    if ltb s.capacity required then thrown out_of_buffer_memory else ok done

-- `BeginElement( messageCursor_ )`: the memory below the pointer that it returns, and the new
-- `elementSizePtr_`.
unfoldable pub begin_element : Outbound → Bytes × Option ℕ
begin_element s = elim s.element [
  | none ↦ (take s.cursor s.body, some 0)
  | some slot ↦ (take s.cursor s.body ++ native_uint32 slot, some s.cursor)
]

-- `EndElement( messageCursor_ )`. A null `elementSizePtr_` is read.
unfoldable pub end_element : Outbound → Result Outbound
end_element s = elim s.element [
  | none ↦ undefined
  | some slot ↦ elim (slot == 0) [
    | true ↦ ok (record s { element = none })
    | false ↦ (do
      previous ← load_uint32 (drop slot s.body)
      ok (record s {
        body = take slot s.body ++ (from_uint32 (s.cursor - slot - 4) ++ drop (slot + 4) s.body);
        element = some previous;
      }))
  ]
]
