-- ===== src/Packet/Bundle.antt =====
-- `ReceivedPacket`, `ReceivedBundle` and `ReceivedBundleElement` of oscpack_1_1_0/osc: a packet as the
-- tree of its elements, each read as osclua/osclua.cpp reads it.
use lua2sc.Prelude.{
  ℕ, zero, suc, ◌+◌, ◌%◌, ◌^◌, Bool, true, false, ◌&&◌, length, take, drop, if◌then◌else◌, ◌==◌,
  ltb,
}
use lua2sc.Osc.Value.{
  Bytes, malformed_packet, malformed_bundle, Result, ok, lua_error, thrown, undefined, ◌>>=◌,
  bytes_eq,
}
use lua2sc.Osc.Pack.{
  Received, Elements, message, bundle, throwing_message, throwing_bundle, undefined_reading,
  no_more, element,
}
use lua2sc.Packet.Order.{to_uint32, to_uint64}
use lua2sc.Packet.Write.{bundle_bytes}
use lua2sc.Packet.Memory.{byte_at, c_string_at, is_valid_size, is_multiple_of_4}
use lua2sc.Packet.Message.{init_message}
use lua2sc.Packet.Iterate.{all_arguments}

-- `IsBundle`
unfoldable pub is_bundle : Bytes → ℕ → ℕ → Result Bool
is_bundle m contents size =
    if ltb 0 size && ltb size (2 ^ 31)
    then (do c ← byte_at m contents; ok (c == b'#'))
    else ok false

-- The loop of `Init`, with `fuel` rounds to go: the number of elements. The sum of the four bytes of
-- the size and the size itself is an `uint32`. A loop that never ends has no side effect here, which C++
-- leaves undefined.
unfoldable pub check_elements : ℕ → Bytes → ℕ → ℕ → Result ℕ
check_elements zero m p end = undefined
check_elements (suc fuel) m p end = elim (ltb p end) [
  | false ↦ if p == end then ok 0 else thrown malformed_bundle
  | true ↦ elim (ltb end (p + 4)) [
    | true ↦ thrown malformed_bundle
    | false ↦ (do
      element_size ← to_uint32 (drop p m)
      let next = p + (4 + element_size) % 2 ^ 32
      elim (is_multiple_of_4 element_size) [
        | false ↦ thrown malformed_bundle
        | true ↦ elim (ltb end next) [
          | true ↦ thrown malformed_bundle
          | false ↦ (do count ← check_elements fuel m next end; ok (count + 1))
        ]
      ])
  ]
]

-- `ReceivedBundle::Init`: the number of elements.
unfoldable pub init_bundle : Bytes → ℕ → ℕ → Result ℕ
init_bundle m contents size = elim (is_valid_size size) [
  | false ↦ thrown malformed_bundle
  | true ↦ elim (ltb size 16) [
    | true ↦ thrown malformed_bundle
    | false ↦ elim (is_multiple_of_4 size) [
      | false ↦ thrown malformed_bundle
      | true ↦ elim (bytes_eq (take 8 (drop contents m)) bundle_bytes) [
        | false ↦ thrown malformed_bundle
        | true ↦ check_elements (length m) m (contents + 16) (contents + size)
      ]
    ]
  ]
]

-- What is shown of an element, by the outcome of reading it.
unfoldable pub shown_message : Result Received → Received
shown_message (ok r) = r
shown_message (thrown e) = throwing_message e
shown_message (lua_error e) = undefined_reading
shown_message undefined = undefined_reading

unfoldable pub shown_bundle : Result Received → Received
shown_bundle (ok r) = r
shown_bundle (thrown e) = throwing_bundle e
shown_bundle (lua_error e) = undefined_reading
shown_bundle undefined = undefined_reading

-- A message: the constructor, then the address and the arguments.
unfoldable pub read_message : Bytes → ℕ → ℕ → Result Received
read_message m contents size = do
  tags ← init_message m contents size
  address ← c_string_at (drop contents m)
  arguments ← all_arguments m tags
  ok (message address arguments)

-- A bundle, given how to read its elements: the constructor, then the time tag and the elements.
unfoldable pub read_bundle : Bytes → ℕ → ℕ → Elements → Result Received
read_bundle m contents size elements = do
  _ ← init_bundle m contents size
  tag ← to_uint64 (drop (contents + 8) m)
  ok (bundle tag elements)

-- A packet or an element, by its first byte.
unfoldable pub received_by : Result Bool → Result Received → Result Received → Received
received_by (ok true) as_bundle as_message = shown_bundle as_bundle
received_by (ok false) as_bundle as_message = shown_message as_message
received_by _ as_bundle as_message = undefined_reading

-- The element whose size could be read, and those after it.
unfoldable pub element_by : Result ℕ → (ℕ → Elements) → Elements
element_by (ok size) shown = shown size
element_by _ shown = element undefined_reading no_more

-- With `fuel` levels and elements to go.
unfoldable mutual
  pub received_at : ℕ → Bytes → ℕ → ℕ → Received
  received_at zero m contents size = undefined_reading
  received_at (suc fuel) m contents size =
      received_by (is_bundle m contents size)
        (read_bundle m contents size (elements_at fuel m (contents + 16) (contents + size)))
        (read_message m contents size)

  -- The loop from `ElementsBegin()` to `ElementsEnd()`.
  pub elements_at : ℕ → Bytes → ℕ → ℕ → Elements
  elements_at zero m p end = element undefined_reading no_more
  elements_at (suc fuel) m p end = elim (p == end) [
    | true ↦ no_more
    | false ↦
        element_by (to_uint32 (drop p m)) λ size.
          element (received_at fuel m (p + 4) size) (elements_at fuel m (p + (4 + size)) end)
  ]

-- `ReceivedPacket( msg, len )`, whose size is an `int32`.
unfoldable pub receive : Bytes → Result Received
receive m =
    let size = length m % 2 ^ 32 in
    if is_valid_size size
    then if size == 0
      then thrown malformed_packet
      else if is_multiple_of_4 size
      then ok (received_at (suc (length m)) m 0 size)
      else thrown malformed_packet
    else thrown malformed_packet
