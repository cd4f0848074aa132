-- ===== src/Midi/Core.antt =====
-- The functions that luaportmidi/luaportmidi.c registers with Lua. An `int` is its 32-bit pattern;
-- a handle is an index into the list of the userdata that were created.
use lua2sc.Prelude.{
  ℕ, zero, suc, ◌+◌, ◌*◌, ◌/◌, ◌^◌, bit_and, bit_or, ℤ, pos, negsuc, List, [], ◌∷◌, ◌++◌, Option,
  none, some, Bool, true, false, length, get_elem?, if◌then◌else◌, ◌==◌,
}
use lua2sc.Midi.Port.{PortMidi, DeviceInfo, PmEvent}

-- `t_midi`, over the type of streams.
pub record Midi (S : Type 0) : Type 0 where
  pub device : ℤ
  pub stream : S

-- The fields of a table that describes a short message, and of one that was read.
pub data Key : Type 0 where
  type channel byte2 byte3 byte4 delta : Key

-- A field: missing or no number, or a number, converted to `int`.
pub data Field : Type 0 where
  unset : Field
  number : ℕ → Field

abbrev pub Fields : Type 0
Fields = Key → Field

-- `getfield(state, key, def)`
unfoldable pub getfield : Fields → Key → ℕ → ℕ
getfield fs key default = elim (fs key) [ unset ↦ default | number n ↦ n ]

-- The first byte of the message: the type in the high half, the channel in the low one.
unfoldable pub status_byte : Fields → ℕ
status_byte fs =
    bit_or (bit_and (getfield fs type 0) 0xf * 2 ^ 4) (bit_and (getfield fs channel 0) 0xf)

-- What a call leaves on the Lua stack; `raised` is `luaL_error`, `invalid` the error of
-- `luaL_checkudata`, `undefined` a null pointer read.
pub data Reply (S : Type 0) : Type 0 where
  nothing : Reply S
  boolean : Bool → Reply S
  text : ℤ → List ℕ → Reply S
  nil_text : ℤ → List ℕ → Reply S
  event : List (Key × ℕ) → Reply S
  created : ℕ → Reply S
  devices : List (ℕ × DeviceInfo) → Reply S
  raised : ℤ → List ℕ → Reply S
  invalid : Reply S
  undefined : Reply S

unfoldable pub is_zero : ℤ → Bool
is_zero (pos zero) = true
is_zero (pos (suc n)) = false
is_zero (negsuc n) = false

unfoldable pub is_one : ℤ → Bool
is_one (pos n) = n == 1
is_one (negsuc n) = false

unfoldable pub is_negative : ℤ → Bool
is_negative (pos n) = false
is_negative (negsuc n) = true

module _ (p : PortMidi) where
  open p use {
    World, Stream, count_devices, get_device_info, open_input, open_output, pm_close, pm_poll,
    pm_read, pm_write_short, error_text, pm_message, message_status, message_data1, message_data2,
  }

  -- The library's state and the userdata.
  pub record State : Type 0 where
    pub world : World
    pub handles : List (Midi Stream)

  abbrev pub Called : Type 0
  Called = Reply Stream × State

  -- `checkpmidi(L)`, then the rest of the call.
  unfoldable pub with_midi : State → ℕ → (Midi Stream → Called) → Called
  with_midi s h body = elim (get_elem? s.handles h) [ none ↦ (invalid, s) | some d ↦ body d ]

  -- `writeShort`: `byte4` is read and goes nowhere.
  unfoldable pub write_short : Fields → Midi Stream → State → Called
  write_short fs d s =
      let data4 = getfield fs byte4 0 in
      let message = pm_message (status_byte fs) (getfield fs byte2 0) (getfield fs byte3 0) in
      let (err, w) = pm_write_short d.stream message s.world in
      if is_zero err
      then (nothing, record s { world = w })
      else (text d.device (error_text err), record s { world = w })

  -- The table that `read` makes of an event.
  unfoldable pub event_fields : PmEvent → List (Key × ℕ)
  event_fields e =
      (type, bit_and (message_status e.message) 0xf0 / 2 ^ 4)
      ∷ (channel, bit_and (message_status e.message) 0x0f)
      ∷ (byte2, message_data1 e.message)
      ∷ (byte3, message_data2 e.message)
      ∷ (byte4, bit_and (e.message / 2 ^ 24) 0xff)
      ∷ (delta, e.timestamp)
      ∷ []

  unfoldable pub read : Midi Stream → State → Called
  read d s =
      let (count, e, w) = pm_read d.stream s.world in
      if is_negative count
      then (nil_text d.device (error_text count), record s { world = w })
      else if is_zero count
      then (boolean false, record s { world = w })
      else (event (event_fields e), record s { world = w })

  -- What `OpenInput` and `OpenOutput` do after the library's call.
  unfoldable pub opened_with : ℤ → ℤ × Stream × World → State → Called
  opened_with device (err, stream, w) s =
      if is_zero err
      then (
        created (length s.handles),
        record {
          world = w;
          handles = s.handles ++ record { device = device; stream = stream } ∷ [];
        },
      )
      else (nil_text device (error_text err), record s { world = w })

  unfoldable pub open_input_lua : ℤ → State → Called
  open_input_lua device s = opened_with device (open_input device s.world) s

  unfoldable pub open_output_lua : ℤ → State → Called
  open_output_lua device s = opened_with device (open_output device s.world) s

  -- `close`, which is also the `__gc` of a handle.
  unfoldable pub close : Midi Stream → State → Called
  close d s =
      let (err, w) = pm_close d.stream s.world in
      if is_zero err
      then (nothing, record s { world = w })
      else (raised d.device (error_text err), record s { world = w })

  unfoldable pub poll : Midi Stream → State → Called
  poll d s =
      let (status, w) = pm_poll d.stream s.world in
      if is_one status
      then (boolean true, record s { world = w })
      else if is_zero status
      then (boolean false, record s { world = w })
      else (nil_text d.device (error_text status), record s { world = w })

  -- The loop of `listDevices` with `left` rounds to go, at the device `i`.
  unfoldable pub list_from : World → ℕ → ℕ → Option (List (ℕ × DeviceInfo))
  list_from w zero i = some []
  list_from w (suc left) i = elim (get_device_info w i) [
    | none ↦ none
    | some info ↦ elim (list_from w left (i + 1)) [
      | none ↦ none
      | some rest ↦ some ((i, info) ∷ rest)
    ]
  ]

  unfoldable pub list_devices : State → Called
  list_devices s = elim (list_from s.world (count_devices s.world) 0) [
    | none ↦ (undefined, s)
    | some ds ↦ (devices ds, s)
  ]

  -- The entries of `thislib_f` and `thislib_m`.
  pub data Method : Type 0 where
    list_devices_entry : Method
    open_input_entry open_output_entry : ℤ → Method
    gc_entry close_entry poll_entry read_entry : ℕ → Method
    write_short_entry : ℕ → Fields → Method

  unfoldable pub registered : Method → State → Called
  registered list_devices_entry s = list_devices s
  registered (open_input_entry device) s = open_input_lua device s
  registered (open_output_entry device) s = open_output_lua device s
  registered (gc_entry h) s = with_midi s h (λ d. close d s)
  registered (close_entry h) s = with_midi s h (λ d. close d s)
  registered (poll_entry h) s = with_midi s h (λ d. poll d s)
  registered (read_entry h) s = with_midi s h (λ d. read d s)
  registered (write_short_entry h fs) s = with_midi s h (λ d. write_short fs d s)
