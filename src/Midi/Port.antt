-- ===== src/Midi/Port.antt =====
-- The library PortMidi as luaportmidi/luaportmidi.c uses it, a parameter of the development: its
-- state, its calls, and the macros that pack a short message into 32 bits.
use lua2sc.Prelude.{ℕ, ℤ, List, Option, ◌<◌, ◌^◌, ◌%◌, ◌≡◌}

pub record DeviceInfo : Type 0 where
  pub struct_version : ℕ
  pub interf : List ℕ
  pub name : List ℕ
  pub input : ℕ
  pub output : ℕ
  pub opened : ℕ

-- `PmEvent`
pub record PmEvent : Type 0 where
  pub message : ℕ
  pub timestamp : ℕ

pub record PortMidi : Type 1 where
  pub World : Type 0
  pub Stream : Type 0
  -- `Pm_CountDevices` and `Pm_GetDeviceInfo`, whose null pointer is `none`
  pub count_devices : World → ℕ
  pub get_device_info : World → ℕ → Option DeviceInfo
  -- the error, the stream and the library's next state
  pub open_input : ℤ → World → ℤ × Stream × World
  pub open_output : ℤ → World → ℤ × Stream × World
  pub pm_close : Stream → World → ℤ × World
  pub pm_poll : Stream → World → ℤ × World
  -- `Pm_Read` of one event: the count or an error, and the buffer
  pub pm_read : Stream → World → ℤ × PmEvent × World
  -- `Pm_WriteShort` at the time 0
  pub pm_write_short : Stream → ℕ → World → ℤ × World
  pub error_text : ℤ → List ℕ
  -- the macros on bytes and 32-bit messages
  pub pm_message : ℕ → ℕ → ℕ → ℕ
  pub message_status : ℕ → ℕ
  pub message_data1 : ℕ → ℕ
  pub message_data2 : ℕ → ℕ

-- What portmidi.h documents of the macros: a message holds the low byte of each part, from the
-- lowest byte up, and nothing above.
pub record IsPacking (p : PortMidi) : Type 0 where
  pub status_back : (s a b : ℕ) → p.message_status (p.pm_message s a b) ≡ s % 2 ^ 8
  pub data1_back : (s a b : ℕ) → p.message_data1 (p.pm_message s a b) ≡ a % 2 ^ 8
  pub data2_back : (s a b : ℕ) → p.message_data2 (p.pm_message s a b) ≡ b % 2 ^ 8
  pub three_bytes : (s a b : ℕ) → p.pm_message s a b < 2 ^ 24
