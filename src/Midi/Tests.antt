-- ===== src/Midi/Tests.antt =====
-- luaportmidi/luaportmidi.c on a concrete library with one stream.
use lua2sc.Prelude.{
  ℕ, zero, suc, ◌+◌, ◌*◌, ◌/◌, ◌%◌, ◌^◌, ◌<◌, ◌≡◌, ◌≢◌, refl, arith, pos, negsuc, Bool, true, false,
  List, [], ◌∷◌, none, some, length, get_elem?, ltb, if◌then◌else◌,
}
use lua2sc.Midi.Port.{PortMidi, DeviceInfo, IsPacking}
use lua2sc.Midi.Core.{
  Midi, type, channel, byte2, byte3, byte4, delta, unset, number, Fields, getfield, event_fields,
  nothing, raised, devices, State, list_devices, registered, close_entry, gc_entry,
  open_input_entry, read_entry, Method, with_midi, close, is_zero,
}
use lua2sc.Midi.Sent.{Sends, short_message}
use lua2sc.Midi.Event.{event_fields-write_short}
use lua2sc.Midi.Core.{
  open_output_entry, write_short_entry, open_output_lua, opened_with, created, write_short,
}
use lua2sc.Midi.Opening.{open_output-write_short}
use lua2sc.Midi.Handles.{after_calls, after_calls-handle}
use lua2sc.Midi.Lifecycle.{gc-close}
use lua2sc.Midi.Devices.{list_devices_lem}

abbrev info : DeviceInfo
info = record {
  struct_version = 200;
  interf = 65 ∷ [];
  name = 66 ∷ [];
  input = 1;
  output = 0;
  opened = 0;
}

-- The state is whether the stream was closed; there are two devices.
abbrev one_stream : PortMidi
one_stream = record {
  World = Bool;
  Stream = Unit {0};
  count_devices = λ w. 2;
  get_device_info = λ w i. if ltb i 2 then some info else none;
  open_input = λ device w. (pos 0, tt, false);
  open_output = λ device w. (pos 0, tt, false);
  pm_close = λ s w. if w then (negsuc 0, true) else (pos 0, true);
  pm_poll = λ s w. (pos 0, w);
  pm_read = λ s w. (pos 0, record { message = 0; timestamp = 0 }, w);
  pm_write_short = λ s m w. (pos 0, w);
  error_text = λ e. [];
  pm_message = λ s a b. s % 2 ^ 8 + a % 2 ^ 8 * 2 ^ 8 + b % 2 ^ 8 * 2 ^ 16;
  message_status = λ m. m % 2 ^ 8;
  message_data1 = λ m. m / 2 ^ 8 % 2 ^ 8;
  message_data2 = λ m. m / 2 ^ 16 % 2 ^ 8;
}

one_stream-IsPacking : IsPacking one_stream
one_stream-IsPacking = record {
  status_back = λ s a b. omega arith;
  data1_back = λ s a b. omega arith;
  data2_back = λ s a b. omega arith;
  three_bytes = λ s a b. omega arith;
}

-- A note on, of channel 2, with a fourth byte.
abbrev note : Fields
note type = number 9
note channel = number 2
note byte2 = number 60
note byte3 = number 100
note byte4 = number 7
note delta = unset

abbrev opened_stream : Midi (Unit {0})
opened_stream = record { device = pos 3; stream = tt }

abbrev opened : State one_stream
opened = record { world = false; handles = opened_stream ∷ [] }

event_fields-write_short_example :
    (message : ℕ) × Sends one_stream opened_stream message opened
      (write_short one_stream note opened_stream opened)
    × (event_fields one_stream (record { message = message; timestamp = 5 })
        ≡ (type, 9) ∷ (channel, 2) ∷ (byte2, 60) ∷ (byte3, 100) ∷ (byte4, 0) ∷ (delta, 5) ∷ [])
unfolding getfield
event_fields-write_short_example =
    event_fields-write_short one_stream note opened_stream opened 5 one_stream-IsPacking

abbrev closed : State one_stream
closed = record { world = true; handles = opened_stream ∷ [] }

opened-close : registered one_stream (close_entry 0) opened ≡ (nothing, closed)
unfolding registered with_midi close is_zero
opened-close = refl

bad_pointer : negsuc 0 ≢ pos 0
bad_pointer e = cc

gc-close_example :
    (one_stream.pm_close tt false ≡ (pos 0, true))
    × (registered one_stream (gc_entry 0) closed ≡ (raised (pos 3) [], closed))
gc-close_example =
    gc-close one_stream 0 opened_stream opened closed (negsuc 0) true refl opened-close refl
      bad_pointer

known : (i : ℕ) → i < 2 → (d : DeviceInfo) × (one_stream.get_device_info false i ≡ some d)
known zero h = (info, refl)
known (suc zero) h = (info, refl)
known (suc (suc i)) h = absurd (omega arith)

list_devices_lem_example :
    (ds : List (ℕ × DeviceInfo)) × (list_devices one_stream opened ≡ (devices ds, opened))
    × (length ds ≡ 2)
    × ((i : ℕ)
        → i < 2
        → (d : DeviceInfo) × (one_stream.get_device_info false i ≡ some d)
          × (get_elem? ds i ≡ some (i, d)))
list_devices_lem_example = list_devices_lem one_stream opened known

abbrev some_calls : List (Method one_stream)
some_calls = close_entry 0 ∷ open_input_entry (pos 1) ∷ gc_entry 0 ∷ read_entry 1 ∷ []

after_calls-handle_example :
    get_elem? (after_calls one_stream some_calls opened).handles 0 ≡ some opened_stream
after_calls-handle_example = after_calls-handle one_stream some_calls opened 0 opened_stream refl

-- The stream is opened for output, and closed before it is used.
opened-open_output :
    registered one_stream (open_output_entry (pos 3)) (record { world = true; handles = [] })
    ≡ (created 0, opened)
unfolding registered open_output_lua opened_with is_zero
opened-open_output = refl

open_output-write_short_example :
    (stream : Unit {0}) × (one_stream.open_output (pos 3) true ≡ (pos 0, stream, false))
    × Sends one_stream
        (record { device = pos 3; stream = stream })
        (short_message one_stream note)
        (after_calls one_stream (close_entry 0 ∷ []) opened)
        (registered one_stream
          (write_short_entry 0 note)
          (after_calls one_stream (close_entry 0 ∷ []) opened))
open_output-write_short_example =
    open_output-write_short one_stream (pos 3) (close_entry 0 ∷ [])
      (record { world = true; handles = [] }) opened 0 note opened-open_output
