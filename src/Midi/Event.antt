-- ===== src/Midi/Event.antt =====
-- Short messages that luaportmidi/luaportmidi.c writes and reads.
use lua2sc.Prelude.{ℕ, ◌+◌, ◌*◌, ◌/◌, ◌%◌, ◌^◌, ◌<◌, ◌≡◌, bit_and, [], ◌∷◌, arith}
use lua2sc.Words.{bit_and_mask, bit_and-shl, bit_or_fields}
use lua2sc.Midi.Port.{PortMidi, IsPacking}
use lua2sc.Midi.Core.{
  type, channel, byte2, byte3, byte4, delta, Fields, getfield, status_byte, event_fields, Midi,
  State, write_short,
}
use lua2sc.Midi.Sent.{Sends, short_message, write_short-Sends}

status_byte_lem :
    (fs : Fields) → status_byte fs ≡ getfield fs type 0 % 16 * 16 + getfield fs channel 0 % 16
unfolding status_byte
status_byte_lem fs =
    rw (bit_and_mask 4 (getfield fs type 0), bit_and_mask 4 (getfield fs channel 0))
      (bit_or_fields 4 (getfield fs type 0 % 16) (getfield fs channel 0 % 16) (omega arith))

high_half : (s : ℕ) → s < 2 ^ 8 → bit_and s 0xf0 / 2 ^ 4 ≡ s / 16
high_half s h = omega (arith, bit_and-shl 4 s 15, bit_and_mask 4 (s / 2 ^ 4))

-- `writeShort` writes one message to the stream of its handle, whatever the library answers, and
-- with the macros that portmidi.h documents an event with that message reads as: the low four bits of
-- the table's type and channel, the low eight bits of its second and third byte, 0 for the fourth
-- byte, whatever the table says, and the time stamp.
pub event_fields-write_short :
    (p : PortMidi) (fs : Fields) (d : Midi p.Stream) (s : State p) (time : ℕ)
    → IsPacking p
    → (message : ℕ) × Sends p d message s (write_short p fs d s)
      × (event_fields p (record { message = message; timestamp = time })
          ≡ (type, getfield fs type 0 % 16)
            ∷ (channel, getfield fs channel 0 % 16)
            ∷ (byte2, getfield fs byte2 0 % 256)
            ∷ (byte3, getfield fs byte3 0 % 256)
            ∷ (byte4, 0)
            ∷ (delta, time)
            ∷ [])
unfolding event_fields
event_fields-write_short p fs d s time packing =
    let a = getfield fs byte2 0 in
    let b = getfield fs byte3 0 in
    let message = short_message p fs in
    let status : p.message_status message
        ≡ getfield fs type 0 % 16 * 16 + getfield fs channel 0 % 16 =
      omega (arith, packing.status_back (status_byte fs) a b, status_byte_lem fs) in
    let high : bit_and (p.message_status message) 0xf0 / 2 ^ 4 ≡ getfield fs type 0 % 16 =
      omega (arith, status, high_half (p.message_status message) (omega (arith, status))) in
    let low : bit_and (p.message_status message) 0x0f ≡ getfield fs channel 0 % 16 =
      omega (arith, status, bit_and_mask 4 (p.message_status message)) in
    let fourth : bit_and (message / 2 ^ 24) 0xff ≡ 0 =
      omega (arith, packing.three_bytes (status_byte fs) a b, bit_and_mask 8 (message / 2 ^ 24)) in
    (
      message,
      write_short-Sends p d s fs,
      rw (
        high,
        low,
        packing.data1_back (status_byte fs) a b,
        packing.data2_back (status_byte fs) a b,
        fourth,
      ),
    )
