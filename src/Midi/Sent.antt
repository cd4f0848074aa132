-- ===== src/Midi/Sent.antt =====
-- The call of `Pm_WriteShort` in `writeShort` of luaportmidi/luaportmidi.c.
use lua2sc.Prelude.{ℕ, ℤ, pos, ◌≡◌, ◌≢◌, if◌then◌else◌, inl, inr, Bool-cases}
use lua2sc.Midi.Port.{PortMidi}
use lua2sc.Midi.Core.{
  Midi, Called, nothing, text, State, Fields, getfield, byte2, byte3, status_byte, is_zero,
  write_short,
}
use lua2sc.Midi.Lifecycle.{is_zero-false}

module _ (p : PortMidi) where
  -- The message of a table: its status byte, its second and its third byte.
  abbrev pub short_message : Fields → ℕ
  short_message fs = p.pm_message (status_byte fs) (getfield fs byte2 0) (getfield fs byte3 0)

  -- A call wrote `message` to the stream of `d`, once, changed the library's state in no other way and
  -- kept the handles; it leaves nothing on the stack where the library reports no error, and the text
  -- of the error otherwise.
  pub record Sends (d : Midi p.Stream) (message : ℕ) (s : State p) (called : Called p)
      : Type 0 where
    pub after : called.1 ≡ record s { world = (p.pm_write_short d.stream message s.world).1 }
    pub sent : (p.pm_write_short d.stream message s.world).0 ≡ pos 0 → called.0 ≡ nothing
    pub refused :
        (p.pm_write_short d.stream message s.world).0 ≢ pos 0
        → called.0 ≡ text d.device (p.error_text (p.pm_write_short d.stream message s.world).0)

  module _ (d : Midi p.Stream) (s : State p) where
    -- What `writeShort` does after the library's call.
    abbrev answer : ℤ × p.World → Called p
    answer (err, w) =
        if is_zero err
        then (nothing, record s { world = w })
        else (text d.device (p.error_text err), record s { world = w })

    answer-after : (r : ℤ × p.World) → (answer r).1 ≡ record s { world = r.1 }
    answer-after (err, w) = elim (Bool-cases (is_zero err)) [ inl z ↦ rw z | inr z ↦ rw z ]

    answer-sent : (r : ℤ × p.World) → r.0 ≡ pos 0 → (answer r).0 ≡ nothing
    unfolding is_zero
    answer-sent (err, w) h = rw h

    answer-refused :
        (r : ℤ × p.World) → r.0 ≢ pos 0 → (answer r).0 ≡ text d.device (p.error_text r.0)
    answer-refused (err, w) h = rw (is_zero-false err h)

    pub write_short-Sends : (fs : Fields) → Sends d (short_message fs) s (write_short p fs d s)
    unfolding write_short
    write_short-Sends fs = record {
      after = answer-after (p.pm_write_short d.stream (short_message fs) s.world);
      sent = answer-sent (p.pm_write_short d.stream (short_message fs) s.world);
      refused = answer-refused (p.pm_write_short d.stream (short_message fs) s.world);
    }
