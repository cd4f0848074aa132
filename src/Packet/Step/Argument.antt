-- ===== src/Packet/Step/Argument.antt =====
-- The overloads of `<<` for arguments in oscpack_1_1_0/osc/OscOutboundPacketStream.cpp: a test for space
-- and the bytes they add.
use lua2sc.Prelude.{ℕ, ◌+◌, ◌≡◌, refl, sym, ap, ◌∙◌, arith, ◌∷◌, ◌++◌, length, length-append}
use lua2sc.Osc.Value.{Bytes}
use lua2sc.Osc.Pack.{Argument}
use lua2sc.Packet.Order.{from_int32, from_int64, from_uint32, padding, from_uint64, round_up4}
use lua2sc.Packet.Outbound.{Outbound, argument_space, with_space}
use lua2sc.Packet.Arguments.{
  push_argument, put_argument, put_bool, put_nil, put_infinitum, put_int32, put_float, put_char,
  put_rgba_color, put_midi_message, put_int64, put_time_tag, put_double, put_string, put_symbol,
  put_blob, put_array_begin, put_array_end, string_bytes, blob_bytes,
}
use lua2sc.Packet.Encoded.{length-from_uint32, length-padding}
use lua2sc.Packet.Layout.{padded, argument_tag, argument_bytes, string_bytes-padded, length-padded}

-- An argument that can be written.
abbrev pub IsWritten : Argument → Type 0
IsWritten (Argument.unknown t) = ⊥
IsWritten _ = Unit {0}

abbrev pub pushed : Argument → Outbound → Outbound
pushed a s = record s { tags = argument_tag a ∷ s.tags; body = s.body ++ argument_bytes a }

abbrev pub pushed_space : Argument → Outbound → ℕ
pushed_space a s = length s.body + length (argument_bytes a) + round_up4 (length s.tags + 3)

fixed :
    (a : Argument) (n : ℕ) (s : Outbound)
    → length (argument_bytes a) ≡ n
    → push_argument n (argument_tag a) (argument_bytes a) s
      ≡ with_space (pushed_space a s) s (pushed a s)
unfolding push_argument argument_space
fixed a n s e = rw e

textual :
    (a : Argument) (x : Bytes) (s : Outbound)
    → argument_bytes a ≡ padded x
    → push_argument (round_up4 (length x + 1)) (argument_tag a) (string_bytes x) s
      ≡ with_space (pushed_space a s) s (pushed a s)
textual a x s e =
    ap (λ b. push_argument (round_up4 (length x + 1)) (argument_tag a) b s)
      (string_bytes-padded x ∙ sym e)
    ∙ fixed a (round_up4 (length x + 1)) s (ap length e ∙ length-padded x)

pub length-blob_bytes : (x : Bytes) → length (blob_bytes x) ≡ 4 + round_up4 (length x)
unfolding blob_bytes
length-blob_bytes x = omega (
  arith,
  length-append (from_uint32 (length x)) (x ++ padding (length x)),
  length-from_uint32 (length x),
  length-append x (padding (length x)),
  length-padding (length x),
)

pub put_argument-IsWritten :
    (a : Argument) (s : Outbound)
    → IsWritten a
    → put_argument a s ≡ with_space (pushed_space a s) s (pushed a s)
unfolding put_argument put_bool put_nil put_infinitum put_int32 put_float put_char put_rgba_color
    put_midi_message put_int64 put_time_tag put_double put_string put_symbol put_blob
    put_array_begin put_array_end from_int32 from_int64 from_uint32 from_uint64
put_argument-IsWritten (Argument.int32 x) s w = fixed (Argument.int32 x) 4 s refl
put_argument-IsWritten (Argument.int64 x) s w = fixed (Argument.int64 x) 8 s refl
put_argument-IsWritten (Argument.float x) s w = fixed (Argument.float x) 4 s refl
put_argument-IsWritten (Argument.double x) s w = fixed (Argument.double x) 8 s refl
put_argument-IsWritten (Argument.char x) s w = fixed (Argument.char x) 4 s refl
put_argument-IsWritten (Argument.rgba_color x) s w = fixed (Argument.rgba_color x) 4 s refl
put_argument-IsWritten (Argument.midi_message x) s w = fixed (Argument.midi_message x) 4 s refl
put_argument-IsWritten (Argument.time_tag x) s w = fixed (Argument.time_tag x) 8 s refl
put_argument-IsWritten (Argument.string x) s w = textual (Argument.string x) x s refl
put_argument-IsWritten (Argument.symbol x) s w = textual (Argument.symbol x) x s refl
put_argument-IsWritten (Argument.blob x) s w =
    fixed (Argument.blob x) (4 + round_up4 (length x)) s (length-blob_bytes x)
put_argument-IsWritten (Argument.boolean x) s w = fixed (Argument.boolean x) 0 s refl
put_argument-IsWritten Argument.nil s w = fixed Argument.nil 0 s refl
put_argument-IsWritten Argument.infinitum s w = fixed Argument.infinitum 0 s refl
put_argument-IsWritten Argument.array_begin s w = fixed Argument.array_begin 0 s refl
put_argument-IsWritten Argument.array_end s w = fixed Argument.array_end 0 s refl
put_argument-IsWritten (Argument.unknown x) s w = elim w [ ]
