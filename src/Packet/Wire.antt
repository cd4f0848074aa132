-- ===== src/Packet/Wire.antt =====
-- The writer and the readers of oscpack_1_1_0/osc together, as the library that osclua/osclua.cpp uses.
use lua2sc.Prelude.{ℕ}
use lua2sc.Osc.Pack.{Oscpack}
use lua2sc.Packet.Outbound.{Outbound, outbound}
use lua2sc.Packet.Write.{put}
use lua2sc.Packet.Bundle.{receive}

-- `OUTPUT_BUFFER_SIZE` of osclua/osclua.cpp.
abbrev pub output_buffer_size : ℕ
output_buffer_size = 65535

-- The library over a buffer of some capacity. `toOSC` takes the contents where no message is in
-- progress: they are then the memory below `argumentCurrent_`.
abbrev pub oscpack : ℕ → Oscpack
oscpack capacity = record {
  Stream = Outbound;
  empty = outbound capacity;
  put = put;
  contents = λ s. s.body;
  receive = receive;
}
