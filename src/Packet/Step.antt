-- ===== src/Packet/Step.antt =====
-- Each write of oscpack_1_1_0/osc/OscOutboundPacketStream.cpp, on a stream between messages and inside a
-- message, as a test for space and the bytes it adds.
mod Argument
mod Begin
mod End
pub use Argument.{IsWritten, pushed, pushed_space, length-blob_bytes, put_argument-IsWritten}
pub use Begin.{
  slot_size, in_progress, with_more, put_begin_message-IsResting, bundle_started,
  put_begin_bundle-IsResting,
}
pub use End.{length-framed, length-open_slot, put_end_message-in_progress, put_end_bundle-started}
