-- ===== src/Packet.antt =====
-- oscpack_1_1_0/osc: packets as bytes, written by OscOutboundPacketStream.cpp and read by
-- OscReceivedElements.cpp.
pub mod Order
pub mod Outbound
pub mod Arguments
pub mod Write
pub mod Memory
pub mod Message
pub mod Iterate
pub mod Bundle
pub mod Encoded
pub mod Layout
pub mod Grown
pub mod Step
pub mod Bounded
pub mod Linked
pub mod Accepted
pub mod Wire
pub mod Written
pub mod Packed
pub mod Read
pub mod ReadBack
pub mod Oversized
pub mod Endless
pub mod Lacks
pub mod Tests
