-- ===== src/Osc.antt =====
-- osclua/osclua.cpp: Lua tables to OSC packets and back, through the library oscpack.
pub mod Value
pub mod Kept
pub mod TypeName
pub mod Pack
pub mod Encode
pub mod Decode
pub mod Meaning
pub mod Writes
pub mod Refinement
pub mod Portable
pub mod RoundTrip
pub mod Shape
pub mod Arguments
pub mod Typed
pub mod Errors
pub mod Tests
