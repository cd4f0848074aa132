-- ===== src/Midi.antt =====
-- luaportmidi/luaportmidi.c: MIDI devices for Lua, through the library PortMidi.
pub mod Port
pub mod Core
pub mod Event
pub mod Handles
pub mod Lifecycle
pub mod Devices
pub mod Sent
pub mod Opening
pub mod Tests
