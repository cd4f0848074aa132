-- ===== src/Random.antt =====
-- random/random.c, the Mersenne Twister, and random/lrandom.c, its binding to Lua.
pub mod State
pub mod Generate
pub mod Reference
pub mod Steps
pub mod Blocks
pub mod Stream
pub mod Sequence
pub mod Width
pub mod Tempering
pub mod Double
pub mod Run
pub mod Real
pub mod Binding
pub mod Normal
pub mod Resolution
pub mod Range
pub mod Fixed
pub mod Keeps
pub mod Drawing
pub mod Handles
pub mod Frame
pub mod Ignores
pub mod Restart
pub mod Tests
