-- ===== src/Words.antt =====
-- Facts about the bit operations of C on unsigned words.
mod Step
mod Digits
mod Laws
mod Fields
pub use Step.*
pub use Digits.*
pub use Laws.*
pub use Fields.*
