-- ===== src/Packet/Order.antt =====
-- Byte order and alignment in oscpack_1_1_0/osc, on a host with the low byte first. An integer is its
-- bit pattern. Sizes of objects in memory are far below 2 ^ 64, and sums of them exact.
use lua2sc.Prelude.{ℕ, zero, suc, ◌+◌, ◌*◌, ◌/◌, ◌%◌, ◌^◌, bit_and, [], ◌∷◌, if◌then◌else◌, ◌==◌}
use lua2sc.Osc.Value.{Bytes, Result, ok, undefined}

-- `FromInt32`, `FromUInt32`, `FromInt64`, `FromUInt64`: the high byte first.
unfoldable pub from_uint32 : ℕ → Bytes
from_uint32 x = x / 2 ^ 24 % 256 ∷ x / 2 ^ 16 % 256 ∷ x / 2 ^ 8 % 256 ∷ x % 256 ∷ []

unfoldable pub from_int32 : ℕ → Bytes
from_int32 x = x / 2 ^ 24 % 256 ∷ x / 2 ^ 16 % 256 ∷ x / 2 ^ 8 % 256 ∷ x % 256 ∷ []

unfoldable pub from_uint64 : ℕ → Bytes
from_uint64 x =
    x / 2 ^ 56 % 256
    ∷ x / 2 ^ 48 % 256
    ∷ x / 2 ^ 40 % 256
    ∷ x / 2 ^ 32 % 256
    ∷ x / 2 ^ 24 % 256
    ∷ x / 2 ^ 16 % 256
    ∷ x / 2 ^ 8 % 256
    ∷ x % 256
    ∷ []

unfoldable pub from_int64 : ℕ → Bytes
from_int64 x =
    x / 2 ^ 56 % 256
    ∷ x / 2 ^ 48 % 256
    ∷ x / 2 ^ 40 % 256
    ∷ x / 2 ^ 32 % 256
    ∷ x / 2 ^ 24 % 256
    ∷ x / 2 ^ 16 % 256
    ∷ x / 2 ^ 8 % 256
    ∷ x % 256
    ∷ []

-- A `uint32` as it stands in memory.
unfoldable pub native_uint32 : ℕ → Bytes
native_uint32 x = x % 256 ∷ x / 2 ^ 8 % 256 ∷ x / 2 ^ 16 % 256 ∷ x / 2 ^ 24 % 256 ∷ []

-- The `uint32` that stands at the head of memory.
unfoldable pub load_uint32 : Bytes → Result ℕ
load_uint32 (a ∷ b ∷ c ∷ d ∷ m) = ok (a + b * 2 ^ 8 + c * 2 ^ 16 + d * 2 ^ 24)
load_uint32 _ = undefined

-- `ToInt32`, `ToUInt32`, `ToInt64`, `ToUInt64` of the bytes from a pointer on.
unfoldable pub to_uint32 : Bytes → Result ℕ
to_uint32 (a ∷ b ∷ c ∷ d ∷ m) = ok (a * 2 ^ 24 + b * 2 ^ 16 + c * 2 ^ 8 + d)
to_uint32 _ = undefined

unfoldable pub to_int32 : Bytes → Result ℕ
to_int32 (a ∷ b ∷ c ∷ d ∷ m) = ok (a * 2 ^ 24 + b * 2 ^ 16 + c * 2 ^ 8 + d)
to_int32 _ = undefined

unfoldable pub to_uint64 : Bytes → Result ℕ
to_uint64 (a ∷ b ∷ c ∷ d ∷ e ∷ f ∷ g ∷ h ∷ m) =
    ok (a * 2 ^ 56 + b * 2 ^ 48 + c * 2 ^ 40 + d * 2 ^ 32 + e * 2 ^ 24 + f * 2 ^ 16 + g * 2 ^ 8 + h)
to_uint64 _ = undefined

unfoldable pub to_int64 : Bytes → Result ℕ
to_int64 (a ∷ b ∷ c ∷ d ∷ e ∷ f ∷ g ∷ h ∷ m) =
    ok (a * 2 ^ 56 + b * 2 ^ 48 + c * 2 ^ 40 + d * 2 ^ 32 + e * 2 ^ 24 + f * 2 ^ 16 + g * 2 ^ 8 + h)
to_int64 _ = undefined

-- `RoundUp4`, on sizes.
abbrev pub round_up4 : ℕ → ℕ
round_up4 x = (x + 3) / 4 * 4

-- `RoundUp4_UInt32`, which wraps.
abbrev pub round_up4_uint32 : ℕ → ℕ
round_up4_uint32 x = (x + 3) % 2 ^ 32 / 4 * 4

-- The loop `while( i & 0x3 )` that writes zeros, with `fuel` rounds to go; three are enough.
unfoldable pub pad_loop : ℕ → ℕ → Bytes
pad_loop zero i = []
pad_loop (suc fuel) i =
    let rest = pad_loop fuel (i + 1) in if bit_and i 3 == 0 then [] else 0 ∷ rest

unfoldable pub padding : ℕ → Bytes
padding = pad_loop 3
