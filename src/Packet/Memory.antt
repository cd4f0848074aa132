-- ===== src/Packet/Memory.antt =====
-- Reading memory in oscpack_1_1_0/osc/OscReceivedElements.cpp. The memory is the received packet, a
-- pointer an offset in it; to read outside is undefined.
use lua2sc.Prelude.{
  ℕ, zero, suc, ◌+◌, ◌-◌, ◌^◌, bit_and, [], ◌∷◌, Option, none, some, Bool, true, false, ◌&&◌,
  length, get_elem?, take, drop, if◌then◌else◌, ◌==◌, ltb, leb,
}
use lua2sc.Osc.Value.{Bytes, Result, ok, undefined, ◌>>=◌, defined}

-- `*p`
abbrev pub byte_at : Bytes → ℕ → Result ℕ
byte_at m p = defined (get_elem? m p)

-- `while( p < end && *p ) p += 4;`, with `fuel` rounds to go.
unfoldable pub scan_bounded : ℕ → Bytes → ℕ → ℕ → Result ℕ
scan_bounded zero m p end = undefined
scan_bounded (suc fuel) m p end = elim (ltb p end) [
  | false ↦ ok p
  | true ↦ (do
    c ← byte_at m p
    elim (c == 0) [ true ↦ ok p | false ↦ scan_bounded fuel m (p + 4) end ])
]

-- `FindStr4End( p, end )`, `none` for null.
unfoldable pub find_str4_end_bounded : Bytes → ℕ → ℕ → Result (Option ℕ)
find_str4_end_bounded m p end = elim (leb end p) [
  | true ↦ ok none
  | false ↦ (do
    first ← byte_at m p
    elim (first == 0) [
      | true ↦ ok (some (p + 4))
      | false ↦ (do
        q ← scan_bounded (length m) m (p + 3) (end - 1)
        last ← byte_at m q
        ok (if last == 0 then some (q + 1) else none))
    ])
]

-- `while( *p ) p += 4;`
unfoldable pub scan : ℕ → Bytes → ℕ → Result ℕ
scan zero m p = undefined
scan (suc fuel) m p = do
  c ← byte_at m p
  elim (c == 0) [ true ↦ ok p | false ↦ scan fuel m (p + 4) ]

-- `FindStr4End( p )`
unfoldable pub find_str4_end : Bytes → ℕ → Result ℕ
find_str4_end m p = do
  first ← byte_at m p
  elim (first == 0) [ true ↦ ok (p + 4) | false ↦ (do q ← scan (length m) m (p + 3); ok (q + 1)) ]

-- The C string at a pointer, and `n` bytes at a pointer.
unfoldable pub c_string_at : Bytes → Result Bytes
c_string_at [] = undefined
c_string_at (c ∷ m) = elim (c == 0) [
  | true ↦ ok []
  | false ↦ (do rest ← c_string_at m; ok (c ∷ rest))
]

unfoldable pub bytes_at : Bytes → ℕ → ℕ → Result Bytes
bytes_at m p n = if leb (p + n) (length m) then ok (take n (drop p m)) else undefined

-- `IsValidElementSizeValue` and `IsMultipleOf4`, on the bit pattern of an `int32`.
unfoldable pub is_valid_size : ℕ → Bool
is_valid_size x = ltb x (2 ^ 31) && leb x 0x7fff_fffc

unfoldable pub is_multiple_of_4 : ℕ → Bool
is_multiple_of_4 x = bit_and x 3 == 0
