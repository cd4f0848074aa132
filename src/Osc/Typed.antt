-- ===== src/Osc/Typed.antt =====
-- The types of special tables, which `pushSpecial` of osclua/osclua.cpp packs and `parseOSCMessage`
-- shows.
use lua2sc.Prelude.{◌≡◌}
use lua2sc.Osc.Value.{Value, Numbers, ok}
use lua2sc.Osc.TypeName.{TypeName}
use lua2sc.Osc.Pack.{Argument}
use lua2sc.Osc.Decode.{shown_argument}

module _ (n : Numbers) where
  open n use {N, to_int32, to_int64, to_uint64, to_char, to_float, to_double}

  -- `fromOSC` shows the argument under the name of the type.
  abbrev pub ShownAs : TypeName → Argument → Type 0
  ShownAs t a = (x : Value N) × (shown_argument n a ≡ ok (t, x))
