-- ===== src/Osc/TypeName.antt =====
-- The names of the types in special tables, of `pushSpecial` and `parseOSCMessage`.
use Prim.Native.Char.{code}
use Prim.Native.String.{String}
use lua2sc.Prelude.{List, [], ◌∷◌, Option, none, some, if◌then◌else◌}
use lua2sc.Osc.Value.{Bytes, bytes_eq}

-- The code points of a type's name, which are its bytes.
abbrev pub codes : String → Bytes
codes String.[] = []
codes (String.◌∷◌ c s) = code c ∷ codes s

-- The types of a special table.
pub data TypeName : Type 0 where
  float double string symbol blob infinity nil rgbacolor : TypeName
  int32 char int64 midi boolean timetag open_bracket close_bracket : TypeName

abbrev pub spelling : TypeName → Bytes
spelling float = codes "float"
spelling double = codes "double"
spelling string = codes "string"
spelling symbol = codes "symbol"
spelling blob = codes "blob"
spelling infinity = codes "infinity"
spelling nil = codes "nil"
spelling rgbacolor = codes "rgbacolor"
spelling int32 = codes "int32"
spelling char = codes "char"
spelling int64 = codes "int64"
spelling midi = codes "midi"
spelling boolean = codes "boolean"
spelling timetag = codes "timetag"
spelling open_bracket = codes "["
spelling close_bracket = codes "]"

-- The tests in the order of the code.
abbrev pub type_names : List TypeName
type_names =
    TypeName.float ∷ TypeName.double ∷ TypeName.string ∷ TypeName.symbol ∷ TypeName.blob
    ∷ TypeName.infinity ∷ TypeName.nil ∷ TypeName.rgbacolor ∷ TypeName.int32 ∷ TypeName.char
    ∷ TypeName.int64 ∷ TypeName.midi ∷ TypeName.boolean ∷ TypeName.timetag ∷ TypeName.open_bracket
    ∷ TypeName.close_bracket ∷ []

unfoldable pub find_type : List TypeName → Bytes → Option TypeName
find_type [] name = none
find_type (t ∷ ts) name = if bytes_eq name (spelling t) then some t else find_type ts name
