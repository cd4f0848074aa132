-- ===== src/Osc/Meaning.antt =====
-- What a table means, as a packet and apart from any stream: the contract of `toOSC` in
-- osclua/osclua.cpp.
use lua2sc.Prelude.{List, [], ◌∷◌, ◌++◌, map, Option, none, some}
use lua2sc.Osc.Value.{
  Bytes, Value, Items, nil, boolean, number, string, table, other, end, item, Numbers,
  invalid_entry, values_not_table, bad_nested, bad_first, Error, Result, ok, lua_error, ◌>>=◌,
  defined, c_string, as_number, as_string, first,
}
use lua2sc.Osc.Pack.{
  Argument, Item, begin_bundle, end_bundle, begin_message, end_message, argument, Received,
  Elements, message, bundle, throwing_message, throwing_bundle, undefined_reading, no_more, element,
}
use lua2sc.Osc.Encode.{number_argument, special_argument, copy_512}

-- The writes that make a packet.
unfoldable mutual
  pub flatten : Received → List Item
  flatten (message a as') = begin_message a ∷ (map argument as' ++ end_message ∷ [])
  flatten (bundle t es) = begin_bundle t ∷ (flatten_elements es ++ end_bundle ∷ [])
  flatten (throwing_message e) = []
  flatten (throwing_bundle e) = []
  flatten undefined_reading = []

  pub flatten_elements : Elements → List Item
  flatten_elements no_more = []
  flatten_elements (element r es) = flatten r ++ flatten_elements es

module _ (n : Numbers) where
  open n use {N, to_uint64}

  -- The arguments that a list of values stands for, up to the first nil.
  unfoldable pub arguments : Items N → Result (List Argument)
  arguments end = ok []
  arguments (item nil rest) = ok []
  arguments (item (boolean b) rest) = do as' ← arguments rest; ok (Argument.boolean b ∷ as')
  arguments (item (number x) rest) = do a ← number_argument n x; as' ← arguments rest; ok (a ∷ as')
  arguments (item (string t) rest) = do
    as' ← arguments rest
    ok (Argument.string (c_string t) ∷ as')
  arguments (item (table t) rest) = do a ← special_argument n t; as' ← arguments rest; ok (a ∷ as')
  arguments (item other rest) = lua_error invalid_entry

  unfoldable pub arguments_of : Value N → Result (List Argument)
  arguments_of (table t) = arguments t
  arguments_of _ = lua_error values_not_table

  unfoldable pub message_of : Bytes → Items N → Result Received
  message_of a rest = do addr ← copy_512 a; as' ← arguments_of (first rest); ok (message addr as')

  -- A table by its first element: a time tag and elements, or an address and values.
  unfoldable pub packet_by :
      Result Elements → Items N → Error → Option N → Option Bytes → Result Received
  packet_by inner rest wrong (some tag) text = do
    t ← defined (to_uint64 tag)
    es ← inner
    ok (bundle t es)
  packet_by inner rest wrong none (some a) = message_of a rest
  packet_by inner rest wrong none none = lua_error wrong

  unfoldable pub packet_with : Result Elements → Value N → Items N → Error → Result Received
  unfolding packet_by
  packet_with inner start rest wrong =
      packet_by inner rest wrong (as_number n start) (as_string n start)

  unfoldable pub elements_of : Items N → Result Elements
  elements_of end = ok no_more
  elements_of (item (table end) rest) = lua_error bad_nested
  elements_of (item (table (item start inner)) rest) = do
    r ← packet_with (elements_of inner) start inner bad_nested
    es ← elements_of rest
    ok (element r es)
  elements_of (item _ rest) = ok no_more

  unfoldable pub meaning : Items N → Result Received
  meaning end = lua_error bad_first
  meaning (item start rest) = packet_with (elements_of rest) start rest bad_first
