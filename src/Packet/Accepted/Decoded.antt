-- ===== src/Packet/Accepted/Decoded.antt =====
-- `fromOSC` of osclua/osclua.cpp on any bytes that announce no blob.
use lua2sc.Prelude.{◌≢◌, subst, ℕ, List, [], ◌∷◌, Bool}
use lua2sc.Osc.Value.{
  Bytes, Items, Numbers, table, Result, ok, lua_error, thrown, undefined, ◌>>=◌, malformed_message,
  malformed_packet,
}
use lua2sc.Osc.Pack.{
  Argument, Received, Elements, message, bundle, throwing_message, throwing_bundle,
  undefined_reading, no_more, element,
}
use lua2sc.Osc.Kept.{Kept}
use lua2sc.Osc.Decode.{
  shown_argument, parse_arguments, parse_osc_message, from_received, from_elements, catch_message,
  catch_packet, from_packet, decode,
}
use lua2sc.Packet.Bundle.{receive}
use lua2sc.Packet.Wire.{oscpack}
use lua2sc.Packet.Accepted.Init.{NoBlobTag}
use lua2sc.Packet.Accepted.Bundle.{NoWrap}
use lua2sc.Packet.Accepted.Packets.{IsSound, AreSound, receive-Kept}

-- A value, a Lua error or a C++ exception.
abbrev Answers : {A : Type 0} → Result A → Type 0
Answers undefined = ⊥
Answers _ = Unit {0}

Answers-bind :
    {A B : Type 0} (r : Result A) (f : A → Result B)
    → Answers r
    → ((a : A) → Answers (f a))
    → Answers (r >>= f)
Answers-bind (ok a) f h k = k a
Answers-bind (lua_error e) f h k = tt
Answers-bind (thrown e) f h k = tt
Answers-bind undefined f h k = h

module _ (n : Numbers) (full : Bool) where
  open n use {N}

  shown_argument-Answers : (a : Argument) → Answers (shown_argument n a)
  unfolding shown_argument
  shown_argument-Answers (Argument.int64 i) = tt
  shown_argument-Answers (Argument.boolean b) = tt
  shown_argument-Answers Argument.nil = tt
  shown_argument-Answers Argument.infinitum = tt
  shown_argument-Answers (Argument.int32 i) = tt
  shown_argument-Answers (Argument.float f) = tt
  shown_argument-Answers (Argument.double x) = tt
  shown_argument-Answers (Argument.char c) = tt
  shown_argument-Answers (Argument.rgba_color c) = tt
  shown_argument-Answers (Argument.midi_message m) = tt
  shown_argument-Answers (Argument.time_tag t) = tt
  shown_argument-Answers (Argument.string s) = tt
  shown_argument-Answers (Argument.symbol s) = tt
  shown_argument-Answers (Argument.blob s) = tt
  shown_argument-Answers Argument.array_begin = tt
  shown_argument-Answers Argument.array_end = tt
  shown_argument-Answers (Argument.unknown t) = tt

  parse_arguments-Answers : (as' : List Argument) → Answers (parse_arguments n full as')
  unfolding parse_arguments
  parse_arguments-Answers [] = tt
  parse_arguments-Answers (a ∷ as') =
      Answers-bind (shown_argument n a) _ (shown_argument-Answers a) λ (t, v).
        Answers-bind (parse_arguments n full as') _ (parse_arguments-Answers as') (λ rest. tt)

  mutual
    unfolding from_received from_elements parse_osc_message

    from_received-Answers : (r : Received) → IsSound r → Answers (from_received n full r)
    from_received-Answers (message a as') h =
        Answers-bind (parse_arguments n full as') _ (parse_arguments-Answers as') (λ values. tt)
    from_received-Answers (bundle t es) h =
        Answers-bind (from_elements n full es) _ (from_elements-Answers es h) (λ rest. tt)
    from_received-Answers (throwing_message e) h = tt
    from_received-Answers (throwing_bundle e) h = tt
    from_received-Answers undefined_reading h = h

    from_elements-Answers : (es : Elements) → AreSound es → Answers (from_elements n full es)
    from_elements-Answers no_more h = tt
    from_elements-Answers (element r es) h =
        Answers-bind (from_received n full r) _ (from_received-Answers r h.0)
          λ t. Answers-bind (from_elements n full es) _ (from_elements-Answers es h.1) (λ rest. tt)

  catch_message-Answers : (r : Result (Items N)) → Answers r → Answers (catch_message n r)
  unfolding catch_message
  catch_message-Answers (ok a) h = tt
  catch_message-Answers (lua_error e) h = tt
  catch_message-Answers undefined h = h
  catch_message-Answers (thrown malformed_message) h = tt
  catch_message-Answers (thrown e) h = tt

  catch_packet-Answers : (r : Result (Items N)) → Answers r → Answers (catch_packet n r)
  unfolding catch_packet
  catch_packet-Answers (ok a) h = tt
  catch_packet-Answers (lua_error e) h = tt
  catch_packet-Answers undefined h = h
  catch_packet-Answers (thrown malformed_packet) h = tt
  catch_packet-Answers (thrown e) h = tt

  from_packet-Answers : (r : Received) → IsSound r → Answers (from_packet n full r)
  unfolding from_packet from_received
  from_packet-Answers (message a as') h =
      catch_message-Answers _ (from_received-Answers (message a as') h)
  from_packet-Answers (throwing_message e) h =
      catch_message-Answers _ (from_received-Answers (throwing_message e) h)
  from_packet-Answers (bundle t es) h = from_received-Answers (bundle t es) h
  from_packet-Answers (throwing_bundle e) h = from_received-Answers (throwing_bundle e) h
  from_packet-Answers undefined_reading h = h

  received_packet : (r : Result Received) → Kept IsSound r → Answers (r >>= from_packet n full)
  received_packet (ok r) k = from_packet-Answers r k
  received_packet (thrown e) k = tt
  received_packet (lua_error e) k = elim k [ ]
  received_packet undefined k = k

  -- Whatever bytes `fromOSC` is given, of any length: where behind no comma, before the next zero,
  -- stands the type tag of a blob, and no size of a bundle's element wraps around when the four bytes in
  -- front of the element are added, decoding them through oscpack ends with a value, a Lua error or a
  -- C++ exception, and never reads outside the bytes.
  pub decode_answers :
      (c : ℕ) (m : Bytes) → NoBlobTag m → NoWrap m → decode n (oscpack c) full m ≢ undefined
  unfolding decode
  decode_answers c m blobs no_wrap h = subst Answers h (
      Answers-bind (catch_packet n (receive m >>= from_packet n full)) (λ t. ok (table t))
        (catch_packet-Answers _ (received_packet (receive m) (receive-Kept m blobs no_wrap)))
        (λ t. tt))
