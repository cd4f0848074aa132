-- ===== src/Osc/RoundTrip.antt =====
-- The packets that osclua/osclua.cpp decodes with full types and packs again.
use lua2sc.Prelude.{Bool, true, ◌≡◌, ap}
use lua2sc.Osc.Value.{Items, table, Numbers, ok}
use lua2sc.Osc.Pack.{
  Received, message, bundle, throwing_message, throwing_bundle, undefined_reading, Oscpack,
}
use lua2sc.Osc.Encode.{to_osc, catch_all}
use lua2sc.Osc.Decode.{decode, from_received, from_packet, catch_packet, catch_message}
use lua2sc.Osc.Meaning.{flatten}
use lua2sc.Osc.Writes.{write_all}
use lua2sc.Osc.Refinement.{to_osc_stream_iff}
use lua2sc.Osc.Portable.{IsLossless, IsPortable, again}

module _ (n : Numbers) (p : Oscpack) where
  open n use {N}
  open p use {Stream, empty, contents, receive}

  from_packet-ok :
      (full : Bool) (r : Received) (t : Items N)
      → from_received n full r ≡ ok t
      → from_packet n full r ≡ ok t
  unfolding from_packet catch_message from_received
  from_packet-ok full (message a as') t h = ap (catch_message n) h
  from_packet-ok full (throwing_message e) t h = cc
  from_packet-ok full (bundle u es) t h = h
  from_packet-ok full (throwing_bundle e) t h = h
  from_packet-ok full undefined_reading t h = h

  -- Where the conversions are lossless, the packet `r` is portable, writing it succeeds with the
  -- stream `s` and oscpack reads that stream's bytes as `r`: the bytes are decoded with full types
  -- into a table, and packing that table yields the same bytes.
  pub to_osc-decode :
      (r : Received) (s : Stream)
      → IsLossless n
      → IsPortable n r
      → write_all p (flatten r) empty ≡ ok s
      → receive (contents s) ≡ ok r
      → (t : Items N) × (decode n p true (contents s) ≡ ok (table t))
        × (to_osc n p (table t) ≡ ok (contents s))
  unfolding decode to_osc catch_packet catch_all
  to_osc-decode r s lossless portable written read =
      let (t, shown, meant) = again n lossless r portable in
      let packed = (to_osc_stream_iff n p t s).1 (r, meant, written) in
      (t, rw read (rw (from_packet-ok true r t shown)), rw packed)
