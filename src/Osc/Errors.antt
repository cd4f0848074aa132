-- ===== src/Osc/Errors.antt =====
-- Exceptions of `fromOSC` and `toOSC` in osclua/osclua.cpp, and an address that reads as a number.
use lua2sc.Prelude.{ℕ, Bool, Option, some, ◌≡◌, ◌≢◌, refl, sym, ◌∙◌, ap}
use lua2sc.Osc.Value.{
  Bytes, Value, undefined, table, Items, string, item, Numbers, Exception, malformed_packet, Error,
  bad_first, Result, ok, lua_error, thrown, ◌>>=◌, as_number, as_string, defined,
}
use lua2sc.Osc.Pack.{
  Received, Elements, bundle, throwing_message, throwing_bundle, element, Oscpack,
}
use lua2sc.Osc.Decode.{decode, from_received, from_elements, from_packet, catch_packet}
use lua2sc.Osc.Encode.{to_osc_stream, to_osc, catch_all}
use lua2sc.Osc.Meaning.{meaning, packet_with, packet_by, elements_of, flatten}
use lua2sc.Osc.Writes.{write_all, run_succeeds}
use lua2sc.Osc.Refinement.{to_osc_stream_iff}

module _ (n : Numbers) (p : Oscpack) (full : Bool) where
  open n use {N}
  open p use {receive}

  -- The reader of an element throws `e`, and the elements before it are shown.
  pub data Throws (e : Exception) : Elements → Type 0 where
    at_message : {es : Elements} → Throws e (element (throwing_message e) es)
    at_bundle : {es : Elements} → Throws e (element (throwing_bundle e) es)
    inside : {t : ℕ} {inner es : Elements} → Throws e inner → Throws e (element (bundle t inner) es)
    after :
        {r : Received} {es : Elements} (t : Items N)
        → from_received n full r ≡ ok t
        → Throws e es
        → Throws e (element r es)

  from_elements-Throws :
      {e : Exception} {es : Elements} → Throws e es → from_elements n full es ≡ thrown e
  unfolding from_elements from_received
  from_elements-Throws at_message = refl
  from_elements-Throws at_bundle = refl
  from_elements-Throws (inside inner) = rw (from_elements-Throws inner)
  from_elements-Throws (after t shown rest) = rw (shown, from_elements-Throws rest)

  catch_packet-thrown :
      (e : Exception) → e ≢ malformed_packet → catch_packet n (thrown e) ≡ thrown e
  unfolding catch_packet
  catch_packet-thrown malformed_packet h = absurd (h refl)
  catch_packet-thrown _ h = refl

  -- An exception that a reader throws inside a bundle, at any depth, leaves `fromOSC` as a C++
  -- exception, unless it is `malformed_packet`.
  pub decode-Throws :
      (b : Bytes) (t : ℕ) {es : Elements} {e : Exception}
      → receive b ≡ ok (bundle t es)
      → Throws e es
      → e ≢ malformed_packet
      → decode n p full b ≡ thrown e
  unfolding decode from_packet from_received
  decode-Throws b t {es} {e} h throws ne =
      rw h (rw (from_elements-Throws throws) (rw (catch_packet-thrown e ne)))

module _ (n : Numbers) (p : Oscpack) where
  catch_all-thrown : (r : Result p.Stream) (e : Exception) → catch_all n p r ≢ thrown e
  unfolding catch_all
  catch_all-thrown (thrown e') e h = cc
  catch_all-thrown (ok s) e h = cc
  catch_all-thrown (lua_error e') e h = cc
  catch_all-thrown undefined e h = cc

  contents_thrown :
      (r : Result p.Stream) (e : Exception)
      → r ≢ thrown e
      → (r >>= λ s. ok (p.contents s)) ≢ thrown e
  contents_thrown (thrown e') e ne h = let same : e' ≡ e = cc in ne (ap thrown same)
  contents_thrown (ok s) e ne h = cc
  contents_thrown (lua_error e') e ne h = cc
  contents_thrown undefined e ne h = cc

  -- Whatever value `toOSC` is given and whatever oscpack throws, no C++ exception leaves it.
  pub to_osc-thrown : (v : Value n.N) (e : Exception) → to_osc n p v ≢ thrown e
  unfolding to_osc
  to_osc-thrown (table t) e h =
      contents_thrown (catch_all n p (to_osc_stream n p t)) e
        (catch_all-thrown (to_osc_stream n p t) e) h
  to_osc-thrown _ e h = cc

packet_by-number :
    (n : Numbers) (inner : Result Elements) (rest : Items n.N) (wrong : Error) (x : n.N)
    (o : Option Bytes) (r : Received)
    → packet_by n inner rest wrong (some x) o ≡ ok r
    → (t : ℕ) × (es : Elements) × (r ≡ bundle t es)
unfolding packet_by
packet_by-number n inner rest wrong x o r h =
    let (t, _, h₁) =
      run_succeeds (defined (n.to_uint64 x)) (λ t. inner >>= λ es. ok (bundle t es)) h in
    let (es, _, h₂) = run_succeeds inner (λ es. ok (bundle t es)) h₁ in (t, es, cc)

-- A table whose first element is a string that reads as a number is never packed as a message with
-- that address: where packing succeeds, what is written is a bundle.
pub to_osc_stream-numeric_address :
    (n : Numbers) (p : Oscpack) (address : Bytes) (x : n.N) (rest : Items n.N) (s : p.Stream)
    → n.text_number address ≡ some x
    → to_osc_stream n p (item (string address) rest) ≡ ok s
    → (t : ℕ) × (es : Elements) × (write_all p (flatten (bundle t es)) p.empty ≡ ok s)
unfolding meaning packet_with as_number as_string
to_osc_stream-numeric_address n p address x rest s reads h =
    let (r, means, written) = (to_osc_stream_iff n p (item (string address) rest) s).0 h in
    let by_number : packet_by n (elements_of n rest) rest bad_first (some x) (some address) ≡ ok r =
      ap (λ o. packet_by n (elements_of n rest) rest bad_first o (some address)) (sym reads)
      ∙ means in
    let (t, es, same) =
      packet_by-number n (elements_of n rest) rest bad_first x (some address) r by_number in
    (t, es, ap (λ r. write_all p (flatten r) p.empty) (sym same) ∙ written)
