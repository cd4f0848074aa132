-- ===== src/Packet/Packed.antt =====
-- The bytes that `toOSC` of osclua/osclua.cpp makes of a table with oscpack as its library.
use lua2sc.Prelude.{
  ◌+◌, ◌≤◌, ◌≡◌, sym, ap, subst, ◌∙◌, arith, Option, none, some, Bool, true, false, length, ◌↔◌,
}
use lua2sc.Osc.Value.{
  Bytes, Value, Items, nil, boolean, number, string, table, other, end, item, Numbers, Error,
  Result, ok, lua_error, thrown, undefined, ◌>>=◌, defined, c_string, as_number, as_string, first,
  second,
}
use lua2sc.Osc.TypeName.{TypeName, find_type, type_names}
use lua2sc.Osc.Pack.{Oscpack, Received, Elements}
use lua2sc.Osc.Encode.{
  number_argument, special_argument, typed_argument, char_argument, unknown_type_error, need,
  need_boolean, copy_512, to_osc, to_osc_stream, catch_all,
}
use lua2sc.Osc.Meaning.{
  flatten, arguments, arguments_of, message_of, packet_by, packet_with, elements_of, meaning,
}
use lua2sc.Osc.Writes.{run_succeeds}
use lua2sc.Osc.Refinement.{to_osc_stream_iff}
use lua2sc.Packet.Outbound.{Outbound, outbound}
use lua2sc.Packet.Layout.{layout}
use lua2sc.Packet.Step.{IsWritten, with_more}
use lua2sc.Packet.Written.{Exactly}
use lua2sc.Packet.Written.Message.{AreWritten}
use lua2sc.Packet.Written.Bundle.{IsWritable, AreWritable, received-Exactly}
use lua2sc.Packet.Wire.{oscpack, output_buffer_size}

-- If there is a value, it has the property.
abbrev Yields : {A : Type 0} (P : A → Type 0) → Result A → Type 0
Yields P (ok a) = P a
Yields P _ = Unit {0}

Yields-bind :
    {A B : Type 0} (P : B → Type 0) (r : Result A) (f : A → Result B)
    → ((a : A) → Yields P (f a))
    → Yields P (r >>= f)
Yields-bind P (ok a) f h = h a
Yields-bind P (lua_error e) f h = tt
Yields-bind P (thrown e) f h = tt
Yields-bind P undefined f h = tt

Yields-then :
    {A B : Type 0} (P : B → Type 0) {Q : A → Type 0} (r : Result A) (f : A → Result B)
    → Yields Q r
    → ((a : A) → Q a → Yields P (f a))
    → Yields P (r >>= f)
Yields-then P (ok a) f q h = h a q
Yields-then P (lua_error e) f q h = tt
Yields-then P (thrown e) f q h = tt
Yields-then P undefined f q h = tt

Yields-option :
    {A B : Type 0} (P : B → Type 0) (o : Option A) (absent : Result B) (present : A → Result B)
    → Yields P absent
    → ((a : A) → Yields P (present a))
    → Yields P (elim o [ none ↦ absent | some a ↦ present a ])
Yields-option P none absent present h k = h
Yields-option P (some a) absent present h k = k a

Yields-test :
    {B : Type 0} (P : B → Type 0) (b : Bool) (positive negative : Result B)
    → Yields P positive
    → Yields P negative
    → Yields P (elim b [ true ↦ positive | false ↦ negative ])
Yields-test P true positive negative h k = h
Yields-test P false positive negative h k = k

module _ (n : Numbers) where
  open n use {N, to_uint64}

  char_argument-Yields : (v : Value N) → Yields IsWritten (char_argument n v)
  unfolding char_argument
  char_argument-Yields v =
      Yields-option IsWritten (as_number n v) _ _
        (Yields-bind IsWritten (need n (as_string n v)) _ λ s. tt)
        λ x. Yields-bind IsWritten (defined (n.to_char x)) _ λ c. tt

  number_argument-Yields : (x : N) → Yields IsWritten (number_argument n x)
  unfolding number_argument
  number_argument-Yields x =
      Yields-test IsWritten (n.is_whole x) _ _
        (Yields-bind IsWritten (defined (n.to_int32 x)) _ λ c. tt) tt

  typed_argument-Yields :
      (type : TypeName) (v : Value N) → Yields IsWritten (typed_argument n type v)
  unfolding typed_argument
  typed_argument-Yields TypeName.float v = Yields-bind IsWritten (need n (as_number n v)) _ λ x. tt
  typed_argument-Yields TypeName.double v = Yields-bind IsWritten (need n (as_number n v)) _ λ x. tt
  typed_argument-Yields TypeName.string v = Yields-bind IsWritten (need n (as_string n v)) _ λ x. tt
  typed_argument-Yields TypeName.symbol v = Yields-bind IsWritten (need n (as_string n v)) _ λ x. tt
  typed_argument-Yields TypeName.blob v = Yields-bind IsWritten (need n (as_string n v)) _ λ x. tt
  typed_argument-Yields TypeName.infinity v = tt
  typed_argument-Yields TypeName.nil v = tt
  typed_argument-Yields TypeName.rgbacolor v =
      Yields-bind IsWritten (need n (as_number n v)) _
        λ x. Yields-bind IsWritten (defined (n.to_int32 x)) _ λ c. tt
  typed_argument-Yields TypeName.int32 v =
      Yields-bind IsWritten (need n (as_number n v)) _
        λ x. Yields-bind IsWritten (defined (n.to_int32 x)) _ λ c. tt
  typed_argument-Yields TypeName.char v = char_argument-Yields v
  typed_argument-Yields TypeName.int64 v =
      Yields-bind IsWritten (need n (as_number n v)) _
        λ x. Yields-bind IsWritten (defined (n.to_int64 x)) _ λ c. tt
  typed_argument-Yields TypeName.midi v =
      Yields-bind IsWritten (need n (as_number n v)) _
        λ x. Yields-bind IsWritten (defined (n.to_int32 x)) _ λ c. tt
  typed_argument-Yields TypeName.boolean v = Yields-bind IsWritten (need_boolean n v) _ λ x. tt
  typed_argument-Yields TypeName.timetag v =
      Yields-bind IsWritten (need n (as_number n v)) _
        λ x. Yields-bind IsWritten (defined (n.to_uint64 x)) _ λ c. tt
  typed_argument-Yields TypeName.open_bracket v = tt
  typed_argument-Yields TypeName.close_bracket v = tt

  special_argument-Yields : (t : Items N) → Yields IsWritten (special_argument n t)
  unfolding special_argument unknown_type_error
  special_argument-Yields t = Yields-option IsWritten (as_string n (first t)) _ _ tt λ name.
      Yields-option IsWritten (find_type type_names (c_string name)) _ _
        (Yields-bind IsWritten (copy_512 name) _ λ c. tt)
        λ type. typed_argument-Yields type (second t)

  arguments-Yields : (t : Items N) → Yields AreWritten (arguments n t)
  unfolding arguments
  arguments-Yields end = tt
  arguments-Yields (item nil rest) = tt
  arguments-Yields (item (boolean b) rest) =
      Yields-then AreWritten (arguments n rest) _ (arguments-Yields rest) λ as' w. (tt, w)
  arguments-Yields (item (number x) rest) =
      Yields-then AreWritten (number_argument n x) _ (number_argument-Yields x)
        λ a v. Yields-then AreWritten (arguments n rest) _ (arguments-Yields rest) λ as' w. (v, w)
  arguments-Yields (item (string t) rest) =
      Yields-then AreWritten (arguments n rest) _ (arguments-Yields rest) λ as' w. (tt, w)
  arguments-Yields (item (table t) rest) =
      Yields-then AreWritten (special_argument n t) _ (special_argument-Yields t)
        λ a v. Yields-then AreWritten (arguments n rest) _ (arguments-Yields rest) λ as' w. (v, w)
  arguments-Yields (item other rest) = tt

  arguments_of-Yields : (v : Value N) → Yields AreWritten (arguments_of n v)
  unfolding arguments_of
  arguments_of-Yields (table t) = arguments-Yields t
  arguments_of-Yields nil = tt
  arguments_of-Yields (boolean b) = tt
  arguments_of-Yields (number x) = tt
  arguments_of-Yields (string x) = tt
  arguments_of-Yields other = tt

  packet_with-Yields :
      (inner : Result Elements) (start : Value N) (rest : Items N) (wrong : Error)
      → Yields AreWritable inner
      → Yields IsWritable (packet_with n inner start rest wrong)
  unfolding packet_with packet_by message_of
  packet_with-Yields inner start rest wrong h = go (as_number n start) (as_string n start)
    where
      go : (x : Option N) (o : Option Bytes) → Yields IsWritable (packet_by n inner rest wrong x o)
      go (some tag) o =
          Yields-bind IsWritable (defined (to_uint64 tag)) _
            λ t. Yields-then IsWritable inner _ h λ es w. w
      go none (some a) = Yields-bind IsWritable (copy_512 a) _ λ addr.
          Yields-then IsWritable (arguments_of n (first rest)) _ (arguments_of-Yields (first rest))
            λ as' w. w
      go none none = tt

  elements_of-Yields : (t : Items N) → Yields AreWritable (elements_of n t)
  unfolding elements_of
  elements_of-Yields end = tt
  elements_of-Yields (item (table end) rest) = tt
  elements_of-Yields (item (table (item start inner)) rest) =
      Yields-then AreWritable (packet_with n (elements_of n inner) start inner _) _
        (packet_with-Yields (elements_of n inner) start inner _ (elements_of-Yields inner))
        λ r v.
          Yields-then AreWritable (elements_of n rest) _ (elements_of-Yields rest) λ es w. (v, w)
  elements_of-Yields (item _ rest) = tt

  -- A table never means a packet with an unknown argument.
  meaning-IsWritable : (t : Items N) (r : Received) → meaning n t ≡ ok r → IsWritable r
  unfolding meaning
  meaning-IsWritable t r h = subst (Yields IsWritable) h (writable t)
    where
      writable : (t : Items N) → Yields IsWritable (meaning n t)
      writable end = tt
      writable (item start rest) =
          packet_with-Yields (elements_of n rest) start rest _ (elements_of-Yields rest)

  caught :
      (r : Result Outbound) (s : Outbound)
      → catch_all n (oscpack output_buffer_size) r ≡ ok s
      → r ≡ ok s
  unfolding catch_all
  caught (ok a) s h = h
  caught (lua_error e) s h = cc
  caught (thrown e) s h = cc
  caught undefined s h = cc

  body_of : {a b : Bytes} → ok a ≡ ok b → a ≡ b
  body_of h = cc

  -- With oscpack, `toOSC` packs a table exactly when the table means a packet whose layout has at
  -- most 65535 bytes, and the result is that layout.
  pub to_osc_iff :
      (t : Items N) (bytes : Bytes)
      → (to_osc n (oscpack output_buffer_size) (table t) ≡ ok bytes)
        ↔ ((r : Received) × (meaning n t ≡ ok r) × (length (layout r) ≤ 65535) × (bytes ≡ layout r))
  unfolding to_osc catch_all outbound
  to_osc_iff t bytes = (only, always)
    where
      library : Oscpack
      library = oscpack output_buffer_size

      exactly :
          (r : Received)
          → Exactly output_buffer_size
              (IsWritable r)
              (flatten r)
              (outbound output_buffer_size)
              (layout r)
      exactly = received-Exactly output_buffer_size (omega arith)

      only :
          to_osc n library (table t) ≡ ok bytes
          → (r : Received) × (meaning n t ≡ ok r) × (length (layout r) ≤ 65535) × (bytes ≡ layout r)
      only h =
          let (s, h₁, h₂) =
            run_succeeds (catch_all n library (to_osc_stream n library t)) (λ s. ok s.body) h in
          let (r, m, w) =
            (to_osc_stream_iff n library t s).0 (caught (to_osc_stream n library t) s h₁) in
          let (e, _, fits) = (exactly r).sound s w in
          (r, m, omega (arith, fits), sym (body_of h₂) ∙ ap (λ u. u.body) e)

      always :
          (r : Received) × (meaning n t ≡ ok r) × (length (layout r) ≤ 65535) × (bytes ≡ layout r)
          → to_osc n library (table t) ≡ ok bytes
      always (r, m, fits, e) =
          let s = with_more (layout r) (outbound output_buffer_size) in
          let room : length (outbound output_buffer_size).body + length (layout r)
              ≤ output_buffer_size =
            omega (arith, fits) in
          let written : to_osc_stream n library t ≡ ok s =
            (to_osc_stream_iff n library t s).1
              (r, m, (exactly r).complete (meaning-IsWritable t r m) room) in
          rw written (ap ok (sym e))
