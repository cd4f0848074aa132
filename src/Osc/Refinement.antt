-- ===== src/Osc/Refinement.antt =====
-- The writes of `toOSC` in osclua/osclua.cpp, compared with the packet that its table means.
use lua2sc.Prelude.{
  List, [], ◌∷◌, ◌++◌, map, Option, none, some, ◌≡◌, refl, sym, subst, fun_ext, ◌↔◌,
}
use lua2sc.Osc.Value.{
  Bytes, Value, Items, nil, boolean, number, string, table, other, end, item, Numbers, Error,
  bad_nested, bad_first, address_expected, Result, ok, lua_error, ◌>>=◌, defined, c_string,
  as_number, as_string, first,
}
use lua2sc.Osc.Pack.{
  Argument, Item, begin_bundle, end_bundle, begin_message, end_message, argument, Received,
  Elements, message, bundle, no_more, element, Oscpack,
}
use lua2sc.Osc.Encode.{
  number_argument, special_argument, copy_512, write_item, push_special, push_values,
  push_values_lua, to_osc_message, nested_by, nested_with, push_elements, to_osc_stream,
}
use lua2sc.Osc.Meaning.{
  flatten, flatten_elements, arguments, arguments_of, message_of, packet_by, packet_with,
  elements_of, meaning,
}
use lua2sc.Osc.Writes.{
  bind_assoc, bind-ok, write_all, Writes, Writes-error, Writes-ok, Writes-bind, Writes-then,
  Writes-item,
}

module _ (n : Numbers) (p : Oscpack) where
  open n use {N, to_uint64}
  open p use {Stream, empty, contents}

  -- An argument, and the arguments after it.
  argument_then :
      (c : Result Argument) (as' : Result (List Argument)) (rest : Stream → Result Stream)
      → Writes p (map argument) rest as'
      → Writes p
          (map argument)
          (λ s. c >>= λ a. write_item p (argument a) s >>= rest)
          (c >>= λ a. as' >>= λ more. ok (a ∷ more))
  argument_then c as' rest w = Writes-bind p (map argument) c _ _ λ a.
      Writes-then p (λ (u : Unit {0}). argument a ∷ []) (map argument) (map argument)
        (write_item p (argument a)) rest (ok tt) as' (λ u more. a ∷ more) (λ u more. refl)
        (Writes-item p (argument a)) w

  push_values-Writes : (t : Items N) → Writes p (map argument) (push_values n p t) (arguments n t)
  unfolding push_values arguments push_special
  push_values-Writes end = Writes-ok p (map argument) [] refl
  push_values-Writes (item nil rest) = Writes-ok p (map argument) [] refl
  push_values-Writes (item (boolean b) rest) =
      argument_then (ok (Argument.boolean b)) _ _ (push_values-Writes rest)
  push_values-Writes (item (number x) rest) =
      argument_then (number_argument n x) _ _ (push_values-Writes rest)
  push_values-Writes (item (string t) rest) =
      argument_then (ok (Argument.string (c_string t))) _ _ (push_values-Writes rest)
  push_values-Writes (item (table t) rest) =
      subst (λ f. Writes p (map argument) f (arguments n (item (table t) rest)))
        (fun_ext λ s.
          bind_assoc p (special_argument n t) (λ a. write_item p (argument a) s)
            (push_values n p rest))
        (argument_then (special_argument n t) _ _ (push_values-Writes rest))
  push_values-Writes (item other rest) = Writes-error p (map argument) _

  push_values_lua-Writes :
      (v : Value N) → Writes p (map argument) (push_values_lua n p v) (arguments_of n v)
  unfolding push_values_lua arguments_of
  push_values_lua-Writes (table t) = push_values-Writes t
  push_values_lua-Writes nil = Writes-error p (map argument) _
  push_values_lua-Writes _ = Writes-error p (map argument) _

  -- What stands between an opening and a closing write.
  bracketed :
      {A : Type 0} (opening closing : Item) (ia : A → List Item) (h : A → Received)
      (f : Stream → Result Stream) (m : Result A)
      → ((a : A) → flatten (h a) ≡ opening ∷ (ia a ++ closing ∷ []))
      → Writes p ia f m
      → Writes p flatten
          (λ s. write_item p opening s >>= λ s₁. f s₁ >>= λ s₂. write_item p closing s₂)
          (m >>= λ a. ok (h a))
  bracketed opening closing ia h f m shape w =
      Writes-then p (λ (u : Unit {0}). opening ∷ []) (λ a. ia a ++ closing ∷ []) flatten
        (write_item p opening) (λ s₁. f s₁ >>= λ s₂. write_item p closing s₂) (ok tt) m (λ u a. h a)
        (λ u a. shape a) (Writes-item p opening) closed
    where
      closed : Writes p (λ a. ia a ++ closing ∷ []) (λ s₁. f s₁ >>= λ s₂. write_item p closing s₂) m
      closed =
          subst
            (λ k.
              Writes p (λ a. ia a ++ closing ∷ []) (λ s₁. f s₁ >>= λ s₂. write_item p closing s₂) k)
            (bind-ok p m)
            (Writes-then p ia (λ (u : Unit {0}). closing ∷ []) (λ a. ia a ++ closing ∷ []) f
              (write_item p closing) m (ok tt) (λ a u. a) (λ a u. refl) w (Writes-item p closing))

  to_osc_message-Writes :
      (start : Value N) (a : Bytes) (rest : Items N)
      → as_string n start ≡ some a
      → Writes p flatten (to_osc_message n p start rest) (message_of n a rest)
  unfolding to_osc_message message_of flatten
  to_osc_message-Writes start a rest e =
      subst
        (λ (o : Option Bytes).
          Writes p flatten
            (λ s. elim o [
              | none ↦ lua_error address_expected
              | some a ↦ (do
                addr ← copy_512 a
                s₁ ← write_item p (begin_message addr) s
                s₂ ← push_values_lua n p (first rest) s₁
                write_item p end_message s₂)
            ])
            (message_of n a rest))
        (sym e)
        (Writes-bind p flatten (copy_512 a) _ _ λ addr.
          bracketed (begin_message addr) end_message (map argument) (message addr)
            (push_values_lua n p (first rest)) (arguments_of n (first rest)) (λ as'. refl)
            (push_values_lua-Writes (first rest)))

  nested_by-Writes :
      (run : Stream → Result Stream) (inner : Result Elements) (start : Value N) (rest : Items N)
      (wrong : Error) (x : Option N) (o : Option Bytes)
      → as_string n start ≡ o
      → Writes p flatten_elements run inner
      → Writes p flatten
          (λ s. nested_by n p run start rest s wrong x o)
          (packet_by n inner rest wrong x o)
  unfolding nested_by packet_by flatten
  nested_by-Writes run inner start rest wrong (some tag) o e w =
      Writes-bind p flatten (defined (to_uint64 tag)) _ _ λ t.
        bracketed (begin_bundle t) end_bundle flatten_elements (bundle t) run inner (λ es. refl) w
  nested_by-Writes run inner start rest wrong none (some a) e w =
      to_osc_message-Writes start a rest e
  nested_by-Writes run inner start rest wrong none none e w = Writes-error p flatten wrong

  nested_with-Writes :
      (run : Stream → Result Stream) (inner : Result Elements) (start : Value N) (rest : Items N)
      (wrong : Error)
      → Writes p flatten_elements run inner
      → Writes p flatten
          (λ s. nested_with n p run start rest s wrong)
          (packet_with n inner start rest wrong)
  unfolding nested_with packet_with
  nested_with-Writes run inner start rest wrong w =
      nested_by-Writes run inner start rest wrong (as_number n start) (as_string n start) refl w

  push_elements-Writes :
      (t : Items N) → Writes p flatten_elements (push_elements n p t) (elements_of n t)
  unfolding push_elements elements_of flatten
  push_elements-Writes end = Writes-ok p flatten_elements no_more refl
  push_elements-Writes (item (table end) rest) = Writes-error p flatten_elements bad_nested
  push_elements-Writes (item (table (item start inner)) rest) =
      Writes-then p flatten flatten_elements flatten_elements
        (λ s. nested_with n p (push_elements n p inner) start inner s bad_nested)
        (push_elements n p rest) (packet_with n (elements_of n inner) start inner bad_nested)
        (elements_of n rest) element (λ r es. refl)
        (nested_with-Writes (push_elements n p inner) (elements_of n inner) start inner bad_nested
          (push_elements-Writes inner))
        (push_elements-Writes rest)
  push_elements-Writes (item _ rest) = Writes-ok p flatten_elements no_more refl

  -- The writing part of `toOSC` succeeds on a table exactly when the table means a packet and the
  -- writes of that packet, in order and on an empty stream, succeed: the stream is then the same.
  -- So the writes are always those of a well-nested packet.
  pub to_osc_stream_iff :
      (t : Items N) (s : Stream)
      → (to_osc_stream n p t ≡ ok s)
        ↔ ((r : Received) × (meaning n t ≡ ok r) × (write_all p (flatten r) empty ≡ ok s))
  unfolding to_osc_stream meaning
  to_osc_stream_iff end s = (λ h. cc, λ (r, m, w). cc)
  to_osc_stream_iff (item start rest) s =
      let writes =
        nested_with-Writes (push_elements n p rest) (elements_of n rest) start rest bad_first
          (push_elements-Writes rest) in
      (λ h. writes.only empty s h, λ (r, m, w). writes.always empty s r m w)
