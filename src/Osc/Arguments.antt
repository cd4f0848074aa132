-- ===== src/Osc/Arguments.antt =====
-- The arguments of `fromOSC` in osclua/osclua.cpp: which one is decoded, and in which form.
use lua2sc.Prelude.{List, [], ◌∷◌, ◌++◌, Bool, false, some, ◌≡◌, ◌∙◌}
use lua2sc.Osc.Value.{Bytes, Value, Numbers, as_string}
use lua2sc.Osc.Pack.{Oscpack}
use lua2sc.Osc.Decode.{decode, decode_top, from_osc_with, from_osc, is_true}

module _ (n : Numbers) (p : Oscpack) where
  open n use {N}

  -- The top of the stack is the last argument.
  decode_top-last :
      (full : Bool) (below : List (Value N)) (x : Value N) (t : Bytes)
      → as_string n x ≡ some t
      → decode_top n p full (below ++ x ∷ []) ≡ decode n p full t
  unfolding decode_top
  decode_top-last full [] x t e = rw (decode_top, e)
  decode_top-last full (y ∷ []) x t e = rw (decode_top, e)
  decode_top-last full (y ∷ z ∷ below) x t e = decode_top-last full (z ∷ below) x t e

  from_osc-some :
      (v : Value N) (vs : List (Value N)) (s : Bytes)
      → as_string n v ≡ some s
      → from_osc n p (v ∷ vs) ≡ from_osc_with n p v vs
  unfolding from_osc
  from_osc-some v vs s e = rw (from_osc, e)

  from_osc_with-many :
      (v w : Value N) (between : List (Value N)) (x : Value N) (t : Bytes)
      → as_string n x ≡ some t
      → from_osc_with n p v (w ∷ between ++ x ∷ []) ≡ decode n p false t
  unfolding from_osc_with
  from_osc_with-many v w [] x t e = decode_top-last false (v ∷ w ∷ []) x t e
  from_osc_with-many v w (y ∷ between) x t e = decode_top-last false (v ∷ w ∷ y ∷ between) x t e

  -- Where the first and the last argument are strings or numbers: of one argument `fromOSC` decodes
  -- that, in the short form; of two the first, in the full form exactly when the second is true; of
  -- three or more the last, in the short form.
  pub from_osc_lem :
      (v w : Value N) (between : List (Value N)) (x : Value N) (s t : Bytes)
      → as_string n v ≡ some s
      → as_string n x ≡ some t
      → (from_osc n p (v ∷ []) ≡ decode n p false s)
        × (from_osc n p (v ∷ w ∷ []) ≡ decode n p (is_true n w) s)
        × (from_osc n p (v ∷ w ∷ between ++ x ∷ []) ≡ decode n p false t)
  unfolding from_osc_with
  from_osc_lem v w between x s t first_text last_text = (
    from_osc-some v [] s first_text ∙ decode_top-last false [] v s first_text,
    from_osc-some v (w ∷ []) s first_text ∙ decode_top-last (is_true n w) [] v s first_text,
    from_osc-some v (w ∷ between ++ x ∷ []) s first_text
        ∙ from_osc_with-many v w between x t last_text,
  )
