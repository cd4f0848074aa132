-- ===== src/Osc/Writes.antt =====
-- When a function over the stream writes exactly the items of a value: rules that follow how the
-- code is composed.
use lua2sc.Prelude.{List, [], ◌∷◌, ◌++◌, ◌≡◌, refl, sym, ap, subst, fun_ext, ◌∙◌}
use lua2sc.Osc.Value.{Error, Result, ok, lua_error, thrown, undefined, ◌>>=◌}
use lua2sc.Osc.Pack.{Item, Oscpack}
use lua2sc.Osc.Encode.{write_item}

-- A composition that succeeds got a value from its first part.
pub run_succeeds :
    {A B : Type 0} {b : B} (first_part : Result A) (then_part : A → Result B)
    → (first_part >>= then_part) ≡ ok b
    → (a : A) × (first_part ≡ ok a) × (then_part a ≡ ok b)
run_succeeds undefined _ h = cc
run_succeeds (thrown e) _ h = cc
run_succeeds (lua_error e) _ h = cc
run_succeeds (ok a) _ h = (a, refl, h)

module _ (p : Oscpack) where
  open p use {Stream, empty, contents}

  -- A list of writes, one after the other.
  abbrev pub write_all : List Item → Stream → Result Stream
  write_all [] s = ok s
  write_all (i ∷ is) s = write_item p i s >>= write_all is

  pub bind-ok : {A : Type 0} (r : Result A) → (r >>= λ a. ok a) ≡ r
  bind-ok (ok a) = refl
  bind-ok (lua_error e) = refl
  bind-ok (thrown e) = refl
  bind-ok undefined = refl

  pub bind_assoc :
      {A B C : Type 0} (r : Result A) (f : A → Result B) (g : B → Result C)
      → (r >>= λ a. f a >>= g) ≡ ((r >>= f) >>= g)
  bind_assoc (ok a) f g = refl
  bind_assoc (lua_error e) f g = refl
  bind_assoc (thrown e) f g = refl
  bind_assoc undefined f g = refl

  pub write_all-append :
      (is js : List Item) (s : Stream) → write_all (is ++ js) s ≡ (write_all is s >>= write_all js)
  write_all-append [] js s = refl
  write_all-append (i ∷ is) js s =
      ap (λ k. write_item p i s >>= k) (fun_ext (write_all-append is js))
      ∙ bind_assoc (write_item p i s) (write_all is) (write_all js)

  -- `run` succeeds exactly when `m` has a value and the writes for it succeed, with the same stream.
  pub record Writes {R : Type 0} (items : R → List Item) (run : Stream → Result Stream)
      (m : Result R) : Type 0 where
    pub only : (s t : Stream) → run s ≡ ok t → (r : R) × (m ≡ ok r) × (write_all (items r) s ≡ ok t)
    pub always : (s t : Stream) (r : R) → m ≡ ok r → write_all (items r) s ≡ ok t → run s ≡ ok t

  module _ {R : Type 0} (items : R → List Item) where
    pub Writes-error : (e : Error) → Writes items (λ s. lua_error e) (lua_error e)
    Writes-error e = record { only = λ s t h. cc; always = λ s t r h k. cc }

    pub Writes-ok : (r : R) → items r ≡ [] → Writes items (λ s. ok s) (ok r)
    Writes-ok r e = record {
      only = λ s t h. (r, refl, rw e h);
      always = λ s t r' h k.
          let same : r ≡ r' = cc in
          subst (λ x. write_all (items x) s ≡ ok t → ok s ≡ ok t) same (λ w. rw e at w) k;
    }

    -- A computation that writes nothing comes first.
    pub Writes-bind :
        {A : Type 0} (c : Result A) (f : A → Stream → Result Stream) (m : A → Result R)
        → ((a : A) → Writes items (f a) (m a))
        → Writes items (λ s. c >>= λ a. f a s) (c >>= m)
    Writes-bind (ok a) f m h = h a
    Writes-bind (lua_error e) f m h = Writes-error e
    Writes-bind (thrown e) f m h = record { only = λ s t h. cc; always = λ s t r h k. cc }
    Writes-bind undefined f m h = record { only = λ s t h. cc; always = λ s t r h k. cc }

  -- One part after the other.
  pub Writes-then :
      {A B C : Type 0} (ia : A → List Item) (ib : B → List Item) (ic : C → List Item)
      (f g : Stream → Result Stream) (m : Result A) (k : Result B) (h : A → B → C)
      → ((a : A) (b : B) → ic (h a b) ≡ ia a ++ ib b)
      → Writes ia f m
      → Writes ib g k
      → Writes ic (λ s. f s >>= g) (m >>= λ a. k >>= λ b. ok (h a b))
  Writes-then ia ib ic f g m k h joins wf wg = record {
    only = λ s t e.
        let (s₁, e₁, e₂) = run_succeeds (f s) g e in
        let (a, ma, wa) = wf.only s s₁ e₁ in
        let (b, kb, wb) = wg.only s₁ t e₂ in
        (
          h a b,
          rw (ma, kb),
          ap (λ is. write_all is s) (joins a b)
              ∙ write_all-append (ia a) (ib b) s
              ∙ ap (λ r. r >>= write_all (ib b)) wa
              ∙ wb,
        );
    always = λ s t c e w.
        let (a, ma, e₁) = run_succeeds m (λ a. k >>= λ b. ok (h a b)) e in
        let (b, kb, e₂) = run_succeeds k (λ b. ok (h a b)) e₁ in
        let same : h a b ≡ c = cc in
        let whole : (write_all (ia a) s >>= write_all (ib b)) ≡ ok t =
          sym (write_all-append (ia a) (ib b) s)
          ∙ ap (λ is. write_all is s) (sym (joins a b) ∙ ap ic same)
          ∙ w in
        let (s₁, w₁, w₂) = run_succeeds (write_all (ia a) s) (write_all (ib b)) whole in
        ap (λ r. r >>= g) (wf.always s s₁ a ma w₁) ∙ wg.always s₁ t b kb w₂;
  }

  -- A single write.
  pub Writes-item : (i : Item) → Writes (λ (u : Unit {0}). i ∷ []) (write_item p i) (ok tt)
  Writes-item i = record {
    only = λ s t h. (tt, refl, bind-ok (write_item p i s) ∙ h);
    always = λ s t r e h. sym (bind-ok (write_item p i s)) ∙ h;
  }
