-- ===== src/Packet/Accepted/Known.antt =====
-- The type tags that the switches of oscpack_1_1_0/osc/OscReceivedElements.cpp know, blobs excepted.
use lua2sc.Prelude.{
  ℕ, ◌≡◌, ◌≢◌, refl, sym, subst, List, [], ◌∷◌, false, Bool-cases, ◌⊎◌, inl, inr, ◌==◌, ==_iff,
}
use lua2sc.Packet.Arguments.{
  true_tag, false_tag, nil_tag, infinitum_tag, int32_tag, float_tag, char_tag, rgba_color_tag,
  midi_message_tag, int64_tag, time_tag_tag, double_tag, string_tag, symbol_tag, blob_tag,
  array_begin_tag, array_end_tag,
}
use lua2sc.Packet.Message.{sized, other, tag_kind}

-- The type tags that are accepted, blobs excepted.
abbrev pub known : List ℕ
known =
    true_tag ∷ false_tag ∷ nil_tag ∷ infinitum_tag ∷ array_begin_tag ∷ array_end_tag ∷ int32_tag
    ∷ float_tag ∷ char_tag ∷ rgba_color_tag ∷ midi_message_tag ∷ int64_tag ∷ time_tag_tag
    ∷ double_tag ∷ string_tag ∷ symbol_tag ∷ []

abbrev pub AllOf : (ℕ → Type 0) → List ℕ → Type 0
AllOf P [] = Unit {0}
AllOf P (t ∷ ts) = P t × AllOf P ts

pub find_known :
    (P : ℕ → Type 0) (t : ℕ) (ts : List ℕ) → AllOf P ts → P t ⊎ AllOf (λ k. (t == k) ≡ false) ts
find_known P t [] all = inr tt
find_known P t (k ∷ ts) all = elim (Bool-cases (t == k)) [
  | inl e ↦ inl (subst P (sym ((==_iff t k).0 e)) all.0)
  | inr e ↦ elim (find_known P t ts all.1) [ inl p ↦ inl p | inr ne ↦ inr (e, ne) ]
]

pub not_known-other :
    (t : ℕ) → (t == blob_tag) ≡ false → AllOf (λ k. (t == k) ≡ false) known → tag_kind t ≡ other
unfolding tag_kind
not_known-other t blob h =
    rw
      (
        h.0, h.1.0, h.1.1.0, h.1.1.1.0, h.1.1.1.1.0, h.1.1.1.1.1.0, h.1.1.1.1.1.1.0,
        h.1.1.1.1.1.1.1.0, h.1.1.1.1.1.1.1.1.0, h.1.1.1.1.1.1.1.1.1.0, h.1.1.1.1.1.1.1.1.1.1.0,
        h.1.1.1.1.1.1.1.1.1.1.1.0, h.1.1.1.1.1.1.1.1.1.1.1.1.0, h.1.1.1.1.1.1.1.1.1.1.1.1.1.0,
        h.1.1.1.1.1.1.1.1.1.1.1.1.1.1.0, h.1.1.1.1.1.1.1.1.1.1.1.1.1.1.1.0, blob,
      )
      refl

pub known-kind : AllOf (λ t. (tag_kind t ≢ sized) × (tag_kind t ≢ other)) known
unfolding tag_kind
known-kind = (
  ((λ e. cc), (λ e. cc)),
  (
    ((λ e. cc), (λ e. cc)),
    (
      ((λ e. cc), (λ e. cc)),
      (
        ((λ e. cc), (λ e. cc)),
        (
          ((λ e. cc), (λ e. cc)),
          (
            ((λ e. cc), (λ e. cc)),
            (
              ((λ e. cc), (λ e. cc)),
              (
                ((λ e. cc), (λ e. cc)),
                (
                  ((λ e. cc), (λ e. cc)),
                  (
                    ((λ e. cc), (λ e. cc)),
                    (
                      ((λ e. cc), (λ e. cc)),
                      (
                        ((λ e. cc), (λ e. cc)),
                        (
                          ((λ e. cc), (λ e. cc)),
                          (
                            ((λ e. cc), (λ e. cc)),
                            (((λ e. cc), (λ e. cc)), (((λ e. cc), (λ e. cc)), tt)),
                          ),
                        ),
                      ),
                    ),
                  ),
                ),
              ),
            ),
          ),
        ),
      ),
    ),
  ),
)

pub AllOf-both :
    (P Q : ℕ → Type 0) (ts : List ℕ) → AllOf P ts → AllOf Q ts → AllOf (λ t. P t × Q t) ts
AllOf-both P Q [] p q = tt
AllOf-both P Q (t ∷ ts) p q = ((p.0, q.0), AllOf-both P Q ts p.1 q.1)
