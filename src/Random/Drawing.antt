-- ===== src/Random/Drawing.antt =====
-- The state invariant and array accesses of the draws in random/random.c and random/lrandom.c.
use lua2sc.Prelude.{ℕ, zero, suc, Bool, true, false, inl, inr, ℤ, pos, ◌+ℤ◌, ◌-ℤ◌, ◌==◌, Bool-cases}
use lua2sc.Random.State.{LongWidth, Mt}
use lua2sc.Random.Generate.{genrand_int32}
use lua2sc.Random.Double.{Double}
use lua2sc.Random.Run.{done, of_option}
use lua2sc.Random.Real.{
  Point, genrand_real1, genrand_real2, genrand_res53, genrand_normal, draw_point, draw_accepted,
  fresh_pair, is_rejected,
}
use lua2sc.Random.Keeps.{
  Keeps, kept, looping, Keeps-bind, interval-Keeps, interval_excuse, Keeps-split, Excuse,
}
use lua2sc.Random.Sequence.{IsValid, genrand_int32-IsValid}
use lua2sc.Random.Binding.{draw_integer, as_int}

module _ {D : Type 0} where
  -- After a draw the state is well formed.
  abbrev pub DrawnIsValid : {A : Type 0} → A × Mt D → Type 0
  DrawnIsValid (a, o) = IsValid o

  word-Keeps :
      (excused : Excuse) (w : LongWidth) (o : Mt D)
      → IsValid o
      → Keeps DrawnIsValid excused (of_option (genrand_int32 w o))
  word-Keeps excused w o v =
      let (y, o', runs, _, v', _, _) = genrand_int32-IsValid w o v in rw runs (kept v')

module _ (d : Double) (w : LongWidth) where
  open d use {Carrier}

  module _ (excused : Excuse) where
    pub real1-Keeps :
        (o : Mt Carrier) → IsValid o → Keeps DrawnIsValid excused (genrand_real1 d w o)
    unfolding genrand_real1
    real1-Keeps o v = Keeps-bind (word-Keeps excused w o v) (λ r v'. kept v')

    real2-Keeps : (o : Mt Carrier) → IsValid o → Keeps DrawnIsValid excused (genrand_real2 d w o)
    unfolding genrand_real2
    real2-Keeps o v = Keeps-bind (word-Keeps excused w o v) (λ r v'. kept v')

    pub res53-Keeps :
        (o : Mt Carrier) → IsValid o → Keeps DrawnIsValid excused (genrand_res53 d w o)
    unfolding genrand_res53
    res53-Keeps o v =
        Keeps-bind (word-Keeps excused w o v)
          (λ (y, o₁) v₁. Keeps-bind (word-Keeps excused w o₁ v₁) (λ z v₂. kept v₂))

    point-Keeps : (o : Mt Carrier) → IsValid o → Keeps DrawnIsValid excused (draw_point d w o)
    unfolding draw_point
    point-Keeps o v =
        Keeps-bind (real2-Keeps o v)
          (λ (r, o₁) v₁. Keeps-bind (real2-Keeps o₁ v₁) (λ s v₂. kept v₂))

    accepted-Keeps :
        (fuel : ℕ) (o : Mt Carrier)
        → IsValid o
        → Keeps DrawnIsValid excused (draw_accepted d fuel w o)
    unfolding draw_accepted
    accepted-Keeps zero o v = looping
    accepted-Keeps (suc fuel) o v =
        Keeps-bind (point-Keeps o v)
          λ (p, o₁) v₁. again (is_rejected d p) p o₁ v₁ (accepted-Keeps fuel o₁ v₁)
      where
        again :
            (b : Bool) (p : Point d) (o₁ : Mt Carrier)
            → IsValid o₁
            → Keeps DrawnIsValid excused (draw_accepted d fuel w o₁)
            → Keeps DrawnIsValid excused
                (elim b [ true ↦ draw_accepted d fuel w o₁ | false ↦ done (p, o₁) ])
        again true p o₁ v₁ rest = rest
        again false p o₁ v₁ rest = kept v₁

    pub normal-Keeps :
        (fuel : ℕ) (o : Mt Carrier)
        → IsValid o
        → Keeps DrawnIsValid excused (genrand_normal d fuel w o)
    unfolding genrand_normal fresh_pair
    normal-Keeps fuel o v = elim (Bool-cases (o.iset == 0)) [
      | inl fresh ↦ rw fresh (
          Keeps-bind (accepted-Keeps fuel o v)
            (λ (p, o₁) v₁. kept (record { size = v₁.size; index = v₁.index; words = v₁.words })))
      | inr waiting ↦ rw waiting (kept (record { size = v.size; index = v.index; words = v.words }))
    ]

  pub integer-Keeps :
      (a b : ℤ) (o : Mt Carrier)
      → IsValid o
      → Keeps DrawnIsValid (interval_excuse a b) (draw_integer d w a b o)
  unfolding draw_integer
  integer-Keeps a b o v = Keeps-bind (real2-Keeps (interval_excuse a b) o v) λ (r, o₁) v₁.
      Keeps-split (as_int (b -ℤ a)) (λ span. as_int (span +ℤ pos 1)) (interval-Keeps a b)
        λ count. kept v₁
