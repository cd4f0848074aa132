-- ===== src/Random/Blocks.antt =====
-- The refill of random/random.c in place: at round `k` the array is a window that holds `k` words of
-- the new block and the others of the old one.
use lua2sc.Prelude.{
  ℕ, zero, suc, ◌+◌, ◌-◌, ◌<◌, ◌≤◌, ◌^◌, ◌≡◌, refl, sym, ap, ◌∙◌, arith, List, some, length,
  get_elem?, set, write-eq-some, length-set, get_elem?-set_self, get_elem?-set_ne,
}
use native.Mathlib.Decide.{ℕ_discrete}
use lua2sc.Random.Generate.{refill_word, refill_low, refill_high, refill}
use lua2sc.Random.Reference.{next_word}
use lua2sc.Random.Steps.{twist_word-eq-next_word}

-- `v` holds the words of the sequence `x` at `base`, ..., `base + 623`.
pub record Window (x : ℕ → ℕ) (base : ℕ) (v : List ℕ) : Type 0 where
  pub size : length v ≡ 624
  pub holds : (j : ℕ) → j < 624 → get_elem? v j ≡ some (x (base + j))

-- Halfway through a refill, after `k` rounds.
record Progress (x : ℕ → ℕ) (base k : ℕ) (v : List ℕ) : Type 0 where
  size : length v ≡ 624
  fresh : (j : ℕ) → j < k → j < 624 → get_elem? v j ≡ some (x (base + 624 + j))
  stale : (j : ℕ) → k ≤ j → j < 624 → get_elem? v j ≡ some (x (base + j))

module _ (x : ℕ → ℕ) (bounded : (n : ℕ) → x n < 2 ^ 32)
    (recurs : (k : ℕ) → x (k + 624) ≡ next_word (x (k + 397)) (x k) (x (k + 1))) where
  continues :
      (base k : ℕ)
      → next_word (x (base + k + 397)) (x (base + k)) (x (base + k + 1)) ≡ x (base + 624 + k)
  continues base k = sym (recurs (base + k)) ∙ ap x (omega arith)

  -- A round whose three reads yield the words that the recurrence asks for.
  round :
      (base k next far : ℕ) (v : List ℕ)
      → k < 624
      → Progress x base k v
      → get_elem? v next ≡ some (x (base + k + 1))
      → get_elem? v far ≡ some (x (base + k + 397))
      → (v' : List ℕ) × (refill_word k next far v ≡ some v') × Progress x base (k + 1) v'
  unfolding refill_word
  round base k next far v h p nx fx = (
    set v k (x (base + 624 + k)),
    rw (p.stale k (omega arith) h, nx, fx)
        (rw
          (twist_word-eq-next_word (x (base + k + 397)) (x (base + k)) (x (base + k + 1))
            (bounded _))
          (rw (write-eq-some v k _ (omega (arith, p.size))) (rw (continues base k)))),
    record {
      size = length-set v k _ ∙ p.size;
      fresh = λ j q r. elim (ℕ_discrete j k) [
        | yes e ↦ rw e (get_elem?-set_self v k _ (omega (arith, p.size)))
        | no ne ↦ get_elem?-set_ne v k j _ (λ e. ne (omega arith)) ∙ p.fresh j (omega arith) r
      ];
      stale = λ j q r. get_elem?-set_ne v k j _ (λ e. omega arith) ∙ p.stale j (omega arith) r;
    },
  )

  low_rounds :
      (left base k : ℕ) (v : List ℕ)
      → k + left ≡ 227
      → Progress x base k v
      → (v' : List ℕ) × (refill_low left k v ≡ some v') × Progress x base 227 v'
  unfolding refill_low
  low_rounds zero base k v e p = let e' : k ≡ 227 = omega arith in (v, refl, rw e' at p)
  low_rounds (suc left) base k v e p =
      let (v₁, first, p₁) =
        round base k (k + 1) (k + 397) v (omega arith) p
          (p.stale (k + 1) (omega arith) (omega arith) ∙ ap (λ (t : ℕ). some (x t)) (omega arith))
          (p.stale (k + 397) (omega arith) (omega arith)
            ∙ ap (λ (t : ℕ). some (x t)) (omega arith)) in
      let (v₂, others, p₂) = low_rounds left base (k + 1) v₁ (omega arith) p₁ in
      (v₂, rw first others, p₂)

  high_rounds :
      (left base k : ℕ) (v : List ℕ)
      → k + left ≡ 623
      → 227 ≤ k
      → Progress x base k v
      → (v' : List ℕ) × (refill_high left k v ≡ some v') × Progress x base 623 v'
  unfolding refill_high
  high_rounds zero base k v e h p = let e' : k ≡ 623 = omega arith in (v, refl, rw e' at p)
  high_rounds (suc left) base k v e h p =
      let (v₁, first, p₁) =
        round base k (k + 1) (k + 397 - 624) v (omega arith) p
          (p.stale (k + 1) (omega arith) (omega arith) ∙ ap (λ (t : ℕ). some (x t)) (omega arith))
          (p.fresh (k + 397 - 624) (omega arith) (omega arith)
            ∙ ap (λ (t : ℕ). some (x t)) (omega arith)) in
      let (v₂, others, p₂) = high_rounds left base (k + 1) v₁ (omega arith) (omega arith) p₁ in
      (v₂, rw first others, p₂)

  -- A refill of a full block succeeds, and yields the next block of the sequence.
  pub refill-Window :
      (base : ℕ) (v : List ℕ)
      → Window x base v
      → (v' : List ℕ) × (refill v ≡ some v') × Window x (base + 624) v'
  unfolding refill
  refill-Window base v full =
      let start : Progress x base 0 v = record {
        size = full.size;
        fresh = λ j q r. absurd (omega arith);
        stale = λ j q r. full.holds j r;
      } in
      let (v₁, low, p₁) = low_rounds 227 base 0 v (omega arith) start in
      let (v₂, high, p₂) = high_rounds 396 base 227 v₁ (omega arith) (omega arith) p₁ in
      let (v₃, last, p₃) =
        round base 623 0 396 v₂ (omega arith) p₂
          (p₂.fresh 0 (omega arith) (omega arith) ∙ ap (λ (t : ℕ). some (x t)) (omega arith))
          (p₂.fresh 396 (omega arith) (omega arith) ∙ ap (λ (t : ℕ). some (x t)) (omega arith)) in
      (
        v₃,
        rw (low, high) last,
        record { size = p₃.size; holds = λ j r. p₃.fresh j (omega arith) r },
      )
