-- ===== src/Random/Sequence.antt =====
-- The outputs of a seeded generator of random/random.c, and the state invariant of a single call.
use lua2sc.Prelude.{
  ℕ, zero, suc, ◌+◌, ◌<◌, ◌≤◌, ◌^◌, ◌≡◌, refl, arith, List, [], ◌∷◌, Option, some, ◌>>=◌, length,
  get_or, get_elem?-eq-get_or,
}
use native.Mathlib.Nat.{zero-add}
use lua2sc.Random.State.{LongWidth, Mt, init_genrand}
use lua2sc.Random.Generate.{genrand_int32}
use lua2sc.Random.Reference.{word, word-first, word-next, temper_word, seed_word}
use lua2sc.Random.Steps.{temper_word-lt, seed_word-lt, word-lt}
use lua2sc.Random.Stream.{Tracks, stream, init_genrand-Tracks, genrand_int32-Tracks}

-- The tempered words of the sequence `x` at `c`, ..., `c + n - 1`.
abbrev pub outputs : (ℕ → ℕ) → ℕ → ℕ → List ℕ
outputs x c zero = []
outputs x c (suc n) = temper_word (x c) ∷ outputs x (c + 1) n

module _ {D : Type 0} where
  -- `n` calls of the generator, one after the other.
  unfoldable pub draws : LongWidth → ℕ → Mt D → Option (List ℕ × Mt D)
  draws w zero o = some ([], o)
  draws w (suc n) o = do (y, o') ← genrand_int32 w o; (ys, o'') ← draws w n o'; some (y ∷ ys, o'')

  draws-Tracks :
      (w : LongWidth) (s n c : ℕ) (o : Mt D)
      → Tracks (stream s) c o
      → (o' : Mt D) × (draws w n o ≡ some (outputs (stream s) c n, o'))
  unfolding draws
  draws-Tracks w s zero c o t = (o, refl)
  draws-Tracks w s (suc n) c o t =
      let (o₁, runs, t₁, _, _) =
        genrand_int32-Tracks w (stream s) (word-lt (seed_word s) (λ n _. seed_word-lt s n))
          (word-next (seed_word s)) c o t in
      let (o₂, rest) = draws-Tracks w s n (c + 1) o₁ t₁ in (o₂, rw (runs, rest))

  -- For both widths of `unsigned long`, every seed, every previous content of the array of 624
  -- words and every number of calls: seeding succeeds, the calls succeed, and they yield in order
  -- the tempered words of the reference sequence after its first 624.
  pub init_genrand-draws :
      (w : LongWidth) (o : Mt D) (s n : ℕ)
      → length o.v ≡ 624
      → (o₀ : Mt D) × (o₁ : Mt D) × (init_genrand w o s ≡ some o₀)
        × (draws w n o₀ ≡ some (outputs (stream s) 624 n, o₁))
  init_genrand-draws w o s n size =
      let (o₀, seeded, t, _, _) = init_genrand-Tracks w o s size in
      let (o₁, drawn) = draws-Tracks w s n 624 o₀ t in (o₀, o₁, seeded, drawn)

  -- The array has its 624 words, each of 32 bits, and the index is at most one past the last.
  pub record IsValid (o : Mt D) : Type 0 where
    pub size : length o.v ≡ 624
    pub index : o.i ≤ 624
    pub words : (j : ℕ) → j < 624 → get_or o.v j 0 < 2 ^ 32

  -- A well-formed state is on the sequence that its own words start.
  own_words : Mt D → ℕ → ℕ
  own_words o j = get_or o.v j 0

  Tracks-IsValid :
      (first : ℕ → ℕ) (c : ℕ) (o : Mt D)
      → ((n : ℕ) → n < 624 → first n < 2 ^ 32)
      → Tracks (word first) c o
      → IsValid o
  Tracks-IsValid first c o h t = record {
    size = t.window.size;
    index = t.index;
    words = λ j q.
        let same : get_or o.v j 0 ≡ word first (t.base + j) =
          cc (get_elem?-eq-get_or o.v j 0 (omega (arith, t.window.size)), t.window.holds j q) in
        rw same (word-lt first h (t.base + j));
  }

  own_words-Tracks : (o : Mt D) → IsValid o → Tracks (word (own_words o)) o.i o
  unfolding own_words
  own_words-Tracks o p = record {
    base = 0;
    window = record {
      size = p.size;
      holds = λ j h.
          rw (zero-add, word-first (own_words o) j h)
            (get_elem?-eq-get_or o.v j 0 (omega (arith, p.size)));
    };
    index = p.index;
    place = zero-add o.i;
  }

  -- Seeding an array of 624 words makes a well-formed state.
  pub init_genrand-IsValid :
      (w : LongWidth) (o : Mt D) (s : ℕ)
      → length o.v ≡ 624
      → (o' : Mt D) × (init_genrand w o s ≡ some o') × IsValid o'
  init_genrand-IsValid w o s size =
      let (o', seeded, t, _, _) = init_genrand-Tracks w o s size in
      (o', seeded, Tracks-IsValid (seed_word s) 624 o' (λ n _. seed_word-lt s n) t)

  -- From a well-formed state, whatever words it holds, a call makes no access out of bounds, yields
  -- a word below 2 ^ 32 and leaves a well-formed state with the waiting variate unchanged.
  pub genrand_int32-IsValid :
      (w : LongWidth) (o : Mt D)
      → IsValid o
      → (y : ℕ) × (o' : Mt D) × (genrand_int32 w o ≡ some (y, o'))
        × (y < 2 ^ 32)
        × IsValid o'
        × (o'.iset ≡ o.iset)
        × (o'.gset ≡ o.gset)
  unfolding own_words
  genrand_int32-IsValid w o p =
      let x = word (own_words o) in
      let bounded = word-lt (own_words o) p.words in
      let (o', runs, t, kept, waiting) =
        genrand_int32-Tracks w x bounded (word-next (own_words o)) o.i o (own_words-Tracks o p) in
      (
        temper_word (x o.i),
        o',
        runs,
        temper_word-lt (x o.i) (bounded o.i),
        Tracks-IsValid (own_words o) (o.i + 1) o' p.words t,
        kept,
        waiting,
      )
