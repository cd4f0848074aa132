-- ===== src/Packet/Lacks.antt =====
-- Bytes that do not occur in a packet, for the tests of the readers in oscpack_1_1_0/osc.
use lua2sc.Prelude.{
  ℕ, zero, suc, ◌≤◌, ◌≡◌, ◌≢◌, refl, arith, [], ◌∷◌, ◌++◌, Bool, true, false, ◌&&◌, length, take,
  drop, ◌==◌, if◌then◌else◌,
}
use lua2sc.Osc.Value.{Bytes, ok, bytes_eq}
use lua2sc.Packet.Order.{to_uint32}
use lua2sc.Packet.Memory.{byte_at}

-- Whether no byte is `c`.
abbrev pub lacks : Bytes → ℕ → Bool
lacks [] c = true
lacks (b ∷ m) c = if b == c then false else lacks m c

pub lacks-byte_at : (m : Bytes) (c i : ℕ) → lacks m c ≡ true → byte_at m i ≢ ok c
lacks-byte_at [] c i h = none_there
  where
    none_there : byte_at [] i ≢ ok c
    none_there e = cc
lacks-byte_at (b ∷ m) c i h = go (λ i h. lacks-byte_at m c i h) (b == c) refl i h
  where
    go :
        ((i : ℕ) → lacks m c ≡ true → byte_at m i ≢ ok c)
        → (t : Bool) → (b == c) ≡ t
        → (i : ℕ) → (if t then false else lacks m c) ≡ true
        → byte_at (b ∷ m) i ≢ ok c
    go rest true e i h f = cc
    go rest false e zero h f = let same : b ≡ c = ok_same f in absurd (ground (arith, e, same))
      where
        ok_same : ok b ≡ ok c → b ≡ c
        ok_same h = cc
    go rest false e (suc i) h f = rest i h f

-- Where a byte is missing, nothing begins with it.
pub lacks-drop :
    (m : Bytes) (c q : ℕ) (t : Bytes)
    → lacks m c ≡ true
    → bytes_eq (take 8 (drop q m)) (c ∷ t) ≢ true
unfolding bytes_eq
lacks-drop [] c zero t h = λ e. cc
lacks-drop [] c (suc q) t h = λ e. cc
lacks-drop (b ∷ m) c zero t h = go (b == c) h
  where
    go : (x : Bool) → (if x then false else lacks m c) ≡ true → (x && bytes_eq (take 7 m) t) ≢ true
    go true h e = cc
    go false h e = cc
lacks-drop (b ∷ m) c (suc q) t h = go (λ h. lacks-drop m c q t h) (b == c) h
  where
    go :
        (lacks m c ≡ true → bytes_eq (take 8 (drop q m)) (c ∷ t) ≢ true)
        → (x : Bool) → (if x then false else lacks m c) ≡ true
        → bytes_eq (take 8 (drop q m)) (c ∷ t) ≢ true
    go rest true h e = cc
    go rest false h e = rest h e

-- A byte that the front lacks stands behind it, and one that the rest lacks does not.
pub front-byte_at :
    (xs ys : Bytes) (c i : ℕ) → lacks xs c ≡ true → byte_at (xs ++ ys) i ≡ ok c → length xs ≤ i
front-byte_at [] ys c i h e = omega arith
front-byte_at (x ∷ xs) ys c zero h e = absurd (lacks-byte_at (x ∷ xs) c 0 h e)
front-byte_at (x ∷ xs) ys c (suc i) h e = go (x == c) h (λ h. front-byte_at xs ys c i h e)
  where
    go :
        (b : Bool)
        → (if b then false else lacks xs c) ≡ true
        → (lacks xs c ≡ true → length xs ≤ i)
        → suc (length xs) ≤ suc i
    go true h rest = cc
    go false h rest = omega (arith, rest h)

pub rest-byte_at :
    (xs ys : Bytes) (c i : ℕ) → lacks ys c ≡ true → length xs ≤ i → byte_at (xs ++ ys) i ≢ ok c
rest-byte_at [] ys c i h le = lacks-byte_at ys c i h
rest-byte_at (x ∷ xs) ys c zero h le = absurd (omega (arith, le))
rest-byte_at (x ∷ xs) ys c (suc i) h le = rest-byte_at xs ys c i h (omega (arith, le))

pub to_uint32-length : (m : Bytes) (n : ℕ) → to_uint32 m ≡ ok n → 4 ≤ length m
unfolding to_uint32
to_uint32-length [] n h = cc
to_uint32-length (a ∷ []) n h = cc
to_uint32-length (a ∷ b ∷ []) n h = cc
to_uint32-length (a ∷ b ∷ c ∷ []) n h = cc
to_uint32-length (a ∷ b ∷ c ∷ d ∷ m) n h = omega arith
