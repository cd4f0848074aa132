-- ===== src/Packet/Read.antt =====
-- Bytes at a place in the memory that oscpack_1_1_0/osc/OscReceivedElements.cpp reads.
pub mod Text
pub mod Argument
pub mod Steps
pub mod Accessors
pub mod Message
pub mod Whole
pub mod Readable
pub mod Elements
pub mod Packets
use lua2sc.Prelude.{
  ℕ, zero, suc, ◌+◌, ◌≤◌, ◌<◌, ◌≡◌, refl, sym, ap, ◌∙◌, arith, List, [], ◌∷◌, ◌++◌, append_assoc,
  append-nil, Option, some, length, length-append, get_elem?, take, drop, take-append, drop-append,
}
use lua2sc.Osc.Value.{Bytes, Result, ok, defined, ◌>>=◌}
use lua2sc.Packet.Memory.{byte_at}

-- The bytes `x` stand at `p`.
pub record At (m : Bytes) (p : ℕ) (x : Bytes) : Type 0 where
  pub before : Bytes
  pub behind : Bytes
  pub whole : m ≡ before ++ (x ++ behind)
  pub place : length before ≡ p

pub At-start : (x : Bytes) → At x 0 x
At-start x = record { before = []; behind = []; whole = sym (append-nil x); place = refl }

pub At-drop : {m : Bytes} {p : ℕ} {x : Bytes} (a : At m p x) → drop p m ≡ x ++ a.behind
At-drop {m} {p} {x} a =
    ap (λ n. drop n m) (sym a.place)
    ∙ ap (drop (length a.before)) a.whole
    ∙ drop-append a.before (x ++ a.behind)

pub At-length : {m : Bytes} {p : ℕ} {x : Bytes} → At m p x → p + length x ≤ length m
At-length {m} {p} {x} a = omega (
  arith,
  ap length a.whole,
  length-append a.before (x ++ a.behind),
  length-append x a.behind,
  a.place,
)

pub At-left : {m : Bytes} {p : ℕ} (x y : Bytes) → At m p (x ++ y) → At m p x
At-left x y a = record {
  before = a.before;
  behind = y ++ a.behind;
  whole = a.whole ∙ ap (λ t. a.before ++ t) (append_assoc x y a.behind);
  place = a.place;
}

pub At-right : {m : Bytes} {p : ℕ} (x y : Bytes) → At m p (x ++ y) → At m (p + length x) y
At-right x y a = record {
  before = a.before ++ x;
  behind = a.behind;
  whole =
      a.whole
      ∙ ap (λ t. a.before ++ t) (append_assoc x y a.behind)
      ∙ sym (append_assoc a.before x (y ++ a.behind));
  place = omega (arith, length-append a.before x, a.place);
}

get_elem?-append : (x : Bytes) (c : ℕ) (y : Bytes) → get_elem? (x ++ c ∷ y) (length x) ≡ some c
get_elem?-append [] c y = refl
get_elem?-append (a ∷ x) c y = get_elem?-append x c y

pub At-byte : {m : Bytes} {p c : ℕ} {x : Bytes} → At m p (c ∷ x) → byte_at m p ≡ ok c
At-byte {m} {p} {c} {x} a =
    ap (λ n. byte_at m n) (sym a.place)
    ∙ ap (λ t. byte_at t (length a.before)) a.whole
    ∙ ap defined (get_elem?-append a.before c (x ++ a.behind))

pub At-take : {m : Bytes} {p : ℕ} {x : Bytes} → At m p x → take (length x) (drop p m) ≡ x
At-take {x = x} a = ap (take (length x)) (At-drop a) ∙ take-append x a.behind

-- A computation whose first part has a value.
pub bind-by : {A B : Type 0} {r : Result A} {a : A} (f : A → Result B) → r ≡ ok a → (r >>= f) ≡ f a
bind-by f h = ap (λ r. r >>= f) h

pub positive_fuel : (fuel : ℕ) → 0 < fuel → (k : ℕ) × (fuel ≡ suc k)
positive_fuel zero h = let no : ⊥ = omega (arith, h) in elim no [ ]
positive_fuel (suc k) h = (k, refl)
