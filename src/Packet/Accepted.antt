-- ===== src/Packet/Accepted.antt =====
-- What oscpack_1_1_0/osc/OscReceivedElements.cpp can read of any bytes that its checks accept, whoever
-- sent them.
pub mod Text
pub mod Search
pub mod Checked
pub mod Known
pub mod Tags
pub mod Message
pub mod Whole
pub mod Init
pub mod Safe
pub mod Bundle
pub mod Packets
pub mod Decoded
use lua2sc.Packet.Read.{bind-by}
use lua2sc.Prelude.{
  Bool, true, false, ◌==◌, ℕ, zero, suc, ◌+◌, ◌-◌, ◌*◌, ◌≤◌, ◌<◌, ◌≡◌, ◌≢◌, refl, sym, ap, subst,
  ◌∙◌, arith, List, [], ◌∷◌, Option, none, some, length, drop, get_elem?, length-drop,
}
use lua2sc.Osc.Value.{Bytes, Result, ok, lua_error, thrown, undefined, defined, ◌>>=◌}
use lua2sc.Packet.Order.{to_uint32, to_int32, to_uint64, to_int64}
use lua2sc.Packet.Memory.{byte_at, c_string_at}

-- A computation that has a value.
abbrev pub HasValue : {A : Type 0} → Result A → Type 0
HasValue {A} r = (a : A) × (r ≡ ok a)

four : (m : Bytes) → 4 ≤ length m → HasValue (to_uint32 m) × HasValue (to_int32 m)
unfolding to_uint32 to_int32
four (a ∷ b ∷ c ∷ d ∷ m) l = ((_, refl), (_, refl))
four [] l = absurd (omega arith)
four (a ∷ []) l = absurd (omega arith)
four (a ∷ b ∷ []) l = absurd (omega arith)
four (a ∷ b ∷ c ∷ []) l = absurd (omega arith)

eight : (m : Bytes) → 8 ≤ length m → HasValue (to_uint64 m) × HasValue (to_int64 m)
unfolding to_uint64 to_int64
eight (a ∷ b ∷ c ∷ d ∷ e ∷ f ∷ g ∷ h ∷ m) l = ((_, refl), (_, refl))
eight [] l = absurd (omega arith)
eight (a ∷ []) l = absurd (omega arith)
eight (a ∷ b ∷ []) l = absurd (omega arith)
eight (a ∷ b ∷ c ∷ []) l = absurd (omega arith)
eight (a ∷ b ∷ c ∷ d ∷ []) l = absurd (omega arith)
eight (a ∷ b ∷ c ∷ d ∷ e ∷ []) l = absurd (omega arith)
eight (a ∷ b ∷ c ∷ d ∷ e ∷ f ∷ []) l = absurd (omega arith)
eight (a ∷ b ∷ c ∷ d ∷ e ∷ f ∷ g ∷ []) l = absurd (omega arith)

-- Integers that end inside the memory.
module _ (n : ℕ) (m : Bytes) where
  pub integer32-HasValue :
      n + 4 ≤ length m → HasValue (to_uint32 (drop n m)) × HasValue (to_int32 (drop n m))
  integer32-HasValue h = four (drop n m) (omega (arith, length-drop n m, h))

  pub integer64-HasValue :
      n + 8 ≤ length m → HasValue (to_uint64 (drop n m)) × HasValue (to_int64 (drop n m))
  integer64-HasValue h = eight (drop n m) (omega (arith, length-drop n m, h))

get_elem?-drop : (n i : ℕ) (m : Bytes) → get_elem? (drop n m) i ≡ get_elem? m (n + i)
get_elem?-drop zero i m = let same : i ≡ 0 + i = omega arith in ap (get_elem? m) same
get_elem?-drop (suc n) i [] = refl
get_elem?-drop (suc n) i (b ∷ m) =
    let same : suc (n + i) ≡ suc n + i = omega arith in
    get_elem?-drop n i m ∙ ap (get_elem? (b ∷ m)) same

c_string_at-step :
    (c : ℕ) (m : Bytes)
    → ((c == 0) ≡ false → HasValue (c_string_at m))
    → HasValue (c_string_at (c ∷ m))
unfolding c_string_at
c_string_at-step c m rest = go (c == 0) refl
  where
    go :
        (b : Bool)
        → (c == 0) ≡ b
        → HasValue (elim b [ true ↦ ok [] | false ↦ c_string_at m >>= λ s. ok (c ∷ s) ])
    go true e = ([], refl)
    go false e = let (s, h) = rest e in (c ∷ s, bind-by (λ s. ok (c ∷ s)) h)

c_string_at-HasValue : (m : Bytes) (i : ℕ) → get_elem? m i ≡ some 0 → HasValue (c_string_at m)
c_string_at-HasValue [] i h = cc
c_string_at-HasValue (c ∷ m) zero h =
    let ended : c ≡ 0 = cc in c_string_at-step c m λ e. absurd (ground (arith, e, ended))
c_string_at-HasValue (c ∷ m) (suc i) h = c_string_at-step c m λ e. c_string_at-HasValue m i h

pub defined-some : {A : Type 0} {a : A} (o : Option A) → defined o ≡ ok a → o ≡ some a
defined-some none h = cc
defined-some (some b) h = cc

-- A zero behind a pointer ends the text there.
pub text-HasValue :
    (m : Bytes) (p z : ℕ) → p ≤ z → byte_at m z ≡ ok 0 → HasValue (c_string_at (drop p m))
text-HasValue m p z le h =
    let there : p + (z - p) ≡ z = omega (arith, le) in
    c_string_at-HasValue (drop p m) (z - p)
      (get_elem?-drop p (z - p) m ∙ ap (get_elem? m) there ∙ defined-some (get_elem? m z) h)

-- A byte that can be read is in the memory.
pub byte_at-within : (m : Bytes) (p c : ℕ) → byte_at m p ≡ ok c → p < length m
byte_at-within m p c h = inside m p (defined-some (get_elem? m p) h)
  where
    inside : (m : Bytes) (p : ℕ) → get_elem? m p ≡ some c → p < length m
    inside [] p h = cc
    inside (b ∷ m) zero h = omega arith
    inside (b ∷ m) (suc p) h = omega (arith, inside m p h)
