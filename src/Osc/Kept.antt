-- ===== src/Osc/Kept.antt =====
-- Calls of oscpack that osclua/osclua.cpp makes: a value with a property, or a C++ exception.
use lua2sc.Osc.Value.{Result, ok, lua_error, thrown, undefined, ◌>>=◌}

-- A call succeeds with the property or throws; it is never undefined.
abbrev pub Kept : {A : Type 0} → (A → Type 0) → Result A → Type 0
Kept P (ok t) = P t
Kept P (thrown e) = Unit {0}
Kept P (lua_error e) = ⊥
Kept P undefined = ⊥

pub Kept-bind :
    {A B : Type 0} (P : A → Type 0) (Q : B → Type 0) (r : Result A) (f : A → Result B)
    → Kept P r
    → ((a : A) → P a → Kept Q (f a))
    → Kept Q (r >>= f)
Kept-bind P Q (ok a) f k next = next a k
Kept-bind P Q (thrown e) f k next = tt
Kept-bind P Q (lua_error e) f k next = elim k [ ]
Kept-bind P Q undefined f k next = elim k [ ]

pub Kept-map :
    {A : Type 0} (P Q : A → Type 0) (r : Result A) → Kept P r → ((a : A) → P a → Q a) → Kept Q r
Kept-map P Q (ok a) k f = f a k
Kept-map P Q (thrown e) k f = tt
Kept-map P Q (lua_error e) k f = k
Kept-map P Q undefined k f = k
