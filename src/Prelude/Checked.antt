-- ===== src/Prelude/Checked.antt =====
-- The source's CHECK and Croak: a computation that stops has no value.
use mathlib.Core.Bool.{Bool, true, false}
use mathlib.Core.Option.{Option, none, some, some-ne-none}
use mathlib.Core.Path.{◌≡◌, refl, sym}

infixl 5 ◌>>=◌ ◌>>◌
abbrev pub ◌>>=◌ {ℓ κ} : {A : Type ℓ} {B : Type κ} → Option A → (A → Option B) → Option B
none >>= f = none
some a >>= f = f a

abbrev pub ◌>>◌ {ℓ} : {B : Type ℓ} → Option (Unit {0}) → Option B → Option B
m >> k = m >>= λ _. k

-- `CHECK(b)`
abbrev pub check : Bool → Option (Unit {0})
check true = some tt
check false = none

-- The computation does not stop, and its result has the property.
abbrev pub Yields {ℓ} : {A : Type ℓ} → (A → Type 0) → Option A → Type 0
Yields P none = ⊥
Yields P (some a) = P a

-- What a chain of steps yields, its first step and the others yield in turn.
pub bind-some {ℓ κ} :
    {A : Type ℓ} {B : Type κ} (m : Option A) {f : A → Option B} {b : B}
    → (m >>= f) ≡ some b
    → (a : A) × (m ≡ some a) × (f a ≡ some b)
bind-some none h = absurd (some-ne-none _ (sym h))
bind-some (some a) h = (a, refl, h)

pub check-some {ℓ} :
    {B : Type ℓ} (t : Bool) {k : Option B} {b : B}
    → (check t >> k) ≡ some b
    → (t ≡ true) × (k ≡ some b)
check-some true h = (refl, h)
check-some false h = absurd (some-ne-none _ (sym h))
