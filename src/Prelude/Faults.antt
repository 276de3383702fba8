-- ===== src/Prelude/Faults.antt =====
-- The result of C code that may do what the language leaves undefined: a fault stands for it.
use mathlib.Core.Path.{◌≡◌, refl}
use mathlib.Core.Logic.{◌⊎◌, inl, inr}
use mathlib.Core.Option.{Option, none, some}

pub data Fault : Type 0 where
  null_pointer out_of_bounds use_after_free double_free : Fault

pub data Exec {ℓ} (A : Type ℓ) : Type ℓ where
  ok : A → Exec A
  fault : Fault → Exec A

infixl 5 ◌>>=◌
abbrev pub ◌>>=◌ {ℓ κ} : {A : Type ℓ} {B : Type κ} → Exec A → (A → Exec B) → Exec B
ok a >>= f = f a
fault e >>= f = fault e

-- A pointer that is read: NULL faults.
abbrev pub deref {ℓ} : {A : Type ℓ} → Option A → Exec A
deref none = fault null_pointer
deref (some a) = ok a

-- An element that is read: an index out of range faults.
abbrev pub at {ℓ} : {A : Type ℓ} → Option A → Exec A
at none = fault out_of_bounds
at (some a) = ok a

pub Exec-cases {ℓ} :
    {A : Type ℓ} (m : Exec A) → ((a : A) × (m ≡ ok a)) ⊎ ((e : Fault) × (m ≡ fault e))
Exec-cases (ok a) = inl (a, refl)
Exec-cases (fault e) = inr (e, refl)
