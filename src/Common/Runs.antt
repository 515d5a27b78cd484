-- ===== src/Common/Runs.antt =====
-- What a run of C++ code comes to: a value, undefined behaviour, or (no C++ outcome) fuel used up.
use mathlib.Core.Path.{◌≡◌, refl}
use mathlib.Core.Bool.{Bool, true, false}
use spadia.Common.Tests.{if◌then◌else◌}

pub data Fault : Type 0 where
  -- An access outside an allocated block.
  out_of_bounds : Fault
  -- A member call through a null pointer.
  null_pointer : Fault
  -- A signed product or negation outside `int`.
  signed_overflow : Fault
  -- An `assert` that does not hold.
  assertion : Fault
  -- An exception that nothing in the repository catches.
  exception : Fault
  -- A `free` or `delete` of what is not allocated.
  bad_free : Fault

pub data Run {ℓ} (A : Type ℓ) : Type ℓ where
  done : A → Run A
  fault : Fault → Run A
  stuck : Run A

infixl 5 ◌>>=◌
abbrev pub ◌>>=◌ {ℓ κ} : {A : Type ℓ} {B : Type κ} → Run A → (A → Run B) → Run B
done a >>= f = f a
fault e >>= f = fault e
stuck >>= f = stuck

pub bind_assoc {ℓ κ μ} :
    {A : Type ℓ} {B : Type κ} {C : Type μ} (m : Run A) (f : A → Run B) (g : B → Run C)
    → (m >>= λ a. f a >>= g) ≡ (m >>= f >>= g)
bind_assoc (done a) f g = refl
bind_assoc (fault e) f g = refl
bind_assoc stuck f g = refl

-- The run ends and yields a value that meets `P`.
abbrev pub Yields {ℓ} : {A : Type ℓ} → (A → Type 0) → Run A → Type 0
Yields P (done a) = P a
Yields P (fault e) = ⊥
Yields P stuck = ⊥

pub Yields-bind {ℓ κ} :
    {A : Type ℓ} {B : Type κ} (P : A → Type 0) (Q : B → Type 0) (m : Run A) (f : A → Run B)
    → Yields P m
    → ((a : A) → P a → Yields Q (f a))
    → Yields Q (m >>= f)
Yields-bind P Q (done a) f p k = k a p
Yields-bind P Q (fault e) f p k = absurd p
Yields-bind P Q stuck f p k = absurd p

pub Yields-done {ℓ} :
    {A : Type ℓ} (P : A → Type 0) (m : Run A) → Yields P m → (a : A) × (m ≡ done a) × P a
Yields-done P (done a) p = (a, refl, p)
Yields-done P (fault e) p = absurd p
Yields-done P stuck p = absurd p

pub Yields-map {ℓ} :
    {A : Type ℓ} (P Q : A → Type 0) (m : Run A) → Yields P m → ((a : A) → P a → Q a) → Yields Q m
Yields-map P Q (done a) p f = f a p
Yields-map P Q (fault e) p f = p
Yields-map P Q stuck p f = p

pub Yields-if {ℓ} :
    {A : Type ℓ} (P : A → Type 0) (c : Bool) (m m' : Run A)
    → (c ≡ true → Yields P m)
    → (c ≡ false → Yields P m')
    → Yields P (if c then m else m')
Yields-if P true m m' p q = p refl
Yields-if P false m m' p q = q refl
