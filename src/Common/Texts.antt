-- ===== src/Common/Texts.antt =====
-- `std::string` as the list of its bytes, and maps whose keys are strings.
use Prim.Native.Nat.{ℕ}
use mathlib.Core.Path.{◌≡◌, refl}
use mathlib.Core.Bool.{Bool, true, false, ◌&&◌}
use mathlib.Core.List.{List, [], ◌∷◌}
use mathlib.Core.Option.{Option, none, some}
use native.Mathlib.Omega.{arith}
use spadia.Common.Tests.{◌==◌, if◌then◌else◌, ==_refl}

abbrev pub Text : Type 0
Text = List ℕ

-- `==` of `std::string`
abbrev pub is_text : Text → Text → Bool
is_text [] [] = true
is_text [] (y ∷ ys) = false
is_text (x ∷ xs) [] = false
is_text (x ∷ xs) (y ∷ ys) = x == y && is_text xs ys

pub is_text_refl : (xs : Text) → is_text xs xs ≡ true
is_text_refl [] = refl
is_text_refl (x ∷ xs) = rw (==_refl x, is_text_refl xs)

pub is_text→eq : (xs ys : Text) → is_text xs ys ≡ true → xs ≡ ys
is_text→eq [] [] h = refl
is_text→eq [] (y ∷ ys) h = cc
is_text→eq (x ∷ xs) [] h = cc
is_text→eq (x ∷ xs) (y ∷ ys) h = ground (arith, is_text→eq xs ys)

-- A map that is never iterated, as an association list.
module _ {ℓ} {V : Type ℓ} where
  unfoldable pub find : Text → List (Text × V) → Option V
  find key [] = none
  find key ((at, value) ∷ rest) = if is_text key at then some value else find key rest

  -- `m.erase(key)`
  unfoldable pub erase : Text → List (Text × V) → List (Text × V)
  erase key [] = []
  erase key ((at, value) ∷ rest) =
      let others = erase key rest in if is_text key at then others else (at, value) ∷ others

  -- `m[key] = value`
  unfoldable pub assign : Text → V → List (Text × V) → List (Text × V)
  assign key value [] = (key, value) ∷ []
  assign key value ((at, old) ∷ rest) =
      let later = assign key value rest in
      if is_text key at then (key, value) ∷ rest else (at, old) ∷ later

  pub find-assign :
      (key other : Text) (value : V) (m : List (Text × V))
      → find other (assign key value m) ≡ (if is_text other key then some value else find other m)
  unfolding find assign
  find-assign key other value [] = refl
  find-assign key other value ((at, old) ∷ rest) = ground (
    arith,
    is_text→eq key at,
    is_text→eq other at,
    is_text→eq other key,
    is_text_refl at,
    find-assign key other value rest,
  )

  pub find-erase :
      (key other : Text) (m : List (Text × V))
      → find other (erase key m) ≡ (if is_text other key then none else find other m)
  unfolding find erase
  find-erase key other [] = ground arith
  find-erase key other ((at, old) ∷ rest) = ground (
    arith,
    is_text→eq key at,
    is_text→eq other at,
    is_text→eq other key,
    is_text_refl at,
    find-erase key other rest,
  )
