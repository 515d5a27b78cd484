-- ===== src/Common/Dict.antt =====
-- `std::map` with number keys, as an association list in rising order of keys.
use Prim.Native.Nat.{ℕ, suc, ◌+◌, ◌≤◌, compare, Ordering}
use mathlib.Core.Path.{◌≡◌, refl, subst}
use mathlib.Core.List.{List, [], ◌∷◌}
use mathlib.Core.Option.{Option, none, some}
use native.Mathlib.Omega.{arith, compare-eq, compare-gt}
use spadia.Common.Tests.{◌==◌, if◌then◌else◌, Bool-cases}
use spadia.Common.Lists.{All, length}
use mathlib.Core.Logic.{inl, inr}

module _ {ℓ} {V : Type ℓ} where
  unfoldable pub lookup : ℕ → List (ℕ × V) → Option V
  lookup key [] = none
  lookup key ((at, value) ∷ rest) = if at == key then some value else lookup key rest

  -- `m[key] = value`
  unfoldable pub insert : ℕ → V → List (ℕ × V) → List (ℕ × V)
  insert key value [] = (key, value) ∷ []
  insert key value ((at, old) ∷ rest) = elim (compare key at) [
    | Ordering.lt ↦ (key, value) ∷ (at, old) ∷ rest
    | Ordering.eq ↦ (key, value) ∷ rest
    | Ordering.gt ↦ (at, old) ∷ insert key value rest
  ]

  -- What holds of each entry of a map, and of the one put in, holds after.
  pub insert-All :
      (P : ℕ × V → Type 0) (k : ℕ) (v : V) (m : List (ℕ × V))
      → P (k, v)
      → All P m
      → All P (insert k v m)
  unfolding insert
  insert-All P k v [] p h = (p, tt)
  insert-All P k v ((j, w) ∷ m) p (q, h) =
      elim (compare k j)
        as (λ o. All P (elim o [
          | Ordering.lt ↦ (k, v) ∷ (j, w) ∷ m
          | Ordering.eq ↦ (k, v) ∷ m
          | Ordering.gt ↦ (j, w) ∷ insert k v m
        ])) [
          | Ordering.lt ↦ (p, (q, h))
          | Ordering.eq ↦ (p, h)
          | Ordering.gt ↦ (q, insert-All P k v m p h)
        ]

  pub length-insert : (k : ℕ) (v : V) (m : List (ℕ × V)) → length (insert k v m) ≤ length m + 1
  unfolding insert
  length-insert k v [] = omega arith
  length-insert k v ((j, w) ∷ m) =
      elim (compare k j)
        as (λ o.
          length (elim o [
            | Ordering.lt ↦ (k, v) ∷ (j, w) ∷ m
            | Ordering.eq ↦ (k, v) ∷ m
            | Ordering.gt ↦ (j, w) ∷ insert k v m
          ])
          ≤ suc (length m) + 1) [
            | Ordering.lt ↦ omega arith
            | Ordering.eq ↦ omega arith
            | Ordering.gt ↦ omega (arith, length-insert k v m)
          ]

  -- A read after a write.
  pub lookup-insert :
      (k id : ℕ) (v : V) (m : List (ℕ × V))
      → lookup id (insert k v m) ≡ (if k == id then some v else lookup id m)
  unfolding lookup insert
  lookup-insert k id v [] = refl
  lookup-insert k id v ((j, w) ∷ m) =
      elim (compare k j)
          as (λ o.
            compare k j ≡ o
            → lookup id (elim o [
              | Ordering.lt ↦ (k, v) ∷ (j, w) ∷ m
              | Ordering.eq ↦ (k, v) ∷ m
              | Ordering.gt ↦ (j, w) ∷ insert k v m
            ])
              ≡ (if k == id then some v else if j == id then some w else lookup id m)) [
                | Ordering.lt ↦ λ _. refl
                | Ordering.eq ↦ λ same. ground (arith, compare-eq k j same)
                | Ordering.gt ↦
                    λ above. ground (arith, compare-gt k j above, lookup-insert k id v m)
              ]
        refl

  pub lookup-All :
      (P : V → Type 0) (k : ℕ) (v : V) (m : List (ℕ × V))
      → All (λ (e : ℕ × V). P e.1) m
      → lookup k m ≡ some v
      → P v
  unfolding lookup
  lookup-All P k v [] h e = cc
  lookup-All P k v ((j, w) ∷ m) (p, h) e = elim (Bool-cases (j == k)) [
    | inl here ↦ subst P (ground arith) p
    | inr there ↦ lookup-All P k v m h (rw (there, lookup) at e)
  ]
