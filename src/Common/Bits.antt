-- ===== src/Common/Bits.antt =====
-- Laws of the bit operations at every width: the recursion on the lowest digit, low masks as
-- remainders, `|` of disjoint fields as a sum, and `^` as addition without carry.
use Prim.Native.Nat.{
  ℕ, zero, suc, ◌+◌, ◌-◌, ◌*◌, ◌/◌, ◌%◌, ◌^◌, ◌≤◌, ◌<◌, min, max, bit_and, bit_or, bit_xor, digits,
  differ, bit_and-bitwise, bit_or-bitwise, bit_xor-bitwise,
}
use mathlib.Core.Path.{◌≡◌, refl, ap, ◌∙◌}
use native.Mathlib.Nat.{pow-suc, one-le-pow, div-div-eq-div-mul}
use native.Mathlib.Omega.{arith}

-- The count of digits to go does not matter, once it is enough.
module _ (rest : ℕ → ℕ) (op : ℕ → ℕ → ℕ) where
  digits_enough : (i j x y : ℕ) → x ≤ i → x ≤ j → digits rest op i x y ≡ digits rest op j x y
  digits_enough zero zero x y h g = refl
  digits_enough zero (suc j) zero y h g = refl
  digits_enough zero (suc j) (suc x) y h g = absurd (omega arith)
  digits_enough (suc i) zero zero y h g = refl
  digits_enough (suc i) zero (suc x) y h g = absurd (omega arith)
  digits_enough (suc i) (suc j) zero y h g = refl
  digits_enough (suc i) (suc j) (suc x) y h g =
      ap (λ t. t * 2 + op (suc x % 2) (y % 2))
        (digits_enough i j (suc x / 2) (y / 2) (omega arith) (omega arith))

  digits_halve :
      (x y : ℕ)
      → digits rest op (suc x) (suc x) y
        ≡ digits rest op (suc x / 2) (suc x / 2) (y / 2) * 2 + op (suc x % 2) (y % 2)
  digits_halve x y =
      ap (λ t. t * 2 + op (suc x % 2) (y % 2))
        (digits_enough x (suc x / 2) (suc x / 2) (y / 2) (omega arith) (omega arith))

pub bit_and_step : (x y : ℕ) → bit_and x y ≡ min (x % 2) (y % 2) + 2 * bit_and (x / 2) (y / 2)
bit_and_step zero y = simp bit_and-bitwise (omega arith)
bit_and_step (suc x) y = omega (
  arith,
  bit_and-bitwise (suc x) y,
  bit_and-bitwise (suc x / 2) (y / 2),
  digits_halve (λ _. 0) min x y,
)

pub bit_or_step : (x y : ℕ) → bit_or x y ≡ max (x % 2) (y % 2) + 2 * bit_or (x / 2) (y / 2)
bit_or_step zero y = simp bit_or-bitwise (omega arith)
bit_or_step (suc x) y = omega (
  arith,
  bit_or-bitwise (suc x) y,
  bit_or-bitwise (suc x / 2) (y / 2),
  digits_halve (λ t. t) max x y,
)

differ_lem : (x y : ℕ) → x < 2 → y < 2 → differ x y ≡ (x + y) % 2
differ_lem zero y p q = omega arith
differ_lem (suc zero) zero p q = refl
differ_lem (suc zero) (suc zero) p q = refl
differ_lem (suc zero) (suc (suc y)) p q = absurd (omega arith)
differ_lem (suc (suc x)) y p q = absurd (omega arith)

pub bit_xor_step : (a b : ℕ) → bit_xor a b ≡ bit_xor (a / 2) (b / 2) * 2 + (a + b) % 2
bit_xor_step zero b = simp bit_xor-bitwise (omega arith)
bit_xor_step (suc a) b = omega (
  arith,
  bit_xor-bitwise (suc a) b,
  bit_xor-bitwise (suc a / 2) (b / 2),
  digits_halve (λ y. y) differ a b,
  differ_lem (suc a % 2) (b % 2),
)

-- A second operand of 0.
bit_and-zero_below : (n a : ℕ) → a ≤ n → bit_and a 0 ≡ 0
bit_and-zero_below n zero h = refl
bit_and-zero_below zero (suc a) h = absurd (omega arith)
bit_and-zero_below (suc n) (suc a) h =
    omega (arith, bit_and_step (suc a) 0, bit_and-zero_below n (suc a / 2) (omega arith))

bit_or-zero_below : (n a : ℕ) → a ≤ n → bit_or a 0 ≡ a
bit_or-zero_below n zero h = refl
bit_or-zero_below zero (suc a) h = absurd (omega arith)
bit_or-zero_below (suc n) (suc a) h =
    omega (arith, bit_or_step (suc a) 0, bit_or-zero_below n (suc a / 2) (omega arith))

bit_xor-zero_below : (n a : ℕ) → a ≤ n → bit_xor a 0 ≡ a
bit_xor-zero_below n zero h = refl
bit_xor-zero_below zero (suc a) h = absurd (omega arith)
bit_xor-zero_below (suc n) (suc a) h =
    omega (arith, bit_xor_step (suc a) 0, bit_xor-zero_below n (suc a / 2) (omega arith))

twice_shift : (c w : ℕ) → 2 * (c * 2 ^ w) ≡ c * 2 ^ suc w
twice_shift c w = omega (arith, ap (λ (power : ℕ). c * power) (pow-suc 2 w))

-- Disjoint fields: `(high << w) | low` and `(high << w) ^ low` are sums when `low` fits `w` bits.
pub bit_or_fields : (w high low : ℕ) → low < 2 ^ w → bit_or (high * 2 ^ w) low ≡ high * 2 ^ w + low
bit_or_fields zero high low h = ground (arith, bit_or-zero_below high high)
bit_or_fields (suc w) high low h = ground (
  arith,
  bit_or_step (high * 2 ^ suc w) low,
  twice_shift high w,
  pow-suc 2 w,
  bit_or_fields w high (low / 2) (omega (arith, pow-suc 2 w)),
)

pub bit_xor_fields :
    (w high low : ℕ) → low < 2 ^ w → bit_xor (high * 2 ^ w) low ≡ high * 2 ^ w + low
bit_xor_fields zero high low h = ground (arith, bit_xor-zero_below high high)
bit_xor_fields (suc w) high low h = ground (
  arith,
  bit_xor_step (high * 2 ^ suc w) low,
  twice_shift high w,
  pow-suc 2 w,
  bit_xor_fields w high (low / 2) (omega (arith, pow-suc 2 w)),
)

bit_and_fields : (w high low : ℕ) → low < 2 ^ w → bit_and (high * 2 ^ w + low) (2 ^ w - 1) ≡ low
bit_and_fields zero high low h = ground (arith, bit_and-zero_below (high + 0) (high + 0))
bit_and_fields (suc w) high low h = ground (
  arith,
  bit_and_step (high * 2 ^ suc w + low) (2 ^ suc w - 1),
  twice_shift high w,
  pow-suc 2 w,
  one-le-pow w 2,
  bit_and_fields w high (low / 2) (omega (arith, pow-suc 2 w)),
)

-- A mask of `w` low ones is the remainder by `2 ^ w`.
pub bit_and_mask : (w x : ℕ) → bit_and x (2 ^ w - 1) ≡ x % 2 ^ w
bit_and_mask w x = ground (arith, bit_and_fields w (x / 2 ^ w) (x % 2 ^ w), one-le-pow w 2)

-- A mask shifted up reads the shifted number.
pub bit_and_shifted : (k a m : ℕ) → bit_and a (m * 2 ^ k) ≡ bit_and (a / 2 ^ k) m * 2 ^ k
bit_and_shifted zero a m = ground arith
bit_and_shifted (suc k) a m = ground (
  arith,
  bit_and_step a (m * 2 ^ suc k),
  twice_shift m k,
  pow-suc 2 k,
  twice_shift (bit_and (a / 2 ^ suc k) m) k,
  halves,
  bit_and_shifted k (a / 2) m,
)
  where
    halves : a / 2 / 2 ^ k ≡ a / 2 ^ suc k
    halves = div-div-eq-div-mul a 2 (2 ^ k) ∙ ap (λ t. a / t) (omega (arith, pow-suc 2 k))

-- The bit of weight `2 ^ k`.
pub bit_and_bit : (k a : ℕ) → bit_and a (2 ^ k) ≡ a / 2 ^ k % 2 * 2 ^ k
bit_and_bit k a = ground (arith, bit_and_shifted k a 1, bit_and_mask 1 (a / 2 ^ k))

-- `^` digit by digit.
pub bit_xor-half : (a b : ℕ) → bit_xor a b / 2 ≡ bit_xor (a / 2) (b / 2)
bit_xor-half a b = omega (arith, bit_xor_step a b)

pub bit_xor-parity : (a b : ℕ) → bit_xor a b % 2 ≡ (a + b) % 2
bit_xor-parity a b = omega (arith, bit_xor_step a b)

bit_xor_assoc_below :
    (n a b c : ℕ) → a ≤ n → b ≤ n → c ≤ n → bit_xor (bit_xor a b) c ≡ bit_xor a (bit_xor b c)
bit_xor_assoc_below zero zero zero zero p q r = refl
bit_xor_assoc_below zero zero zero (suc c) p q r = absurd (omega arith)
bit_xor_assoc_below zero zero (suc b) c p q r = absurd (omega arith)
bit_xor_assoc_below zero (suc a) b c p q r = absurd (omega arith)
bit_xor_assoc_below (suc n) a b c p q r = ground (
  arith,
  bit_xor_step (bit_xor a b) c,
  bit_xor_step a (bit_xor b c),
  bit_xor-half a b,
  bit_xor-half b c,
  bit_xor-parity a b,
  bit_xor-parity b c,
  bit_xor_assoc_below n (a / 2) (b / 2) (c / 2) (omega arith) (omega arith) (omega arith),
)

pub bit_xor_assoc : (a b c : ℕ) → bit_xor (bit_xor a b) c ≡ bit_xor a (bit_xor b c)
bit_xor_assoc a b c =
    bit_xor_assoc_below (a + b + c) a b c (omega arith) (omega arith) (omega arith)

-- The result fits the width of its operands.
pub bit_xor-lt : (k a b : ℕ) → a < 2 ^ k → b < 2 ^ k → bit_xor a b < 2 ^ k
bit_xor-lt zero zero zero p q = omega arith
bit_xor-lt zero zero (suc b) p q = absurd (omega arith)
bit_xor-lt zero (suc a) b p q = absurd (omega arith)
bit_xor-lt (suc k) a b p q = omega (
  arith,
  bit_xor_step a b,
  pow-suc 2 k,
  bit_xor-lt k (a / 2) (b / 2) (omega (arith, pow-suc 2 k)) (omega (arith, pow-suc 2 k)),
)

pub bit_xor-zero : (a : ℕ) → bit_xor a 0 ≡ a
bit_xor-zero a = bit_xor-zero_below a a (omega arith)

half_shift : (a k : ℕ) → a / 2 / 2 ^ k ≡ a / 2 ^ suc k
half_shift a k = div-div-eq-div-mul a 2 (2 ^ k) ∙ ap (λ t. a / t) (omega (arith, pow-suc 2 k))

-- `^` commutes with a right shift.
pub bit_xor-shift : (k a b : ℕ) → bit_xor a b / 2 ^ k ≡ bit_xor (a / 2 ^ k) (b / 2 ^ k)
bit_xor-shift zero a b = ground arith
bit_xor-shift (suc k) a b = ground (
  arith,
  half_shift (bit_xor a b) k,
  half_shift a k,
  half_shift b k,
  bit_xor-half a b,
  bit_xor-shift k (a / 2) (b / 2),
)

bit_xor_comm_below : (n a b : ℕ) → a ≤ n → b ≤ n → bit_xor a b ≡ bit_xor b a
bit_xor_comm_below zero zero zero p q = refl
bit_xor_comm_below zero zero (suc b) p q = absurd (omega arith)
bit_xor_comm_below zero (suc a) b p q = absurd (omega arith)
bit_xor_comm_below (suc n) a b p q = ground (
  arith,
  bit_xor_step a b,
  bit_xor_step b a,
  bit_xor_comm_below n (a / 2) (b / 2) (omega arith) (omega arith),
)

pub bit_xor_comm : (a b : ℕ) → bit_xor a b ≡ bit_xor b a
bit_xor_comm a b = bit_xor_comm_below (a + b) a b (omega arith) (omega arith)

-- A number is its low part with its high part put back.
pub bit_xor_split : (k a : ℕ) → bit_xor (a % 2 ^ k) (a / 2 ^ k * 2 ^ k) ≡ a
bit_xor_split k a =
    bit_xor_comm (a % 2 ^ k) (a / 2 ^ k * 2 ^ k)
    ∙ omega (arith, bit_xor_fields k (a / 2 ^ k) (a % 2 ^ k) (omega (arith, one-le-pow k 2)))
