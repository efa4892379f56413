-- ===== src/Base/Bits.antt =====
-- The laws of the operations on binary digits that the packed bytes of the code need.
use Prim.Native.Nat.{ℕ, zero, suc, ◌+◌, ◌*◌, ◌/◌, ◌%◌, ◌^◌, ◌≤◌, ◌<◌, min, max, digits, differ}
use Prim.Native.Nat.{bit_and, bit_or, bit_xor, bit_and-bitwise, bit_or-bitwise, bit_xor-bitwise}
use mathlib.Core.Path.{◌≡◌, refl, ap, ◌∙◌, ap₂}
use native.Mathlib.Omega.{arith}
use Prim.Native.Nat.pow as NatPow

-- An operation on digits, with what is left when the first number has run out.
module _ (z : ℕ → ℕ) (f : ℕ → ℕ → ℕ) where
  abbrev OneDigit : Type 0
  OneDigit = (b : ℕ) → z b ≡ z (b / 2) * 2 + f 0 (b % 2)

  -- More digits than the first number has make no difference.
  enough : (n m a b : ℕ) → a ≤ n → a ≤ m → digits z f n a b ≡ digits z f m a b
  enough zero zero a b p q = refl
  enough zero (suc m) zero b p q = refl
  enough zero (suc m) (suc a) b p q = absurd (omega arith)
  enough (suc n) zero zero b p q = refl
  enough (suc n) zero (suc a) b p q = absurd (omega arith)
  enough (suc n) (suc m) zero b p q = refl
  enough (suc n) (suc m) (suc a) b p q =
      omega (arith, enough n m (suc a / 2) (b / 2) (omega arith) (omega arith))

  lowest :
      OneDigit
      → (a b : ℕ) → digits z f a a b ≡ digits z f (a / 2) (a / 2) (b / 2) * 2 + f (a % 2) (b % 2)
  lowest one zero b = one b
  lowest one (suc a) b =
      omega (arith, enough a (suc a / 2) (suc a / 2) (b / 2) (omega arith) (omega arith))

one_or : OneDigit (λ b. b) max
one_or b = omega arith

pub bit_or_lowest : (a b : ℕ) → bit_or a b ≡ bit_or (a / 2) (b / 2) * 2 + max (a % 2) (b % 2)
bit_or_lowest a b =
    omega
      (arith, lowest (λ b. b) max one_or a b, bit_or-bitwise a b, bit_or-bitwise (a / 2) (b / 2))

or_zero_fuel : (n a : ℕ) → a ≤ n → bit_or a 0 ≡ a
or_zero_fuel n zero h = refl
or_zero_fuel zero (suc a) h = absurd (omega arith)
or_zero_fuel (suc n) (suc a) h =
    omega (arith, bit_or_lowest (suc a) 0, or_zero_fuel n (suc a / 2) (omega arith))

pub bit_or-zero : (a : ℕ) → bit_or a 0 ≡ a
bit_or-zero a = or_zero_fuel a a (omega arith)

-- One step of the lemmas below: digits that do not meet.
or_step : (x b y c : ℕ) → y ≡ x * 2 → c ≡ b / 2 → bit_or x c ≡ x + c → bit_or y b ≡ y + b
or_step x b y c hy hc e = omega (arith, bit_or_lowest y b, carried)
  where
    carried : bit_or (y / 2) (b / 2) ≡ bit_or x c
    carried = ap₂ bit_or (omega arith) (omega arith)

double : (k a : ℕ) → a * 2 ^ suc k ≡ a * 2 ^ k * 2
double k a = ap (λ t. a * t) (NatPow.suc 2 k) ∙ omega arith

below_half : (k b : ℕ) → b < 2 ^ suc k → b / 2 < 2 ^ k
below_half k b h = omega (arith, h, double k 1)

-- A number that is put below the digits of another one.
pub or_below : (k a b : ℕ) → b < 2 ^ k → bit_or (a * 2 ^ k) b ≡ a * 2 ^ k + b
or_below zero a zero h = rw (times_one a) (bit_or-zero a ∙ omega arith)
  where
    times_one : (a : ℕ) → a * 2 ^ 0 ≡ a
    times_one a = omega arith
or_below zero a (suc b) h = absurd (omega arith)
or_below (suc k) a b h =
    or_step (a * 2 ^ k) b (a * 2 ^ suc k) (b / 2) (double k a) refl
      (or_below k a (b / 2) (below_half k b h))

pub or_below_256 : (a b : ℕ) → b < 256 → bit_or (a * 256) b ≡ a * 256 + b
or_below_256 a b h = or_below 8 a b h

pub or_below_65536 : (a b : ℕ) → b < 65536 → bit_or (a * 65536) b ≡ a * 65536 + b
or_below_65536 a b h = or_below 16 a b h

one_xor : OneDigit (λ b. b) differ
one_xor b = omega (arith, differ_zero (b % 2))
  where
    differ_zero : (y : ℕ) → differ 0 y ≡ y
    differ_zero y = refl

pub bit_xor_lowest : (a b : ℕ) → bit_xor a b ≡ bit_xor (a / 2) (b / 2) * 2 + differ (a % 2) (b % 2)
bit_xor_lowest a b = omega (
  arith,
  lowest (λ b. b) differ one_xor a b,
  bit_xor-bitwise a b,
  bit_xor-bitwise (a / 2) (b / 2),
)

one_and : OneDigit (λ b. zero) min
one_and b = omega arith

pub bit_and_lowest : (a b : ℕ) → bit_and a b ≡ bit_and (a / 2) (b / 2) * 2 + min (a % 2) (b % 2)
bit_and_lowest a b = omega (
  arith,
  lowest (λ b. zero) min one_and a b,
  bit_and-bitwise a b,
  bit_and-bitwise (a / 2) (b / 2),
)

and_zero_fuel : (n a : ℕ) → a ≤ n → bit_and a 0 ≡ 0
and_zero_fuel n zero h = refl
and_zero_fuel zero (suc a) h = absurd (omega arith)
and_zero_fuel (suc n) (suc a) h =
    omega (arith, bit_and_lowest (suc a) 0, and_zero_fuel n (suc a / 2) (omega arith))

pub bit_and-zero : (a : ℕ) → bit_and a 0 ≡ 0
bit_and-zero a = and_zero_fuel a a (omega arith)

-- Masks of ones keep the lowest digits.
pub bit_and_1 : (a : ℕ) → bit_and a 1 ≡ a % 2
bit_and_1 a = omega (arith, bit_and_lowest a 1, bit_and-zero (a / 2))

pub bit_and_7 : (a : ℕ) → bit_and a 7 ≡ a % 8
bit_and_7 a = omega (arith, bit_and_lowest a 7, bit_and_lowest (a / 2) 3, bit_and_1 (a / 2 / 2))

pub bit_and_31 : (a : ℕ) → bit_and a 31 ≡ a % 32
bit_and_31 a = omega (arith, bit_and_lowest a 31, bit_and_lowest (a / 2) 15, bit_and_7 (a / 2 / 2))

pub differ_self : (y : ℕ) → y < 2 → differ y y ≡ 0
differ_self zero h = refl
differ_self (suc zero) h = refl
differ_self (suc (suc y)) h = absurd (omega arith)

xor_self_fuel : (n a : ℕ) → a ≤ n → bit_xor a a ≡ 0
xor_self_fuel n zero h = refl
xor_self_fuel zero (suc a) h = absurd (omega arith)
xor_self_fuel (suc n) (suc a) h = omega (
  arith,
  bit_xor_lowest (suc a) (suc a),
  xor_self_fuel n (suc a / 2) (omega arith),
  differ_self (suc a % 2) (omega arith),
)

-- A number is its own inverse.
pub bit_xor_self : (a : ℕ) → bit_xor a a ≡ 0
bit_xor_self a = xor_self_fuel a a (omega arith)
