-- ===== src/Prelude/Bits.antt =====
-- `a | b` of two numbers whose bits do not meet is their sum. The libraries have no law of `bit_or`
-- at variables, so the step on the lowest digit is derived from its definition.
use Prim.Native.Nat.{
  ℕ, zero, suc, ◌+◌, ◌*◌, ◌/◌, ◌%◌, ◌^◌, ◌≤◌, ◌<◌, max, bit_or, digits, bit_or-bitwise,
}
use mathlib.Core.Path.{◌≡◌, refl}
use native.Mathlib.Nat.{pow-suc}
use native.Mathlib.Omega.{arith}

abbrev or_with : ℕ → ℕ → ℕ → ℕ
or_with x y fuel = digits (λ rest. rest) max fuel x y

-- Fuel that is at least the first number is enough, and more makes no difference.
enough : (x y j k : ℕ) → x ≤ j → x ≤ k → or_with x y j ≡ or_with x y k
enough zero y zero zero hj hk = refl
enough zero y zero (suc k) hj hk = refl
enough zero y (suc j) zero hj hk = refl
enough zero y (suc j) (suc k) hj hk = refl
enough (suc x) y zero k hj hk = absurd (omega arith)
enough (suc x) y (suc j) zero hj hk = absurd (omega arith)
enough (suc x) y (suc j) (suc k) hj hk =
    omega (arith, enough (suc x / 2) (y / 2) j k (omega arith) (omega arith))

bit_or-zero : (y : ℕ) → bit_or 0 y ≡ y
bit_or-zero y = bit_or-bitwise 0 y

low_digit : (x y : ℕ) → bit_or x y ≡ max (x % 2) (y % 2) + 2 * bit_or (x / 2) (y / 2)
low_digit zero y = omega (arith, bit_or-zero y, bit_or-zero (y / 2))
low_digit (suc x) y = omega (
  arith,
  bit_or-bitwise (suc x) y,
  bit_or-bitwise (suc x / 2) (y / 2),
  enough (suc x / 2) (y / 2) x (suc x / 2) (omega arith) (omega arith),
)

-- A number below `2 ^ k` and a multiple of `2 ^ k`.
pub bit_or-disjoint : (k a b : ℕ) → a < 2 ^ k → bit_or a (b * 2 ^ k) ≡ a + b * 2 ^ k
bit_or-disjoint zero a b h = let e : a ≡ 0 = omega arith in rw (e, bit_or-zero) (omega arith)
bit_or-disjoint (suc k) a b h =
    let e : b * 2 ^ suc k ≡ b * 2 ^ k * 2 = rw pow-suc (omega arith) in
    let lower : a / 2 < 2 ^ k = omega (arith, pow-suc 2 k) in
    let half : b * 2 ^ suc k / 2 ≡ b * 2 ^ k = omega (arith, e) in
    let step : bit_or (a / 2) (b * 2 ^ suc k / 2) ≡ a / 2 + b * 2 ^ k =
      rw half (bit_or-disjoint k (a / 2) b lower) in
    omega (arith, low_digit a (b * 2 ^ suc k), step, e)
