-- ===== src/Common/Bits.antt =====
-- Masks of ones: `x & (2^k - 1)` is `x % 2^k`.
use Prim.Native.Nat.{
  ℕ, zero, suc, ◌+◌, ◌-◌, ◌*◌, ◌/◌, ◌%◌, ◌^◌, ◌≤◌, ◌<◌, min, digits, bit_and, bit_and-bitwise,
}
use native.Mathlib.Nat.{two-pow-succ, one-le-pow}
use mathlib.Core.Path.{◌≡◌, refl, ◌∙◌}
use native.Mathlib.Omega.{arith}

-- The recursion on binary digits that `bit_and` stands for, on explicit fuel.
abbrev by_digits : ℕ → ℕ → ℕ → ℕ
by_digits fuel x mask = digits (λ y. zero) min fuel x mask

by_digits_stable : (f g x mask : ℕ) → x ≤ f → x ≤ g → by_digits f x mask ≡ by_digits g x mask
by_digits_stable zero zero x mask p q = refl
by_digits_stable (suc f) (suc g) zero mask p q = refl
by_digits_stable (suc f) (suc g) (suc x) mask p q =
    omega (arith, by_digits_stable f g (suc x / 2) (mask / 2) (omega arith) (omega arith))
by_digits_stable zero (suc g) zero mask p q = refl
by_digits_stable zero (suc g) (suc x) mask p q = absurd (omega arith)
by_digits_stable (suc f) zero zero mask p q = refl
by_digits_stable (suc f) zero (suc x) mask p q = absurd (omega arith)

zero-bit_and : (mask : ℕ) → bit_and 0 mask ≡ 0
zero-bit_and mask = bit_and-bitwise 0 mask

-- The lowest digit splits off.
bit_and_low :
    (x mask : ℕ) → bit_and x mask ≡ bit_and (x / 2) (mask / 2) * 2 + min (x % 2) (mask % 2)
bit_and_low zero mask = omega (arith, zero-bit_and mask, zero-bit_and (mask / 2))
bit_and_low (suc x) mask = omega (
  arith,
  by_digits_stable x (suc x / 2) (suc x / 2) (mask / 2) (omega arith) (omega arith),
  bit_and-bitwise (suc x / 2) (mask / 2),
  bit_and-bitwise (suc x) mask,
)

bit_and-zero_below : (bound x : ℕ) → x ≤ bound → bit_and x 0 ≡ 0
bit_and-zero_below bound zero h = zero-bit_and 0
bit_and-zero_below zero (suc x) h = absurd (omega arith)
bit_and-zero_below (suc bound) (suc x) h =
    omega (arith, bit_and_low (suc x) 0, bit_and-zero_below bound (suc x / 2) (omega arith))

mod_double : (x p : ℕ) → 0 < p → (x / 2 % p) * 2 + x % 2 ≡ x % (p + p)
mod_double x p pos = grind arith

-- The mask `p + p - 1` has a one below the mask `p - 1`.
bit_and_double : (x p : ℕ) → 0 < p → bit_and x (p + p - 1) ≡ bit_and (x / 2) (p - 1) * 2 + x % 2
bit_and_double x p pos =
    let half : (p + p - 1) / 2 ≡ p - 1 = omega arith in
    bit_and_low x (p + p - 1) ∙ rw half (omega arith)

double : (k : ℕ) → 2 ^ suc k ≡ 2 ^ k + 2 ^ k
double k = two-pow-succ k

pub pow_pos : (k : ℕ) → 0 < 2 ^ k
pow_pos k = one-le-pow k 2 (omega arith)

pub bit_and-mask : (k x : ℕ) → bit_and x (2 ^ k - 1) ≡ x % 2 ^ k
bit_and-mask zero x = omega (arith, bit_and-zero_below x x (omega arith))
bit_and-mask (suc k) x = rw (double k) (
    omega (
      arith,
      bit_and_double x (2 ^ k) (pow_pos k),
      bit_and-mask k (x / 2),
      mod_double x (2 ^ k) (pow_pos k),
    ))
