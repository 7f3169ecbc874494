-- ===== src/Base/Bits.antt =====
-- Binary digits of the native numbers: what `&` and `|` do to the digit at a place.
use Prim.Native.Nat.{
  ℕ, zero, suc, ◌+◌, ◌*◌, ◌/◌, ◌%◌, ◌^◌, ◌≤◌, min, max, bit_and, bit_or, digits, bit_and-bitwise,
  bit_or-bitwise,
}
use native.Mathlib.Nat.{pow-suc}
use mathlib.Core.Path.{◌≡◌, refl, ap}
use native.Mathlib.Omega.{arith}
use lugo.Base.Tests.{◌==◌, if◌then◌else◌}

-- The binary digit of `a` at place `k`.
pub digit : ℕ → ℕ → ℕ
digit zero a = a % 2
digit (suc k) a = digit k (a / 2)

pub digit-zero : (k : ℕ) → digit k 0 ≡ 0
unfolding digit
digit-zero zero = refl
digit-zero (suc k) = digit-zero k

-- The library's recursion for `|` works on each place alone.
digit-digits-max :
    (k n a b : ℕ) → a ≤ n → digit k (digits (λ y. y) max n a b) ≡ max (digit k a) (digit k b)
unfolding digit
digit-digits-max k zero zero b h = omega (arith, digit-zero k)
digit-digits-max k zero (suc a) b h = absurd (omega arith)
digit-digits-max k (suc n) zero b h = omega (arith, digit-zero k)
digit-digits-max zero (suc n) (suc a) b h = omega arith
digit-digits-max (suc k) (suc n) (suc a) b h =
    let low = suc a % 2 in
    let high = digits (λ y. y) max n (suc a / 2) (b / 2) in
    let shifted : (high * 2 + max low (b % 2)) / 2 ≡ high = omega arith in
    rw shifted (digit-digits-max k n (suc a / 2) (b / 2) (omega arith))

pub digit-bit_or : (k a b : ℕ) → digit k (bit_or a b) ≡ max (digit k a) (digit k b)
digit-bit_or k a b = rw (bit_or-bitwise a b) (digit-digits-max k a a b (omega arith))

pub one-le-pow : (k : ℕ) → 1 ≤ 2 ^ k
one-le-pow zero = omega arith
one-le-pow (suc k) = omega (arith, pow-suc 2 k, one-le-pow k)

-- Nothing is in common with 0, and one place with a power of two.
digits-min-zero : (n a : ℕ) → digits (λ _. 0) min n a 0 ≡ 0
digits-min-zero zero a = refl
digits-min-zero (suc n) zero = refl
digits-min-zero (suc n) (suc a) = omega (arith, digits-min-zero n (suc a / 2))

digits-min-pow : (k n a : ℕ) → a ≤ n → digits (λ _. 0) min n a (2 ^ k) ≡ digit k a * 2 ^ k
unfolding digit
digits-min-pow k zero zero h = rw (digit-zero k) (omega arith)
digits-min-pow k zero (suc a) h = absurd (omega arith)
digits-min-pow k (suc n) zero h = rw (digit-zero k) (omega arith)
digits-min-pow zero (suc n) (suc a) h = omega (arith, digits-min-zero n (suc a / 2))
digits-min-pow (suc k) (suc n) (suc a) h =
    let double = pow-suc 2 k in
    let half : 2 ^ suc k / 2 ≡ 2 ^ k = omega arith in
    rw half (
      omega (
        arith,
        digits-min-pow k n (suc a / 2) (omega arith),
        ap (λ (t : ℕ). digit k (suc a / 2) * t) double,
      ))

-- `a & (1 << k)` keeps the digit at place `k`.
pub bit_and-pow : (k a : ℕ) → bit_and a (2 ^ k) ≡ digit k a * 2 ^ k
bit_and-pow k a = rw (bit_and-bitwise a (2 ^ k)) (digits-min-pow k a a (omega arith))

pub digit-le : (k a : ℕ) → digit k a ≤ 1
unfolding digit
digit-le zero a = omega arith
digit-le (suc k) a = digit-le k (a / 2)

pub digit-pow : (k j : ℕ) → digit k (2 ^ j) ≡ (if k == j then 1 else 0)
unfolding digit
digit-pow zero zero = refl
digit-pow zero (suc j) = ground (arith, pow-suc 2 j)
digit-pow (suc k) zero = ground (arith, digit-zero k)
digit-pow (suc k) (suc j) =
    let half : 2 ^ suc j / 2 ≡ 2 ^ j = omega (arith, pow-suc 2 j) in
    rw half (ground (arith, digit-pow k j))
