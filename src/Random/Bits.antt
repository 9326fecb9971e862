-- ===== src/Random/Bits.antt =====
-- Bounds of exclusive or and of and on the binary digits of random/random.go's words.
use native.Mathlib.Nat.{pow-suc}
use Prim.Native.Nat.{min, differ, digits, bit_xor, bit_and, bit_xor-bitwise, bit_and-bitwise}
use touch_go_core.Prelude.{ℕ, zero, suc, ◌/◌, ◌%◌, ◌^◌, ◌<◌, ◌≤◌, arith}

module _ (z : ℕ → ℕ) (f : ℕ → ℕ → ℕ) (rest : (b : ℕ) → z b ≤ b)
    (digit : (x y : ℕ) → x ≤ 1 → y ≤ 1 → f x y ≤ 1) where
  digits-bound : (n k a b : ℕ) → a < 2 ^ k → b < 2 ^ k → digits z f n a b < 2 ^ k
  digits-bound zero k a b h g = omega (arith, g, rest b)
  digits-bound (suc n) k zero b h g = omega (arith, g, rest b)
  digits-bound (suc n) zero (suc a) b h g = absurd (omega (arith, h))
  digits-bound (suc n) (suc k) (suc a) b h g =
      let half =
        digits-bound n k (suc a / 2) (b / 2) (omega (arith, h, pow-suc 2 k))
          (omega (arith, g, pow-suc 2 k)) in
      let low = digit (suc a % 2) (b % 2) (omega arith) (omega arith) in
      omega (arith, half, low, pow-suc 2 k)

differ-bound : (x y : ℕ) → x ≤ 1 → y ≤ 1 → differ x y ≤ 1
differ-bound zero y h g = g
differ-bound (suc zero) zero h g = h
differ-bound (suc zero) (suc y) h g = omega arith
differ-bound (suc (suc x)) y h g = absurd (omega arith)

min-bound : (x y : ℕ) → x ≤ 1 → y ≤ 1 → min x y ≤ 1
min-bound x y h g = omega arith

pub bit_xor-bound : (k a b : ℕ) → a < 2 ^ k → b < 2 ^ k → bit_xor a b < 2 ^ k
bit_xor-bound k a b h g =
    simp bit_xor-bitwise (digits-bound (λ b. b) differ (λ b. omega arith) differ-bound a k a b h g)

pub bit_and-bound : (k a b : ℕ) → a < 2 ^ k → b < 2 ^ k → bit_and a b < 2 ^ k
bit_and-bound k a b h g =
    simp bit_and-bitwise (digits-bound (λ b. 0) min (λ b. omega arith) min-bound a k a b h g)
