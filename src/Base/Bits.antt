-- ===== src/Base/Bits.antt =====
-- `|` of numbers whose set bits do not overlap is their sum.
use Prim.Native.Nat.{
  ℕ, zero, suc, ◌+◌, ◌*◌, ◌/◌, ◌%◌, ◌^◌, ◌≤◌, ◌<◌, max, bit_or, digits, bit_or-bitwise,
}
use mathlib.Core.Path.{◌≡◌, refl, ap, ◌∙◌}
use native.Mathlib.Nat.{pow-suc}
use native.Mathlib.Omega.{arith}

abbrev or_fuel : ℕ → ℕ → ℕ → ℕ
or_fuel n a b = digits (λ x. x) max n a b

-- Any fuel from the first number on gives the same digits.
or_fuel_enough : (n a b : ℕ) → a ≤ n → or_fuel n a b ≡ or_fuel a a b
or_fuel_enough n a b h = both n a a b h (omega arith)
  where
    both : (n m a b : ℕ) → a ≤ n → a ≤ m → or_fuel n a b ≡ or_fuel m a b
    both zero zero zero b p q = refl
    both zero (suc m) zero b p q = refl
    both (suc n) zero zero b p q = refl
    both (suc n) (suc m) zero b p q = refl
    both zero m (suc a) b p q = elim p [ ]
    both (suc n) zero (suc a) b p q = elim q [ ]
    both (suc n) (suc m) (suc a) b p q =
        omega (arith, both n m (suc a / 2) (b / 2) (omega arith) (omega arith))

zero-bit_or : (b : ℕ) → bit_or 0 b ≡ b
zero-bit_or b = bit_or-bitwise 0 b

-- The lowest bit apart from the others.
pub bit_or_halves : (a b : ℕ) → bit_or a b ≡ bit_or (a / 2) (b / 2) * 2 + max (a % 2) (b % 2)
bit_or_halves zero b = omega (arith, zero-bit_or b, zero-bit_or (b / 2))
bit_or_halves (suc a) b = omega (
  arith,
  bit_or-bitwise (suc a) b,
  bit_or-bitwise (suc a / 2) (b / 2),
  or_fuel_enough a (suc a / 2) (b / 2) (omega arith),
)

bit_or-zero : (n v : ℕ) → v ≤ n → bit_or v 0 ≡ v
bit_or-zero n zero h = refl
bit_or-zero zero (suc v) h = elim h [ ]
bit_or-zero (suc n) (suc v) h =
    omega (arith, bit_or_halves (suc v) 0, bit_or-zero n (suc v / 2) (omega arith))

-- `v<<1 | b` for one bit `b`.
pub bit_or_shifted : (v b : ℕ) → b < 2 → bit_or (v * 2) b ≡ v * 2 + b
bit_or_shifted v b h =
    let left : v * 2 / 2 ≡ v = omega arith in
    let right : b / 2 ≡ 0 = omega arith in
    bit_or_halves (v * 2) b ∙ rw (left, right, bit_or-zero v v (omega arith)) (omega arith)

-- `a | b<<k` where `a` fits the low `k` bits.
pub bit_or_above : (k a b : ℕ) → a < 2 ^ k → bit_or a (b * 2 ^ k) ≡ a + b * 2 ^ k
bit_or_above zero zero b h = zero-bit_or (b * 2 ^ 0) ∙ omega arith
bit_or_above zero (suc a) b h = absurd (omega arith)
bit_or_above (suc k) a b h =
    let twice : b * 2 ^ suc k ≡ b * 2 ^ k * 2 =
      omega (arith, ap (λ (t : ℕ). b * t) (pow-suc 2 k)) in
    let half : b * 2 ^ k * 2 / 2 ≡ b * 2 ^ k = omega arith in
    rw twice (
      bit_or_halves a (b * 2 ^ k * 2)
      ∙ rw (half, bit_or_above k (a / 2) b (omega (arith, pow-suc 2 k))) (omega arith))
