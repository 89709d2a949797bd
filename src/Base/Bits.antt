-- ===== src/Base/Bits.antt =====
-- Bitwise `&` of words with the masks that the binding uses.
use Prim.Native.Nat.{
  ℕ, zero, suc, min, ◌+◌, ◌-◌, ◌*◌, ◌/◌, ◌%◌, ◌^◌, ◌≤◌, ◌<◌, bit_and, bit_and-bitwise, digits,
}
use mathlib.Core.Path.{◌≡◌, refl, sym, ap, ◌∙◌}
use native.Mathlib.Omega.{arith}
use native.Mathlib.Nat.{pow-suc, div-div-eq-div-mul, mul_assoc, mul_comm, one-le-pow}

-- The digits of `a & b`, of which at most `n` are read.
abbrev and_digits : ℕ → ℕ → ℕ → ℕ
and_digits n a b = digits (λ _. 0) min n a b

-- How many are read does not matter, from the number `a` on.
and_digits-bound : (a n m b : ℕ) → a ≤ n → a ≤ m → and_digits n a b ≡ and_digits m a b
and_digits-bound zero zero zero b h k = refl
and_digits-bound zero zero (suc m) b h k = refl
and_digits-bound zero (suc n) zero b h k = refl
and_digits-bound zero (suc n) (suc m) b h k = refl
and_digits-bound (suc a) (suc n) (suc m) b h k =
    ap (λ r. r * 2 + min (suc a % 2) (b % 2))
      (and_digits-bound (suc a / 2) n m (b / 2) (omega arith) (omega arith))
and_digits-bound (suc a) zero m b h k = absurd (omega arith)
and_digits-bound (suc a) (suc n) zero b h k = absurd (omega arith)

and_halves : (a b : ℕ) → bit_and a b ≡ bit_and (a / 2) (b / 2) * 2 + min (a % 2) (b % 2)
and_halves zero b = simp bit_and-bitwise (omega arith)
and_halves (suc a) b = simp bit_and-bitwise (
    ap (λ r. r * 2 + min (suc a % 2) (b % 2))
      (and_digits-bound (suc a / 2) a (suc a / 2) (b / 2) (omega arith) (omega arith)))

pow_double : (k q : ℕ) → 2 ^ suc k * q ≡ 2 * (2 ^ k * q)
pow_double k q = rw (pow-suc 2 k, mul_comm (2 ^ k) 2) (mul_assoc 2 (2 ^ k) q)

and_zero : (n a : ℕ) → a ≤ n → bit_and a 0 ≡ 0
and_zero zero zero h = refl
and_zero zero (suc a) h = absurd (omega arith)
and_zero (suc n) zero h = refl
and_zero (suc n) (suc a) h =
    omega (arith, and_halves (suc a) 0, and_zero n (suc a / 2) (omega arith))

div_double : (k a : ℕ) → a / 2 ^ suc k ≡ a / 2 / 2 ^ k
div_double k a =
    ap (λ r. a / r) (pow-suc 2 k ∙ mul_comm (2 ^ k) 2) ∙ sym (div-div-eq-div-mul a 2 (2 ^ k))

-- The low `k` bits, and what stands above them, make up the number.
and_low : (k a : ℕ) → bit_and a (2 ^ k - 1) + 2 ^ k * (a / 2 ^ k) ≡ a
and_low zero a = omega (arith, and_zero a a (omega arith))
and_low (suc k) a = ground (
  arith,
  and_halves a (2 ^ suc k - 1),
  pow-suc 2 k,
  div_double k a,
  pow_double k (a / 2 / 2 ^ k),
  one-le-pow k 2,
  and_low k (a / 2),
)

-- A mask with `k` zeros at its end reads the number from bit `k` on.
and_high : (k a b : ℕ) → bit_and a (2 ^ k * b) ≡ 2 ^ k * bit_and (a / 2 ^ k) b
and_high zero a b = grind arith
and_high (suc k) a b = ground (
  arith,
  and_halves a (2 ^ suc k * b),
  pow_double k b,
  pow_double k (bit_and (a / 2 ^ suc k) b),
  div_double k a,
  and_high k (a / 2) b,
)

-- The three masks: of the size field, of what stands above it, and of one flag.
pub and_size_mask : (a : ℕ) → bit_and a 0x0000FFFFFFFFFFFF ≡ a % 2 ^ 48
and_size_mask a = omega (arith, and_low 48 a)

pub and_top_mask : (a : ℕ) → a < 2 ^ 64 → bit_and a 0xFFFF000000000000 ≡ 2 ^ 48 * (a / 2 ^ 48)
and_top_mask a h = omega (arith, and_high 48 a 0xFFFF, and_low 16 (a / 2 ^ 48))

pub and_bit : (k a : ℕ) → bit_and a (2 ^ k * 1) ≡ 2 ^ k * (a / 2 ^ k % 2)
and_bit k a = and_high k a 1 ∙ ap (λ r. 2 ^ k * r) (omega (arith, and_low 1 (a / 2 ^ k)))
