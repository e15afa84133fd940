-- ===== src/Prelude/Bits.antt =====
-- `&` and `|` with a mask that is a shifted field, as arithmetic: at every shift, by induction on it.
use Prim.Native.Nat.{
  ℕ, zero, suc, ◌+◌, ◌-◌, ◌*◌, ◌/◌, ◌%◌, ◌^◌, ◌≤◌, ◌<◌, min, max, digits, bitwise, bit_and, bit_or,
  bit_and-bitwise, bit_or-bitwise,
}
use mathlib.Core.Path.{◌≡◌, refl, ap, ◌∙◌}
use native.Mathlib.Nat.{pow-suc, one-le-pow}
use native.Mathlib.Omega.{arith}

module _ (rest : ℕ → ℕ) (op : ℕ → ℕ → ℕ) where
  -- Any fuel that reaches the number gives the same digits.
  same_digits : (b a : ℕ) (n k : ℕ) → a ≤ n → a ≤ k → digits rest op n a b ≡ digits rest op k a b
  same_digits b zero zero zero p q = refl
  same_digits b zero zero (suc k) p q = refl
  same_digits b zero (suc n) zero p q = refl
  same_digits b zero (suc n) (suc k) p q = refl
  same_digits b (suc a) zero k p q = absurd (omega arith)
  same_digits b (suc a) (suc n) zero p q = absurd (omega arith)
  same_digits b (suc a) (suc n) (suc k) p q =
      ap (λ (t : ℕ). t * 2 + op (suc a % 2) (b % 2))
        (same_digits (b / 2) (suc a / 2) n k (omega arith) (omega arith))

  lowest_digit :
      (a b : ℕ)
      → bitwise rest op (suc a) b ≡ bitwise rest op (suc a / 2) (b / 2) * 2 + op (suc a % 2) (b % 2)
  lowest_digit a b =
      ap (λ (t : ℕ). t * 2 + op (suc a % 2) (b % 2))
        (same_digits (b / 2) (suc a / 2) a (suc a / 2) (omega arith) (omega arith))

pub lowest_and : (a b : ℕ) → bit_and a b ≡ bit_and (a / 2) (b / 2) * 2 + min (a % 2) (b % 2)
lowest_and zero b = simp bit_and-bitwise (omega arith)
lowest_and (suc a) b = simp bit_and-bitwise (lowest_digit (λ _. 0) min a b)

pub lowest_or : (a b : ℕ) → bit_or a b ≡ bit_or (a / 2) (b / 2) * 2 + max (a % 2) (b % 2)
lowest_or zero b = simp bit_or-bitwise (omega arith)
lowest_or (suc a) b = simp bit_or-bitwise (lowest_digit (λ x. x) max a b)

pub bit_and-zero : (bound a : ℕ) → a ≤ bound → bit_and a 0 ≡ 0
bit_and-zero bound zero h = refl
bit_and-zero zero (suc a) h = absurd (omega arith)
bit_and-zero (suc bound) (suc a) h =
    omega (arith, lowest_and (suc a) 0, bit_and-zero bound (suc a / 2) (omega arith))

pub bit_or-zero : (bound a : ℕ) → a ≤ bound → bit_or a 0 ≡ a
bit_or-zero bound zero h = refl
bit_or-zero zero (suc a) h = absurd (omega arith)
bit_or-zero (suc bound) (suc a) h =
    omega (arith, lowest_or (suc a) 0, bit_or-zero bound (suc a / 2) (omega arith))

double_field : (q k : ℕ) → q * 2 ^ suc k ≡ 2 * (q * 2 ^ k)
double_field q k = omega (arith, ap (λ (t : ℕ). q * t) (pow-suc 2 k))

-- A number in two fields, the lower of `k` bits, against a mask that spares the lower one.
pub bit_and-high :
    (k q r m : ℕ) → r < 2 ^ k → bit_and (q * 2 ^ k + r) (m * 2 ^ k) ≡ bit_and q m * 2 ^ k
bit_and-high zero q r m fits = ground arith
bit_and-high (suc k) q r m fits = ground (
  arith,
  lowest_and (q * 2 ^ suc k + r) (m * 2 ^ suc k),
  double_field q k,
  double_field m k,
  double_field (bit_and q m) k,
  pow-suc 2 k,
  bit_and-high k q (r / 2) m (omega (arith, pow-suc 2 k)),
)

pub bit_or-high :
    (k q r m : ℕ) → r < 2 ^ k → bit_or (q * 2 ^ k + r) (m * 2 ^ k) ≡ bit_or q m * 2 ^ k + r
bit_or-high zero q r m fits = ground arith
bit_or-high (suc k) q r m fits = ground (
  arith,
  lowest_or (q * 2 ^ suc k + r) (m * 2 ^ suc k),
  double_field q k,
  double_field m k,
  double_field (bit_or q m) k,
  pow-suc 2 k,
  bit_or-high k q (r / 2) m (omega (arith, pow-suc 2 k)),
)

-- A mask of `k` ones keeps the lower field.
pub bit_and-low : (k q r : ℕ) → r < 2 ^ k → bit_and (q * 2 ^ k + r) (2 ^ k - 1) ≡ r
bit_and-low zero q r fits = bit_and-zero (q * 1 + r) (q * 1 + r) (omega arith) ∙ omega arith
bit_and-low (suc k) q r fits = ground (
  arith,
  lowest_and (q * 2 ^ suc k + r) (2 ^ suc k - 1),
  double_field q k,
  one-le-pow k 2,
  pow-suc 2 k,
  bit_and-low k q (r / 2) (omega (arith, pow-suc 2 k)),
)

pub bit_and-mask : (k a : ℕ) → bit_and a (2 ^ k - 1) ≡ a % 2 ^ k
bit_and-mask k a = ground (arith, one-le-pow k 2, bit_and-low k (a / 2 ^ k) (a % 2 ^ k))

-- One bit of a number, and a number with that bit set.
pub bit_and-bit : (k a : ℕ) → bit_and a (2 ^ k) ≡ a / 2 ^ k % 2 * 2 ^ k
bit_and-bit k a =
    ground
      (arith, one-le-pow k 2, bit_and-high k (a / 2 ^ k) (a % 2 ^ k) 1, bit_and-mask 1 (a / 2 ^ k))

or_one : (q : ℕ) → bit_or q 1 ≡ q / 2 * 2 + 1
or_one q = omega (arith, lowest_or q 1, bit_or-zero (q / 2) (q / 2))

pub bit_or-bit : (k a : ℕ) → bit_or a (2 ^ k) ≡ (a / 2 ^ k / 2 * 2 + 1) * 2 ^ k + a % 2 ^ k
bit_or-bit k a =
    ground (arith, one-le-pow k 2, bit_or-high k (a / 2 ^ k) (a % 2 ^ k) 1, or_one (a / 2 ^ k))
