-- ===== src/Memory/Align.antt =====
-- `align_val`, in terms of multiples of a power of two.
use mathlib.Core.Logic.{◌↔◌}
use native.Mathlib.Nat.{
  pow-suc, one-le-pow, div-lt_iff_lt-mul, mul-le-mul_right, mul-mod_left, mod-eq_of_lt,
}
use corrosion.Prelude.{
  ℕ, zero, suc, ◌+◌, ◌-◌, ◌*◌, ◌/◌, ◌%◌, ◌^◌, ◌≤◌, ◌<◌, ◌≡◌, ◌∙◌, ap, sym, ◌⊎◌, bit_and, arith,
  none, some, bit_and-high, bit_and-mask, lt→leb, lt→ltb,
}
use corrosion.Machine.{not64}
use corrosion.Memory.{align_val}

pow_split : (j k : ℕ) → 2 ^ (j + k) ≡ 2 ^ j * 2 ^ k
pow_split zero k = ground arith
pow_split (suc j) k =
    ground (
      arith,
      pow-suc 2 j,
      pow-suc 2 (j + k),
      ap (λ (t : ℕ). t * 2 ^ k) (pow-suc 2 j),
      pow_split j k,
    )

-- Clearing the `k` low bits of a word.
bit_and-not_low :
    (j k s : ℕ) → j + k ≡ 64 → s < 2 ^ 64 → bit_and s (not64 (2 ^ k - 1)) ≡ s / 2 ^ k * 2 ^ k
bit_and-not_low j k s e fits =
    let pos = one-le-pow k 2 (omega arith) in
    let whole : 2 ^ 64 ≡ 2 ^ j * 2 ^ k = ap (λ (t : ℕ). 2 ^ t) (sym e) ∙ pow_split j k in
    let mask : not64 (2 ^ k - 1) ≡ (2 ^ j - 1) * 2 ^ k =
      let above : 2 ^ j ≡ 2 ^ j - 1 + 1 = omega (arith, one-le-pow j 2) in
      omega (arith, ap (λ (t : ℕ). t * 2 ^ k) above) in
    let high : s / 2 ^ k < 2 ^ j = (div-lt_iff_lt-mul pos).1 (omega arith) in
    ground (
      arith,
      mask,
      bit_and-high k (s / 2 ^ k) (s % 2 ^ k) (2 ^ j - 1),
      bit_and-mask j (s / 2 ^ k),
      mod-eq_of_lt high,
    )

-- The value, where nothing overflows.
pub align_val-some :
    (val order : ℕ)
    → order < 64
    → val + (2 ^ order - 1) < 2 ^ 64
    → align_val val order ≡ some ((val + (2 ^ order - 1)) / 2 ^ order * 2 ^ order)
unfolding align_val
align_val-some val order small fits =
    rw (lt→leb 64 order small, lt→ltb _ _ fits)
      (ap some (bit_and-not_low (64 - order) order _ (omega arith) fits))

-- `align_val` panics exactly when the shift reaches the word's width or the sum overflows.
pub align_val-none_iff :
    (val order : ℕ)
    → (align_val val order ≡ none) ↔ ((64 ≤ order) ⊎ (2 ^ 64 ≤ val + (2 ^ order - 1)))
unfolding align_val
align_val-none_iff val order = ground arith

-- Where the shift and the sum are in range, `align_val` returns the least multiple of `2 ^ order`
-- that is not below `val`.
pub align_val-least :
    (val order : ℕ)
    → order < 64
    → val + (2 ^ order - 1) < 2 ^ 64
    → (r : ℕ) × (align_val val order ≡ some r)
      × (r % 2 ^ order ≡ 0)
      × (val ≤ r)
      × ((q : ℕ) → val ≤ q * 2 ^ order → r ≤ q * 2 ^ order)
align_val-least val order small fits = (
  (val + (2 ^ order - 1)) / 2 ^ order * 2 ^ order,
  align_val-some val order small fits,
  mul-mod_left _ (2 ^ order),
  omega (arith, one-le-pow order 2),
  λ q h. rounded q h,
)
  where
    rounded :
        (q : ℕ)
        → val ≤ q * 2 ^ order
        → (val + (2 ^ order - 1)) / 2 ^ order * 2 ^ order ≤ q * 2 ^ order
    rounded q h =
        let pos = one-le-pow order 2 (omega arith) in
        let below =
          (div-lt_iff_lt-mul {x = val + (2 ^ order - 1)} {y = q + 1} pos).1 (omega arith) in
        mul-le-mul_right (2 ^ order) (omega arith)
