-- ===== src/Minixfs3/Bitmap/Count.antt =====
-- `print_bitmap`, in terms of the bits that are set.
use native.Mathlib.Nat.{add-zero}
use corrosion.Prelude.{
  ℕ, zero, suc, ◌+◌, ◌*◌, ◌/◌, ◌%◌, ◌^◌, ◌<◌, ◌≡◌, refl, ap, ◌∙◌, arith, Bool, true, ◌&&◌, ◌==◌,
  inl, inr, lt-or-le, ◌≤◌, sym, ltb, lt→ltb, le→ltb, Option, some, none, if◌then◌else◌,
}
use corrosion.Machine.{Memory}
use corrosion.Machine.Words.{IsBytes}
use corrosion.Minixfs3.Bitmap.{bit_count, count_loop, print_bitmap}

-- Bit `k` of the bitmap at `buf`.
abbrev pub bit : (buf : ℕ) → Memory → ℕ → ℕ
bit buf m k = m (buf + k / 8) / 2 ^ (k % 8) % 2

-- The number of bits set among the first `n`.
abbrev pub set_bits : (buf : ℕ) → Memory → ℕ → ℕ
set_bits buf m zero = 0
set_bits buf m (suc n) = set_bits buf m n + bit buf m n

-- The ones of a byte.
abbrev ones : ℕ → ℕ
ones b =
    b % 2 + b / 2 % 2 + b / 4 % 2 + b / 8 % 2 + b / 16 % 2 + b / 32 % 2 + b / 64 % 2 + b / 128 % 2

abbrev pub all_below : ℕ → (ℕ → Bool) → Bool
all_below zero p = true
all_below (suc n) p = p n && all_below n p

pub all_below-at : (n : ℕ) (p : ℕ → Bool) (k : ℕ) → all_below n p ≡ true → k < n → p k ≡ true
all_below-at zero p k all h = absurd (omega arith)
all_below-at (suc n) p k all h = elim (lt-or-le k n) [
  | inl below ↦ all_below-at n p k (ground arith) below
  | inr here ↦ let at : k ≡ n = omega arith in rw at (ground arith)
]

table : all_below 256 (λ b. bit_count b == ones b) ≡ true
unfolding bit_count
table = refl

-- The table of `bit_count` holds the number of ones of each byte.
pub bit_count-ones : (b : ℕ) → b < 256 → bit_count b ≡ ones b
bit_count-ones b small = ground (arith, all_below-at 256 (λ b. bit_count b == ones b) b table small)

pub bit-at :
    (buf : ℕ) (m : Memory) (i j : ℕ) → j < 8 → bit buf m (8 * i + j) ≡ m (buf + i) / 2 ^ j % 2
bit-at buf m i j small =
    let byte : (8 * i + j) / 8 ≡ i = omega arith in
    let place : (8 * i + j) % 8 ≡ j = omega arith in rw (byte, place)

set_bits-byte :
    (buf : ℕ) (m : Memory) (i : ℕ)
    → set_bits buf m (8 * (i + 1)) ≡ set_bits buf m (8 * i) + ones (m (buf + i))
set_bits-byte buf m i =
    let n = 8 * i in
    let end : 8 * (i + 1) ≡ n + 8 = omega arith in
    let start : n ≡ n + 0 = omega arith in
    let next : (j : ℕ) → set_bits buf m (n + (j + 1)) ≡ set_bits buf m (n + j) + bit buf m (n + j) =
      λ j. let up : n + (j + 1) ≡ suc (n + j) = omega arith in ap (set_bits buf m) up in
    omega (
      arith,
      ap (set_bits buf m) end,
      ap (set_bits buf m) start,
      next 0,
      next 1,
      next 2,
      next 3,
      next 4,
      next 5,
      next 6,
      next 7,
      bit-at buf m i 0 (omega arith),
      bit-at buf m i 1 (omega arith),
      bit-at buf m i 2 (omega arith),
      bit-at buf m i 3 (omega arith),
      bit-at buf m i 4 (omega arith),
      bit-at buf m i 5 (omega arith),
      bit-at buf m i 6 (omega arith),
      bit-at buf m i 7 (omega arith),
    )

set_bits_mono : (buf : ℕ) (m : Memory) (n k : ℕ) → set_bits buf m n ≤ set_bits buf m (n + k)
set_bits_mono buf m n zero = omega (arith, ap (set_bits buf m) (add-zero n))
set_bits_mono buf m n (suc k) =
    let up : n + suc k ≡ suc (n + k) = omega arith in
    omega (arith, set_bits_mono buf m n k, ap (set_bits buf m) up)

-- A count, where it fits into 32 bits.
abbrev pub counted : ℕ → Option ℕ
counted n = if ltb n (2 ^ 32) then some n else none

count_loop-set_bits :
    (left i total buf : ℕ) (m : Memory)
    → IsBytes m
    → total ≡ set_bits buf m (8 * i)
    → total < 2 ^ 32
    → count_loop left i total buf m ≡ counted (set_bits buf m (8 * (i + left)))
unfolding count_loop
count_loop-set_bits zero i total buf m bytes e fits =
    let here : 8 * (i + 0) ≡ 8 * i = omega arith in
    let same : set_bits buf m (8 * (i + 0)) ≡ total = ap (set_bits buf m) here ∙ sym e in
    rw (same, lt→ltb total (2 ^ 32) fits)
count_loop-set_bits (suc left) i total buf m bytes e fits =
    let sum = total + bit_count (m (buf + i)) in
    let next : sum ≡ set_bits buf m (8 * (i + 1)) =
      omega (arith, e, set_bits-byte buf m i, bit_count-ones (m (buf + i)) (bytes (buf + i))) in
    let end : 8 * (i + suc left) ≡ 8 * (i + 1) + 8 * left = omega arith in
    elim (lt-or-le sum (2 ^ 32)) [
      | inl more ↦
          let along : 8 * (i + 1 + left) ≡ 8 * (i + suc left) = omega arith in
          rw (count_loop, lt→ltb sum (2 ^ 32) more)
            (count_loop-set_bits left (i + 1) sum buf m bytes next more
              ∙ ap (λ (k : ℕ). counted (set_bits buf m k)) along)
      | inr over ↦
          let many : 2 ^ 32 ≤ set_bits buf m (8 * (i + suc left)) = omega (
            arith,
            over,
            next,
            set_bits_mono buf m (8 * (i + 1)) (8 * left),
            ap (set_bits buf m) end,
          ) in
          rw (
            count_loop,
            le→ltb sum (2 ^ 32) over,
            le→ltb (set_bits buf m (8 * (i + suc left))) (2 ^ 32) many,
          )
    ]

-- In a memory of bytes, `print_bitmap` returns the number of bits set in the bytes that it reads, if
-- that is below 2^32, and panics otherwise.
pub print_bitmap-set_bits :
    (items buf : ℕ) (m : Memory)
    → IsBytes m
    → print_bitmap items buf m ≡ counted (set_bits buf m (8 * items))
unfolding print_bitmap
print_bitmap-set_bits items buf m bytes =
    count_loop-set_bits items 0 0 buf m bytes refl (omega arith)
    ∙ ap (λ (k : ℕ). counted (set_bits buf m k)) (omega arith)
