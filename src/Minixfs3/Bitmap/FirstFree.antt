-- ===== src/Minixfs3/Bitmap/FirstFree.antt =====
-- The searches for a free inode and a free zone, in terms of the bits that are clear.
use corrosion.Prelude.{
  ℕ, zero, suc, ◌+◌, ◌-◌, ◌*◌, ◌/◌, ◌%◌, ◌^◌, ◌≤◌, ◌<◌, ◌≡◌, refl, ap, ◌∙◌, arith, true, ◌==◌, inl,
  inr, lt-or-le, Option, none, some, bit_and, bit_and-bit, Bool-cases,
}
use native.Mathlib.Nat.{one-le-pow}
use corrosion.Machine.{Memory}
use corrosion.Minixfs3.{SuperBlock}
use corrosion.Minixfs3.Bitmap.{free_bit, free_loop, find_first_free_inode, find_first_free_zone}
use corrosion.Minixfs3.Bitmap.Count.{bit, bit-at, all_below, all_below-at}

-- The first clear bit of those from `i` up to `j`; the bit's number counts from 1.
pub data FirstClear (buf : ℕ) (m : Memory) (i j : ℕ) : Option ℕ → Type 0 where
  all_set : ((k : ℕ) → i ≤ k → k < j → bit buf m k ≡ 1) → FirstClear buf m i j none
  clear_at :
      (k : ℕ)
      → i ≤ k
      → k < j
      → bit buf m k ≡ 0
      → ((k' : ℕ) → i ≤ k' → k' < k → bit buf m k' ≡ 1)
      → FirstClear buf m i j (some (k + 1))

bit_clear : (byte j : ℕ) → j < 8 → (bit_and byte (2 ^ j) == 0) ≡ (byte / 2 ^ j % 2 == 0)
bit_clear byte j small = ground (arith, one-le-pow j 2, bit_and-bit j byte)

-- What the loop over a byte's bits may return.
data BitOutcome (byte i : ℕ) : Option ℕ → Type 0 where
  none_clear : ((j : ℕ) → i ≤ j → j < 8 → byte / 2 ^ j % 2 ≡ 1) → BitOutcome byte i none
  first_clear :
      (j : ℕ)
      → i ≤ j
      → j < 8
      → byte / 2 ^ j % 2 ≡ 0
      → ((k : ℕ) → i ≤ k → k < j → byte / 2 ^ k % 2 ≡ 1)
      → BitOutcome byte i (some j)

BitOutcome-earlier :
    (byte i : ℕ) (o : Option ℕ)
    → byte / 2 ^ i % 2 ≡ 1
    → BitOutcome byte (i + 1) o
    → BitOutcome byte i o
BitOutcome-earlier byte i o set (none_clear all) = none_clear (λ j lo hi. elim (lt-or-le i j) [
  | inl more ↦ all j (omega arith) hi
  | inr here ↦ let at : j ≡ i = omega arith in rw at set
])
BitOutcome-earlier byte i o set (first_clear j lo hi clear before) =
    first_clear j (omega arith) hi clear (λ k lo' hi'. elim (lt-or-le i k) [
      | inl more ↦ before k (omega arith) hi'
      | inr here ↦ let at : k ≡ i = omega arith in rw at set
    ])

free_bit-BitOutcome : (left i byte : ℕ) → i + left ≡ 8 → BitOutcome byte i (free_bit left i byte)
unfolding free_bit
free_bit-BitOutcome zero i byte e = none_clear (λ j lo hi. absurd (omega arith))
free_bit-BitOutcome (suc left) i byte e = elim (Bool-cases (byte / 2 ^ i % 2 == 0)) [
  | inl clear ↦
      rw (bit_clear byte i (omega arith), clear)
        (first_clear i (omega arith) (omega arith) (ground arith) (λ k lo hi. absurd (omega arith)))
  | inr set ↦
      rw (bit_clear byte i (omega arith), set)
        (BitOutcome-earlier byte i _ (ground arith)
          (free_bit-BitOutcome left (i + 1) byte (omega arith)))
]

module _ (buf : ℕ) (m : Memory) where
  in_byte :
      (i : ℕ)
      → ((j : ℕ) → j < 8 → m (buf + i) / 2 ^ j % 2 ≡ 1)
      → (k : ℕ) → 8 * i ≤ k
      → k < 8 * (i + 1)
      → bit buf m k ≡ 1
  in_byte i ones k lo hi =
      let at : k ≡ 8 * i + (k - 8 * i) = omega arith in
      ap (bit buf m) at ∙ bit-at buf m i (k - 8 * i) (omega arith) ∙ ones (k - 8 * i) (omega arith)

  -- A byte of ones, and then the rest.
  FirstClear-later :
      (i n : ℕ) (o : Option ℕ)
      → ((j : ℕ) → j < 8 → m (buf + i) / 2 ^ j % 2 ≡ 1)
      → FirstClear buf m (8 * (i + 1)) n o
      → FirstClear buf m (8 * i) n o
  FirstClear-later i n o ones (all_set all) = all_set (λ k lo hi. elim (lt-or-le k (8 * (i + 1))) [
    | inl here ↦ in_byte i ones k lo here
    | inr more ↦ all k more hi
  ])
  FirstClear-later i n o ones (clear_at k lo hi clear before) =
      clear_at k (omega arith) hi clear (λ k' lo' hi'. elim (lt-or-le k' (8 * (i + 1))) [
        | inl here ↦ in_byte i ones k' lo' here
        | inr more ↦ before k' more hi'
      ])

  all_ones : (j : ℕ) → j < 8 → 255 / 2 ^ j % 2 ≡ 1
  all_ones j small =
      let table : all_below 8 (λ b. 255 / 2 ^ b % 2 == 1) ≡ true = refl in
      ground (arith, all_below-at 8 (λ b. 255 / 2 ^ b % 2 == 1) j table small)

  of_BitOutcome :
      (i n : ℕ) (o rest : Option ℕ)
      → 8 * (i + 1) ≤ n
      → BitOutcome (m (buf + i)) 0 o
      → FirstClear buf m (8 * (i + 1)) n rest
      → FirstClear buf m
          (8 * i)
          n
          (elim o as (λ _. Option ℕ) [ none ↦ rest | some bit_idx ↦ some (i * 8 + bit_idx + 1) ])
  of_BitOutcome i n o rest room (none_clear all) later =
      FirstClear-later i n rest (λ j small. all j (omega arith) small) later
  of_BitOutcome i n o rest room (first_clear j lo hi clear before) later =
      let place : i * 8 + j + 1 ≡ 8 * i + j + 1 = omega arith in
      rw place (
        clear_at (8 * i + j) (omega arith) (omega arith) (bit-at buf m i j hi ∙ clear) (λ k lo' hi'.
          let at : k ≡ 8 * i + (k - 8 * i) = omega arith in
          ap (bit buf m) at
          ∙ bit-at buf m i (k - 8 * i) (omega arith)
          ∙ before (k - 8 * i) (omega arith) (omega arith)))

  free_loop-FirstClear :
      (left i j : ℕ) → i + left ≡ j → FirstClear buf m (8 * i) (8 * j) (free_loop left i buf m)
  unfolding free_loop
  free_loop-FirstClear zero i j e = all_set (λ k lo hi. absurd (omega arith))
  free_loop-FirstClear (suc left) i j e =
      let later = free_loop-FirstClear left (i + 1) j (omega arith) in
      elim (Bool-cases (m (buf + i) == 255)) [
        | inl full ↦
            let byte : m (buf + i) ≡ 255 = ground arith in
            rw full (
              FirstClear-later i (8 * j) _
                (λ b small. ap (λ (t : ℕ). t / 2 ^ b % 2) byte ∙ all_ones b small) later)
        | inr some_clear ↦ rw some_clear (
            of_BitOutcome i (8 * j) (free_bit 8 0 (m (buf + i))) _ (omega arith)
              (free_bit-BitOutcome 8 0 (m (buf + i)) (omega arith)) later)
      ]

  -- The search for a free inode returns the number, from 1 on, of the first clear bit among the
  -- inodes' first whole bytes of bits, and none exactly if all of those are set; the search for a free
  -- zone the same among the zones'.
  pub find_first_free-FirstClear :
      (superblock : SuperBlock)
      → FirstClear buf m 0 (8 * (superblock.ninodes / 8)) (find_first_free_inode superblock buf m)
        × FirstClear buf m 0 (8 * (superblock.zones / 8)) (find_first_free_zone superblock buf m)
  unfolding find_first_free_inode find_first_free_zone
  find_first_free-FirstClear superblock = (
    free_loop-FirstClear (superblock.ninodes / 8) 0 (superblock.ninodes / 8) (omega arith),
    free_loop-FirstClear (superblock.zones / 8) 0 (superblock.zones / 8) (omega arith),
  )
