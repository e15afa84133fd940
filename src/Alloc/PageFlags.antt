-- ===== src/Alloc/PageFlags.antt =====
-- `PageGrainFlags` of alloc.rs: the flag byte of a page.
use corrosion.Prelude.{
  ℕ, ◌+◌, ◌*◌, ◌/◌, ◌%◌, ◌≡◌, refl, arith, Bool, true, false, not, ◌==◌, bit_and, bit_or,
  lowest_and, lowest_or, bit_and-zero, bit_or-zero,
}

abbrev pub page_flag_empty : ℕ
page_flag_empty = 0

abbrev pub page_flag_taken : ℕ
page_flag_taken = 1

abbrev pub page_flag_last : ℕ
page_flag_last = 2

unfoldable pub is_last : ℕ → Bool
is_last flags = not (bit_and flags page_flag_last == 0)

unfoldable pub is_taken : ℕ → Bool
is_taken flags = not (bit_and flags page_flag_taken == 0)

unfoldable pub is_free : ℕ → Bool
unfolding is_taken
is_free flags = not (is_taken flags)

abbrev pub clear : ℕ → ℕ
clear flags = page_flag_empty

unfoldable pub set_flag : ℕ → ℕ → ℕ
set_flag flag flags = bit_or flags flag

and_one : (f : ℕ) → bit_and f 1 ≡ f % 2
and_one f = omega (arith, lowest_and f 1, bit_and-zero (f / 2) (f / 2))

and_two : (f : ℕ) → bit_and f 2 ≡ f / 2 % 2 * 2
and_two f = omega (arith, lowest_and f 2, and_one (f / 2))

or_one : (f : ℕ) → bit_or f 1 ≡ f / 2 * 2 + 1
or_one f = omega (arith, lowest_or f 1, bit_or-zero (f / 2) (f / 2))

or_two : (f : ℕ) → bit_or f 2 ≡ f / 2 / 2 * 4 + 2 + f % 2
or_two f = omega (arith, lowest_or f 2, or_one (f / 2))

-- Each of the two flags is set without a change of the other.
pub set_flag-taken :
    (f : ℕ)
    → (is_taken (set_flag page_flag_taken f) ≡ true)
      × (is_last (set_flag page_flag_taken f) ≡ is_last f)
unfolding is_taken is_last set_flag
set_flag-taken f = ground (arith, and_one (bit_or f 1), and_two (bit_or f 1), and_two f, or_one f)

pub set_flag-last :
    (f : ℕ)
    → (is_last (set_flag page_flag_last f) ≡ true)
      × (is_taken (set_flag page_flag_last f) ≡ is_taken f)
unfolding is_taken is_last set_flag
set_flag-last f = ground (arith, and_one (bit_or f 2), and_two (bit_or f 2), and_one f, or_two f)

pub clear-is_free : (f : ℕ) → (is_free (clear f) ≡ true) × (is_last (clear f) ≡ false)
unfolding is_free is_last
clear-is_free f = (refl, refl)
