-- ===== src/Alloc/Flags.antt =====
-- `ByteGrainFlags` and `PageGrainFlags`: a header word holds a chunk's size below its top bit, which
-- says that the chunk is taken; a page's flag byte has a bit for a taken page and one for the last
-- page of an allocation.
use corrosion.Prelude.{
  ℕ, ◌+◌, ◌*◌, ◌/◌, ◌%◌, ◌^◌, ◌<◌, ◌≡◌, arith, Bool, true, false, not, ◌==◌, if◌then◌else◌, bit_and,
  bit_or, bit_and-high, bit_and-mask, bit_or-high,
}
use mathlib.Core.Path.{subst, refl}
use corrosion.Machine.{not64}

-- `1 << 63`
abbrev pub alloc_taken : ℕ
alloc_taken = 2 ^ 63

unfoldable pub is_taken : ℕ → Bool
is_taken flags = not (bit_and flags alloc_taken == 0)

unfoldable pub is_free : ℕ → Bool
unfolding is_taken
is_free flags = not (is_taken flags)

unfoldable pub set_taken : ℕ → ℕ
set_taken flags = bit_or flags alloc_taken

unfoldable pub set_free : ℕ → ℕ
set_free flags = bit_and flags (not64 alloc_taken)

unfoldable pub set_size : ℕ → ℕ → ℕ
unfolding is_taken
set_size sz flags =
    let k = is_taken flags in
    let cleared = bit_and sz (not64 alloc_taken) in
    if k then bit_or cleared alloc_taken else cleared

unfoldable pub get_size : ℕ → ℕ
get_size flags = bit_and flags (not64 alloc_taken)

-- The header of a chunk.
abbrev pub header : Bool → ℕ → ℕ
header taken size = if taken then 2 ^ 63 + size else size

top_bit : (f : ℕ) → bit_and f (2 ^ 63) ≡ f / 2 ^ 63 % 2 * 2 ^ 63
top_bit f = ground (arith, bit_and-high 63 (f / 2 ^ 63) (f % 2 ^ 63) 1, bit_and-mask 1 (f / 2 ^ 63))

low_bits : (f : ℕ) → bit_and f (not64 (2 ^ 63)) ≡ f % 2 ^ 63
low_bits = bit_and-mask 63

with_top_bit : (s : ℕ) → s < 2 ^ 63 → bit_or s (2 ^ 63) ≡ 2 ^ 63 + s
with_top_bit s small = ground (arith, bit_or-high 63 0 s 1)

still_top_bit : (s : ℕ) → s < 2 ^ 63 → bit_or (2 ^ 63 + s) (2 ^ 63) ≡ 2 ^ 63 + s
still_top_bit s small = ground (arith, bit_or-high 63 1 s 1)

module _ (taken : Bool) (s : ℕ) (small : s < 2 ^ 63) where
  pub is_taken-header : is_taken (header taken s) ≡ taken
  unfolding is_taken
  is_taken-header = ground (arith, top_bit (header taken s))

  pub is_free-header : is_free (header taken s) ≡ not taken
  unfolding is_free
  is_free-header = ground (arith, top_bit (header taken s))

  pub get_size-header : get_size (header taken s) ≡ s
  unfolding get_size
  get_size-header = ground (arith, low_bits (header taken s))

  pub set_taken-header : set_taken (header taken s) ≡ header true s
  unfolding set_taken
  set_taken-header = ground (arith, with_top_bit s, still_top_bit s)

  pub set_free-header : set_free (header taken s) ≡ header false s
  unfolding set_free
  set_free-header = ground (arith, low_bits (header taken s))

  pub set_size-header : (old : ℕ) → old < 2 ^ 63 → set_size s (header taken old) ≡ header taken s
  unfolding set_size
  set_size-header old fits = ground (arith, top_bit (header taken old), low_bits s, with_top_bit s)

-- On a word of any content, as left by the chunk's last user, `set_free` and then `set_size` write a
-- whole header.
pub set_size-set_free : (s f : ℕ) → s < 2 ^ 63 → set_size s (set_free f) ≡ header false s
unfolding set_size set_free
set_size-set_free s f small = ground (arith, top_bit (f % 2 ^ 63), low_bits f, low_bits s)

-- Every word is the header of its bit and its size.
pub header-is_taken-get_size : (f : ℕ) → f < 2 ^ 64 → header (is_taken f) (get_size f) ≡ f
unfolding is_taken get_size
header-is_taken-get_size f fits = ground (arith, top_bit f, low_bits f)

get_size-lt : (f : ℕ) → get_size f < 2 ^ 63
unfolding get_size
get_size-lt f = omega (arith, low_bits f)

abbrev Independent : ℕ → ℕ → Type 0
Independent s f =
    (is_taken (set_taken f) ≡ true)
    × (get_size (set_taken f) ≡ get_size f)
    × (is_taken (set_free f) ≡ false)
    × (get_size (set_free f) ≡ get_size f)
    × (is_taken (set_size s f) ≡ is_taken f)
    × (get_size (set_size s f) ≡ s)

Independent-header :
    (s : ℕ) (taken : Bool) (old : ℕ) → old < 2 ^ 63 → s < 2 ^ 63 → Independent s (header taken old)
Independent-header s taken old fits small =
    rw
      (
        set_taken-header taken old fits,
        set_free-header taken old fits,
        set_size-header taken s small old fits,
        is_taken-header true old fits,
        is_taken-header false old fits,
        is_taken-header taken s small,
        is_taken-header taken old fits,
        get_size-header true old fits,
        get_size-header false old fits,
        get_size-header taken s small,
        get_size-header taken old fits,
      )
      (refl, refl, refl, refl, refl, refl)

-- On any word, marking changes the taken bit and keeps the size, and `set_size` stores a size below
-- 2^63 and keeps the bit.
pub flags_independent :
    (f s : ℕ)
    → f < 2 ^ 64
    → s < 2 ^ 63
    → (is_taken (set_taken f) ≡ true)
      × (get_size (set_taken f) ≡ get_size f)
      × (is_taken (set_free f) ≡ false)
      × (get_size (set_free f) ≡ get_size f)
      × (is_taken (set_size s f) ≡ is_taken f)
      × (get_size (set_size s f) ≡ s)
flags_independent f s fits small =
    subst (Independent s) (header-is_taken-get_size f fits)
      (Independent-header s (is_taken f) (get_size f) (get_size-lt f) small)
