-- ===== src/Alloc/Bytes/TakeChunk.antt =====
-- The body of the `if` in `kmalloc`: it turns a free chunk into a taken one, and leaves the rest of it
-- free where that is more than a header.
use corrosion.Prelude.{
  ℕ, ◌+◌, ◌-◌, ◌^◌, ◌≤◌, ◌<◌, ◌≡◌, refl, ◌∙◌, inl, inr, arith, Bool, true, false, [], ◌∷◌, ltb,
  if◌then◌else◌, bit_and-mask, lt-or-le, lt→ltb, le→ltb, le→leb,
}
use corrosion.Machine.{Memory, Run, ok, read64, write64}
use corrosion.Machine.Words.{
  SameOutside, read_le-write_le, read_le-write_le_apart, write_le-outside,
}
use corrosion.Alloc.Flags.{
  header, set_taken, set_free, set_size, set_taken-header, set_size-header, set_size-set_free,
}
use corrosion.Alloc.Bytes.{take_chunk}
use corrosion.Alloc.Bytes.Chunks.{chunk, Heap, Chunks}

pub header-lt : (taken : Bool) (s : ℕ) → s < 2 ^ 63 → header taken s < 256 ^ 8
header-lt taken s small = ground arith

pub read-modify :
    (f : ℕ → ℕ) (p v : ℕ) (m : Memory)
    → f (read64 p m) ≡ v
    → v < 256 ^ 8
    → read64 p (write64 p (f (read64 p m)) m) ≡ v
read-modify f p v m e fits = rw e (read_le-write_le 8 p v m fits)

pub set_free-lt : (f : ℕ) → set_free f < 256 ^ 8
unfolding set_free
set_free-lt f = omega (arith, bit_and-mask 63 f)

-- What a chunk of `s` bytes becomes when `size` of them are taken.
abbrev pub split : ℕ → ℕ → Heap
split size s =
    if ltb 8 (s - size) then chunk true size ∷ chunk false (s - size) ∷ [] else chunk true s ∷ []

module _ (size p s : ℕ) (m : Memory) (head : read64 p m ≡ header false s) (small : s < 2 ^ 63)
    (least : 8 ≤ size) (fits : size ≤ s) where
  abbrev pub Taken : Run ℕ → Type 0
  Taken r =
      (g : Memory) × (r ≡ ok (p + 8) g)
      × Chunks g p (p + s) (split size s)
      × SameOutside p (p + s) m g

  within :
      (a v : ℕ) (k : Memory)
      → p ≤ a
      → a + 8 ≤ p + s
      → SameOutside p (p + s) m k
      → SameOutside p (p + s) m (write64 a v k)
  within a v k lo hi same q out = write_le-outside 8 a v k q (omega arith) ∙ same q out

  m₁ : Memory
  m₁ = write64 p (set_taken (read64 p m)) m

  marked : read64 p m₁ ≡ header true s
  unfolding m₁
  marked =
      read-modify set_taken p (header true s) m (rw (head, set_taken-header false s small))
        (header-lt true s small)

  Taken-whole : s - size ≤ 8 → Taken (take_chunk size p s m)
  unfolding take_chunk m₁
  Taken-whole whole =
      rw (le→leb size s fits, le→ltb 8 (s - size) whole)
        (
          write64 p (set_size s (read64 p m₁)) m₁,
          refl,
          (
            read-modify (set_size s) p (header true s) m₁
                (rw marked (set_size-header true s small s small)) (header-lt true s small),
            omega arith,
            small,
            refl,
          ),
          within p _ m₁ (omega arith) (omega arith)
              (within p _ m (omega arith) (omega arith) (λ q out. refl)),
        )

  n : ℕ
  n = p + size

  rem : ℕ
  rem = s - size

  m₂ : Memory
  m₂ = write64 n (set_free (read64 n m₁)) m₁

  m₃ : Memory
  m₃ = write64 n (set_size rem (read64 n m₂)) m₂

  g : Memory
  g = write64 p (set_size size (read64 p m₃)) m₃

  module _ (splits : 8 < rem) where
    -- The header of the new free chunk, whatever the word there was.
    rest_header : read64 n m₃ ≡ header false rem
    unfolding m₂ m₃ rem n
    rest_header =
        read-modify (set_size rem) n (header false rem) m₂
          (rw (read-modify set_free n _ m₁ refl (set_free-lt (read64 n m₁)))
            (set_size-set_free rem (read64 n m₁) (omega arith)))
          (header-lt false rem (omega arith))

    still_marked : read64 p m₃ ≡ header true s
    unfolding m₂ m₃ rem n
    still_marked =
        read_le-write_le_apart 8 8 n p _ m₂ (inl (omega arith))
        ∙ read_le-write_le_apart 8 8 n p _ m₁ (inl (omega arith))
        ∙ marked

    resized : read64 p g ≡ header true size
    unfolding g rem
    resized =
        read-modify (set_size size) p (header true size) m₃
          (rw still_marked (set_size-header true size (omega arith) s small))
          (header-lt true size (omega arith))

    rest_kept : read64 n g ≡ header false rem
    unfolding g n
    rest_kept = read_le-write_le_apart 8 8 p n _ m₃ (inr (omega arith)) ∙ rest_header

    outside : SameOutside p (p + s) m g
    unfolding m₁ m₂ m₃ g n rem
    outside = within p _ m₃ (omega arith) (omega arith) (
        within (p + size) _ m₂ (omega arith) (omega arith) (
          within (p + size) _ m₁ (omega arith) (omega arith)
            (within p _ m (omega arith) (omega arith) (λ q out. refl))))

    Taken-part : Taken (take_chunk size p s m)
    unfolding take_chunk m₁ m₂ m₃ g n rem
    Taken-part =
        rw (le→leb size s fits, lt→ltb 8 (s - size) splits)
          (
            g,
            refl,
            (resized, least, omega arith, (rest_kept, omega arith, omega arith, omega arith)),
            outside,
          )

  pub take_chunk-Taken : Taken (take_chunk size p s m)
  unfolding rem
  take_chunk-Taken = elim (lt-or-le 8 (s - size)) [
    | inl splits ↦ Taken-part splits
    | inr whole ↦ Taken-whole whole
  ]
