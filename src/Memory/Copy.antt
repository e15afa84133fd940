-- ===== src/Memory/Copy.antt =====
-- `memcpy`, in terms of bytes.
use corrosion.Prelude.{
  ℕ, zero, suc, ◌+◌, ◌-◌, ◌*◌, ◌/◌, ◌^◌, ◌≤◌, ◌<◌, ◌≡◌, refl, ◌⊎◌, inl, inr, arith, ltb,
  if◌then◌else◌, lt-or-le, some,
}
use corrosion.Machine.{Memory, ok, mul_usize, sub_usize, read64, write64, write8}
use corrosion.Machine.Words.{
  SameOutside, write8_self, write8-ne, write_le-outside, write_le-read_le,
}
use corrosion.Memory.{copy_words, copy_bytes, memcpy}

-- The bytes `[lo, hi)` of a copy from `src` to `dest`, and nothing else.
pub record Copied (dest src lo hi : ℕ) (m g : Memory) : Type 0 where
  pub inside : (i : ℕ) → lo ≤ i → i < hi → g (dest + i) ≡ m (src + i)
  pub outside : SameOutside (dest + lo) (dest + hi) m g

-- The two areas of `n` bytes do not overlap.
abbrev pub Apart : ℕ → ℕ → ℕ → Type 0
Apart dest src n = (dest + n ≤ src) ⊎ (src + n ≤ dest)

copy_bytes-Copied :
    (left i hi dest src : ℕ) (m : Memory)
    → i + left ≡ hi
    → Apart dest src hi
    → Copied dest src i hi m (copy_bytes left i dest src m)
unfolding copy_bytes
copy_bytes-Copied zero i hi dest src m e apart = record {
  inside = λ j lo up. absurd (omega arith);
  outside = λ q out. refl;
}
copy_bytes-Copied (suc left) i hi dest src m e apart =
    let rest =
      copy_bytes-Copied left (i + 1) hi dest src (write8 (dest + i) (m (src + i)) m) (omega arith)
        apart in
    record {
      inside = λ j lo up. elim (lt-or-le i j) [
        | inl more ↦ ground (arith, rest.inside j, write8-ne (dest + i) (m (src + i)) m (src + j))
        | inr here ↦ ground (arith, rest.outside (dest + j), write8_self (dest + i) (m (src + i)) m)
      ];
      outside = λ q out. ground (arith, rest.outside q, write8-ne (dest + i) (m (src + i)) m q);
    }

copy_words-Copied :
    (left i hi dest src : ℕ) (m : Memory)
    → i + left ≡ hi
    → Apart dest src (8 * hi)
    → ((x : ℕ) → src ≤ x → x < src + 8 * hi → m x < 256)
    → Copied dest src (8 * i) (8 * hi) m (copy_words left i dest src m)
unfolding copy_words
copy_words-Copied zero i hi dest src m e apart bytes = record {
  inside = λ j lo up. absurd (omega arith);
  outside = λ q out. refl;
}
copy_words-Copied (suc left) i hi dest src m e apart bytes =
    let word = read64 (src + 8 * i) m in
    let m' = write64 (dest + 8 * i) word m in
    let rest = copy_words-Copied left (i + 1) hi dest src m' (omega arith) apart (λ x lo hi'.
      let same = write_le-outside 8 (dest + 8 * i) word m x (ground arith) in
      omega (arith, same, bytes x lo hi')) in
    record {
      inside = λ j lo up. elim (lt-or-le j (8 * (i + 1))) [
        | inl here ↦ ground (
          arith,
          rest.outside (dest + j),
          write_le-read_le 8 (dest + 8 * i) (src + 8 * i) m m (dest + j)
              (λ x lo' hi'. bytes x (omega arith) (omega arith)),
        )
        | inr more ↦
            ground (arith, rest.inside j, write_le-outside 8 (dest + 8 * i) word m (src + j))
      ];
      outside = λ q out. ground (arith, rest.outside q, write_le-outside 8 (dest + 8 * i) word m q);
    }

-- How many bytes `memcpy` copies: all of fewer than eight, and else only whole words.
abbrev pub copied : ℕ → ℕ
copied bytes = if ltb bytes 8 then bytes else bytes / 8 * 8

-- `memcpy` between areas that do not overlap, the source of which holds bytes, returns; it has
-- copied the first `copied bytes` bytes and changed no other byte.
pub memcpy-Copied :
    (dest src bytes : ℕ) (m : Memory)
    → bytes < 2 ^ 64
    → Apart dest src bytes
    → ((x : ℕ) → src ≤ x → x < src + bytes → m x < 256)
    → (g : Memory) × (memcpy dest src bytes m ≡ ok tt g) × Copied dest src 0 (copied bytes) m g
unfolding memcpy
memcpy-Copied dest src bytes m fits apart is_bytes =
    let words = bytes / 8 in
    let left = bytes - words * 8 - words * 8 in
    let g = copy_words words 0 dest src m in
    let copied_words =
      copy_words-Copied words 0 words dest src m (omega arith) (ground arith)
        (λ x lo hi. is_bytes x lo (omega arith)) in
    let copied_bytes =
      copy_bytes-Copied left (words * 8) (copied bytes) dest src g (ground arith) (ground arith) in
    (
      copy_bytes left (words * 8) dest src g,
      steps,
      record {
        inside = λ i lo up. elim (lt-or-le i (8 * words)) [
          | inl early ↦ ground (arith, copied_words.inside i, copied_bytes.outside (dest + i))
          | inr late ↦ ground (arith, copied_bytes.inside i, copied_words.outside (src + i))
        ];
        outside = λ q out. ground (arith, copied_words.outside q, copied_bytes.outside q);
      },
    )
  where
    whole : mul_usize (bytes / 8) 8 ≡ some (bytes / 8 * 8)
    whole = ground arith

    rest : sub_usize bytes (bytes / 8 * 8) ≡ some (bytes - bytes / 8 * 8)
    rest = ground arith

    steps :
        memcpy dest src bytes m
        ≡ ok tt (
            copy_bytes
              (bytes - bytes / 8 * 8 - bytes / 8 * 8)
              (bytes / 8 * 8)
              dest
              src
              (copy_words (bytes / 8) 0 dest src m))
    steps = rw (whole, rest)
