-- ===== src/Memory.antt =====
-- memory.rs: `align_val` and `memcpy`.
pub mod Align
pub mod Copy
mod Tests
use corrosion.Prelude.{
  ℕ, zero, suc, ◌+◌, ◌-◌, ◌*◌, ◌/◌, ◌^◌, bit_and, Option, none, some, leb, if◌then◌else◌,
}
use corrosion.Machine.{
  Memory, Cmd, change, pure, ◌>>=◌, ◌>>◌, lift, read64, write64, write8, not64, add_usize,
  sub_usize, mul_usize,
}
use mathlib.Core.Option

-- `none` is a panic: a shift by the word's width or more, or an overflow of `val + o`.
unfoldable pub align_val : ℕ → ℕ → Option ℕ
unfolding Option.bind
align_val val order =
    if leb 64 order
    then none
    else let o = 2 ^ order - 1 in Option.bind (add_usize val o) (λ s. some (bit_and s (not64 o)))

-- `*(dest_as_8.add(i)) = *(src_as_8.add(i))` for `left` values of `i`, from `i` on.
copy_words : ℕ → ℕ → ℕ → ℕ → Memory → Memory
copy_words zero i dest src m = m
copy_words (suc left) i dest src m =
    copy_words left (i + 1) dest src (write64 (dest + 8 * i) (read64 (src + 8 * i) m) m)

copy_bytes : ℕ → ℕ → ℕ → ℕ → Memory → Memory
copy_bytes zero i dest src m = m
copy_bytes (suc left) i dest src m =
    copy_bytes left (i + 1) dest src (write8 (dest + i) (m (src + i)) m)

-- The second loop runs over `bytes_completed..bytes_remaining`, as the source has it: a Rust range
-- whose end is not above its start is empty, as the truncated difference is 0.
unfoldable pub memcpy : ℕ → ℕ → ℕ → Cmd (Unit {0})
unfolding copy_words copy_bytes
memcpy dest src bytes = do
  let bytes_as_8 = bytes / 8
  change (copy_words bytes_as_8 0 dest src)
  bytes_completed ← lift (mul_usize bytes_as_8 8)
  bytes_remaining ← lift (sub_usize bytes bytes_completed)
  change (copy_bytes (bytes_remaining - bytes_completed) bytes_completed dest src)
