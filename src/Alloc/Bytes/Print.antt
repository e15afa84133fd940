-- ===== src/Alloc/Bytes/Print.antt =====
-- `print` of `ByteGrainAllocator`: a row for each chunk, and the sums below them.
pub mod Report
mod Tests
use corrosion.Prelude.{
  ℕ, zero, suc, ◌+◌, ◌*◌, ◌/◌, Bool, Option, some, none, List, [], ◌∷◌, ltb, ◌==◌, if◌then◌else◌,
}
use corrosion.Machine.{
  Memory, Cmd, pure, lift, ◌>>=◌, ◌>>◌, out_of_fuel, add_usize, mul_usize, div_usize,
}
use corrosion.Alloc.Flags.{is_taken, get_size}
use corrosion.Alloc.Bytes.{ByteGrainAllocator, page_size, load}

-- A printed chunk: whether it is taken, its first address, the next chunk's, and its bytes.
pub record ByteRow : Type 0 where
  pub taken : Bool
  pub first : ℕ
  pub next : ℕ
  pub bytes : ℕ

pub record ByteReport : Type 0 where
  pub rows : List ByteRow
  pub used_bytes : ℕ
  pub total_bytes : ℕ
  pub percent : ℕ

-- The rows from `head` on, and `used_bytes` and `total_bytes` after the last of them.
unfoldable pub print_loop : (fuel tail head used total : ℕ) → Cmd (List ByteRow × (ℕ × ℕ))
print_loop zero tail head used total = λ m. out_of_fuel
print_loop (suc fuel) tail head used total =
    if ltb head tail
    then (do
      flags ← load head
      let size = get_size flags
      total' ← lift (add_usize total size)
      used' ← lift (if is_taken flags then add_usize used size else some used)
      rest ← print_loop fuel tail (head + size) used' total'
      let row : ByteRow = record {
        taken = is_taken flags;
        first = head;
        next = head + size;
        bytes = size;
      }
      pure (row ∷ rest.0, rest.1))
    else pure ([], (used, total))

-- A round passes at least a header, so a round for each byte is enough.
pub print : ByteGrainAllocator → Cmd ByteReport
unfolding print_loop
print self = do
  bytes ← lift (mul_usize self.alloc page_size)
  rest ← print_loop (bytes + 1) (self.head + bytes) self.head 0 0
  let (used, total) = rest.1
  percent ← lift (div_usize used total)
  pure (record { rows = rest.0; used_bytes = used; total_bytes = total; percent = percent })
