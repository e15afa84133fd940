-- ===== src/Alloc/Bytes.antt =====
-- `ByteGrainAllocator` of alloc.rs. The chunks of its arena follow one another from `head`; each
-- begins with a header word that holds its size, header included, and whether it is taken.
pub mod Chunks
pub mod TakeChunk
pub mod Malloc
pub mod Coalesce
pub mod Free
pub mod RoundTrip
pub mod Split
pub mod Used
pub mod Data
pub mod Room
pub mod Find
pub mod Zeroed
pub mod Print
mod Tests
use corrosion.Prelude.{
  ℕ, zero, suc, ◌+◌, ◌-◌, ◌*◌, ◌≤◌, ◌<◌, Bool, ◌&&◌, ◌||◌, Option, ltb, leb, ◌==◌, if◌then◌else◌,
}
use corrosion.Machine.{
  Memory, null, Cmd, pure, lift, ◌>>=◌, ◌>>◌, change, out_of_fuel, read64, write64, write8,
  add_usize, sub_usize, mul_usize,
}
use corrosion.Memory.{align_val}
use corrosion.Alloc.Flags.{is_taken, is_free, set_taken, set_free, set_size, get_size}

pub record ByteGrainAllocator : Type 0 where
  pub head : ℕ
  pub alloc : ℕ
  pub start : ℕ

-- `size_of::<ByteGrainFlags>()`
abbrev pub flags_size : ℕ
flags_size = 8

abbrev pub page_size : ℕ
page_size = 0x1000

abbrev pub load : ℕ → Cmd ℕ
load p m = pure (read64 p m) m

-- `(*p).f()` for a method that changes the header at `p`.
abbrev pub modify : (ℕ → ℕ) → ℕ → Cmd (Unit {0})
modify f p = change (λ m. write64 p (f (read64 p m)) m)

-- The body of the `if` in `kmalloc`: takes the chunk at `head`, and splits off what is left of it if
-- that is larger than a header.
unfoldable pub take_chunk : ℕ → ℕ → ℕ → Cmd ℕ
take_chunk size head chunk_size = do
  rem ← lift (sub_usize chunk_size size)
  modify set_taken head
  if ltb flags_size rem
      then (do
        let next = head + size
        modify set_free next
        modify (set_size rem) next
        modify (set_size size) head)
      else modify (set_size chunk_size) head
  pure (head + flags_size)

unfoldable pub kmalloc_loop : ℕ → ℕ → ℕ → ℕ → Cmd ℕ
kmalloc_loop zero size tail head = λ m. out_of_fuel
kmalloc_loop (suc fuel) size tail head =
    if ltb head tail
    then (do
      flags ← load head
      if is_free flags && leb size (get_size flags)
          then take_chunk size head (get_size flags)
          else kmalloc_loop fuel size tail (head + get_size flags))
    else pure null

-- A round passes at least a header, so a round for each byte is enough.
unfoldable pub kmalloc : ByteGrainAllocator → ℕ → Cmd ℕ
unfolding kmalloc_loop take_chunk
kmalloc self sz = do
  aligned ← lift (align_val sz 3)
  size ← lift (add_usize aligned flags_size)
  bytes ← lift (mul_usize self.alloc page_size)
  kmalloc_loop (bytes + 1) size (self.head + bytes) self.head

-- `for i in 0..size { *ret.add(i) = 0 }`
zero_bytes : ℕ → ℕ → ℕ → Memory → Memory
zero_bytes zero i p m = m
zero_bytes (suc left) i p m = zero_bytes left (i + 1) p (write8 (p + i) 0 m)

pub kzmalloc : ByteGrainAllocator → ℕ → Cmd ℕ
unfolding kmalloc zero_bytes
kzmalloc self sz = do
  size ← lift (align_val sz 3)
  ret ← kmalloc self size
  if ret == null then pure tt else change (zero_bytes size 0 ret)
  pure ret

unfoldable pub coalesce_loop : ℕ → ℕ → ℕ → Cmd (Unit {0})
coalesce_loop zero tail head = λ m. out_of_fuel
coalesce_loop (suc fuel) tail head =
    if ltb head tail
    then (do
      flags ← load head
      let next = head + get_size flags
      if get_size flags == 0 || leb tail next then pure tt else (do
        next_flags ← load next
        if is_free flags && is_free next_flags
            then (do
              sum ← lift (add_usize (get_size flags) (get_size next_flags))
              modify (set_size sum) head)
            else pure tt
        flags' ← load head
        coalesce_loop fuel tail (head + get_size flags')))
    else pure tt

pub coalesce : ByteGrainAllocator → Cmd (Unit {0})
unfolding coalesce_loop
coalesce self = do
  bytes ← lift (mul_usize self.alloc page_size)
  coalesce_loop (bytes + 1) (self.head + bytes) self.head

-- `offset(-1)` on a pointer to a header steps back by a header.
pub kfree : ByteGrainAllocator → ℕ → Cmd (Unit {0})
unfolding coalesce
kfree self ptr = if ptr == null then pure tt else (do
  let p = ptr - flags_size
  flags ← load p
  if is_taken flags then modify set_free p else pure tt
  coalesce self)
