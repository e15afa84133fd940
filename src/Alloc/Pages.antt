-- ===== src/Alloc/Pages.antt =====
-- `PageGrainAllocator` of alloc.rs: a table of flag bytes from the heap's start, one for each page,
-- and a first-fit search in it.
pub mod Search
pub mod Table
pub mod Zeroed
pub mod Print
mod Tests
use corrosion.Prelude.{
  ℕ, zero, suc, ◌+◌, ◌-◌, ◌*◌, ◌/◌, Bool, true, false, ◌&&◌, ◌==◌, if◌then◌else◌,
}
use corrosion.Machine.{
  Memory, null, Cmd, panic, pure, lift, ◌>>=◌, ◌>>◌, change, write8, write64, add_usize, sub_usize,
  mul_usize,
}
use corrosion.Alloc.Bytes.{page_size}
use corrosion.Alloc.PageFlags.{page_flag_taken, page_flag_last, is_taken, is_free, set_flag, clear}

-- The symbols that the linker script defines.
pub record Layout : Type 0 where
  pub heap_start : ℕ
  pub heap_size : ℕ
  pub memory_end : ℕ

abbrev pub num_pages : Layout → ℕ
num_pages l = l.heap_size / page_size

-- `(*ptr.add(i)).set_flag(flag)` and `clear()`, on the flag byte of page `i`.
abbrev pub change_flags : Layout → (ℕ → ℕ) → ℕ → Memory → Memory
change_flags l f i m = write8 (l.heap_start + i) (f (m (l.heap_start + i))) m

init_loop : Layout → ℕ → ℕ → Memory → Memory
init_loop l zero i m = m
init_loop l (suc left) i m = init_loop l left (i + 1) (change_flags l clear i m)

pub init : Layout → Cmd (Unit {0})
unfolding init_loop
init l = change (init_loop l (num_pages l) 0)

-- The inner loop of `alloc`, from page `j` on: whether it runs to its end.
none_taken : Layout → ℕ → ℕ → Memory → Bool
none_taken l zero j m = true
none_taken l (suc left) j m =
    if is_taken (m (l.heap_start + j)) then false else none_taken l left (j + 1) m

mark : Layout → ℕ → ℕ → Memory → Memory
mark l zero k m = m
mark l (suc left) k m = mark l left (k + 1) (change_flags l (set_flag page_flag_taken) k m)

-- The outer loop from page `i` on, with `left` rounds to go; `start` is where the pages begin.
search : Layout → (start pages left i : ℕ) → Cmd ℕ
search l start pages zero i m = pure null m
search l start pages (suc left) i m =
    let rest = search l start pages left (i + 1) m in
    if is_free (m (l.heap_start + i)) && none_taken l pages i m
    then (do
      change (mark l pages i)
      change (change_flags l (set_flag page_flag_last) (i + pages - 1))
      offset ← lift (mul_usize page_size i)
      lift (add_usize start offset))
        m
    else rest

-- `start` is `BYTE_GRAIN_ALLOC.get_start()`.
pub alloc : Layout → ℕ → ℕ → Cmd ℕ
unfolding search none_taken mark
alloc l start pages =
    if pages == 0
    then (λ m. panic)
    else (do last ← lift (sub_usize (num_pages l) pages); search l start pages (last + 1) 0)

-- `*big_ptr.add(i) = 0` for `left` values of `i`.
zero_words : ℕ → ℕ → ℕ → Memory → Memory
zero_words zero i p m = m
zero_words (suc left) i p m = zero_words left (i + 1) p (write64 (p + 8 * i) 0 m)

-- The rest of `zalloc`, on the pointer that `alloc_pages` has returned.
unfoldable pub zero_pages : ℕ → ℕ → Cmd ℕ
unfolding zero_words
zero_pages pages ret = if ret == null then pure ret else (do
  bytes ← lift (mul_usize page_size pages)
  change (zero_words (bytes / 8) 0 ret)
  pure ret)

pub zalloc : Layout → ℕ → ℕ → Cmd ℕ
unfolding alloc zero_pages
zalloc l start pages = do ret ← alloc l start pages; zero_pages pages ret
