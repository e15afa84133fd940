-- ===== src/Alloc/Pages/Print.antt =====
-- `print` of `PageGrainAllocator`: a row for each run of taken pages, and the counts below them. The
-- fuel bounds the rounds of both loops; the inner one ends only at a flag for a last page.
pub mod Report
mod Tests
use corrosion.Prelude.{ℕ, zero, suc, ◌+◌, ◌*◌, ◌/◌, Bool, List, [], ◌∷◌, ltb, ◌==◌, if◌then◌else◌}
use corrosion.Machine.{
  Memory, Cmd, pure, lift, ◌>>=◌, ◌>>◌, out_of_fuel, add_usize, sub_usize, mul_usize, div_usize,
}
use corrosion.Alloc.Bytes.{ByteGrainAllocator, page_size}
use corrosion.Alloc.PageFlags.{is_taken, is_last}
use corrosion.Alloc.Pages.{Layout, num_pages}

-- A printed run: whether it is the byte-grain allocator's arena, its first and last byte, its pages.
pub record PageRow : Type 0 where
  pub bga : Bool
  pub first : ℕ
  pub last : ℕ
  pub pages : ℕ

-- What the inner loop leaves: the last two numbers of the row, and the variables `beg` and `num`.
pub record RunEnd : Type 0 where
  pub last : ℕ
  pub pages : ℕ
  pub beg : ℕ
  pub num : ℕ

pub record PageReport : Type 0 where
  pub metadata_end : ℕ
  pub metadata_pages : ℕ
  pub avail_pages : ℕ
  pub rows : List PageRow
  pub num : ℕ
  pub percent : ℕ

-- A byte of memory.
abbrev pub load8 : ℕ → Cmd ℕ
load8 p m = pure (m p) m

module _ (l : Layout) (a : ByteGrainAllocator) where
  -- `BYTE_GRAIN_ALLOC.get_start() + (beg - HEAP_START) * PAGE_SIZE`
  abbrev pub memaddr : ℕ → Cmd ℕ
  memaddr beg = do
    offset ← lift (sub_usize beg l.heap_start)
    bytes ← lift (mul_usize offset page_size)
    lift (add_usize a.start bytes)

  -- The inner loop; `start` is the run's first flag.
  unfoldable pub run_loop : (fuel start beg num : ℕ) → Cmd RunEnd
  run_loop zero start beg num = λ m. out_of_fuel
  run_loop (suc fuel) start beg num = do
    counted ← lift (add_usize num 1)
    flags ← load8 beg
    if is_last flags
        then (do
          at ← memaddr beg
          over ← lift (add_usize at page_size)
          last ← lift (sub_usize over 1)
          less ← lift (sub_usize beg start)
          pages ← lift (add_usize less 1)
          pure (record { last = last; pages = pages; beg = beg; num = counted }))
        else run_loop fuel start (beg + 1) counted

  -- The outer loop: the rows from `beg` on, and `num` after the last of them.
  unfoldable pub print_loop : (fuel beg num : ℕ) → Cmd (List PageRow × ℕ)
  unfolding run_loop
  print_loop zero beg num = λ m. out_of_fuel
  print_loop (suc fuel) beg num =
      if ltb beg (l.heap_start + num_pages l)
      then (do
        flags ← load8 beg
        if is_taken flags
            then (do
              at ← memaddr beg
              run ← run_loop fuel beg beg num
              rest ← print_loop fuel (run.beg + 1) run.num
              let row : PageRow = record {
                bga = at == a.head;
                first = at;
                last = run.last;
                pages = run.pages;
              }
              pure (row ∷ rest.0, rest.1))
            else print_loop fuel (beg + 1) num)
      else pure ([], num)

  pub print : (fuel : ℕ) → Cmd PageReport
  unfolding print_loop
  print fuel = do
    bytes ← lift (sub_usize l.memory_end a.start)
    metadata ← lift (sub_usize a.start l.heap_start)
    rest ← print_loop fuel l.heap_start 0
    hundredfold ← lift (mul_usize rest.1 100)
    percent ← lift (div_usize hundredfold (bytes / 4096))
    pure (record {
      metadata_end = l.heap_start + num_pages l;
      metadata_pages = metadata / 4096;
      avail_pages = bytes / 4096;
      rows = rest.0;
      num = rest.1;
      percent = percent;
    })
