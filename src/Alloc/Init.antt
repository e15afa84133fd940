-- ===== src/Alloc/Init.antt =====
-- The start of both allocators and the public functions of alloc.rs. The statics
-- `PAGE_GRAIN_ALLOC` (which has no fields) and `BYTE_GRAIN_ALLOC` are passed explicitly.
pub mod Boot
pub mod Debug
pub mod Sound
mod Tests
use corrosion.Prelude.{ℕ, ◌+◌, ◌*◌, Bool, ◌==◌, if◌then◌else◌, Option}
use corrosion.Machine.{Memory, null, Cmd, panic, pure, lift, ◌>>=◌, ◌>>◌, add_usize, mul_usize}
use corrosion.Memory.{align_val}
use corrosion.Alloc.Flags.{set_free, set_size}
use corrosion.Alloc.Bytes.{ByteGrainAllocator, page_size, modify, kmalloc, kzmalloc, kfree}
use corrosion.Alloc.Bytes.Print as BytePrint
use corrosion.Alloc.Bytes.Print.{ByteReport}
use corrosion.Alloc.Pages.Print as PagePrint
use corrosion.Alloc.Pages.Print.{PageReport}
use corrosion.Alloc.Pages
use corrosion.Alloc.Pages.{Layout, num_pages}

abbrev pub page_order : ℕ
page_order = 12

-- `size_of::<PageGrainFlags>()`
abbrev pub page_flags_size : ℕ
page_flags_size = 1

-- The pages of the byte-grain allocator's arena.
abbrev pub arena_pages : ℕ
arena_pages = 512

-- The end of `ByteGrainAllocator::init`, from its assertion on.
unfoldable pub place_arena : ℕ → ℕ → Cmd ByteGrainAllocator
place_arena start k_alloc = if k_alloc == null then (λ m. panic) else (do
  modify set_free k_alloc
  bytes ← lift (mul_usize arena_pages page_size)
  modify (set_size bytes) k_alloc
  pure (record { head = k_alloc; alloc = arena_pages; start = start }))

-- `ByteGrainAllocator::init`; the result is the static as it is afterwards.
unfoldable pub byte_grain_init : Layout → Cmd ByteGrainAllocator
unfolding place_arena
byte_grain_init l = do
  table ← lift (mul_usize (num_pages l) page_flags_size)
  table_end ← lift (add_usize l.heap_start table)
  start ← lift (align_val table_end page_order)
  k_alloc ← Pages.zalloc l start arena_pages
  place_arena start k_alloc

pub init : Layout → Cmd ByteGrainAllocator
unfolding byte_grain_init
init l = do Pages.init l; byte_grain_init l

pub alloc_pages : Layout → ByteGrainAllocator → ℕ → Cmd ℕ
alloc_pages l a pages = Pages.alloc l a.start pages

unfoldable pub alloc_pages_zeroed : Layout → ByteGrainAllocator → ℕ → Cmd ℕ
alloc_pages_zeroed l a pages = Pages.zalloc l a.start pages

pub alloc_bytes_zeroed : ByteGrainAllocator → ℕ → Cmd ℕ
alloc_bytes_zeroed a sz = kzmalloc a sz

unfoldable pub alloc_bytes : ByteGrainAllocator → ℕ → Cmd ℕ
alloc_bytes a sz = kmalloc a sz

unfoldable pub free_bytes : ByteGrainAllocator → ℕ → Cmd (Unit {0})
free_bytes a ptr = kfree a ptr

-- `alloc` and `dealloc` of `GlobalAlloc for OsGlobalAlloc`; of a layout only the size is used.
pub global_alloc : ByteGrainAllocator → (size align : ℕ) → Cmd ℕ
unfolding alloc_bytes_zeroed
global_alloc a size align = alloc_bytes_zeroed a size

pub global_dealloc : ByteGrainAllocator → (ptr size align : ℕ) → Cmd (Unit {0})
unfolding free_bytes
global_dealloc a ptr size align = free_bytes a ptr

-- The fuel is that of the page table's `print`.
pub debug_heap : Layout → ByteGrainAllocator → (fuel : ℕ) → Cmd (PageReport × ByteReport)
debug_heap l a fuel = do
  pages ← PagePrint.print l a fuel
  bytes ← BytePrint.print a
  pure (pages, bytes)
