-- ===== src/Alloc/Pages/Tests.antt =====
-- Runs of the page-grain allocator on a heap of eight pages, and its theorems there.
use corrosion.Prelude.{ℕ, ◌≡◌, refl, arith}
use corrosion.Machine.{Memory, Run, ok, write8}
use corrosion.Alloc.PageFlags.{is_taken, is_free, set_flag}
use corrosion.Alloc.Pages.{Layout, alloc, zalloc}
use corrosion.Alloc.Pages.Search.{PagesOutcome, alloc-PagesOutcome}
use corrosion.Alloc.Pages.Zeroed.{ZeroedPages, zalloc-ZeroedPages}

abbrev eight : Layout
eight = record { heap_start = 0x1000; heap_size = 0x8000; memory_end = 0x9000 }

-- Page 1 is taken.
abbrev table : Memory
table = write8 0x1001 3 (λ q. 0)

abbrev address_of : Run ℕ → ℕ
address_of (ok a m) = a
address_of _ = 1

two_pages : address_of (alloc eight 0x2000 2 table) ≡ 0x4000
unfolding alloc is_free is_taken set_flag write8
two_pages = refl

alloc-PagesOutcome_example : PagesOutcome eight 0x2000 2 table (alloc eight 0x2000 2 table)
alloc-PagesOutcome_example =
    alloc-PagesOutcome eight 0x2000 2 table (omega arith) (omega arith) (omega arith)

zalloc-ZeroedPages_example : ZeroedPages eight 0x2000 2 table (zalloc eight 0x2000 2 table)
zalloc-ZeroedPages_example =
    zalloc-ZeroedPages eight 0x2000 2 table (omega arith) (omega arith) (omega arith) (omega arith)
