-- ===== src/Alloc/Pages/Print/Tests.antt =====
-- What is printed of a table of three pages, two of them taken.
use corrosion.Prelude.{ℕ, zero, suc, ◌+◌, ◌*◌, ◌/◌, ◌<◌, ◌≡◌, refl, arith, true, false, [], ◌∷◌}
use corrosion.Machine.{Memory, ok, write8}
use corrosion.Alloc.Bytes.{ByteGrainAllocator}
use corrosion.Alloc.PageFlags.{is_taken, is_last}
use corrosion.Alloc.Pages.{Layout, alloc}
use corrosion.Alloc.Pages.Search.{flags}
use corrosion.Alloc.Pages.Table.{IsTable, alloc-IsTable}
use corrosion.Alloc.Pages.Print.{print}
use corrosion.Alloc.Pages.Print.Report.{page_rows, spans, taken_pages, page_print_ends}

abbrev three : Layout
three = record { heap_start = 0x1000; heap_size = 0x3000; memory_end = 0x5000 }

-- The arena begins at page 0.
abbrev arena : ByteGrainAllocator
arena = record { head = 0x2000; alloc = 2; start = 0x2000 }

-- Pages 0 and 1 are a run.
abbrev table : Memory
table = write8 0x1000 1 (write8 0x1001 3 (λ q. 0))

one_run :
    page_rows three arena table (spans three arena table 3 0)
    ≡ record { bga = true; first = 0x2000; last = 0x3fff; pages = 2 } ∷ []
unfolding is_taken is_last write8
one_run = refl

table-IsTable : IsTable three table
unfolding is_taken is_last write8
table-IsTable = record { free = free; goes_on = goes_on }
  where
    free :
        (k : ℕ)
        → k < 3
        → is_taken (flags three table k) ≡ false
        → is_last (flags three table k) ≡ false
    free zero lt h = cc
    free (suc zero) lt h = cc
    free (suc (suc zero)) lt h = refl
    free (suc (suc (suc k))) lt h = absurd (omega arith)

    goes_on :
        (k : ℕ)
        → k < 3
        → is_taken (flags three table k) ≡ true
        → is_last (flags three table k) ≡ false
        → (k + 1 < 3) × (is_taken (flags three table (k + 1)) ≡ true)
    goes_on zero lt h more = (omega arith, refl)
    goes_on (suc zero) lt h more = cc
    goes_on (suc (suc zero)) lt h more = cc
    goes_on (suc (suc (suc k))) lt h more = absurd (omega arith)

page_print_ends_example :
    print three arena 4 table
    ≡ ok
        (record {
          metadata_end = 0x1003;
          metadata_pages = 1;
          avail_pages = 3;
          rows = page_rows three arena table (spans three arena table 3 0);
          num = taken_pages three arena table 3 0;
          percent = taken_pages three arena table 3 0 * 100 / 3;
        })
        table
page_print_ends_example =
    page_print_ends three arena table table-IsTable (omega arith) 4 (omega arith) (omega arith)
      (omega arith)

alloc-IsTable_example :
    (ptr : ℕ) × (g : Memory) × (alloc three 0x2000 1 table ≡ ok ptr g) × IsTable three g
alloc-IsTable_example =
    alloc-IsTable three 0x2000 1 table (omega arith) (omega arith) (omega arith) table-IsTable
