-- ===== src/Alloc/Pages/Print/Report.antt =====
-- The rows of the page table's `print`, in terms of the runs of taken pages.
use native.Mathlib.Nat.{add_assoc}
use corrosion.Prelude.{
  ℕ, zero, suc, ◌+◌, ◌-◌, ◌*◌, ◌/◌, ◌^◌, ◌≤◌, ◌<◌, ◌≡◌, refl, inl, inr, arith, true, false, List,
  [], ◌∷◌, ◌==◌, if◌then◌else◌, Bool-cases, lt→ltb, le→ltb, le→leb,
}
use corrosion.Machine.{Memory, ok}
use corrosion.Alloc.Bytes.{ByteGrainAllocator, page_size}
use corrosion.Alloc.PageFlags.{is_taken, is_last}
use corrosion.Alloc.Pages.{Layout, num_pages}
use corrosion.Alloc.Pages.Search.{flags}
use corrosion.Alloc.Pages.Table.{IsTable}
use corrosion.Alloc.Pages.Print.{PageRow, memaddr, run_loop, print_loop, print}

-- A run that begins one page earlier.
abbrev pub grow : ℕ → List (ℕ × ℕ) → List (ℕ × ℕ)
grow i [] = (i, 1) ∷ []
grow i ((j, n) ∷ rs) = (i, suc n) ∷ rs

module _ (l : Layout) (a : ByteGrainAllocator) (m : Memory) where
  -- The runs among `left` pages from page `i` on, as first page and number of pages.
  abbrev pub spans : (left i : ℕ) → List (ℕ × ℕ)
  spans zero i = []
  spans (suc left) i =
      let rest = spans left (i + 1) in
      if is_taken (flags l m i)
      then (if is_last (flags l m i) then (i, 1) ∷ rest else grow i rest)
      else rest

  abbrev pub taken_pages : (left i : ℕ) → ℕ
  taken_pages zero i = 0
  taken_pages (suc left) i =
      let rest = taken_pages left (i + 1) in if is_taken (flags l m i) then suc rest else rest

  -- The row of a run, and the rows of several.
  abbrev pub page_row : ℕ → ℕ → PageRow
  page_row i n = record {
    bga = a.start + page_size * i == a.head;
    first = a.start + page_size * i;
    last = a.start + page_size * (i + n) - 1;
    pages = n;
  }

  abbrev pub page_rows : List (ℕ × ℕ) → List PageRow
  page_rows [] = []
  page_rows ((i, n) ∷ rs) = page_row i n ∷ page_rows rs

  -- What the inner loop does from page `i` of a run that begins at page `s`.
  record RunsTo (left fuel s i num : ℕ) : Type 0 where
    n : ℕ
    left' : ℕ
    fits : i + suc n + left' ≡ num_pages l
    returns :
        run_loop l a fuel (l.heap_start + s) (l.heap_start + i) num m
        ≡ ok
            (record {
              last = a.start + page_size * (i + suc n) - 1;
              pages = i + suc n - s;
              beg = l.heap_start + (i + n);
              num = num + suc n;
            })
            m
    runs : spans left i ≡ (i, suc n) ∷ spans left' (i + suc n)
    counts : taken_pages left i ≡ suc n + taken_pages left' (i + suc n)

  module _ (table : IsTable l m) (bounded : a.start + page_size * num_pages l < 2 ^ 64) where
    memaddr-some :
        (i : ℕ)
        → i < num_pages l
        → memaddr l a (l.heap_start + i) m ≡ ok (a.start + page_size * i) m
    memaddr-some i lt =
        let offset : l.heap_start + i - l.heap_start ≡ i = omega arith in
        let turned : i * page_size ≡ page_size * i = omega arith in
        rw
          (
            le→leb l.heap_start (l.heap_start + i) (omega arith),
            offset,
            lt→ltb (i * page_size) (2 ^ 64) (omega arith),
            turned,
            lt→ltb (a.start + page_size * i) (2 ^ 64) (omega arith),
          )
          refl

    shifted : (i n : ℕ) → i + 1 + suc n ≡ i + suc (suc n)
    shifted i n = omega arith

    one_on : (i n : ℕ) → i + 1 + n ≡ i + suc n
    one_on i n = omega arith

    next_flag : (i n : ℕ) → l.heap_start + (i + n) + 1 ≡ l.heap_start + (i + suc n)
    next_flag i n = omega arith

    length_of : (i n : ℕ) → i + suc n - i ≡ suc n
    length_of i n = omega arith

    here_returns :
        (fuel s i num : ℕ)
        → i < num_pages l
        → s ≤ i
        → num + 1 < 2 ^ 64
        → is_last (flags l m i) ≡ true
        → run_loop l a (suc fuel) (l.heap_start + s) (l.heap_start + i) num m
          ≡ ok
              (record {
                last = a.start + page_size * (i + 1) - 1;
                pages = i + 1 - s;
                beg = l.heap_start + (i + 0);
                num = num + 1;
              })
              m
    unfolding run_loop
    here_returns fuel s i num lt from small closed =
        let at : a.start + page_size * i + page_size ≡ a.start + page_size * (i + 1) =
          omega arith in
        let less : l.heap_start + i - (l.heap_start + s) ≡ i - s = omega arith in
        let pages : i - s + 1 ≡ i + 1 - s = omega arith in
        let here : i + 0 ≡ i = omega arith in
        rw
          (
            lt→ltb (num + 1) (2 ^ 64) small,
            closed,
            memaddr-some i lt,
            lt→ltb (a.start + page_size * i + page_size) (2 ^ 64) (omega arith),
            at,
            le→leb 1 (a.start + page_size * (i + 1)) (omega arith),
            le→leb (l.heap_start + s) (l.heap_start + i) (omega arith),
            less,
            lt→ltb (i - s + 1) (2 ^ 64) (omega arith),
            pages,
            here,
          )
          refl

    run_loop-RunsTo :
        (left fuel s i num : ℕ)
        → left ≤ fuel
        → i + left ≡ num_pages l
        → i < num_pages l
        → s ≤ i
        → num + left < 2 ^ 64
        → is_taken (flags l m i) ≡ true
        → RunsTo left fuel s i num
    unfolding run_loop
    run_loop-RunsTo zero fuel s i num le e lt from small taken = absurd (omega arith)
    run_loop-RunsTo (suc left) zero s i num le e lt from small taken = absurd (omega arith)
    run_loop-RunsTo (suc left) (suc fuel) s i num le e lt from small taken =
        elim (Bool-cases (is_last (flags l m i))) [
          | inl closed ↦ record {
            n = 0;
            left' = left;
            fits = omega arith;
            returns = here_returns fuel s i num lt from (omega arith) closed;
            runs = rw (taken, closed) refl;
            counts = ground arith;
          }
          | inr more ↦
              let (room, next) = table.goes_on i lt taken more in
              let rest =
                run_loop-RunsTo left fuel s (i + 1) (num + 1) (omega arith) (omega arith) room
                  (omega arith) (omega arith) next in
              record {
                n = suc rest.n;
                left' = rest.left';
                fits = omega (arith, rest.fits);
                returns =
                    rw
                      (
                        run_loop,
                        lt→ltb (num + 1) (2 ^ 64) (omega arith),
                        more,
                        add_assoc l.heap_start i 1,
                        rest.returns,
                        shifted i rest.n,
                        shifted num rest.n,
                        one_on i rest.n,
                      )
                      refl;
                runs = rw (taken, more, rest.runs) (ground arith);
                counts = ground (arith, rest.counts);
              }
        ]

    pub print_loop-rows :
        (fuel left i num : ℕ)
        → left < fuel
        → i + left ≡ num_pages l
        → num + left < 2 ^ 64
        → print_loop l a fuel (l.heap_start + i) num m
          ≡ ok (page_rows (spans left i), num + taken_pages left i) m
    unfolding print_loop
    print_loop-rows zero left i num le e small = absurd (omega arith)
    print_loop-rows (suc fuel) zero i num le e small =
        rw (print_loop, le→ltb (l.heap_start + i) (l.heap_start + num_pages l) (omega arith))
          (ground arith)
    print_loop-rows (suc fuel) (suc left) i num le e small =
        elim (Bool-cases (is_taken (flags l m i))) [
          | inl taken ↦
              let run =
                run_loop-RunsTo (suc left) fuel i i num (omega arith) e (omega arith) (omega arith)
                  small taken in
              let rest =
                print_loop-rows fuel run.left' (i + suc run.n) (num + suc run.n)
                  (omega (arith, run.fits)) run.fits (omega (arith, run.fits)) in
              rw
                (
                  print_loop,
                  lt→ltb (l.heap_start + i) (l.heap_start + num_pages l) (omega arith),
                  taken,
                  memaddr-some i (omega arith),
                  run.returns,
                  next_flag i run.n,
                  rest,
                  length_of i run.n,
                )
                (ground (arith, run.runs, run.counts))
          | inr free ↦
              rw
                (
                  print_loop,
                  lt→ltb (l.heap_start + i) (l.heap_start + num_pages l) (omega arith),
                  free,
                  add_assoc l.heap_start i 1,
                  print_loop-rows fuel left (i + 1) num (omega arith) (omega arith) (omega arith),
                )
                (ground arith)
        ]

    taken_pages-le : (left i : ℕ) → taken_pages left i ≤ left
    taken_pages-le zero i = omega arith
    taken_pages-le (suc left) i = ground (arith, taken_pages-le left (i + 1))

    -- On a well-formed table, with a page or more between the first page and the end of memory, and
    -- page addresses that do not overflow, `print` ends within a round for each page and one more, and
    -- changes nothing. Its rows are the runs of taken pages in order, from the first byte to the last,
    -- and it counts the taken pages.
    pub page_print_ends :
        (fuel : ℕ)
        → num_pages l < fuel
        → l.heap_start ≤ a.start
        → a.start + page_size ≤ l.memory_end
        → print l a fuel m
          ≡ ok
              (record {
                metadata_end = l.heap_start + num_pages l;
                metadata_pages = (a.start - l.heap_start) / 4096;
                avail_pages = (l.memory_end - a.start) / 4096;
                rows = page_rows (spans (num_pages l) 0);
                num = taken_pages (num_pages l) 0;
                percent = taken_pages (num_pages l) 0 * 100 / ((l.memory_end - a.start) / 4096);
              })
              m
    unfolding print
    page_print_ends fuel enough low high =
        let nonzero : ((l.memory_end - a.start) / 4096 == 0) ≡ false = ground arith in
        let taken = taken_pages (num_pages l) 0 in
        let first : l.heap_start + 0 ≡ l.heap_start = omega arith in
        let rows = print_loop-rows fuel (num_pages l) 0 0 enough (omega arith) (omega arith) in
        let all : 0 + taken ≡ taken = omega arith in
        let found : print_loop l a fuel l.heap_start 0 m
            ≡ ok (page_rows (spans (num_pages l) 0), taken) m =
          rw (first, all) at rows in
        rw
          (
            le→leb a.start l.memory_end (omega arith),
            le→leb l.heap_start a.start low,
            found,
            lt→ltb (taken * 100) (2 ^ 64) (omega (arith, taken_pages-le (num_pages l) 0)),
            nonzero,
          )
          refl
