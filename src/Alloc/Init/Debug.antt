-- ===== src/Alloc/Init/Debug.antt =====
-- The memory map of freshly started allocators.
use corrosion.Prelude.{
  ℕ, suc, ◌+◌, ◌-◌, ◌*◌, ◌≤◌, ◌<◌, ◌≡◌, refl, arith, true, false, [], ◌∷◌, zero,
}
use corrosion.Machine.{Memory, ok}
use corrosion.Alloc.PageFlags.{is_taken}
use corrosion.Alloc.Bytes.{ByteGrainAllocator, page_size}
use corrosion.Alloc.Bytes.Print.{ByteReport}
use corrosion.Alloc.Bytes.Print.Report.{byte_print_ends}
use corrosion.Alloc.Pages.{Layout, num_pages}
use corrosion.Alloc.Pages.Search.{flags}
use corrosion.Alloc.Bytes.Print as BytePrint
use corrosion.Alloc.Pages.Print as PagePrint
use corrosion.Alloc.Pages.Print.{PageReport}
use corrosion.Alloc.Pages.Print.Report.{taken_pages, page_print_ends}
use corrosion.Alloc.Init.{arena_pages, init, debug_heap}
use corrosion.Alloc.Init.Boot.{IsLayout, Booted, first_page, init-Booted}

-- What `debug_heap` prints of freshly started allocators: the arena's pages are the taken ones, and no
-- byte of the arena is in use.
pub record FreshMap (l : Layout) (pages : PageReport) (bytes : ByteReport) : Type 0 where
  pub num : pages.num ≡ arena_pages
  pub rows :
      bytes.rows
      ≡ record {
        taken = false;
        first = first_page l;
        next = first_page l + page_size * arena_pages;
        bytes = page_size * arena_pages;
      }
        ∷ []
  pub used_bytes : bytes.used_bytes ≡ 0
  pub total_bytes : bytes.total_bytes ≡ page_size * arena_pages
  pub percent : bytes.percent ≡ 0

module _ (l : Layout) (a : ByteGrainAllocator) (m : Memory) where
  -- The pages `[i, hi)` are taken, and those behind them are free.
  taken_pages-prefix :
      (left i hi : ℕ)
      → ((k : ℕ) → i ≤ k → k < hi → is_taken (flags l m k) ≡ true)
      → ((k : ℕ) → hi ≤ k → k < i + left → is_taken (flags l m k) ≡ false)
      → hi ≤ i + left
      → taken_pages l a m left i ≡ hi - i
  taken_pages-prefix zero i hi taken free le = omega arith
  taken_pages-prefix (suc left) i hi taken free le =
      let rest =
        taken_pages-prefix left (i + 1) hi (λ k lo lt. taken k (omega arith) lt)
          (λ k lo lt. free k lo (omega arith)) (omega arith) in
      ground (arith, rest, taken i, free i)

debug_heap-both :
    (l : Layout) (a : ByteGrainAllocator) (fuel : ℕ) (m : Memory) {pages : PageReport}
    {bytes : ByteReport}
    → PagePrint.print l a fuel m ≡ ok pages m
    → BytePrint.print a m ≡ ok bytes m
    → debug_heap l a fuel m ≡ ok (pages, bytes) m
unfolding debug_heap
debug_heap-both l a fuel m first second = rw (first, second) refl

debug_heap-FreshMap :
    (l : Layout) (a : ByteGrainAllocator) (m g : Memory) (fuel : ℕ)
    → IsLayout l
    → Booted l m a g
    → first_page l + page_size ≤ l.memory_end
    → num_pages l < fuel
    → (pages : PageReport) × (bytes : ByteReport) × (debug_heap l a fuel g ≡ ok (pages, bytes) g)
      × FreshMap l pages bytes
unfolding is_taken
debug_heap-FreshMap l a m g fuel layout booted high enough =
    let size : a.alloc * page_size ≡ page_size * arena_pages =
      omega (arith, booted.arena.chunks.3) in
    let (percent, bytes, unused) = byte_print_ends a _ g booted.arena (omega arith) in
    let pages =
      page_print_ends l a g booted.table (omega (arith, layout.bounded, booted.start)) fuel enough
        (omega (arith, booted.start)) (omega (arith, booted.start)) in
    (
      _,
      _,
      debug_heap-both l a fuel g pages bytes,
      record {
        num =
            taken_pages-prefix l a g (num_pages l) 0 arena_pages (λ k lo lt. booted.taken k lt)
              (λ k lo lt. rw (booted.free k lo (omega arith)) refl) (omega (arith, layout.large));
        rows = rw booted.head refl;
        used_bytes = refl;
        total_bytes = size;
        percent = unused (omega arith);
      },
    )

-- With room for the arena and an end of memory behind the first page, `init` and then `debug_heap` end.
-- The printed map counts the arena's pages as those that are taken, and shows the arena as one free
-- chunk.
pub init-FreshMap :
    (l : Layout) (m : Memory) (fuel : ℕ)
    → IsLayout l
    → first_page l + page_size ≤ l.memory_end
    → num_pages l < fuel
    → (a : ByteGrainAllocator) × (g : Memory) × (pages : PageReport) × (bytes : ByteReport) × (init
          l m
        ≡ ok a g)
      × (debug_heap l a fuel g ≡ ok (pages, bytes) g)
      × FreshMap l pages bytes
init-FreshMap l m fuel layout high enough =
    let (a, g, boots, booted) = init-Booted l m layout in
    let (pages, bytes, prints, fresh) =
      debug_heap-FreshMap l a m g fuel layout booted high enough in
    (a, g, pages, bytes, boots, prints, fresh)
