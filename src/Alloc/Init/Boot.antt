-- ===== src/Alloc/Init/Boot.antt =====
-- The table of flags and the arena after `init`.
use corrosion.Prelude.{
  ℕ, ◌+◌, ◌*◌, ◌/◌, ◌^◌, ◌≤◌, ◌<◌, ◌≡◌, refl, ap, ◌∙◌, inl, inr, arith, true, false, ◌==◌, [], ◌∷◌,
  lt→ltb, lt-or-le,
}
use corrosion.Machine.{Memory, null, Run, ok, after, read64, write64}
use corrosion.Machine.Words.{write_le-outside}
use corrosion.Memory.Align.{align_val-some}
use corrosion.Alloc.Flags.{header, set_free, set_size, set_size-set_free}
use corrosion.Alloc.PageFlags.{is_taken}
use corrosion.Alloc.Bytes.{ByteGrainAllocator, page_size}
use corrosion.Alloc.Bytes.Chunks.{chunk}
use corrosion.Alloc.Bytes.Malloc.{Arena}
use corrosion.Alloc.Bytes.TakeChunk.{header-lt, read-modify, set_free-lt}
use corrosion.Alloc.Bytes.Zeroed.{IsZeroed}
use corrosion.Alloc.Pages
use corrosion.Alloc.Pages.{Layout, num_pages}
use corrosion.Alloc.Pages.Search.{flags, SomeTaken, PagesTaken}
use corrosion.Alloc.Pages.Table.{IsTable, IsTable-empty, IsTable-same, PagesTaken-IsTable}
use corrosion.Alloc.Pages.Zeroed.{ZeroedPages, none_free, zeroed, zalloc-ZeroedPages, init-Cleared}
use corrosion.Alloc.Init.{arena_pages, place_arena, byte_grain_init, init}

-- Where the pages begin: the end of the flag table, rounded up to a page.
abbrev pub first_page : Layout → ℕ
first_page l = (l.heap_start + num_pages l + 4095) / 4096 * 4096

-- A heap that has room for the arena, at addresses below 2^63.
pub record IsLayout (l : Layout) : Type 0 where
  pub large : arena_pages ≤ num_pages l
  pub bounded : l.heap_start + num_pages l + 4096 + page_size * num_pages l < 2 ^ 63

-- The state of both allocators after `init`.
pub record Booted (l : Layout) (m : Memory) (a : ByteGrainAllocator) (g : Memory) : Type 0 where
  pub head : a.head ≡ first_page l
  pub start : a.start ≡ first_page l
  pub arena : Arena a (chunk false (page_size * arena_pages) ∷ []) g
  pub taken : (k : ℕ) → k < arena_pages → is_taken (flags l g k) ≡ true
  pub table : IsTable l g
  pub free : (k : ℕ) → arena_pages ≤ k → k < num_pages l → flags l g k ≡ 0
  pub outside : (q : ℕ) → q < l.heap_start → g q ≡ m q

-- On an empty table no run has a taken page.
not-SomeTaken :
    (l : Layout) (m : Memory) (i j : ℕ)
    → ((k : ℕ) → k < num_pages l → flags l m k ≡ 0)
    → j ≤ num_pages l
    → ¬ SomeTaken l i j m
unfolding is_taken
not-SomeTaken l m i j empty le (k, lo, hi, taken) = ground (arith, empty k)

module _ (l : Layout) (layout : IsLayout l) (m : Memory)
    (empty : (k : ℕ) → k < num_pages l → flags l m k ≡ 0) where
  -- The first run of an empty table is at its start.
  i-zero : {g : Memory} {ptr : ℕ} (t : PagesTaken l (first_page l) arena_pages m g ptr) → t.i ≡ 0
  i-zero t = elim (lt-or-le 0 t.i) [
    | inl later ↦ absurd (not-SomeTaken l m 0 arena_pages empty layout.large (t.first 0 later))
    | inr first ↦ omega arith
  ]

  module _ {g z : Memory} {ptr : ℕ} (t : PagesTaken l (first_page l) arena_pages m g ptr)
      (zeros : IsZeroed ptr (ptr + page_size * arena_pages) g z) where
    at_start : ptr ≡ first_page l
    at_start = omega (arith, t.address, i-zero t)

    cleared : Memory
    cleared = write64 ptr (set_free (read64 ptr z)) z

    placed : Memory
    placed = write64 ptr (set_size (page_size * arena_pages) (read64 ptr cleared)) cleared

    arena_header : read64 ptr placed ≡ header false (page_size * arena_pages)
    unfolding placed cleared
    arena_header =
        read-modify (set_size (page_size * arena_pages)) ptr
          (header false (page_size * arena_pages)) cleared
          (rw (read-modify set_free ptr _ z refl (set_free-lt (read64 ptr z)))
            (set_size-set_free (page_size * arena_pages) (read64 ptr z) (omega arith)))
          (header-lt false (page_size * arena_pages) (omega arith))

    -- Nothing below the pages changes after the search.
    below : (q : ℕ) → q < first_page l → placed q ≡ g q
    unfolding placed cleared
    below q lt =
        write_le-outside 8 ptr (set_size (page_size * arena_pages) (read64 ptr cleared)) cleared q
          (inl (omega (arith, at_start)))
        ∙ write_le-outside 8 ptr (set_free (read64 ptr z)) z q (inl (omega (arith, at_start)))
        ∙ zeros.outside q (inl (omega (arith, at_start)))

    steps :
        place_arena (first_page l) ptr z
        ≡ ok (record { head = ptr; alloc = arena_pages; start = first_page l }) placed
    unfolding place_arena placed cleared
    steps =
        let nonzero : (ptr == null) ≡ false = ground (arith, at_start, layout.large) in rw nonzero

    placed-Booted :
        Booted l m (record { head = ptr; alloc = arena_pages; start = first_page l }) placed
    placed-Booted = record {
      head = at_start;
      start = refl;
      arena = record {
        chunks = (arena_header, omega arith, omega arith, refl);
        bounded = omega (arith, at_start, layout.large, layout.bounded);
      };
      taken = λ k lt.
          ap is_taken (below (l.heap_start + k) (omega (arith, layout.large)))
          ∙ t.taken k (omega (arith, i-zero t)) (omega (arith, i-zero t));
      table =
          IsTable-same l g placed (λ k lt. below (l.heap_start + k) (omega arith))
            (PagesTaken-IsTable l (omega arith) (IsTable-empty l m empty) t);
      free = λ k lo hi.
          below (l.heap_start + k) (omega arith)
          ∙ t.outside (l.heap_start + k) (inr (omega (arith, i-zero t)))
          ∙ empty k hi;
      outside = λ q lt. below q (omega arith) ∙ t.outside q (inl (omega arith));
    }

  place_arena-Booted :
      (r : Run ℕ)
      → ZeroedPages l (first_page l) arena_pages m r
      → (a : ByteGrainAllocator) × (g : Memory) × (after r (place_arena (first_page l)) ≡ ok a g)
        × Booted l m a g
  place_arena-Booted r (none_free all) =
      absurd (not-SomeTaken l m 0 arena_pages empty layout.large (all 0 layout.large))
  place_arena-Booted r (zeroed {z} {ptr} t zeros) = (
    record { head = ptr; alloc = arena_pages; start = first_page l },
    placed t zeros,
    steps t zeros,
    placed-Booted t zeros,
  )

  byte_grain_init-Booted :
      (a : ByteGrainAllocator) × (g : Memory) × (byte_grain_init l m ≡ ok a g) × Booted l m a g
  unfolding byte_grain_init
  byte_grain_init-Booted =
      let one : num_pages l * 1 ≡ num_pages l = omega arith in
      rw
        (
          one,
          lt→ltb (num_pages l) (2 ^ 64) (omega (arith, layout.bounded)),
          lt→ltb (l.heap_start + num_pages l) (2 ^ 64) (omega (arith, layout.bounded)),
          align_val-some (l.heap_start + num_pages l) 12 (omega arith)
              (omega (arith, layout.bounded)),
        )
        (place_arena-Booted (Pages.zalloc l (first_page l) arena_pages m) (
          zalloc-ZeroedPages l (first_page l) arena_pages m (omega arith) layout.large
            (omega (arith, layout.large)) (omega (arith, layout.bounded))))

-- With room for the arena, `init` returns. The byte-grain allocator's arena is then well-formed, one
-- free chunk at the first page; of the page table, which is well-formed, the arena's pages are taken
-- and all others empty; no byte below the heap has changed.
pub init-Booted :
    (l : Layout) (m : Memory)
    → IsLayout l
    → (a : ByteGrainAllocator) × (g : Memory) × (init l m ≡ ok a g) × Booted l m a g
unfolding init
init-Booted l m layout =
    let (c, returns, cleared) = init-Cleared l m in
    let (a, g, boots, booted) =
      byte_grain_init-Booted l layout c (λ k lt. cleared.empty k (omega arith) lt) in
    (
      a,
      g,
      rw returns boots,
      record {
        head = booted.head;
        start = booted.start;
        arena = booted.arena;
        taken = booted.taken;
        table = booted.table;
        free = booted.free;
        outside = λ q lt. booted.outside q lt ∙ cleared.outside q (inl (omega arith));
      },
    )
