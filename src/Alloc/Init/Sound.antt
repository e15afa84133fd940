-- ===== src/Alloc/Init/Sound.antt =====
-- The two allocators while pages are taken for others.
use corrosion.Prelude.{
  ℕ, ◌+◌, ◌*◌, ◌≤◌, ◌<◌, ◌≡◌, ap, ◌∙◌, inl, inr, arith, true, false, [], ◌∷◌, lt-or-le,
}
use corrosion.Machine.{Memory, Run, ok, panic, out_of_fuel}
use corrosion.Machine.Words.{read_le-same}
use corrosion.Alloc.PageFlags.{is_taken}
use corrosion.Alloc.Bytes.{ByteGrainAllocator, page_size}
use corrosion.Alloc.Bytes.Chunks.{Heap, Chunks, total-Chunks, chunk}
use corrosion.Alloc.Bytes.Malloc.{Arena}
use corrosion.Alloc.Pages.{Layout, num_pages}
use corrosion.Alloc.Pages.Search.{flags, PagesTaken}
use corrosion.Alloc.Pages.Table.{IsTable, IsTable-same, PagesTaken-IsTable}
use corrosion.Alloc.Pages.Zeroed.{ZeroedPages, none_free, zeroed}
use corrosion.Alloc.Init.{arena_pages}
use corrosion.Alloc.Init.Boot.{IsLayout, Booted, first_page}

-- The page table is well-formed, and the pages of the byte-grain allocator's arena, the first ones, are
-- taken and hold the chunks `cs`.
pub record Sound (l : Layout) (a : ByteGrainAllocator) (cs : Heap) (m : Memory) : Type 0 where
  pub head : a.head ≡ first_page l
  pub start : a.start ≡ first_page l
  pub pages : a.alloc ≡ arena_pages
  pub arena : Arena a cs m
  pub taken : (k : ℕ) → k < arena_pages → is_taken (flags l m k) ≡ true
  pub table : IsTable l m

pub Booted-Sound :
    {l : Layout} {m g : Memory} {a : ByteGrainAllocator}
    → Booted l m a g
    → Sound l a (chunk false (page_size * arena_pages) ∷ []) g
Booted-Sound booted = record {
  head = booted.head;
  start = booted.start;
  pages = omega (arith, booted.arena.chunks.3);
  arena = booted.arena;
  taken = booted.taken;
  table = booted.table;
}

-- Chunks stay where the bytes they lie in do not change.
Chunks-within :
    (m g : Memory) (p t : ℕ) (cs : Heap)
    → ((q : ℕ) → p ≤ q → q < t → g q ≡ m q)
    → Chunks m p t cs
    → Chunks g p t cs
Chunks-within m g p t [] same h = h
Chunks-within m g p t (c ∷ cs) same (head, fits, small, rest) = (
  read_le-same 8 p m g (λ q lo hi. same q lo (omega (arith, total-Chunks m (p + c.size) t cs rest)))
      ∙ head,
  fits,
  small,
  Chunks-within m g (p + c.size) t cs (λ q lo hi. same q (omega arith) hi) rest,
)

module _ (l : Layout) (a : ByteGrainAllocator) (cs : Heap) (m : Memory) (pages : ℕ)
    (some_pages : 0 < pages) (layout : IsLayout l) (sound : Sound l a cs m) where
  module _ {g z : Memory} {ptr : ℕ} (t : PagesTaken l (first_page l) pages m g ptr)
      (zeros : (q : ℕ) → q < ptr → z q ≡ g q) where
    -- The pages that are taken lie behind the arena.
    pub behind : arena_pages ≤ t.i
    behind = elim (lt-or-le t.i arena_pages) [
      | inl within ↦
          let taken = sound.taken t.i within in
          let free = t.free t.i (omega arith) (omega arith) in cc
      | inr out ↦ out
    ]

    same_flags : (k : ℕ) → k < num_pages l → flags l z k ≡ flags l g k
    same_flags k lt = zeros (l.heap_start + k) (omega (arith, t.address, behind, layout.large))

    arena_bytes :
        (q : ℕ) → first_page l ≤ q → q < first_page l + page_size * arena_pages → z q ≡ m q
    arena_bytes q lo hi =
        zeros q (omega (arith, t.address, behind)) ∙ t.outside q (inr (omega (arith, t.room)))

    PagesTaken-Sound : Sound l a cs z
    PagesTaken-Sound = record {
      head = sound.head;
      start = sound.start;
      pages = sound.pages;
      arena = record {
        chunks =
            Chunks-within m z a.head (a.head + a.alloc * page_size) cs
              (λ q lo hi.
                arena_bytes q (omega (arith, sound.head)) (omega (arith, sound.head, sound.pages)))
              sound.arena.chunks;
        bounded = sound.arena.bounded;
      };
      taken = λ k lt.
          ap is_taken (
            same_flags k (omega (arith, layout.large))
            ∙ t.outside (l.heap_start + k) (inl (omega (arith, behind))))
          ∙ sound.taken k lt;
      table = IsTable-same l g z same_flags (PagesTaken-IsTable l some_pages sound.table t);
    }

  abbrev SoundAfter : Run ℕ → Type 0
  SoundAfter (ok ptr z) = Sound l a cs z
  SoundAfter panic = Unit {0}
  SoundAfter out_of_fuel = Unit {0}

  -- Taking pages, or finding none, leaves the table and the arena as they should be.
  pub ZeroedPages-Sound : (r : Run ℕ) → ZeroedPages l (first_page l) pages m r → SoundAfter r
  ZeroedPages-Sound r (none_free all) = sound
  ZeroedPages-Sound r (zeroed t zeros) = PagesTaken-Sound t (λ q lt. zeros.outside q (inl lt))
