-- ===== src/Alloc/Bytes/Malloc.antt =====
-- `kmalloc`, in terms of the chunks of an arena.
use mathlib.Core.Path.{subst₂}
use corrosion.Prelude.{
  ℕ, zero, suc, ◌+◌, ◌*◌, ◌/◌, ◌^◌, ◌≤◌, ◌<◌, ◌≡◌, ◌≢◌, refl, ap, ◌∙◌, inl, inr, arith, Bool, true,
  false, not, ◌&&◌, some, [], ◌∷◌, ◌++◌, leb, Bool-cases, lt-or-le, lt→ltb, le→ltb,
}
use corrosion.Machine.{Memory, null, Run, ok, panic, mul_usize}
use corrosion.Machine.Words.{read_le-same}
use corrosion.Memory.Align.{align_val-some, align_val-none_iff}
use corrosion.Alloc.Flags.{is_free-header, get_size-header}
use corrosion.Alloc.Bytes.{ByteGrainAllocator, page_size, kmalloc, kmalloc_loop, take_chunk}
use corrosion.Alloc.Bytes.TakeChunk.{split, take_chunk-Taken}
use corrosion.Alloc.Bytes.Chunks.{
  Chunk, chunk, Heap, length, total, Chunks, Spares, frame, Chunks-append, Chunks-lt, total-Chunks,
  length-le-total, in_free_before,
}

-- A chunk that cannot serve a request of `size` bytes.
abbrev pub Unfit : ℕ → Chunk → Type 0
Unfit size c = (not c.taken && leb size c.size) ≡ false

abbrev pub AllUnfit : ℕ → Heap → Type 0
AllUnfit size [] = Unit {0}
AllUnfit size (c ∷ cs) = Unfit size c × AllUnfit size cs

-- A chunk of `s` bytes, the first that serves the request, has been taken, or split; `ptr` is behind
-- its header.
pub record Allocated (size p t : ℕ) (cs : Heap) (m g : Memory) (ptr : ℕ) : Type 0 where
  pub before : Heap
  pub s : ℕ
  pub after : Heap
  pub splits : cs ≡ before ++ chunk false s ∷ after
  pub none_earlier : AllUnfit size before
  pub fits : size ≤ s
  pub address : ptr ≡ p + total before + 8
  pub chunks : Chunks g p t (before ++ (split size s ++ after))
  pub spares : Spares p cs m g

-- What a search for `size` bytes may return.
pub data Outcome (size p t : ℕ) (cs : Heap) (m : Memory) : Run ℕ → Type 0 where
  full : AllUnfit size cs → Outcome size p t cs m (ok null m)
  placed : {g : Memory} {ptr : ℕ} → Allocated size p t cs m g ptr → Outcome size p t cs m (ok ptr g)

module _ (size : ℕ) (m : Memory) (least : 8 ≤ size) where
  Allocated-cons :
      (p t : ℕ) (c : Chunk) (cs : Heap) {g : Memory} {ptr : ℕ}
      → Chunks m p t (c ∷ cs)
      → Unfit size c
      → Allocated size (p + c.size) t cs m g ptr
      → Allocated size p t (c ∷ cs) m g ptr
  Allocated-cons p t c cs {g} (head, large, small, rest) unfit a = record {
    before = c ∷ a.before;
    s = a.s;
    after = a.after;
    splits = ap (λ ds. c ∷ ds) a.splits;
    none_earlier = (unfit, a.none_earlier);
    fits = a.fits;
    address = omega (arith, a.address);
    chunks = (
      read_le-same 8 p m g (λ q lo hi. a.spares q (in_free_before (p + c.size) cs q (omega arith)))
          ∙ head,
      large,
      small,
      a.chunks,
    );
    spares = λ q out. a.spares q (ground arith);
  }

  Allocated-here :
      (p t s : ℕ) (cs : Heap)
      → Chunks m p t (chunk false s ∷ cs)
      → size ≤ s
      → Outcome size p t (chunk false s ∷ cs) m (take_chunk size p s m)
  Allocated-here p t s cs (head, large, small, rest) fits =
      let (g, steps, chunks, same) = take_chunk-Taken size p s m head small least fits in
      rw steps (
        placed (record {
          before = [];
          s = s;
          after = cs;
          splits = refl;
          none_earlier = tt;
          fits = fits;
          address = omega arith;
          chunks =
              Chunks-append g p (p + s) t (split size s) cs chunks
                (frame m g (p + s) t cs (λ q lo. same q (inr lo)) rest);
          spares = λ q out. same q (ground arith);
        }))

  -- The same, by the test that the loop makes.
  Outcome-here :
      (p t : ℕ) (taken : Bool) (s : ℕ) (cs : Heap)
      → Chunks m p t (chunk taken s ∷ cs)
      → (not taken && leb size s) ≡ true
      → Outcome size p t (chunk taken s ∷ cs) m (take_chunk size p s m)
  Outcome-here p t true s cs h fit = cc
  Outcome-here p t false s cs h fit = Allocated-here p t s cs h (ground arith)

  Outcome-cons :
      (p t : ℕ) (c : Chunk) (cs : Heap) (r : Run ℕ)
      → Chunks m p t (c ∷ cs)
      → Unfit size c
      → Outcome size (p + c.size) t cs m r
      → Outcome size p t (c ∷ cs) m r
  Outcome-cons p t c cs r h unfit (full all) = full (unfit, all)
  Outcome-cons p t c cs r h unfit (placed a) = placed (Allocated-cons p t c cs h unfit a)

  kmalloc_loop-Outcome :
      (fuel p t : ℕ) (cs : Heap)
      → Chunks m p t cs
      → length cs < fuel
      → Outcome size p t cs m (kmalloc_loop fuel size t p m)
  unfolding kmalloc_loop
  kmalloc_loop-Outcome zero p t cs h enough = absurd (omega arith)
  kmalloc_loop-Outcome (suc fuel) p t [] h enough = rw (le→ltb p t (omega arith)) (full tt)
  kmalloc_loop-Outcome (suc fuel) p t (c ∷ cs) h enough =
      let (head, large, small, rest) = h in
      rw
        (
          lt→ltb p t (Chunks-lt m p t c cs h),
          head,
          is_free-header c.taken c.size small,
          get_size-header c.taken c.size small,
        )
        (elim (Bool-cases (not c.taken && leb size c.size)) [
          | inl fit ↦ rw fit (Outcome-here p t c.taken c.size cs h fit)
          | inr unfit ↦ rw unfit (
              Outcome-cons p t c cs _ h unfit
                (kmalloc_loop-Outcome fuel (p + c.size) t cs rest (omega arith)))
        ])

-- The arena of an allocator, whose chunks are `cs`.
pub record Arena (a : ByteGrainAllocator) (cs : Heap) (m : Memory) : Type 0 where
  pub chunks : Chunks m a.head (a.head + a.alloc * page_size) cs
  pub bounded : a.head + a.alloc * page_size < 2 ^ 63

-- The bytes of a chunk that serves a request of `sz`: the request rounded up to words, and a header.
abbrev pub chunk_bytes : ℕ → ℕ
chunk_bytes sz = (sz + 7) / 8 * 8 + 8

module _ {a : ByteGrainAllocator} {cs : Heap} {m : Memory} (arena : Arena a cs m) where
  pub whole_arena : mul_usize a.alloc page_size ≡ some (a.alloc * page_size)
  whole_arena = ground (arith, arena.bounded)

  pub length-lt : length cs < a.alloc * page_size + 1
  length-lt = omega (
    arith,
    total-Chunks m a.head (a.head + a.alloc * page_size) cs arena.chunks,
    length-le-total m a.head (a.head + a.alloc * page_size) cs arena.chunks,
  )

  -- On a well-formed arena, and where the rounded request does not overflow, `kmalloc` returns: null
  -- and no change of memory, if no free chunk is large enough, and else the first such chunk, taken or
  -- split, with no byte changed outside the free chunks.
  pub kmalloc-Outcome :
      (sz : ℕ)
      → chunk_bytes sz < 2 ^ 64
      → Outcome (chunk_bytes sz) a.head (a.head + a.alloc * page_size) cs m (kmalloc a sz m)
  unfolding kmalloc
  kmalloc-Outcome sz fits =
      rw
        (
          align_val-some sz 3 (omega arith) (omega arith),
          lt→ltb ((sz + 7) / 8 * 8 + 8) (2 ^ 64) fits,
          whole_arena,
        )
        (kmalloc_loop-Outcome (chunk_bytes sz) m (omega arith) (a.alloc * page_size + 1) a.head
          (a.head + a.alloc * page_size) cs arena.chunks length-lt)

-- A search that returned a block returned it as `Allocated` says.
pub Outcome-placed :
    {size p t : ℕ} {cs : Heap} {m g : Memory} {ptr : ℕ} {r : Run ℕ}
    → Outcome size p t cs m r
    → r ≡ ok ptr g
    → ptr ≢ null
    → Allocated size p t cs m g ptr
Outcome-placed (full all) e ne = absurd (ne (cc))
Outcome-placed {size} {p} {t} {cs} {m} (placed a) e ne =
    subst₂ (λ x y. Allocated size p t cs m x y) (cc) (cc) a

-- Where rounding the request up, or adding a header to it, overflows, `kmalloc` panics.
pub kmalloc_panics :
    (a : ByteGrainAllocator) (sz : ℕ) (m : Memory)
    → sz < 2 ^ 64
    → 2 ^ 64 ≤ chunk_bytes sz
    → kmalloc a sz m ≡ panic
unfolding kmalloc
kmalloc_panics a sz m word over = elim (lt-or-le (sz + 7) (2 ^ 64)) [
  | inl fits ↦
      rw (align_val-some sz 3 (omega arith) fits, le→ltb ((sz + 7) / 8 * 8 + 8) (2 ^ 64) over)
  | inr wide ↦ rw ((align_val-none_iff sz 3).1 (inr wide))
]
