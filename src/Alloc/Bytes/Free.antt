-- ===== src/Alloc/Bytes/Free.antt =====
-- `kfree`, in terms of the chunks of an arena.
use corrosion.Prelude.{
  ℕ, ◌+◌, ◌-◌, ◌*◌, ◌^◌, ◌≤◌, ◌<◌, ◌≡◌, refl, ◌∙◌, inl, inr, arith, Bool, true, false, ◌==◌, ◌∷◌,
  ◌++◌, if◌then◌else◌, Bool-cases,
}
use corrosion.Machine.{Memory, null, Run, ok, pure, ◌>>◌, read64, write64}
use corrosion.Machine.Words.{write_le-outside}
use corrosion.Alloc.Flags.{header, set_free, is_taken-header, set_free-header}
use corrosion.Alloc.Bytes.{ByteGrainAllocator, page_size, kfree, coalesce, modify}
use corrosion.Alloc.Bytes.TakeChunk.{header-lt, read-modify}
use corrosion.Alloc.Bytes.Malloc.{Arena}
use corrosion.Alloc.Bytes.Coalesce.{merge, coalesce-Merged}
use corrosion.Alloc.Bytes.Chunks.{
  Chunk, chunk, Heap, total, Spares, Chunks-reheaded, Chunks-header, Chunks-size, in_free-append,
  in_free,
}

-- `kfree` of the null pointer does nothing.
pub kfree-null : (a : ByteGrainAllocator) (m : Memory) → kfree a null m ≡ ok tt m
unfolding kfree
kfree-null a m = refl

-- The arena with the chunk `c` free, merged in one pass, and no byte changed outside free chunks.
abbrev pub Freed : ByteGrainAllocator → Heap → Chunk → Heap → Memory → Run (Unit {0}) → Type 0
Freed a before c after m r =
    (g : Memory) × (r ≡ ok tt g)
    × Arena a (merge (before ++ chunk false c.size ∷ after)) g
    × Spares a.head (before ++ chunk false c.size ∷ after) m g

module _ (a : ByteGrainAllocator) (before : Heap) (c : Chunk) (after : Heap) (m : Memory)
    (arena : Arena a (before ++ c ∷ after) m) where
  abbrev p : ℕ
  p = a.head + total before

  abbrev tail : ℕ
  tail = a.head + a.alloc * page_size

  size : (8 ≤ c.size) × (c.size < 2 ^ 63)
  size = Chunks-size m a.head tail before c after arena.chunks

  released : Memory
  released = write64 p (set_free (read64 p m)) m

  released-header : read64 p released ≡ header false c.size
  unfolding released
  released-header =
      read-modify set_free p (header false c.size) m
        (rw (
          Chunks-header m a.head tail before c after arena.chunks,
          set_free-header c.taken c.size size.1,
        ))
        (header-lt false c.size size.1)

  released-Arena : Arena a (before ++ chunk false c.size ∷ after) released
  unfolding released
  released-Arena = record {
    chunks =
        Chunks-reheaded m released a.head p tail false before c after refl released-header
          (write_le-outside 8 p (set_free (read64 p m)) m) arena.chunks;
    bounded = arena.bounded;
  }

  -- The step before `coalesce`, by the bit that it tests.
  release :
      (taken : Bool)
      → ((if taken then modify set_free p else pure tt) >> coalesce a) m
        ≡ coalesce a (if taken then released else m)
  unfolding released
  release true = refl
  release false = refl

  enters : kfree a (a.head + total before + 8) m ≡ coalesce a (if c.taken then released else m)
  unfolding kfree
  enters =
      let ne : (p + 8 == null) ≡ false = ground arith in
      let back : p + 8 - 8 ≡ p = omega arith in
      rw
        (
          ne,
          back,
          Chunks-header m a.head tail before c after arena.chunks,
          is_taken-header c.taken c.size size.1,
        )
        (release c.taken)

  -- The released header lies in a chunk that is free now.
  untouched :
      (q : ℕ) → in_free a.head (before ++ chunk false c.size ∷ after) q ≡ false → released q ≡ m q
  unfolding released
  untouched q out =
      write_le-outside 8 p (set_free (read64 p m)) m q
        (ground (arith, in_free-append a.head before (chunk false c.size ∷ after) q, size))

  Freed-released : Freed a before c after m (coalesce a released)
  Freed-released =
      let (g, returns, chunks, spares) = coalesce-Merged released-Arena in
      (
        g,
        returns,
        record { chunks = chunks; bounded = arena.bounded },
        λ q out. spares q out ∙ untouched q out,
      )

  Freed-free : c.taken ≡ false → Freed a before c after m (coalesce a m)
  Freed-free free =
      let same : Arena a (before ++ chunk false c.size ∷ after) m = rw free at arena in
      let (g, returns, chunks, spares) = coalesce-Merged same in
      (g, returns, record { chunks = chunks; bounded = arena.bounded }, spares)

  -- On a well-formed arena, `kfree` of a pointer behind a chunk's header returns, with that chunk free
  -- whether or not it was taken before, and neighbours merged in one pass; no byte outside the free
  -- chunks of the result changes.
  pub kfree-Freed : Freed a before c after m (kfree a (a.head + total before + 8) m)
  kfree-Freed = rw enters (elim (Bool-cases c.taken) [
    | inl taken ↦ rw taken Freed-released
    | inr free ↦ rw free (Freed-free free)
  ])
