-- ===== src/Alloc/Bytes/Coalesce.antt =====
-- `coalesce`, in terms of the chunks of an arena.
use native.Mathlib.Nat.{add_assoc}
use corrosion.Prelude.{
  ℕ, zero, suc, ◌+◌, ◌*◌, ◌^◌, ◌≤◌, ◌<◌, ◌≡◌, refl, ◌∙◌, inl, inr, arith, true, false, not, ◌&&◌,
  ◌==◌, [], ◌∷◌, Bool-cases, lt→ltb, le→ltb, lt→leb, le→leb,
}
use corrosion.Machine.{Memory, Run, ok, read64, write64}
use corrosion.Machine.Words.{read_le-same, write_le-outside}
use corrosion.Alloc.Flags.{
  header, set_size, get_size, is_free-header, get_size-header, set_size-header,
}
use corrosion.Alloc.Bytes.{ByteGrainAllocator, page_size, coalesce_loop, coalesce}
use corrosion.Alloc.Bytes.TakeChunk.{header-lt, read-modify}
use corrosion.Alloc.Bytes.Malloc.{Arena, whole_arena, length-lt}
use corrosion.Alloc.Bytes.Chunks.{
  Chunk, chunk, Heap, length, Chunks, in_free, Spares, frame, in_free_before, Chunks-lt,
  total-Chunks,
}

-- What one pass makes of the chunks: after a merge it goes on behind the merged chunk.
unfoldable pub merge : Heap → Heap
merge [] = []
merge (c ∷ []) = c ∷ []
merge (c ∷ d ∷ cs) = elim (not c.taken && not d.taken) [
  | true ↦ chunk false (c.size + d.size) ∷ merge cs
  | false ↦ c ∷ merge (d ∷ cs)
]

abbrev pub Merged : ℕ → ℕ → Heap → Memory → Run (Unit {0}) → Type 0
Merged p t cs m r = (g : Memory) × (r ≡ ok tt g) × Chunks g p t (merge cs) × Spares p cs m g

not-zero : (n : ℕ) → 8 ≤ n → (n == 0) ≡ false
not-zero n h = ground arith

at_end : (t fuel p : ℕ) (m : Memory) → p ≡ t → coalesce_loop (suc fuel) t p m ≡ ok tt m
unfolding coalesce_loop
at_end t fuel p m h = rw (le→ltb p t (omega arith))

-- One round of the loop, in its three cases.
module _ (t fuel p : ℕ) (c : Chunk) (m : Memory) where
  last_round : Chunks m p t (c ∷ []) → coalesce_loop (suc fuel) t p m ≡ ok tt m
  unfolding coalesce_loop
  last_round h =
      let (head, large, small, end) = h in
      rw (
        lt→ltb p t (Chunks-lt m p t c [] h),
        head,
        get_size-header c.taken c.size small,
        not-zero c.size large,
        le→leb t (p + c.size) (omega arith),
      )

  module _ (d : Chunk) (cs : Heap) (h : Chunks m p t (c ∷ d ∷ cs)) where
    keep_round :
        (not c.taken && not d.taken) ≡ false
        → coalesce_loop (suc fuel) t p m ≡ coalesce_loop fuel t (p + c.size) m
    unfolding coalesce_loop
    keep_round keep =
        let (head, large, small, behind) = h in
        let (next, large', small', rest) = behind in
        rw (
          lt→ltb p t (Chunks-lt m p t c (d ∷ cs) h),
          head,
          get_size-header c.taken c.size small,
          not-zero c.size large,
          lt→leb t (p + c.size) (Chunks-lt m (p + c.size) t d cs behind),
          next,
          is_free-header c.taken c.size small,
          is_free-header d.taken d.size small',
          keep,
          head,
          get_size-header c.taken c.size small,
        )

    abbrev sum : ℕ
    sum = c.size + d.size

    joined : Memory
    joined = write64 p (set_size sum (read64 p m)) m

    sum-lt : t < 2 ^ 63 → sum < 2 ^ 63
    sum-lt bounded =
        let (head, large, small, behind) = h in
        let (next, large', small', rest) = behind in
        omega (arith, total-Chunks m (p + c.size + d.size) t cs rest)

    joined_head : t < 2 ^ 63 → c.taken ≡ false → read64 p joined ≡ header false sum
    unfolding joined
    joined_head bounded free =
        let (head, large, small, behind) = h in
        read-modify (set_size sum) p (header false sum) m
          (rw (head, free, set_size-header false sum (sum-lt bounded) c.size small))
          (header-lt false sum (sum-lt bounded))

    joined_lem : write64 p (set_size sum (read64 p m)) m ≡ joined
    unfolding joined
    joined_lem = refl

    joined_size : t < 2 ^ 63 → c.taken ≡ false → get_size (read64 p joined) ≡ sum
    joined_size bounded free =
        rw (joined_head bounded free) (get_size-header false sum (sum-lt bounded))

    behind_joined : Chunks joined (p + sum) t cs
    unfolding joined
    behind_joined =
        let (head, large, small, behind) = h in
        let (next, large', small', rest) = behind in
        frame m (write64 p (set_size sum (read64 p m)) m) (p + sum) t cs
          (λ q lo. write_le-outside 8 p (set_size sum (read64 p m)) m q (inr (omega arith)))
          (rw (← add_assoc p c.size d.size) rest)

    merge_round :
        t < 2 ^ 63
        → c.taken ≡ false
        → d.taken ≡ false
        → coalesce_loop (suc fuel) t p m ≡ coalesce_loop fuel t (p + sum) joined
    unfolding coalesce_loop
    merge_round bounded free free' =
        let (head, large, small, behind) = h in
        let (next, large', small', rest) = behind in
        rw
          (
            lt→ltb p t (Chunks-lt m p t c (d ∷ cs) h),
            head,
            free,
            get_size-header false c.size small,
            not-zero c.size large,
            lt→leb t (p + c.size) (Chunks-lt m (p + c.size) t d cs behind),
            next,
            free',
            is_free-header false c.size small,
            is_free-header false d.size small',
            get_size-header false d.size small',
            lt→ltb sum (2 ^ 64) (omega (arith, sum-lt bounded)),
          )
          (rw (joined_lem, joined_size bounded free))

module _ (t : ℕ) (bounded : t < 2 ^ 63) where
  Merged-keep :
      (p : ℕ) (c d : Chunk) (cs : Heap) (m : Memory) (r : Run (Unit {0}))
      → Chunks m p t (c ∷ d ∷ cs)
      → (not c.taken && not d.taken) ≡ false
      → Merged (p + c.size) t (d ∷ cs) m r
      → Merged p t (c ∷ d ∷ cs) m r
  unfolding merge
  Merged-keep p c d cs m r (head, large, small, behind) keep (g, returns, chunks, spares) = (
    g,
    returns,
    rw (keep, merge)
        (
          read_le-same 8 p m g
                (λ q lo hi. spares q (in_free_before (p + c.size) (d ∷ cs) q (omega arith)))
              ∙ head,
          large,
          small,
          chunks,
        ),
    λ q out. spares q (ground arith),
  )

  Merged-joined :
      (fuel p : ℕ) (c d : Chunk) (cs : Heap) (m : Memory) (r : Run (Unit {0}))
      → (h : Chunks m p t (c ∷ d ∷ cs)) → c.taken ≡ false
      → d.taken ≡ false
      → Merged (p + (c.size + d.size)) t cs (joined t fuel p c m d cs h) r
      → Merged p t (c ∷ d ∷ cs) m r
  unfolding merge joined
  Merged-joined fuel p c d cs m r h free free' (g, returns, chunks, spares) = (
    g,
    returns,
    rw (free, free', merge)
        (
          read_le-same 8 p (joined t fuel p c m d cs h) g (λ q lo hi.
                spares q (in_free_before (p + (c.size + d.size)) cs q (omega (arith, h.1))))
              ∙ joined_head t fuel p c m d cs h bounded free,
          omega (arith, h.1),
          sum-lt t fuel p c m d cs h bounded,
          chunks,
        ),
    λ q out.
        let beyond : in_free (p + (c.size + d.size)) cs q ≡ false =
          rw (← add_assoc p c.size d.size) (ground arith) in
        spares q beyond
        ∙ write_le-outside 8 p (set_size (c.size + d.size) (read64 p m)) m q (ground (arith, h.1)),
  )

  coalesce_loop-Merged :
      (fuel p : ℕ) (cs : Heap) (m : Memory)
      → Chunks m p t cs
      → length cs < fuel
      → Merged p t cs m (coalesce_loop fuel t p m)
  unfolding merge
  coalesce_loop-Merged zero p cs m h enough = absurd (omega arith)
  coalesce_loop-Merged (suc fuel) p [] m h enough = (m, at_end t fuel p m h, h, λ q out. refl)
  coalesce_loop-Merged (suc fuel) p (c ∷ []) m h enough =
      (m, last_round t fuel p c m h, h, λ q out. refl)
  coalesce_loop-Merged (suc fuel) p (c ∷ d ∷ cs) m h enough =
      elim (Bool-cases (not c.taken && not d.taken)) [
        | inl both ↦ rw (merge_round t fuel p c m d cs h bounded (ground arith) (ground arith)) (
            Merged-joined fuel p c d cs m _ h (ground arith) (ground arith) (
              coalesce_loop-Merged fuel (p + (c.size + d.size)) cs (joined t fuel p c m d cs h)
                (behind_joined t fuel p c m d cs h) (omega arith)))
        | inr keep ↦ rw (keep_round t fuel p c m d cs h keep) (
            Merged-keep p c d cs m _ h keep
              (coalesce_loop-Merged fuel (p + c.size) (d ∷ cs) m h.3 (omega arith)))
      ]

-- On a well-formed arena `coalesce` returns; the chunks are then those of one merging pass, and no
-- byte outside a free chunk has changed.
pub coalesce-Merged :
    {a : ByteGrainAllocator} {cs : Heap} {m : Memory}
    → Arena a cs m
    → Merged a.head (a.head + a.alloc * page_size) cs m (coalesce a m)
unfolding coalesce
coalesce-Merged {a} {cs} {m} arena = rw (whole_arena arena) (
    coalesce_loop-Merged (a.head + a.alloc * page_size) arena.bounded (a.alloc * page_size + 1)
      a.head cs m arena.chunks (length-lt arena))
