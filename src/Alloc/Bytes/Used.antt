-- ===== src/Alloc/Bytes/Used.antt =====
-- The blocks in use, as addresses and sizes of the taken chunks, across the operations.
use native.Mathlib.Nat.{add_assoc, add-zero}
use corrosion.Prelude.{
  ℕ, ◌+◌, ◌-◌, ◌*◌, ◌^◌, ◌≤◌, ◌<◌, ◌≡◌, ◌≢◌, refl, ap, sym, ◌∙◌, arith, Bool, true, false, not,
  ◌&&◌, ltb, List, [], ◌∷◌, ◌++◌, if◌then◌else◌, Bool-cases, inl, inr,
}
use corrosion.Machine.{Memory, null, ok}
use corrosion.Alloc.Bytes.{ByteGrainAllocator, page_size, kmalloc, kfree}
use corrosion.Alloc.Bytes.TakeChunk.{split}
use corrosion.Alloc.Bytes.Malloc.{Arena, Allocated, chunk_bytes, kmalloc-Outcome, Outcome-placed}
use corrosion.Alloc.Bytes.Coalesce.{merge}
use corrosion.Alloc.Bytes.Free.{kfree-Freed}
use corrosion.Alloc.Bytes.Chunks.{chunk, Heap, total, Chunks, Spares, total-append}

-- The taken chunks of an arena that begins at `p`.
abbrev pub used : ℕ → Heap → List (ℕ × ℕ)
used p [] = []
used p (c ∷ cs) = let rest = used (p + c.size) cs in if c.taken then (p, c.size) ∷ rest else rest

pub used-append : (p : ℕ) (cs ds : Heap) → used p (cs ++ ds) ≡ used p cs ++ used (p + total cs) ds
used-append p [] ds = rw (add-zero p)
used-append p (c ∷ cs) ds =
    rw (used-append (p + c.size) cs ds, add_assoc p c.size (total cs)) (by_taken c.taken)
  where
    by_taken :
        (taken : Bool)
        → (if taken
            then (p, c.size) ∷ (used (p + c.size) cs ++ used (p + (c.size + total cs)) ds)
            else used (p + c.size) cs ++ used (p + (c.size + total cs)) ds)
          ≡ (if taken then (p, c.size) ∷ used (p + c.size) cs else used (p + c.size) cs)
            ++ used (p + (c.size + total cs)) ds
    by_taken true = refl
    by_taken false = refl

-- Merging moves no block and loses none.
pub used-merge : (p : ℕ) (cs : Heap) → used p (merge cs) ≡ used p cs
unfolding merge
used-merge p [] = refl
used-merge p (c ∷ []) = refl
used-merge p (c ∷ d ∷ cs) = elim (Bool-cases (not c.taken && not d.taken)) [
  | inl both ↦
      let free : c.taken ≡ false = ground arith in
      let free' : d.taken ≡ false = ground arith in
      rw (free, free', merge, used-merge (p + (c.size + d.size)) cs, add_assoc p c.size d.size)
  | inr keep ↦ rw (keep, merge) (rw (used-merge (p + c.size) (d ∷ cs)))
]

pub total-merge : (cs : Heap) → total (merge cs) ≡ total cs
unfolding merge
total-merge [] = refl
total-merge (c ∷ []) = refl
total-merge (c ∷ d ∷ cs) = ground (arith, total-merge cs, total-merge (d ∷ cs))

-- Blocks in order of address from `lo` to `hi`, none of which overlaps the next.
abbrev pub Ordered : ℕ → ℕ → List (ℕ × ℕ) → Type 0
Ordered lo hi [] = lo ≤ hi
Ordered lo hi ((p, n) ∷ bs) = (lo ≤ p) × Ordered (p + n) hi bs

Ordered-le : (lo lo' hi : ℕ) (bs : List (ℕ × ℕ)) → lo ≤ lo' → Ordered lo' hi bs → Ordered lo hi bs
Ordered-le lo lo' hi [] le h = omega arith
Ordered-le lo lo' hi ((p, n) ∷ bs) le (first, rest) = (omega arith, rest)

Ordered-chunk :
    (p n hi : ℕ) (taken : Bool) (bs : List (ℕ × ℕ))
    → Ordered (p + n) hi bs
    → Ordered p hi (if taken then (p, n) ∷ bs else bs)
Ordered-chunk p n hi true bs h = (omega arith, h)
Ordered-chunk p n hi false bs h = Ordered-le p (p + n) hi bs (omega arith) h

pub used-Ordered : (m : Memory) (p t : ℕ) (cs : Heap) → Chunks m p t cs → Ordered p t (used p cs)
used-Ordered m p t [] h = omega arith
used-Ordered m p t (c ∷ cs) (_, large, _, rest) =
    Ordered-chunk p c.size t c.taken (used (p + c.size) cs) (used-Ordered m (p + c.size) t cs rest)

-- What a split adds to the blocks in use.
used-split :
    (p size s : ℕ)
    → size ≤ s
    → (n : ℕ) × (size ≤ n) × (n ≤ s) × (used p (split size s) ≡ (p, n) ∷ [])
used-split p size s fits = elim (Bool-cases (ltb 8 (s - size))) [
  | inl splits ↦ (size, omega arith, fits, rw splits)
  | inr whole ↦ (s, fits, omega arith, rw whole)
]

total-split : (size s : ℕ) → size ≤ s → total (split size s) ≡ s
total-split size s fits = ground arith

-- The blocks after a successful `kmalloc`: those before, and one of at least the bytes asked for,
-- whose header stands 8 bytes before the pointer.
pub record OneMore (a : ByteGrainAllocator) (size : ℕ) (cs : Heap) (m g : Memory) (ptr : ℕ)
    : Type 0 where
  pub cs' : Heap
  pub left : List (ℕ × ℕ)
  pub right : List (ℕ × ℕ)
  pub n : ℕ
  pub enough : size ≤ n
  pub old : used a.head cs ≡ left ++ right
  pub new : used a.head cs' ≡ left ++ (ptr - 8, n) ∷ right
  pub ordered : Ordered a.head (a.head + a.alloc * page_size) (left ++ (ptr - 8, n) ∷ right)
  pub arena : Arena a cs' g
  pub spares : Spares a.head cs m g

module _ {a : ByteGrainAllocator} {size : ℕ} {cs : Heap} {m g : Memory} {ptr : ℕ}
    (arena : Arena a cs m)
    (r : Allocated size a.head (a.head + a.alloc * page_size) cs m g ptr) where
  abbrev here : ℕ
  here = a.head + total r.before

  abbrev right : List (ℕ × ℕ)
  right = used (here + r.s) r.after

  used-old : used a.head cs ≡ used a.head r.before ++ right
  used-old = rw r.splits (used-append a.head r.before (chunk false r.s ∷ r.after))

  used-new :
      (n : ℕ)
      → used here (split size r.s) ≡ (here, n) ∷ []
      → used a.head (r.before ++ (split size r.s ++ r.after))
        ≡ used a.head r.before ++ (here, n) ∷ right
  used-new n one =
      used-append a.head r.before (split size r.s ++ r.after)
      ∙ ap (λ bs. used a.head r.before ++ bs)
          (used-append here (split size r.s) r.after ∙ rw (one, total-split size r.s r.fits))

  pub Allocated-OneMore : OneMore a size cs m g ptr
  Allocated-OneMore =
      let (n, enough, _, one) = used-split here size r.s r.fits in
      let at : ptr - 8 ≡ here = omega (arith, r.address) in
      record {
        cs' = r.before ++ (split size r.s ++ r.after);
        left = used a.head r.before;
        right = right;
        n = n;
        enough = enough;
        old = used-old;
        new = rw at (used-new n one);
        ordered =
            rw (at, ← used-new n one)
              (used-Ordered g a.head (a.head + a.alloc * page_size) _ r.chunks);
        arena = record { chunks = r.chunks; bounded = arena.bounded };
        spares = r.spares;
      }

-- On a well-formed arena, a `kmalloc` that returns a pointer adds exactly one block to those in use;
-- it holds the bytes asked for and overlaps no other, the arena stays well-formed, and no byte outside
-- the chunks that were free has changed.
pub kmalloc-OneMore :
    {a : ByteGrainAllocator} {cs : Heap} {m g : Memory} {ptr : ℕ} (sz : ℕ)
    → Arena a cs m
    → chunk_bytes sz < 2 ^ 64
    → kmalloc a sz m ≡ ok ptr g
    → ptr ≢ null
    → OneMore a (chunk_bytes sz) cs m g ptr
kmalloc-OneMore sz arena fits returns ne =
    Allocated-OneMore arena (Outcome-placed (kmalloc-Outcome arena sz fits) returns ne)

-- On a well-formed arena, `kfree` of a taken chunk's pointer returns, removes exactly that chunk's
-- block from those in use, keeps the arena well-formed and of the same size, and changes no byte
-- outside the chunks that are free afterwards.
pub kfree-OneLess :
    (a : ByteGrainAllocator) (before : Heap) (n : ℕ) (after : Heap) (m : Memory)
    → Arena a (before ++ chunk true n ∷ after) m
    → (cs : Heap) × (g : Memory) × (kfree a (a.head + total before + 8) m ≡ ok tt g)
      × Arena a cs g
      × (used a.head (before ++ chunk true n ∷ after)
          ≡ used a.head before
            ++ (a.head + total before, n) ∷ used (a.head + total before + n) after)
      × (used a.head cs ≡ used a.head before ++ used (a.head + total before + n) after)
      × (total cs ≡ total (before ++ chunk true n ∷ after))
      × Spares a.head (before ++ chunk false n ∷ after) m g
kfree-OneLess a before n after m arena =
    let (g, returns, arena', spares) = kfree-Freed a before (chunk true n) after m arena in
    let freed = before ++ chunk false n ∷ after in
    (
      merge freed,
      g,
      returns,
      arena',
      used-append a.head before (chunk true n ∷ after),
      used-merge a.head freed ∙ used-append a.head before (chunk false n ∷ after),
      total-merge freed
          ∙ total-append before (chunk false n ∷ after)
          ∙ sym (total-append before (chunk true n ∷ after)),
      spares,
    )
