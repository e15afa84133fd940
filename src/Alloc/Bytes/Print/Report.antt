-- ===== src/Alloc/Bytes/Print/Report.antt =====
-- The rows of the arena's `print`, in terms of its chunks.
use native.Mathlib.Nat.{div-eq_of_lt}
use corrosion.Prelude.{
  ℕ, zero, suc, ◌+◌, ◌*◌, ◌/◌, ◌^◌, ◌≤◌, ◌<◌, ◌≡◌, arith, false, List, [], ◌∷◌, ◌==◌, lt→ltb,
  le→ltb, Bool-cases, inl, inr,
}
use corrosion.Machine.{Memory, ok}
use corrosion.Alloc.Flags.{is_taken-header, get_size-header}
use corrosion.Alloc.Bytes.{ByteGrainAllocator, page_size}
use corrosion.Alloc.Bytes.Chunks.{
  Heap, total, length, Chunks, Chunks-lt, total-Chunks, length-le-total,
}
use corrosion.Alloc.Bytes.Malloc.{Arena}
use corrosion.Alloc.Bytes.Used.{used}
use corrosion.Alloc.Bytes.Print.{ByteRow, print_loop, print}

-- The rows of the chunks of an arena that begins at `p`.
abbrev pub byte_rows : ℕ → Heap → List ByteRow
byte_rows p [] = []
byte_rows p (c ∷ cs) =
    record { taken = c.taken; first = p; next = p + c.size; bytes = c.size }
    ∷ byte_rows (p + c.size) cs

-- The sum of the sizes of blocks.
abbrev pub block_bytes : List (ℕ × ℕ) → ℕ
block_bytes [] = 0
block_bytes ((p, n) ∷ bs) = n + block_bytes bs

used_bytes-le : (p : ℕ) (cs : Heap) → block_bytes (used p cs) ≤ total cs
used_bytes-le p [] = omega arith
used_bytes-le p (c ∷ cs) = elim (Bool-cases c.taken) [
  | inl taken ↦ ground (arith, used_bytes-le (p + c.size) cs)
  | inr free ↦ ground (arith, used_bytes-le (p + c.size) cs)
]

print_loop-rows :
    (fuel p t : ℕ) (cs : Heap) (m : Memory) (u sum : ℕ)
    → Chunks m p t cs
    → length cs < fuel
    → u + total cs < 2 ^ 64
    → sum + total cs < 2 ^ 64
    → print_loop fuel t p u sum m
      ≡ ok (byte_rows p cs, (u + block_bytes (used p cs), sum + total cs)) m
unfolding print_loop
print_loop-rows zero p t cs m u sum h enough small small' = absurd (omega arith)
print_loop-rows (suc fuel) p t [] m u sum h enough small small' =
    rw (print_loop, le→ltb p t (omega arith)) (ground arith)
print_loop-rows (suc fuel) p t (c ∷ cs) m u sum h enough small small' =
    let (head, large, fits, rest) = h in
    elim (Bool-cases c.taken) [
      | inl taken ↦
          rw
            (
              print_loop,
              lt→ltb p t (Chunks-lt m p t c cs h),
              head,
              get_size-header c.taken c.size fits,
              is_taken-header c.taken c.size fits,
              lt→ltb (sum + c.size) (2 ^ 64) (omega arith),
              taken,
              lt→ltb (u + c.size) (2 ^ 64) (omega arith),
              print_loop-rows fuel (p + c.size) t cs m (u + c.size) (sum + c.size) rest
                  (omega arith) (omega arith) (omega arith),
            )
            (ground arith)
      | inr free ↦
          rw
            (
              print_loop,
              lt→ltb p t (Chunks-lt m p t c cs h),
              head,
              get_size-header c.taken c.size fits,
              is_taken-header c.taken c.size fits,
              lt→ltb (sum + c.size) (2 ^ 64) (omega arith),
              free,
              print_loop-rows fuel (p + c.size) t cs m u (sum + c.size) rest (omega arith)
                  (omega arith) (omega arith),
            )
            (ground arith)
    ]

-- On a well-formed arena of a page or more, `print` ends and changes nothing. Its rows are the chunks
-- in order, the total is the arena's size, and the used bytes are those of the blocks in use. Of these
-- the quotient is printed as a percentage: it is 0 unless every byte is in use.
pub byte_print_ends :
    (a : ByteGrainAllocator) (cs : Heap) (m : Memory)
    → Arena a cs m
    → 0 < a.alloc
    → (percent : ℕ) × (print a m
        ≡ ok
            (record {
              rows = byte_rows a.head cs;
              used_bytes = block_bytes (used a.head cs);
              total_bytes = a.alloc * page_size;
              percent = percent;
            })
            m)
      × (block_bytes (used a.head cs) < a.alloc * page_size → percent ≡ 0)
unfolding print
byte_print_ends a cs m arena pages =
    let bytes = a.alloc * page_size in
    let chunks = arena.chunks in
    let sum : total cs ≡ bytes =
      omega (arith, total-Chunks m a.head (a.head + a.alloc * page_size) cs chunks) in
    let rows =
      print_loop-rows (bytes + 1) a.head (a.head + bytes) cs m 0 0 chunks
        (omega (arith, length-le-total m a.head (a.head + a.alloc * page_size) cs chunks))
        (omega (arith, sum, arena.bounded)) (omega (arith, sum, arena.bounded)) in
    let nonzero : (0 + total cs == 0) ≡ false = ground (arith, sum) in
    (
      block_bytes (used a.head cs) / bytes,
      rw (lt→ltb bytes (2 ^ 64) (omega (arith, arena.bounded)), rows, nonzero)
          (ground (arith, sum)),
      λ some_free. div-eq_of_lt some_free,
    )
