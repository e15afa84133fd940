-- ===== src/Alloc/Bytes/Zeroed.antt =====
-- `kzmalloc`, in terms of the chunks of an arena and their bytes.
use native.Mathlib.Nat.{add-zero}
use corrosion.Prelude.{
  ℕ, zero, suc, ◌+◌, ◌*◌, ◌/◌, ◌^◌, ◌≤◌, ◌<◌, ◌≡◌, refl, ◌∙◌, ◌⊎◌, inl, inr, arith, true, false,
  ◌==◌, ◌∷◌, ◌++◌, if◌then◌else◌, lt-or-le,
}
use corrosion.Machine.{Memory, null, Run, ok, pure, change, ◌>>◌, write8, after}
use corrosion.Machine.Words.{SameOutside, write8_self, write8-ne}
use corrosion.Memory.Align.{align_val-some}
use corrosion.Alloc.Bytes.{ByteGrainAllocator, page_size, kmalloc, kzmalloc, zero_bytes}
use corrosion.Alloc.Bytes.Split.{Shape, split-Shape}
use corrosion.Alloc.Bytes.Malloc.{
  Arena, Allocated, Outcome, full, placed, AllUnfit, chunk_bytes, kmalloc-Outcome,
}
use corrosion.Alloc.Bytes.Chunks.{chunk, Heap, total, Chunks, in_free-append, Chunks-payload}

-- `g` is `m` with zeros in `[lo, hi)`.
pub record IsZeroed (lo hi : ℕ) (m g : Memory) : Type 0 where
  pub inside : (q : ℕ) → lo ≤ q → q < hi → g q ≡ 0
  pub outside : SameOutside lo hi m g

zero_bytes-IsZeroed :
    (left i p : ℕ) (m : Memory) → IsZeroed (p + i) (p + i + left) m (zero_bytes left i p m)
unfolding zero_bytes
zero_bytes-IsZeroed zero i p m = record {
  inside = λ q lo hi. absurd (omega arith);
  outside = λ q out. refl;
}
zero_bytes-IsZeroed (suc left) i p m =
    let rest = zero_bytes-IsZeroed left (i + 1) p (write8 (p + i) 0 m) in
    record {
      inside = λ q lo hi. elim (lt-or-le (p + i) q) [
        | inl more ↦ rest.inside q (omega arith) (omega arith)
        | inr here ↦
            rest.outside q (inl (omega arith))
            ∙ let e : q ≡ p + i = omega arith in rw e (write8_self (p + i) 0 m)
      ];
      outside = λ q out. rest.outside q (ground arith) ∙ write8-ne (p + i) 0 m q (ground arith);
    }

-- The bytes that a request of `sz` is rounded up to.
abbrev pub round : ℕ → ℕ
round sz = (sz + 7) / 8 * 8

-- What `kzmalloc` may return: what `kmalloc` may, with the block's bytes zero.
pub data ZeroedOutcome (sz p t : ℕ) (cs : Heap) (m : Memory) : Run ℕ → Type 0 where
  none_fits : AllUnfit (chunk_bytes sz) cs → ZeroedOutcome sz p t cs m (ok null m)
  zeroed :
      {g : Memory} {ptr : ℕ}
      → Allocated (chunk_bytes sz) p t cs m g ptr
      → ((q : ℕ) → ptr ≤ q → q < ptr + round sz → g q ≡ 0)
      → ZeroedOutcome sz p t cs m (ok ptr g)

module _ (sz : ℕ) {p t : ℕ} {cs : Heap} {m g z : Memory} {ptr : ℕ}
    (r : Allocated (chunk_bytes sz) p t cs m g ptr) (zero : IsZeroed ptr (ptr + round sz) g z) where
  abbrev here : ℕ
  here = p + total r.before

  shape : Shape (chunk_bytes sz) r.s
  shape = split-Shape (chunk_bytes sz) r.s r.fits

  payload : Chunks z p t (r.before ++ chunk true shape.n ∷ (shape.rest ++ r.after))
  payload =
      Chunks-payload g z p here t r.before (chunk true shape.n) (shape.rest ++ r.after) refl
        (λ q out. zero.outside q (ground (arith, r.address, shape.enough)))
        (rw shape.shape at r.chunks)

  Allocated-zeroed : Allocated (chunk_bytes sz) p t cs m z ptr
  Allocated-zeroed = record {
    before = r.before;
    s = r.s;
    after = r.after;
    splits = r.splits;
    none_earlier = r.none_earlier;
    fits = r.fits;
    address = r.address;
    chunks = rw shape.shape payload;
    spares = λ q out.
        let apart : (q < ptr) ⊎ (ptr + round sz ≤ q) = ground (
          arith,
          rw r.splits at out,
          in_free-append p r.before (chunk false r.s ∷ r.after) q,
          r.address,
          r.fits,
        ) in
        zero.outside q apart ∙ r.spares q out;
  }

module _ (sz p t : ℕ) (cs : Heap) (m : Memory) where
  -- The end of `kzmalloc`, after a run of `kmalloc`.
  clear : ℕ → Memory → Run ℕ
  clear ret = do if ret == null then pure tt else change (zero_bytes (round sz) 0 ret); pure ret

  clear-ZeroedOutcome :
      (r : Run ℕ) → Outcome (chunk_bytes sz) p t cs m r → ZeroedOutcome sz p t cs m (after r clear)
  unfolding clear
  clear-ZeroedOutcome r (full all) = none_fits all
  clear-ZeroedOutcome r (placed {g} {ptr} a) =
      let ne : (ptr == null) ≡ false = ground (arith, a.address) in
      let z : IsZeroed ptr (ptr + round sz) g (zero_bytes (round sz) 0 ptr g) =
        rw add-zero at (zero_bytes-IsZeroed (round sz) 0 ptr g) in
      rw (ne, clear) (zeroed (Allocated-zeroed sz a z) z.inside)

-- On a well-formed arena, and where the rounded request does not overflow, `kzmalloc` returns as
-- `kmalloc` does: null and no change if no free chunk is large enough, and else the first such chunk
-- with no change outside the free chunks. The bytes of the block, up to the rounded request, are zero.
pub kzmalloc-ZeroedOutcome :
    {a : ByteGrainAllocator} {cs : Heap} {m : Memory} (sz : ℕ)
    → Arena a cs m
    → chunk_bytes sz < 2 ^ 64
    → ZeroedOutcome sz a.head (a.head + a.alloc * page_size) cs m (kzmalloc a sz m)
unfolding kzmalloc clear
kzmalloc-ZeroedOutcome {a} {cs} {m} sz arena fits =
    let again : chunk_bytes (round sz) ≡ chunk_bytes sz = omega arith in
    rw (align_val-some sz 3 (omega arith) (omega arith)) (
      clear-ZeroedOutcome sz a.head (a.head + a.alloc * page_size) cs m (kmalloc a (round sz) m)
        (rw again at (kmalloc-Outcome arena (round sz) (omega arith))))
