-- ===== src/Alloc/Pages/Zeroed.antt =====
-- `zalloc` and `init`, in terms of the table of flags and the bytes of the pages.
use native.Mathlib.Nat.{add-zero}
use corrosion.Prelude.{
  ℕ, zero, suc, ◌+◌, ◌*◌, ◌/◌, ◌^◌, ◌≤◌, ◌<◌, ◌≡◌, refl, ◌∙◌, inl, inr, arith, false, ◌==◌,
  lt-or-le, lt→ltb,
}
use corrosion.Machine.{Memory, null, Run, ok, write8, write64, write_le, after}
use corrosion.Machine.Words.{SameOutside, write8_self, write8-ne, write_le-outside}
use corrosion.Alloc.Bytes.{page_size}
use corrosion.Alloc.Bytes.Zeroed.{IsZeroed}
use corrosion.Alloc.Pages.{
  Layout, num_pages, zalloc, alloc, zero_words, zero_pages, init, init_loop,
}
use corrosion.Alloc.Pages.Search.{
  flags, SomeTaken, PagesTaken, PagesOutcome, no_run, found, alloc-PagesOutcome,
}

write_le-zero : (n a : ℕ) (m : Memory) (q : ℕ) → a ≤ q → q < a + n → write_le n a 0 m q ≡ 0
unfolding write_le write8
write_le-zero zero a m q lo hi = absurd (omega arith)
write_le-zero (suc n) a m q lo hi = ground (arith, write_le-zero n (a + 1) m q)

zero_words-IsZeroed :
    (left i p : ℕ) (m : Memory)
    → IsZeroed (p + 8 * i) (p + 8 * (i + left)) m (zero_words left i p m)
unfolding zero_words
zero_words-IsZeroed zero i p m = record {
  inside = λ q lo hi. absurd (omega arith);
  outside = λ q out. refl;
}
zero_words-IsZeroed (suc left) i p m =
    let rest = zero_words-IsZeroed left (i + 1) p (write64 (p + 8 * i) 0 m) in
    record {
      inside = λ q lo hi. elim (lt-or-le q (p + 8 * (i + 1))) [
        | inl here ↦ rest.outside q (inl here) ∙ write_le-zero 8 (p + 8 * i) m q lo (omega arith)
        | inr more ↦ rest.inside q more (omega arith)
      ];
      outside = λ q out.
          rest.outside q (ground arith) ∙ write_le-outside 8 (p + 8 * i) 0 m q (ground arith);
    }

-- What `zalloc` may return: what `alloc` may, with the pages' bytes zero.
pub data ZeroedPages (l : Layout) (start pages : ℕ) (m : Memory) : Run ℕ → Type 0 where
  none_free :
      ((j : ℕ) → j + pages ≤ num_pages l → SomeTaken l j (j + pages) m)
      → ZeroedPages l start pages m (ok null m)
  zeroed :
      {g z : Memory} {ptr : ℕ}
      → PagesTaken l start pages m g ptr
      → IsZeroed ptr (ptr + page_size * pages) g z
      → ZeroedPages l start pages m (ok ptr z)

module _ (l : Layout) (start pages : ℕ) (m : Memory) where
  zero_pages-ZeroedPages :
      (r : Run ℕ)
      → pages ≤ num_pages l
      → 0 < start
      → start + page_size * num_pages l < 2 ^ 64
      → PagesOutcome l start pages m r
      → ZeroedPages l start pages m (after r (zero_pages pages))
  unfolding zero_pages
  zero_pages-ZeroedPages r room placed bounded (no_run all) = none_free all
  zero_pages-ZeroedPages r room placed bounded (found {g} {ptr} t) =
      let nonzero : (ptr == null) ≡ false = ground (arith, t.address) in
      let whole : 8 * (0 + page_size * pages / 8) ≡ page_size * pages = omega arith in
      let zeros : IsZeroed ptr (ptr + page_size * pages) g
          (zero_words (page_size * pages / 8) 0 ptr g) =
        rw (whole, add-zero) at (zero_words-IsZeroed (page_size * pages / 8) 0 ptr g) in
      rw (nonzero, lt→ltb (page_size * pages) (2 ^ 64) (omega arith)) (zeroed t zeros)

  -- Under the hypotheses of `alloc-PagesOutcome`, and with the pages not at address 0, `zalloc` returns:
  -- null and no change of memory if there is no free run, and else the run that `alloc` takes, and
  -- then all its bytes zero and no other changed.
  pub zalloc-ZeroedPages :
      0 < pages
      → pages ≤ num_pages l
      → 0 < start
      → start + page_size * num_pages l < 2 ^ 64
      → ZeroedPages l start pages m (zalloc l start pages m)
  unfolding zalloc
  zalloc-ZeroedPages some_pages room placed bounded =
      zero_pages-ZeroedPages (alloc l start pages m) room placed bounded
        (alloc-PagesOutcome l start pages m some_pages room bounded)

-- After `init`, the flag bytes of all pages are empty, and no other byte has changed.
pub record Cleared (l : Layout) (i j : ℕ) (m g : Memory) : Type 0 where
  pub empty : (k : ℕ) → i ≤ k → k < j → flags l g k ≡ 0
  pub outside : SameOutside (l.heap_start + i) (l.heap_start + j) m g

init_loop-Cleared :
    (l : Layout) (left i j : ℕ) (m : Memory) → i + left ≡ j → Cleared l i j m (init_loop l left i m)
unfolding init_loop
init_loop-Cleared l zero i j m e = record {
  empty = λ k lo hi. absurd (omega arith);
  outside = λ q out. refl;
}
init_loop-Cleared l (suc left) i j m e =
    let a = l.heap_start + i in
    let rest = init_loop-Cleared l left (i + 1) j (write8 a 0 m) (omega arith) in
    record {
      empty = λ k lo hi. elim (lt-or-le k (i + 1)) [
        | inl here ↦
            let at : l.heap_start + k ≡ a = omega arith in
            rest.outside (l.heap_start + k) (inl (omega arith)) ∙ rw at (write8_self a 0 m)
        | inr more ↦ rest.empty k more hi
      ];
      outside = λ q out. rest.outside q (ground arith) ∙ write8-ne a 0 m q (ground arith);
    }

pub init-Cleared :
    (l : Layout) (m : Memory) → (g : Memory) × (init l m ≡ ok tt g) × Cleared l 0 (num_pages l) m g
unfolding init
init-Cleared l m = (
  init_loop l (num_pages l) 0 m,
  refl,
  init_loop-Cleared l (num_pages l) 0 (num_pages l) m (omega arith),
)
